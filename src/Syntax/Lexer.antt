-- ===== src/Syntax/Lexer.antt =====
-- crates/aster-syntax/src/lexer.rs, on the loops of Syntax/Loops. A method that lexes one token gives
-- what it passes and what it pushes, a token or diagnostics, as a `Scan`, and `lex_token` makes the
-- change to the lexer. `serde_json::from_str` on a string literal comes in as `read_literal`. The
-- proofs are in the modules below.
pub mod Spelling
pub mod Scans
pub mod Places
pub mod Lossless
pub mod Explained
use Prim.Native.Char.{Char, code}
use aster_lang.Base.{
  ℕ, zero, suc, ◌+◌, String, Bool, true, false, not, ◌&&◌, Option, none, some, List, [], ◌∷◌, ◌++◌,
  ltb, ◌==◌, if◌then◌else◌, min,
}
use aster_lang.Base.Outcome.{Result, ok, err}
use aster_lang.Base.Text.{◌+++◌}
use aster_lang.Ir.{Span}
use aster_lang.Diagnostic.{
  KnownDiagnosticCode, unknown_token, invalid_integer, invalid_string_escape,
  unterminated_block_comment, unterminated_string, unterminated_block_string, Diagnostic, error,
  with_help,
}
use aster_lang.Syntax.Source.{SourceFile, SpanError, len_utf8, byte_length, from_offsets}
use aster_lang.Syntax.Token.{
  Keyword, from_identifier, Symbol, TokenKind, keyword, identifier, model_alias, integer,
  block_string, symbol, whitespace, line_comment, block_comment, eof, Token,
}
use aster_lang.Syntax.Loops.{
  is_space, is_digit, is_identifier_start, is_identifier_continue, is_hexdigit, is_alphanumeric,
  is_simple_escape, begins, begins_with, begins_thrice, take_while, Body, comment_body, block_body,
  count_while, take_chars, parse_i64, symbol_pair, symbol_single, sort_diagnostics,
}

-- `Lexer`: the text from the cursor on, and the cursor; the source stands beside it
pub record Lexer : Type 0 where
  pub rest : String
  pub cursor : ℕ
  pub tokens : List Token
  pub diagnostics : List Diagnostic

-- what a method pushes: a token, or one diagnostic and others
pub data Pushed : Type 0 where
  token : TokenKind → Pushed
  errors : Diagnostic → List Diagnostic → Pushed

pub record Scan : Type 0 where
  pub taken : String
  pub rest : String
  pub pushed : Pushed

-- the loop of `lex_string`: what it passes, whether it came to the closing quote, its diagnostics
pub record StringBody : Type 0 where
  pub taken : String
  pub rest : String
  pub terminated : Bool
  pub faults : List Diagnostic

module _ (source : SourceFile) (read_literal : String → Option String) where
  abbrev pub span_or : ℕ → ℕ → Result SpanError Span → Span
  span_or start end (ok span) = span
  span_or start end (err why) = record {
    file = source.path;
    start = min start (byte_length source.text);
    end = min end (byte_length source.text);
    line = 1;
    column = 1;
  }

  -- `Lexer::span`
  unfoldable pub span_at : ℕ → ℕ → Span
  span_at start end = span_or start end (from_offsets source.path source.text start end)

  -- the diagnostic of `push_error`
  unfoldable pub fault : KnownDiagnosticCode → String → ℕ → ℕ → String → Diagnostic
  unfolding span_at
  fault code message start end help = with_help help (error code message (span_at start end))

  -- the diagnostic of `push_invalid_escape`
  abbrev pub invalid_escape : ℕ → ℕ → Diagnostic
  invalid_escape start end =
      fault invalid_string_escape "invalid string escape" start end "use a valid JSON-style escape"

  abbrev pub pushing : String → String → TokenKind → Scan
  pushing taken rest kind = record { taken = taken; rest = rest; pushed = token kind }

  abbrev pub failing : String → String → Diagnostic → Scan
  failing taken rest d = record { taken = taken; rest = rest; pushed = errors d [] }

  unfoldable pub lex_whitespace : String → Scan
  lex_whitespace s = let r = take_while is_space s in pushing r.0 r.1 (whitespace r.0)

  -- The character that was seen comes first, here and below; the second is no newline.
  unfoldable pub lex_line_comment : Char → String → Scan
  lex_line_comment c s =
      let r = take_while (λ a. not (a == b'\n')) s in
      let text = String.◌∷◌ c r.0 in pushing text r.1 (line_comment text)

  unfoldable pub lex_block_comment : ℕ → Char → String → Scan
  lex_block_comment start c s =
      let opener = take_chars 1 s in
      let b = comment_body opener.1 1 in
      let text = String.◌∷◌ c (opener.0 +++ b.taken) in
      if b.found
      then pushing text b.rest (block_comment text)
      else failing text b.rest (
          fault unterminated_block_comment "unterminated block comment" start
            (start + byte_length text) "close every nested `/*` comment with `*/`")

  unfoldable pub lex_block_string : ℕ → Char → String → Scan
  lex_block_string start c s =
      let opener = take_chars 2 s in
      let b = block_body opener.1 in
      let closer = take_chars 3 b.rest in
      let text = String.◌∷◌ c (opener.0 +++ b.taken) in
      if b.found
      then pushing (text +++ closer.0) closer.1 (block_string b.taken)
      else failing text b.rest (
          fault unterminated_block_string "unterminated block string" start
            (start + byte_length text) "add a closing triple quote")

  -- What an escape passes after the backslash at an offset, in characters, and its diagnostics.
  abbrev pub escape : ℕ → String → ℕ × List Diagnostic
  escape start String.[] = (0, [])
  escape start (String.◌∷◌ c s) =
      if is_simple_escape (code c)
      then (1, [])
      else if code c == b'u'
      then if count_while is_hexdigit 4 s == 4 then (5, []) else (
        1 + count_while is_alphanumeric 4 s,
        invalid_escape start (start + 2 + count_while is_alphanumeric 4 s) ∷ [],
      )
      else (1, invalid_escape start (start + 1 + len_utf8 (code c)) ∷ [])

  -- What one look of the loop passes after the character at an offset, and its diagnostics.
  abbrev pub string_look : ℕ → ℕ → String → ℕ × List Diagnostic
  string_look start c s =
      if c == b'\\'
      then escape start s
      else if ltb c 0x20
      then (
        0,
        fault invalid_string_escape "unescaped control character in string" start (start + 1)
              "escape control characters in JSON-style strings"
            ∷ [],
      )
      else (0, [])

  abbrev pub noting : Char → List Diagnostic → StringBody → StringBody
  noting c faults b = record b { taken = String.◌∷◌ c b.taken; faults = faults ++ b.faults }

  -- The loop of `lex_string` at an offset, with the characters that it still passes unseen.
  unfoldable pub string_body : String → ℕ → ℕ → StringBody
  string_body String.[] start skip = record {
    taken = "";
    rest = "";
    terminated = false;
    faults = [];
  }
  string_body (String.◌∷◌ c s) start (suc skip) =
      noting c [] (string_body s (start + len_utf8 (code c)) skip)
  string_body (String.◌∷◌ c s) start zero = elim (code c == b'"') [
    | true ↦ record { taken = String.◌∷◌ c ""; rest = s; terminated = true; faults = [] }
    | false ↦
        let look = string_look start (code c) s in
        noting c look.1 (string_body s (start + len_utf8 (code c)) look.0)
  ]

  abbrev pub literal_of : ℕ → String → String → Option String → Scan
  literal_of start text rest (some value) = pushing text rest (TokenKind.string value)
  literal_of start text rest none = failing text rest (
      fault invalid_string_escape "invalid JSON-style string literal" start
        (start + byte_length text) "use JSON-compatible string escapes")

  abbrev pub string_scan : ℕ → Char → StringBody → List Diagnostic → Scan
  string_scan start c b [] =
      let text = String.◌∷◌ c b.taken in
      if b.terminated
      then literal_of start text b.rest (read_literal text)
      else failing text b.rest (
          fault unterminated_string "unterminated string literal" start (start + byte_length text)
            "add a closing quote on the same source line")
  string_scan start c b (d ∷ faults) =
      let text = String.◌∷◌ c b.taken in
      if b.terminated
      then record { taken = text; rest = b.rest; pushed = errors d faults }
      else record {
        taken = text;
        rest = b.rest;
        pushed = errors d (
            faults
            ++ fault unterminated_string "unterminated string literal" start
                (start + byte_length text) "add a closing quote on the same source line"
              ∷ []);
      }

  unfoldable pub lex_string : ℕ → Char → String → Scan
  unfolding string_body
  lex_string start c s = let b = string_body s (start + 1) 0 in string_scan start c b b.faults

  abbrev pub begins_name : String → Bool
  begins_name String.[] = false
  begins_name (String.◌∷◌ c s) = is_identifier_start (code c)

  unfoldable pub lex_model_alias : ℕ → Char → String → Scan
  lex_model_alias start c s =
      let r = take_while is_identifier_continue s in
      if begins_name s
      then pushing (String.◌∷◌ c r.0) r.1 (model_alias r.0)
      else failing (String.◌∷◌ c "") s (
          fault unknown_token "model alias requires an identifier after `@`" start (start + 1)
            "write an alias such as `@planner`")

  abbrev pub word_kind : String → Option Keyword → TokenKind
  word_kind text (some k) = keyword k
  word_kind text none = identifier text

  unfoldable pub lex_identifier : Char → String → Scan
  unfolding from_identifier
  lex_identifier c s =
      let r = take_while is_identifier_continue s in
      let text = String.◌∷◌ c r.0 in pushing text r.1 (word_kind text (from_identifier text))

  abbrev pub integer_of : ℕ → String → String → Option ℕ → Scan
  integer_of start text rest (some n) = pushing text rest (integer n)
  integer_of start text rest none = failing text rest (
      fault invalid_integer "integer literal is outside the ASTER `Int` range" start
        (start + byte_length text) "use a signed 64-bit integer magnitude")

  unfoldable pub lex_integer : ℕ → String → Scan
  lex_integer start s = let r = take_while is_digit s in integer_of start r.0 r.1 (parse_i64 r.0)

  abbrev pub single_scan : ℕ → Char → String → Option Symbol → Scan
  single_scan start c s (some k) = pushing (String.◌∷◌ c "") s (symbol k)
  single_scan start c s none = failing (String.◌∷◌ c "") s (
      fault unknown_token "unknown source token" start (start + len_utf8 (code c))
        "remove this character or replace it with ASTER punctuation")

  abbrev pub pair_scan : ℕ → Char → String → Option Symbol → Scan
  pair_scan start c s (some k) =
      let second = take_chars 1 s in pushing (String.◌∷◌ c second.0) second.1 (symbol k)
  pair_scan start c s none = single_scan start c s (symbol_single (code c))

  -- `lex_symbol`, and the unknown token where it finds none
  unfoldable pub lex_symbol : ℕ → Char → String → Scan
  unfolding symbol_pair symbol_single
  lex_symbol start c s = pair_scan start c s (symbol_pair (String.◌∷◌ c s))

  -- the match of the loop of `run` on the first character
  unfoldable pub lex_at : ℕ → Char → String → Scan
  lex_at start c s =
      if is_space (code c)
      then lex_whitespace (String.◌∷◌ c s)
      else if code c == b'/' && begins b'/' s
      then lex_line_comment c s
      else if code c == b'/' && begins b'*' s
      then lex_block_comment start c s
      else if code c == b'"' && begins_with b'"' b'"' s
      then lex_block_string start c s
      else if code c == b'"'
      then lex_string start c s
      else if code c == b'@'
      then lex_model_alias start c s
      else if is_identifier_start (code c)
      then lex_identifier c s
      else if is_digit (code c)
      then lex_integer start (String.◌∷◌ c s)
      else lex_symbol start c s

  abbrev pub push : Lexer → ℕ → String → Pushed → Lexer
  push l next rest (token kind) = record l {
    rest = rest;
    cursor = next;
    tokens = l.tokens ++ record { kind = kind; span = span_at l.cursor next } ∷ [];
  }
  push l next rest (errors d ds) = record l {
    rest = rest;
    cursor = next;
    diagnostics = l.diagnostics ++ d ∷ ds;
  }

  -- what a scan does to the lexer
  unfoldable pub advance : Lexer → Scan → Lexer
  advance l scan = push l (l.cursor + byte_length scan.taken) scan.rest scan.pushed

  abbrev pub result_of : List Token → List Diagnostic → Result (List Diagnostic) (List Token)
  result_of tokens [] = ok tokens
  result_of tokens (d ∷ ds) = err (sort_diagnostics (d ∷ ds))

  -- the end of `run`
  abbrev pub finish : Lexer → Result (List Diagnostic) (List Token)
  finish l =
      result_of (l.tokens ++ record { kind = eof; span = span_at l.cursor l.cursor } ∷ [])
        l.diagnostics

  -- the loop of `Lexer::run`; `none` where the fuel runs out
  unfoldable pub run : ℕ → String → Lexer → Option (Result (List Diagnostic) (List Token))
  unfolding lex_at advance
  run fuel String.[] l = some (finish l)
  run zero (String.◌∷◌ c s) l = none
  run (suc fuel) (String.◌∷◌ c s) l =
      let next = advance l (lex_at l.cursor c s) in run fuel next.rest next

  abbrev pub begin : Lexer
  begin = record { rest = source.text; cursor = 0; tokens = []; diagnostics = [] }

  -- `lex`, with a round for each character at most
  unfoldable pub lex : Option (Result (List Diagnostic) (List Token))
  unfolding run
  lex = run (byte_length source.text) source.text begin
