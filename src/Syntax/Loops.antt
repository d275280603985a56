-- ===== src/Syntax/Loops.antt =====
-- The loops, the tests and the tables of crates/aster-syntax/src/lexer.rs. The source walks the
-- bytes of the text by a cursor which stands at a character boundary at each look, so here the text
-- from the cursor on is walked by its characters; a byte below 0x80 is a character there.
pub mod Splits
use Prim.Native.Char.{Char, code}
use aster_lang.Base.{
  ℕ, zero, suc, ◌+◌, ◌-◌, ◌*◌, ◌^◌, String, Bool, true, false, not, ◌&&◌, ◌||◌, Option, none, some,
  List, [], ◌∷◌, ◌++◌, ltb, leb, ◌==◌, if◌then◌else◌, min, str_eq, str_lt,
}
use aster_lang.Base.Outcome.{Result, ok, err}
use aster_lang.Base.Text.{◌+++◌}
use aster_lang.Ir.{Span}
use aster_lang.Diagnostic.{
  KnownDiagnosticCode, unknown_token, invalid_integer, invalid_string_escape,
  unterminated_block_comment, unterminated_string, unterminated_block_string, Diagnostic, error,
  with_help,
}
use aster_lang.Syntax.Source.{SourceFile, len_utf8, byte_length, from_offsets}
use aster_lang.Syntax.Token.{
  from_identifier, Symbol, TokenKind, keyword, identifier, model_alias, integer, block_string,
  symbol, whitespace, line_comment, block_comment, eof, Token,
}

-- `u8::is_ascii_whitespace`
abbrev pub is_space : ℕ → Bool
is_space c = c == b' ' || c == b'\t' || c == b'\n' || c == 12 || c == b'\r'

abbrev pub is_digit : ℕ → Bool
is_digit c = leb b'0' c && leb c b'9'

abbrev pub is_letter : ℕ → Bool
is_letter c = leb b'a' c && leb c b'z' || leb b'A' c && leb c b'Z'

abbrev pub is_hexdigit : ℕ → Bool
is_hexdigit c = is_digit c || leb b'a' c && leb c b'f' || leb b'A' c && leb c b'F'

abbrev pub is_identifier_start : ℕ → Bool
is_identifier_start c = is_letter c || c == b'_'

abbrev pub is_identifier_continue : ℕ → Bool
is_identifier_continue c = is_identifier_start c || is_digit c

-- whether the text begins with a character, with two of them, with three of one
abbrev pub begins : ℕ → String → Bool
begins a String.[] = false
begins a (String.◌∷◌ c s) = code c == a

abbrev pub begins_with : ℕ → ℕ → String → Bool
begins_with a b String.[] = false
begins_with a b (String.◌∷◌ c s) = code c == a && begins b s

abbrev pub begins_thrice : ℕ → String → Bool
begins_thrice a String.[] = false
begins_thrice a (String.◌∷◌ c s) = code c == a && begins_with a a s

-- The loop `while test(byte) { cursor += 1 }`: what it passes, and the rest.
unfoldable pub take_while : (ℕ → Bool) → String → String × String
take_while test String.[] = ("", "")
take_while test (String.◌∷◌ c s) =
    let r = take_while test s in
    if test (code c) then (String.◌∷◌ c r.0, r.1) else ("", String.◌∷◌ c s)

-- the next characters, `n` of them if there are as many
unfoldable pub take_chars : ℕ → String → String × String
take_chars zero s = ("", s)
take_chars (suc n) String.[] = ("", "")
take_chars (suc n) (String.◌∷◌ c s) = let r = take_chars n s in (String.◌∷◌ c r.0, r.1)

-- What a loop passes until its end, if it finds it.
pub record Body : Type 0 where
  pub taken : String
  pub rest : String
  pub found : Bool

abbrev pub past : Char → Body → Body
past c b = record b { taken = String.◌∷◌ c b.taken }

-- the loop of `lex_block_comment`, at a depth
unfoldable pub comment_body : String → ℕ → Body
comment_body String.[] depth = record { taken = ""; rest = ""; found = false }
comment_body (String.◌∷◌ c String.[]) depth = record {
  taken = String.◌∷◌ c "";
  rest = "";
  found = false;
}
comment_body (String.◌∷◌ c (String.◌∷◌ d s)) depth = elim (code c == b'/' && code d == b'*') [
  | true ↦ past c (past d (comment_body s (suc depth)))
  | false ↦ elim (code c == b'*' && code d == b'/') [
    | false ↦ past c (comment_body (String.◌∷◌ d s) depth)
    | true ↦ elim (depth == 1) [
      | true ↦ past c (past d (record { taken = ""; rest = s; found = true }))
      | false ↦ past c (past d (comment_body s (depth - 1)))
    ]
  ]
]

-- the loop of `lex_block_string`, up to the closing quotes
unfoldable pub block_body : String → Body
block_body String.[] = record { taken = ""; rest = ""; found = false }
block_body (String.◌∷◌ c s) =
    let later = past c (block_body s) in
    if begins_thrice b'"' (String.◌∷◌ c s)
    then record { taken = ""; rest = String.◌∷◌ c s; found = true }
    else later

-- how many of the next characters, `n` at most, satisfy the test
unfoldable pub count_while : (ℕ → Bool) → ℕ → String → ℕ
count_while test zero s = 0
count_while test (suc n) String.[] = 0
count_while test (suc n) (String.◌∷◌ c s) =
    let more = suc (count_while test n s) in if test (code c) then more else 0

abbrev pub is_alphanumeric : ℕ → Bool
is_alphanumeric c = is_letter c || is_digit c

abbrev pub is_simple_escape : ℕ → Bool
is_simple_escape c =
    c == b'"'
    || c == b'\\'
    || c == b'/'
    || c == b'b'
    || c == b'f'
    || c == b'n'
    || c == b'r'
    || c == b't'

-- The digits of an `i64` that is not negative, unless it is out of range.
unfoldable pub digits_value : ℕ → String → ℕ
digits_value n String.[] = n
digits_value n (String.◌∷◌ c s) = digits_value (n * 10 + (code c - b'0')) s

abbrev pub parse_i64 : String → Option ℕ
parse_i64 s = if ltb (digits_value 0 s) (2 ^ 63) then some (digits_value 0 s) else none

-- the table of pairs
unfoldable pub pair_table : ℕ → ℕ → Option Symbol
pair_table m n =
    if m == b'-' && n == b'>'
    then some Symbol.arrow
    else if m == b'=' && n == b'>'
    then some Symbol.fat_arrow
    else if m == b'=' && n == b'='
    then some Symbol.equal_equal
    else if m == b'!' && n == b'='
    then some Symbol.bang_equal
    else if m == b'<' && n == b'='
    then some Symbol.less_equal
    else if m == b'>' && n == b'='
    then some Symbol.greater_equal
    else if m == b'&' && n == b'&'
    then some Symbol.and_and
    else if m == b'|' && n == b'|'
    then some Symbol.or_or
    else none

unfoldable pub symbol_pair : String → Option Symbol
unfolding pair_table
symbol_pair String.[] = none
symbol_pair (String.◌∷◌ c String.[]) = none
symbol_pair (String.◌∷◌ c (String.◌∷◌ d s)) = pair_table (code c) (code d)

unfoldable pub symbol_single : ℕ → Option Symbol
symbol_single c =
    if c == b'('
    then some Symbol.left_paren
    else if c == b')'
    then some Symbol.right_paren
    else if c == b'{'
    then some Symbol.left_brace
    else if c == b'}'
    then some Symbol.right_brace
    else if c == b'['
    then some Symbol.left_bracket
    else if c == b']'
    then some Symbol.right_bracket
    else if c == b','
    then some Symbol.comma
    else if c == b':'
    then some Symbol.colon
    else if c == b';'
    then some Symbol.semicolon
    else if c == b'.'
    then some Symbol.dot
    else if c == b'?'
    then some Symbol.question
    else if c == b'+'
    then some Symbol.plus
    else if c == b'-'
    then some Symbol.minus
    else if c == b'*'
    then some Symbol.star
    else if c == b'/'
    then some Symbol.slash
    else if c == b'!'
    then some Symbol.bang
    else if c == b'='
    then some Symbol.equal
    else if c == b'<'
    then some Symbol.less
    else if c == b'>'
    then some Symbol.greater
    else none

-- `sort_by_key` on start, end and code; it is stable
abbrev pub is_before : Diagnostic → Diagnostic → Bool
is_before a b =
    if a.primary_span.start == b.primary_span.start
    then if a.primary_span.end == b.primary_span.end
      then str_lt a.code b.code
      else ltb a.primary_span.end b.primary_span.end
    else ltb a.primary_span.start b.primary_span.start

unfoldable pub insert_diagnostic : Diagnostic → List Diagnostic → List Diagnostic
insert_diagnostic d [] = d ∷ []
insert_diagnostic d (other ∷ rest) =
    let later = insert_diagnostic d rest in
    if is_before other d then other ∷ later else d ∷ other ∷ rest

unfoldable pub sort_diagnostics : List Diagnostic → List Diagnostic
unfolding insert_diagnostic
sort_diagnostics [] = []
sort_diagnostics (d ∷ rest) = insert_diagnostic d (sort_diagnostics rest)
