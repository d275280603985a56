-- ===== src/Checks/Lexing.antt =====
-- Source texts that lexer.rs turns into tokens, and one that it refuses.
use aster_lang.Base.{
  ℕ, String, ◌≡◌, refl, Option, none, some, List, [], ◌∷◌, if◌then◌else◌, map, str_eq,
}
use aster_lang.Base.Text.{decimal}
use aster_lang.Base.Outcome.{Result, ok, err}
use aster_lang.Diagnostic.Render.{render_human}
use aster_lang.Diagnostic.{type_mismatch, with_label, Diagnostic, as_str}
use aster_lang.Syntax.Source.{SourceFile, byte_length, from_offsets, split_at}
use aster_lang.Syntax.Token.{
  let_word, equal, equal_equal, greater_equal, TokenKind, keyword, identifier, model_alias, integer,
  symbol, whitespace, line_comment, eof, Token,
}
use aster_lang.Syntax.Loops.{take_while, take_chars, digits_value, comment_body, sort_diagnostics}
use aster_lang.Syntax.Lexer.{
  lex, lex_identifier, lex_whitespace, lex_symbol, lex_string, lex_line_comment, lex_block_comment,
  lex_integer, lex_model_alias, span_at, fault,
}
use aster_lang.Syntax.Lexer.Explained.{IsVerdict, lex_total}
use aster_lang.Syntax.Lexer.Lossless.{Reads, lex-Reads}

-- a reader of string literals that knows one
abbrev read_hi : String → Option String
read_hi s = if str_eq s "\"hi\"" then some "hi" else none

abbrev sample : SourceFile
sample = record { path = "sample.aster"; text = "let a =\n  \"hi\" // é\n==>= 07@m" }

abbrev piece : TokenKind → ℕ → ℕ → ℕ → ℕ → Token
piece kind start end line column = record {
  kind = kind;
  span = record { file = "sample.aster"; start = start; end = end; line = line; column = column };
}

abbrev tokens : List Token
tokens =
    piece (keyword let_word) 0 3 1 1
    ∷ piece (whitespace " ") 3 4 1 4
    ∷ piece (identifier "a") 4 5 1 5
    ∷ piece (whitespace " ") 5 6 1 6
    ∷ piece (symbol equal) 6 7 1 7
    ∷ piece (whitespace "\n  ") 7 10 1 8
    ∷ piece (TokenKind.string "hi") 10 14 2 3
    ∷ piece (whitespace " ") 14 15 2 7
    ∷ piece (line_comment "// é") 15 20 2 8
    ∷ piece (whitespace "\n") 20 21 2 12
    ∷ piece (symbol equal_equal) 21 23 3 1
    ∷ piece (symbol greater_equal) 23 25 3 3
    ∷ piece (whitespace " ") 25 26 3 5
    ∷ piece (integer 7) 26 28 3 6
    ∷ piece (model_alias "m") 28 30 3 8
    ∷ piece eof 30 30 3 10
    ∷ []

sample_lexed : lex sample read_hi ≡ some (ok tokens)
unfolding lex byte_length lex_identifier take_while lex_whitespace lex_symbol lex_string
    lex_line_comment take_chars lex_integer digits_value lex_model_alias span_at from_offsets
    split_at
sample_lexed = refl

lex-Reads_example : Reads sample read_hi "" tokens "let a =\n  \"hi\" // é\n==>= 07@m"
lex-Reads_example = lex-Reads sample read_hi tokens sample_lexed

-- an unknown character after an unclosed comment that opens again within
abbrev refused : SourceFile
refused = record { path = "r"; text = "# /* /* */ 9223372036854775808" }

abbrev codes_of : Option (Result (List Diagnostic) (List Token)) → List (String × ℕ)
codes_of (some (err ds)) = map (λ d. (d.code, d.primary_span.start)) ds
codes_of _ = []

refused_lexed :
    codes_of (lex refused read_hi) ≡ ("ASTER-PARSE-0003", 0) ∷ ("ASTER-PARSE-0005", 2) ∷ []
unfolding lex byte_length lex_symbol lex_whitespace take_while lex_block_comment comment_body
    take_chars sort_diagnostics fault from_offsets split_at as_str
refused_lexed = refl

lex_total_example :
    (r : Result (List Diagnostic) (List Token)) × (lex refused read_hi ≡ some r) × IsVerdict r
lex_total_example = lex_total refused read_hi

-- the text of a diagnostic, on the second line of a source
abbrev shown : Diagnostic
shown =
    with_label "here"
      (fault sample read_hi type_mismatch "no such thing" 10 14 "say something else")

shown_rendered :
    render_human shown sample.text
    ≡ "error[ASTER-TYPE-2002]: no such thing\n --> sample.aster:2:3\n2 |   \"hi\" // é\nlabel: here\nhelp: say something else\n"
unfolding render_human fault span_at as_str from_offsets byte_length split_at decimal
shown_rendered = refl
