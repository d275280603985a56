-- ===== src/Syntax/Lexer/Spelling.antt =====
-- What the tokens of token.rs stand for in a text, and when a scan of lexer.rs fits the text.
use Prim.Native.Char.{Char}
use aster_lang.Base.{ℕ, String, ◌≡◌, Option, none, some, List, [], ◌∷◌, ◌++◌}
use aster_lang.Base.Text.{◌+++◌}
use aster_lang.Syntax.Token.{
  from_identifier, Symbol, TokenKind, keyword, identifier, model_alias, integer, block_string,
  symbol, whitespace, line_comment, block_comment, eof,
}
use aster_lang.Syntax.Loops.{parse_i64}
use aster_lang.Syntax.Loops.Splits.{codes}
use aster_lang.Syntax.Lexer.{Scan, Pushed, token, errors}

-- how each symbol is written
abbrev pub spelling : Symbol → List ℕ
spelling Symbol.left_paren = b'(' ∷ []
spelling Symbol.right_paren = b')' ∷ []
spelling Symbol.left_brace = b'{' ∷ []
spelling Symbol.right_brace = b'}' ∷ []
spelling Symbol.left_bracket = b'[' ∷ []
spelling Symbol.right_bracket = b']' ∷ []
spelling Symbol.comma = b',' ∷ []
spelling Symbol.colon = b':' ∷ []
spelling Symbol.semicolon = b';' ∷ []
spelling Symbol.dot = b'.' ∷ []
spelling Symbol.question = b'?' ∷ []
spelling Symbol.plus = b'+' ∷ []
spelling Symbol.minus = b'-' ∷ []
spelling Symbol.star = b'*' ∷ []
spelling Symbol.slash = b'/' ∷ []
spelling Symbol.bang = b'!' ∷ []
spelling Symbol.equal = b'=' ∷ []
spelling Symbol.less = b'<' ∷ []
spelling Symbol.greater = b'>' ∷ []
spelling Symbol.arrow = b'-' ∷ b'>' ∷ []
spelling Symbol.fat_arrow = b'=' ∷ b'>' ∷ []
spelling Symbol.equal_equal = b'=' ∷ b'=' ∷ []
spelling Symbol.bang_equal = b'!' ∷ b'=' ∷ []
spelling Symbol.less_equal = b'<' ∷ b'=' ∷ []
spelling Symbol.greater_equal = b'>' ∷ b'=' ∷ []
spelling Symbol.and_and = b'&' ∷ b'&' ∷ []
spelling Symbol.or_or = b'|' ∷ b'|' ∷ []

abbrev pub quotes : List ℕ
quotes = b'"' ∷ b'"' ∷ b'"' ∷ []

module _ (read_literal : String → Option String) where
  -- The text is one that the token stands for.
  abbrev pub Spells : TokenKind → String → Type 0
  Spells (keyword k) s = from_identifier s ≡ some k
  Spells (identifier t) s = (s ≡ t) × (from_identifier s ≡ none)
  Spells (model_alias t) s = codes s ≡ b'@' ∷ codes t
  Spells (integer n) s = parse_i64 s ≡ some n
  Spells (TokenKind.string v) s = read_literal s ≡ some v
  Spells (block_string t) s = codes s ≡ quotes ++ (codes t ++ quotes)
  Spells (symbol k) s = codes s ≡ spelling k
  Spells (whitespace t) s = s ≡ t
  Spells (line_comment t) s = s ≡ t
  Spells (block_comment t) s = s ≡ t
  Spells eof s = codes s ≡ []

  abbrev pub Spelt : Pushed → String → Type 0
  Spelt (token k) s = Spells k s
  Spelt (errors d ds) s = Unit {0}

  -- A scan of a text passes a part of it, which its token, if it has one, stands for.
  pub record Fits (s : String) (scan : Scan) : Type 0 where
    pub splits : scan.taken +++ scan.rest ≡ s
    pub first : Char
    pub others : String
    pub passes : scan.taken ≡ String.◌∷◌ first others
    pub spelt : Spelt scan.pushed scan.taken
