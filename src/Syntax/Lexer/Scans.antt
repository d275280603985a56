-- ===== src/Syntax/Lexer/Scans.antt =====
-- Each method of lexer.rs that lexes one token passes a first part of the text, which its token
-- stands for.
use Prim.Native.Char.{Char, code}
use aster_lang.Base.{
  ℕ, zero, suc, ◌+◌, String, ◌≡◌, refl, ap, ◌∙◌, inl, inr, Bool, true, false, ◌&&◌, Option, none,
  some, List, [], ◌∷◌, ◌++◌, arith, Bool-cases, ◌==◌, if◌then◌else◌,
}
use text.Mathlib.TextLemmas.{cons-append, nil-append, append_assoc}
use aster_lang.Base.Text.{◌+++◌}
use aster_lang.Diagnostic.{Diagnostic}
use aster_lang.Syntax.Source.{SourceFile, len_utf8}
use aster_lang.Syntax.Token.{Keyword, from_identifier, Symbol}
use aster_lang.Syntax.Loops.{
  is_space, is_digit, is_identifier_start, is_identifier_continue, take_while, take_chars,
  comment_body, block_body, begins, begins_with, parse_i64, pair_table, symbol_pair, symbol_single,
}
use aster_lang.Syntax.Loops.Splits.{
  cons-splits, take_while_splits, take_chars_splits, block_body_splits, comment_body_splits, codes,
  codes-append, block_body-found,
}
use aster_lang.Syntax.Lexer.{
  Scan, StringBody, string_look, string_body, literal_of, string_scan, lex_whitespace,
  lex_line_comment, lex_block_comment, lex_block_string, lex_string, begins_name, lex_model_alias,
  word_kind, lex_identifier, integer_of, lex_integer, single_scan, pair_scan, lex_symbol, lex_at,
}
use aster_lang.Syntax.Lexer.Spelling.{spelling, Spells, Fits}

module _ (read_literal : String → Option String) (source : SourceFile) where
  whitespace-Fits :
      (c : Char) (s : String)
      → is_space (code c) ≡ true
      → Fits read_literal (String.◌∷◌ c s) (lex_whitespace source read_literal (String.◌∷◌ c s))
  unfolding lex_whitespace take_while
  whitespace-Fits c s h = record {
    splits = rw h (cons-splits c _ _ s (take_while_splits is_space s));
    first = c;
    others = (take_while is_space s).0;
    passes = rw h refl;
    spelt = refl;
  }

  line_comment-Fits :
      (c : Char) (s : String)
      → Fits read_literal (String.◌∷◌ c s) (lex_line_comment source read_literal c s)
  unfolding lex_line_comment
  line_comment-Fits c s = record {
    splits = cons-splits c _ _ s (take_while_splits _ s);
    first = c;
    others = _;
    passes = refl;
    spelt = refl;
  }

  -- two pieces and a rest
  joins : (a b r m s : String) → b +++ r ≡ m → a +++ m ≡ s → (a +++ b) +++ r ≡ s
  joins a b r m s p q = append_assoc a b r ∙ ap (λ t. a +++ t) p ∙ q

  block_comment-Fits :
      (start : ℕ) (c : Char) (s : String)
      → Fits read_literal (String.◌∷◌ c s) (lex_block_comment source read_literal start c s)
  unfolding lex_block_comment
  block_comment-Fits start c s =
      let whole =
        cons-splits c _ _ s
          (joins _ _ _ _ s (comment_body_splits (take_chars 1 s).1 1) (take_chars_splits 1 s)) in
      elim (Bool-cases (comment_body (take_chars 1 s).1 1).found) [
        | inl done ↦
            rw done (record { splits = whole; first = c; others = _; passes = refl; spelt = refl })
        | inr open_end ↦
            rw open_end
              (record { splits = whole; first = c; others = _; passes = refl; spelt = tt })
      ]

  word_kind-Spells :
      (text : String) (o : Option Keyword)
      → from_identifier text ≡ o
      → Spells read_literal (word_kind source read_literal text o) text
  word_kind-Spells text (some k) h = h
  word_kind-Spells text none h = (refl, h)

  identifier-Fits :
      (c : Char) (s : String)
      → Fits read_literal (String.◌∷◌ c s) (lex_identifier source read_literal c s)
  unfolding lex_identifier
  identifier-Fits c s = record {
    splits = cons-splits c _ _ s (take_while_splits is_identifier_continue s);
    first = c;
    others = _;
    passes = refl;
    spelt = word_kind-Spells (String.◌∷◌ c (take_while is_identifier_continue s).0) _ refl;
  }

  integer_of-Fits :
      (start : ℕ) (c : Char) (others rest s : String) (o : Option ℕ)
      → String.◌∷◌ c others +++ rest ≡ s
      → parse_i64 (String.◌∷◌ c others) ≡ o
      → Fits read_literal s (integer_of source read_literal start (String.◌∷◌ c others) rest o)
  integer_of-Fits start c others rest s (some n) h p = record {
    splits = h;
    first = c;
    others = others;
    passes = refl;
    spelt = p;
  }
  integer_of-Fits start c others rest s none h p = record {
    splits = h;
    first = c;
    others = others;
    passes = refl;
    spelt = tt;
  }

  integer-Fits :
      (start : ℕ) (c : Char) (s : String)
      → is_digit (code c) ≡ true
      → Fits read_literal (String.◌∷◌ c s) (lex_integer source read_literal start (String.◌∷◌ c s))
  unfolding lex_integer take_while
  integer-Fits start c s h = rw h (
      integer_of-Fits start c (take_while is_digit s).0 (take_while is_digit s).1 (String.◌∷◌ c s) _
        (cons-splits c _ _ s (take_while_splits is_digit s)) refl)

  alias-Fits :
      (start : ℕ) (c : Char) (s : String)
      → code c ≡ b'@'
      → Fits read_literal (String.◌∷◌ c s) (lex_model_alias source read_literal start c s)
  unfolding lex_model_alias
  alias-Fits start c s h = elim (Bool-cases (begins_name source read_literal s)) [
    | inl named ↦ rw named (record {
      splits = cons-splits c _ _ s (take_while_splits is_identifier_continue s);
      first = c;
      others = (take_while is_identifier_continue s).0;
      passes = refl;
      spelt = ap (λ n. n ∷ codes (take_while is_identifier_continue s).0) h;
    })
    | inr bare ↦ rw bare (record {
      splits = cons-splits c "" s s (nil-append s);
      first = c;
      others = "";
      passes = refl;
      spelt = tt;
    })
  ]

  single-spelling : (n : ℕ) (k : Symbol) → symbol_single n ≡ some k → n ∷ [] ≡ spelling k
  unfolding symbol_single
  single-spelling n k h = ground arith

  single-Fits :
      (start : ℕ) (c : Char) (s : String) (o : Option Symbol)
      → symbol_single (code c) ≡ o
      → Fits read_literal (String.◌∷◌ c s) (single_scan source read_literal start c s o)
  single-Fits start c s (some k) h = record {
    splits = cons-splits c "" s s (nil-append s);
    first = c;
    others = "";
    passes = refl;
    spelt = single-spelling (code c) k h;
  }
  single-Fits start c s none h = record {
    splits = cons-splits c "" s s (nil-append s);
    first = c;
    others = "";
    passes = refl;
    spelt = tt;
  }

  table-spelling : (m n : ℕ) (k : Symbol) → pair_table m n ≡ some k → m ∷ n ∷ [] ≡ spelling k
  unfolding pair_table
  table-spelling m n k h = ground arith

  pair-spelling :
      (c : Char) (s : String) (k : Symbol)
      → symbol_pair (String.◌∷◌ c s) ≡ some k
      → code c ∷ codes (take_chars 1 s).0 ≡ spelling k
  unfolding symbol_pair take_chars
  pair-spelling c String.[] k h = cc
  pair-spelling c (String.◌∷◌ d s) k h = table-spelling (code c) (code d) k h

  pair-Fits :
      (start : ℕ) (c : Char) (s : String) (o : Option Symbol)
      → symbol_pair (String.◌∷◌ c s) ≡ o
      → Fits read_literal (String.◌∷◌ c s) (pair_scan source read_literal start c s o)
  pair-Fits start c s none h = single-Fits start c s (symbol_single (code c)) refl
  pair-Fits start c s (some k) h = record {
    splits = cons-splits c _ _ s (take_chars_splits 1 s);
    first = c;
    others = (take_chars 1 s).0;
    passes = refl;
    spelt = pair-spelling c s k h;
  }

  two-quotes :
      (s : String) → begins_with b'"' b'"' s ≡ true → codes (take_chars 2 s).0 ≡ b'"' ∷ b'"' ∷ []
  unfolding take_chars
  two-quotes String.[] h = cc
  two-quotes (String.◌∷◌ c String.[]) h = ground arith
  two-quotes (String.◌∷◌ c (String.◌∷◌ d s)) h = ground arith

  block_string-Fits :
      (start : ℕ) (c : Char) (s : String)
      → code c ≡ b'"'
      → begins_with b'"' b'"' s ≡ true
      → Fits read_literal (String.◌∷◌ c s) (lex_block_string source read_literal start c s)
  unfolding lex_block_string
  block_string-Fits start c s h two = elim (Bool-cases (block_body (take_chars 2 s).1).found) [
    | inl done ↦ rw done (record {
      splits =
          joins _ _ _ _ (String.◌∷◌ c s) (take_chars_splits 3 (block_body (take_chars 2 s).1).rest)
            (cons-splits c _ _ s
              (joins _ _ _ _ s (block_body_splits (take_chars 2 s).1) (take_chars_splits 2 s)));
      first = c;
      others = _;
      passes = cons-append c _ _;
      spelt = codes-append _ (take_chars 3 (block_body (take_chars 2 s).1).rest).0 ∙ (λ j.
          (h j
            ∷ (codes-append (take_chars 2 s).0 (block_body (take_chars 2 s).1).taken
                  ∙ ap (λ l. l ++ codes (block_body (take_chars 2 s).1).taken) (two-quotes s two))
                j)
          ++ block_body-found (take_chars 2 s).1 done j);
    })
    | inr open_end ↦ rw open_end (record {
      splits =
          cons-splits c _ _ s
            (joins _ _ _ _ s (block_body_splits (take_chars 2 s).1) (take_chars_splits 2 s));
      first = c;
      others = _;
      passes = refl;
      spelt = tt;
    })
  ]

  string_body_splits :
      (s : String) (start skip : ℕ)
      → (string_body source read_literal s start skip).taken
          +++ (string_body source read_literal s start skip).rest
        ≡ s
  unfolding string_body
  string_body_splits String.[] start skip = nil-append ""
  string_body_splits (String.◌∷◌ c s) start (suc skip) =
      cons-splits c _ _ s (string_body_splits s (start + len_utf8 (code c)) skip)
  string_body_splits (String.◌∷◌ c s) start zero = elim (Bool-cases (code c == b'"')) [
    | inl closes ↦ rw (closes, string_body) (cons-splits c "" s s (nil-append s))
    | inr goes_on ↦
        rw (goes_on, string_body)
          (cons-splits c _ _ s (
            string_body_splits s (start + len_utf8 (code c))
              (string_look source read_literal start (code c) s).0))
  ]

  literal_of-Fits :
      (start : ℕ) (c : Char) (others rest s : String) (o : Option String)
      → String.◌∷◌ c others +++ rest ≡ s
      → read_literal (String.◌∷◌ c others) ≡ o
      → Fits read_literal s (literal_of source read_literal start (String.◌∷◌ c others) rest o)
  literal_of-Fits start c others rest s (some v) h p = record {
    splits = h;
    first = c;
    others = others;
    passes = refl;
    spelt = p;
  }
  literal_of-Fits start c others rest s none h p = record {
    splits = h;
    first = c;
    others = others;
    passes = refl;
    spelt = tt;
  }

  string_scan-Fits :
      (start : ℕ) (c : Char) (s : String) (b : StringBody) (faults : List Diagnostic)
      → b.taken +++ b.rest ≡ s
      → Fits read_literal (String.◌∷◌ c s) (string_scan source read_literal start c b faults)
  string_scan-Fits start c s b [] h = elim (Bool-cases b.terminated) [
    | inl ended ↦
        rw ended
          (literal_of-Fits start c b.taken b.rest _ _ (cons-splits c b.taken b.rest s h) refl)
    | inr open_end ↦ rw open_end (record {
      splits = cons-splits c b.taken b.rest s h;
      first = c;
      others = b.taken;
      passes = refl;
      spelt = tt;
    })
  ]
  string_scan-Fits start c s b (d ∷ faults) h = elim (Bool-cases b.terminated) [
    | inl ended ↦ rw ended (record {
      splits = cons-splits c b.taken b.rest s h;
      first = c;
      others = b.taken;
      passes = refl;
      spelt = tt;
    })
    | inr open_end ↦ rw open_end (record {
      splits = cons-splits c b.taken b.rest s h;
      first = c;
      others = b.taken;
      passes = refl;
      spelt = tt;
    })
  ]

  branch :
      (t : String) (b : Bool) (x y : Scan)
      → (b ≡ true → Fits read_literal t x)
      → (b ≡ false → Fits read_literal t y)
      → Fits read_literal t (if b then x else y)
  branch t true x y p q = p refl
  branch t false x y p q = q refl

  block_string-branch :
      (start : ℕ) (c : Char) (s : String)
      → (code c == b'"' && begins_with b'"' b'"' s) ≡ true
      → Fits read_literal (String.◌∷◌ c s) (lex_block_string source read_literal start c s)
  block_string-branch start c s h = block_string-Fits start c s (ground arith) (ground arith)

  -- What the lexer does at a character fits the text from there on.
  pub lex_at-Fits :
      (start : ℕ) (c : Char) (s : String)
      → Fits read_literal (String.◌∷◌ c s) (lex_at source read_literal start c s)
  unfolding lex_at lex_string lex_symbol
  lex_at-Fits start c s = branch _ (is_space (code c)) _ _ (whitespace-Fits c s) λ _.
      branch _ (code c == b'/' && begins b'/' s) _ _ (λ _. line_comment-Fits c s)
        λ _.
          branch _ (code c == b'/' && begins b'*' s) _ _ (λ _. block_comment-Fits start c s)
            λ _.
              branch _ (code c == b'"' && begins_with b'"' b'"' s) _ _
                (block_string-branch start c s)
                λ _.
                  branch _ (code c == b'"') _ _
                    (λ _.
                      string_scan-Fits start c s (string_body source read_literal s (start + 1) 0) _
                        (string_body_splits s (start + 1) 0))
                    λ _.
                      branch _ (code c == b'@') _ _ (λ h. alias-Fits start c s (ground arith))
                        λ _.
                          branch _ (is_identifier_start (code c)) _ _ (λ _. identifier-Fits c s)
                            λ _.
                              branch _ (is_digit (code c)) _ _ (integer-Fits start c s)
                                λ _. pair-Fits start c s (symbol_pair (String.◌∷◌ c s)) refl
