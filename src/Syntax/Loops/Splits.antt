-- ===== src/Syntax/Loops/Splits.antt =====
-- The loops of lexer.rs split the text that they walk: what they pass and the rest make it up.
use Prim.Native.Char.{Char, code}
use aster_lang.Base.{
  ℕ, zero, suc, ◌+◌, ◌-◌, String, ◌≡◌, ap, ◌∙◌, Bool, true, ◌&&◌, List, [], ◌∷◌, ◌++◌, arith,
  Bool-cases, inl, inr, ◌==◌,
}
use text.Mathlib.TextLemmas.{cons-append, nil-append}
use aster_lang.Base.Text.{◌+++◌}
use aster_lang.Syntax.Source.{byte_length}
use aster_lang.Syntax.Loops.{take_while, take_chars, comment_body, block_body, begins_thrice}

pub cons-splits : (c : Char) (a b s : String) → a +++ b ≡ s → String.◌∷◌ c a +++ b ≡ String.◌∷◌ c s
cons-splits c a b s h = cons-append c a b ∙ ap (λ t. String.◌∷◌ c t) h

pub take_while_splits :
    (test : ℕ → Bool) (s : String) → (take_while test s).0 +++ (take_while test s).1 ≡ s
unfolding take_while
take_while_splits test String.[] = nil-append ""
take_while_splits test (String.◌∷◌ c s) = elim (Bool-cases (test (code c))) [
  | inl more ↦ rw more (cons-splits c _ _ s (take_while_splits test s))
  | inr done ↦ rw done (nil-append _)
]

pub take_chars_splits : (n : ℕ) (s : String) → (take_chars n s).0 +++ (take_chars n s).1 ≡ s
unfolding take_chars
take_chars_splits zero s = nil-append s
take_chars_splits (suc n) String.[] = nil-append ""
take_chars_splits (suc n) (String.◌∷◌ c s) = cons-splits c _ _ s (take_chars_splits n s)

pub block_body_splits : (s : String) → (block_body s).taken +++ (block_body s).rest ≡ s
unfolding block_body
block_body_splits String.[] = nil-append ""
block_body_splits (String.◌∷◌ c s) = elim (Bool-cases (begins_thrice b'"' (String.◌∷◌ c s))) [
  | inl done ↦ rw done (nil-append _)
  | inr more ↦ rw more (cons-splits c _ _ s (block_body_splits s))
]

pub comment_body_splits :
    (s : String) (depth : ℕ) → (comment_body s depth).taken +++ (comment_body s depth).rest ≡ s
unfolding comment_body
comment_body_splits String.[] depth = nil-append ""
comment_body_splits (String.◌∷◌ c String.[]) depth = cons-splits c "" "" "" (nil-append "")
comment_body_splits (String.◌∷◌ c (String.◌∷◌ d s)) depth =
    elim (Bool-cases (code c == b'/' && code d == b'*')) [
      | inl opens ↦
          rw (opens, comment_body)
            (cons-splits c _ _ _ (cons-splits d _ _ s (comment_body_splits s (suc depth))))
      | inr other ↦ elim (Bool-cases (code c == b'*' && code d == b'/')) [
        | inr plain ↦
            rw (other, plain, comment_body)
              (cons-splits c _ _ _ (comment_body_splits (String.◌∷◌ d s) depth))
        | inl closes ↦ elim (Bool-cases (depth == 1)) [
          | inl last ↦
              rw (other, closes, last, comment_body)
                (cons-splits c _ _ _ (cons-splits d _ _ s (nil-append s)))
          | inr inner ↦
              rw (other, closes, inner, comment_body)
                (cons-splits c _ _ _ (cons-splits d _ _ s (comment_body_splits s (depth - 1))))
        ]
      ]
    ]

-- the code points of a text
abbrev pub codes : String → List ℕ
codes String.[] = []
codes (String.◌∷◌ c s) = code c ∷ codes s

pub codes-append : (a b : String) → codes (a +++ b) ≡ codes a ++ codes b
codes-append String.[] b = ap codes (nil-append b)
codes-append (String.◌∷◌ c a) b =
    ap codes (cons-append c a b) ∙ ap (λ t. code c ∷ t) (codes-append a b)

pub byte_length-append : (a b : String) → byte_length (a +++ b) ≡ byte_length a + byte_length b
unfolding byte_length
byte_length-append String.[] b = ap byte_length (nil-append b) ∙ omega arith
byte_length-append (String.◌∷◌ c a) b =
    ap byte_length (cons-append c a b) ∙ omega (arith, byte_length-append a b)

three-quotes :
    (s : String) → begins_thrice b'"' s ≡ true → codes (take_chars 3 s).0 ≡ b'"' ∷ b'"' ∷ b'"' ∷ []
unfolding take_chars
three-quotes String.[] h = cc
three-quotes (String.◌∷◌ c String.[]) h = ground arith
three-quotes (String.◌∷◌ c (String.◌∷◌ d String.[])) h = ground arith
three-quotes (String.◌∷◌ c (String.◌∷◌ d (String.◌∷◌ f s))) h = ground arith

-- A block string's body stops before three quotes.
pub block_body-found :
    (s : String)
    → (block_body s).found ≡ true
    → codes (take_chars 3 (block_body s).rest).0 ≡ b'"' ∷ b'"' ∷ b'"' ∷ []
unfolding block_body
block_body-found String.[] h = cc
block_body-found (String.◌∷◌ c s) h = elim (Bool-cases (begins_thrice b'"' (String.◌∷◌ c s))) [
  | inl done ↦ rw done (three-quotes (String.◌∷◌ c s) done)
  | inr more ↦ rw more (block_body-found s (ground arith))
]
