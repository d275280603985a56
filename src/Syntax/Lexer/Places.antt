-- ===== src/Syntax/Lexer/Places.antt =====
-- Where `Lexer::span` of lexer.rs puts the pieces of a text: `SourceFile::span` takes their offsets.
use Prim.Native.Char.{Char, code}
use aster_lang.Base.{
  ℕ, ◌+◌, ◌-◌, ◌<◌, String, ◌≡◌, refl, sym, ap, ◌∙◌, false, Option, some, arith, ◌==◌, ltb,
}
use text.Mathlib.TextLemmas.{cons-append, nil-append, append_assoc}
use aster_lang.Base.Outcome.{ok}
use aster_lang.Base.Text.{◌+++◌}
use aster_lang.Syntax.Source.{SourceFile, byte_length, len_utf8, split_at, from_offsets}
use aster_lang.Syntax.Loops.Splits.{byte_length-append}
use aster_lang.Syntax.Lexer.{span_at}

pub len_utf8_pos : (n : ℕ) → 0 < len_utf8 n
len_utf8_pos n = ground arith

split_at_zero : (b : String) → split_at 0 b ≡ some ("", b)
unfolding split_at
split_at_zero String.[] = refl
split_at_zero (String.◌∷◌ c b) = refl

split_at_step :
    (c : Char) (s : String) (n : ℕ) (a b : String)
    → split_at n s ≡ some (a, b)
    → split_at (len_utf8 (code c) + n) (String.◌∷◌ c s) ≡ some (String.◌∷◌ c a, b)
unfolding split_at
split_at_step c s n a b h =
    let w : len_utf8 (code c) + n - len_utf8 (code c) ≡ n = omega arith in
    let t : (len_utf8 (code c) + n == 0) ≡ false = ground (arith, len_utf8_pos (code c)) in
    let u : ltb (len_utf8 (code c) + n) (len_utf8 (code c)) ≡ false = ground arith in
    rw (t, u, w, h) refl

split_at-append : (a b : String) → split_at (byte_length a) (a +++ b) ≡ some (a, b)
unfolding byte_length
split_at-append String.[] b = ap (split_at 0) (nil-append b) ∙ split_at_zero b
split_at-append (String.◌∷◌ c a) b =
    ap (split_at (len_utf8 (code c) + byte_length a)) (cons-append c a b)
    ∙ split_at_step c (a +++ b) (byte_length a) a b (split_at-append a b)

module _ (source : SourceFile) where
  -- A span between two places of the text is the one that its offsets give.
  span_at-ok :
      (read_literal : String → Option String) (a b c : String)
      → a +++ (b +++ c) ≡ source.text
      → from_offsets source.path source.text (byte_length a) (byte_length (a +++ b))
        ≡ ok (span_at source read_literal (byte_length a) (byte_length (a +++ b)))
  unfolding from_offsets span_at
  span_at-ok read_literal a b c h =
      let u = byte_length-append a b in
      let v : byte_length source.text ≡ byte_length a + (byte_length b + byte_length c) =
        ap byte_length (sym h)
        ∙ byte_length-append a (b +++ c)
        ∙ ap (λ n. byte_length a + n) (byte_length-append b c) in
      let t1 : ltb (byte_length (a +++ b)) (byte_length a) ≡ false = ground arith in
      let t2 : ltb (byte_length source.text) (byte_length (a +++ b)) ≡ false = ground arith in
      let s1 : split_at (byte_length a) source.text ≡ some (a, b +++ c) =
        ap (split_at (byte_length a)) (sym h) ∙ split_at-append a (b +++ c) in
      let s2 : split_at (byte_length (a +++ b)) source.text ≡ some (a +++ b, c) =
        ap (split_at (byte_length (a +++ b))) (sym h ∙ sym (append_assoc a b c))
        ∙ split_at-append (a +++ b) c in
      rw (t1, t2, s1, s2) refl

  pub placed :
      (read_literal : String → Option String) (a b c : String) (n : ℕ)
      → a +++ (b +++ c) ≡ source.text
      → n ≡ byte_length a
      → from_offsets source.path source.text (byte_length a) (byte_length (a +++ b))
        ≡ ok (span_at source read_literal n (n + byte_length b))
  placed read_literal a b c n h e = span_at-ok read_literal a b c h ∙ λ i. ok (
      span_at source read_literal (sym e i)
        ((byte_length-append a b ∙ ap (λ m. m + byte_length b) (sym e)) i))
