-- ===== src/Syntax/Source.antt =====
-- crates/aster-syntax/src/source.rs and crates/aster-diagnostics/src/span.rs: a source text, and a
-- range of its bytes with the line and the column where it starts.
use Prim.Native.Char.{code}
use aster_lang.Base.{ℕ, suc, ◌+◌, ◌-◌, String, ◌||◌, Option, none, some, ltb, ◌==◌, if◌then◌else◌}
use aster_lang.Base.Outcome.{Result, ok, err, ok_or, and_then}
use aster_lang.Ir.{Span}

pub record SourceFile : Type 0 where
  pub path : String
  pub text : String

-- `char::len_utf8`
abbrev pub len_utf8 : ℕ → ℕ
len_utf8 c = if ltb c 0x80 then 1 else if ltb c 0x800 then 2 else if ltb c 0x10000 then 3 else 4

-- `str::len`, in bytes
unfoldable pub byte_length : String → ℕ
byte_length String.[] = 0
byte_length (String.◌∷◌ c s) = len_utf8 (code c) + byte_length s

abbrev pub with_char : Prim.Native.Char.Char → Option (String × String) → Option (String × String)
with_char c none = none
with_char c (some (front, back)) = some (String.◌∷◌ c front, back)

-- The text before and after an offset in bytes; none within a code point or past the end. This is
-- `is_char_boundary` and the slices on either side.
unfoldable pub split_at : ℕ → String → Option (String × String)
split_at n String.[] = if n == 0 then some ("", "") else none
split_at n (String.◌∷◌ c s) =
    let rest = split_at (n - len_utf8 (code c)) s in
    if n == 0
    then some ("", String.◌∷◌ c s)
    else if ltb n (len_utf8 (code c))
    then none
    else with_char c rest

-- the newlines of a text
unfoldable pub newlines : String → ℕ
newlines String.[] = 0
newlines (String.◌∷◌ c s) = (if code c == b'\n' then 1 else 0) + newlines s

-- the characters after the last newline, counted on from `n`
unfoldable pub column_from : ℕ → String → ℕ
column_from n String.[] = n
column_from n (String.◌∷◌ c s) = column_from (if code c == b'\n' then 0 else suc n) s

pub data SpanError : Type 0 where
  out_of_bounds invalid_utf8_boundary : SpanError

-- `Span::from_offsets`
unfoldable pub from_offsets : String → String → ℕ → ℕ → Result SpanError Span
unfolding newlines column_from
from_offsets file source start end =
    if ltb end start || ltb (byte_length source) end
    then err out_of_bounds
    else and_then (ok_or invalid_utf8_boundary (split_at start source)) λ before.
      and_then (ok_or invalid_utf8_boundary (split_at end source)) λ _. ok (record {
        file = file;
        start = start;
        end = end;
        line = newlines before.0 + 1;
        column = column_from 0 before.0 + 1;
      })
