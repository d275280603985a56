-- ===== src/Base/Text.antt =====
-- The pieces of `format!` that the crates use: joining texts and printing a `u64` in decimal.
use Prim.Native.Char.{nul, code}
use Prim.Native.String.{◌++◌}
use aster_lang.Base.Tests.{if◌then◌else◌, ltb, ◌==◌}
use Prim.Native.Nat.{ℕ, zero, suc, ◌+◌, ◌/◌, ◌%◌}
use Prim.Native.String.{String}
use mathlib.Core.List
use mathlib.Core.List.{List, [], ◌∷◌}

infixr 60 ◌+++◌
abbrev pub ◌+++◌ : String → String → String
a +++ b = a ++ b

-- "\0"
abbrev pub nul_text : String
nul_text = String.◌∷◌ nul String.[]

digit : ℕ → String
digit n =
    if n == 0
    then "0"
    else if n == 1
    then "1"
    else if n == 2
    then "2"
    else if n == 3
    then "3"
    else if n == 4
    then "4"
    else if n == 5
    then "5"
    else if n == 6
    then "6"
    else if n == 7
    then "7"
    else if n == 8
    then "8"
    else "9"

-- A number has fewer digits than it counts, so the fuel of `decimal` lasts.
decimal_fuel : ℕ → ℕ → String
decimal_fuel zero n = ""
decimal_fuel (suc fuel) n =
    let front = decimal_fuel fuel (n / 10) in if ltb n 10 then digit n else front ++ digit (n % 10)

unfoldable pub decimal : ℕ → String
unfolding digit decimal_fuel
decimal n = decimal_fuel (suc n) n

-- The texts, with a "\0" between each two.
unfoldable pub join_nul : List String → String
join_nul [] = ""
join_nul (s ∷ []) = s
join_nul (s ∷ t ∷ ts) = s ++ nul_text ++ join_nul (t ∷ ts)

-- `split('.')`: the first segment and the others.
unfoldable pub split_dot : String → String × List String
split_dot String.[] = ("", [])
split_dot (String.◌∷◌ c s) =
    let rest = split_dot s in
    if code c == b'.' then ("", rest.0 ∷ rest.1) else (String.◌∷◌ c rest.0, rest.1)

abbrev last_of : String → List String → String
last_of s [] = s
last_of s (t ∷ ts) = last_of t ts

-- `rsplit('.').next()`
unfoldable pub last_segment : String → String
unfolding split_dot
last_segment s = last_of (split_dot s).0 (split_dot s).1

-- `join(", ")`
unfoldable pub join_comma : List String → String
join_comma [] = ""
join_comma (s ∷ []) = s
join_comma (s ∷ t ∷ ts) = s ++ ", " ++ join_comma (t ∷ ts)

-- `String::as_bytes`: UTF-8
abbrev utf8 : ℕ → List ℕ
utf8 c =
    if ltb c 0x80
    then c ∷ []
    else if ltb c 0x800
    then (0xc0 + c / 64) ∷ (0x80 + c % 64) ∷ []
    else if ltb c 0x10000
    then (0xe0 + c / 4096) ∷ (0x80 + c / 64 % 64) ∷ (0x80 + c % 64) ∷ []
    else (0xf0 + c / 262144) ∷ (0x80 + c / 4096 % 64) ∷ (0x80 + c / 64 % 64) ∷ (0x80 + c % 64) ∷ []

unfoldable pub bytes : String → List ℕ
bytes String.[] = []
bytes (String.◌∷◌ c s) = List.◌++◌ (utf8 (code c)) (bytes s)
