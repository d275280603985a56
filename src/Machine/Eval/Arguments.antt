-- ===== src/Machine/Eval/Arguments.antt =====
-- `order_runtime_arguments` of crates/aster-runtime/src/machine.rs: named and positional arguments
-- in the order of the parameters.
use aster_lang.Base.{
  ℕ, zero, suc, String, Option, none, some, List, [], ◌∷◌, map, str_eq, if◌then◌else◌,
}
use aster_lang.Base.Outcome.{Result, err, ok_or}
use aster_lang.Ir.{FieldSpec}
use aster_lang.Value.{RuntimeValue}
use aster_lang.Machine.Errors.{MachineError, type_mismatch}

-- `position` of the parameter of a name
unfoldable pub position_of : String → List FieldSpec → Option ℕ
position_of name [] = none
position_of name (p ∷ ps) =
    let rest = position_of name ps in
    if str_eq p.name name then some 0 else elim rest [ none ↦ none | some i ↦ some (suc i) ]

-- Puts a value where none stands yet; out of range or on a value it fails.
unfoldable pub place :
    List (Option RuntimeValue) → ℕ → RuntimeValue → Option (List (Option RuntimeValue))
place [] i v = none
place (none ∷ os) zero v = some (some v ∷ os)
place (some w ∷ os) zero v = none
place (o ∷ os) (suc i) v = elim (place os i v) [ none ↦ none | some rest ↦ some (o ∷ rest) ]

abbrev place_at :
    List (Option RuntimeValue) → Option ℕ → RuntimeValue → Option (List (Option RuntimeValue))
place_at ordered none v = none
place_at ordered (some i) v = place ordered i v

unfoldable pub place_all :
    List FieldSpec
    → List (Option RuntimeValue)
    → ℕ
    → List (Option String × RuntimeValue)
    → Option (List (Option RuntimeValue))
unfolding position_of place
place_all parameters ordered positional [] = some ordered
place_all parameters ordered positional ((none, v) ∷ rest) = elim (place ordered positional v) [
  | none ↦ none
  | some next ↦ place_all parameters next (suc positional) rest
]
place_all parameters ordered positional ((some name, v) ∷ rest) =
    elim (place_at ordered (position_of name parameters) v) [
      | none ↦ none
      | some next ↦ place_all parameters next positional rest
    ]

unfoldable pub all_present : List (Option RuntimeValue) → Option (List RuntimeValue)
all_present [] = some []
all_present (none ∷ os) = none
all_present (some v ∷ os) = elim (all_present os) [ none ↦ none | some vs ↦ some (v ∷ vs) ]

unfoldable pub order_runtime_arguments :
    List FieldSpec → List (Option String × RuntimeValue) → Result MachineError (List RuntimeValue)
unfolding place_all all_present
order_runtime_arguments parameters arguments =
    elim (place_all parameters (map (λ _. none) parameters) 0 arguments) [
      | none ↦ err (type_mismatch "call arguments")
      | some ordered ↦ ok_or (type_mismatch "call arguments") (all_present ordered)
    ]
