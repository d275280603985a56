-- ===== src/Machine/Eval/Rounds.antt =====
-- Patterns and pure routines of crates/aster-runtime/src/machine.rs: `match_pattern`,
-- `eval_pure_match`, `eval_pure_unwrap` and the loop of `eval_routine`.
use aster_lang.Base.{
  ℕ, zero, suc, String, true, false, ◌||◌, Option, none, some, List, [], ◌∷◌, str_eq, if◌then◌else◌,
  get_elem?,
}
use aster_lang.Base.Maps.{BTreeMap, nat_ord, string_ord, lookup, insert}
use aster_lang.Base.Outcome.{Result, ok, err, ok_or, map_m, ◌>>=◌, ◌>>◌, ensure}
use aster_lang.Base.Text.{last_segment}
use aster_lang.Ir
use aster_lang.Ir.{
  PureExpression, PatternSpec, wildcard, variant, Program, FieldSpec, MatchTarget, NamedValue,
  InstructionKind, find_routine,
}
use aster_lang.Value.{RuntimeValue, MaybeValue, absent, present, same_value}
use aster_lang.Machine.Errors.{
  MachineError, type_mismatch, unknown_value, unknown_routine, non_exhaustive_match, invalid_ip,
  requirement_failed, propagated_error, effect_in_pure_routine, stack_overflow,
}

abbrev pub Locals : Type 0
Locals = BTreeMap String RuntimeValue

abbrev pub Slots : Type 0
Slots = BTreeMap ℕ RuntimeValue

pub data PatternBinding : Type 0 where
  unbound : PatternBinding
  bound : String → RuntimeValue → PatternBinding

abbrev pub bind_pattern : PatternBinding → Locals → Locals
bind_pattern unbound locals = locals
bind_pattern (bound name v) locals = insert name v locals

abbrev with_payload : Option String → MaybeValue → PatternBinding
with_payload (some name) (present v) = bound name v
with_payload _ _ = unbound

-- the payload that a variant pattern finds in a value, if it fits
unfoldable pub variant_payload : String → RuntimeValue → Option MaybeValue
unfolding last_segment
variant_payload path (RuntimeValue.option absent) =
    if str_eq (last_segment path) "None" then some absent else none
variant_payload path (RuntimeValue.option (present v)) =
    if str_eq (last_segment path) "Some" then some (present v) else none
variant_payload path (RuntimeValue.result_ok v) =
    if str_eq (last_segment path) "Ok" then some (present v) else none
variant_payload path (RuntimeValue.result_err v) =
    if str_eq (last_segment path) "Err" then some (present v) else none
variant_payload path (RuntimeValue.enum_of actual payload) =
    if str_eq actual path || str_eq (last_segment actual) (last_segment path)
    then some payload
    else none
variant_payload path _ = none

unfoldable pub match_pattern : RuntimeValue → PatternSpec → Option PatternBinding
unfolding variant_payload
match_pattern v wildcard = some unbound
match_pattern v (variant path binding) = elim (variant_payload path v) [
  | none ↦ none
  | some p ↦ some (with_payload binding p)
]

-- `find_map` over the arms of a match
unfoldable pub find_target : RuntimeValue → List MatchTarget → Option (ℕ × PatternBinding)
unfolding match_pattern
find_target v [] = none
find_target v (arm ∷ arms) = elim (match_pattern v arm.pattern_spec) [
  | some b ↦ some (arm.target, b)
  | none ↦ find_target v arms
]

abbrev pub propagated : RuntimeValue → MachineError
propagated (RuntimeValue.text message) = propagated_error message
propagated _ = type_mismatch "Error"

-- the value of a successful result, or the error that goes on
abbrev pub unwrapped : RuntimeValue → Result MachineError RuntimeValue
unwrapped (RuntimeValue.result_ok v) = ok v
unwrapped (RuntimeValue.result_err e) = err (propagated e)
unwrapped _ = err (type_mismatch "expected Result")

abbrev pure_unwrapped : Option RuntimeValue → Result MachineError RuntimeValue
pure_unwrapped none = err (type_mismatch "expected Result")
pure_unwrapped (some v) = unwrapped v

abbrev branch_target : Option RuntimeValue → ℕ → ℕ → Result MachineError ℕ
branch_target (some (RuntimeValue.boolean true)) then_target else_target = ok then_target
branch_target (some (RuntimeValue.boolean false)) then_target else_target = ok else_target
branch_target _ then_target else_target = err (type_mismatch "branch condition")

abbrev pub zip_parameters : List FieldSpec → List RuntimeValue → Locals
zip_parameters [] vs = []
zip_parameters (p ∷ ps) [] = []
zip_parameters (p ∷ ps) (v ∷ vs) = (p.name, v) ∷ zip_parameters ps vs

-- collecting the pairs into a `BTreeMap`
unfoldable pub named_locals : Locals → Locals → Locals
named_locals m [] = m
named_locals m ((k, v) ∷ rest) = named_locals (insert k v m) rest

-- One round of the loop of `eval_routine`: it returns a value, or goes on.
pub data Round : Type 0 where
  returns : RuntimeValue → Round
  goes_on : ℕ → Locals → Slots → Round

module _ (program : Program)
    (recur : PureExpression → Locals → Slots → Result MachineError RuntimeValue)
    (run : String → List RuntimeValue → Result MachineError RuntimeValue) where
  abbrev argument : Slots → NamedValue → Result MachineError RuntimeValue
  argument slots a = ok_or unknown_value (lookup a.value slots)

  unfoldable pub pure_round : InstructionKind → ℕ → Locals → Slots → Result MachineError Round
  unfolding find_target
  pure_round (InstructionKind.evaluate target expression) ip locals slots = do
    v ← recur expression locals slots
    ok (goes_on (suc ip) locals (insert target v slots))
  pure_round (InstructionKind.bind name value) ip locals slots = do
    v ← ok_or unknown_value (lookup value slots)
    ok (goes_on (suc ip) (insert name v locals) slots)
  pure_round (InstructionKind.copy target source) ip locals slots = do
    v ← ok_or unknown_value (lookup source slots)
    ok (goes_on (suc ip) locals (insert target v slots))
  pure_round (InstructionKind.call_routine target routine arguments) ip locals slots = do
    values ← map_m (argument slots) arguments
    v ← run routine values
    ok (goes_on (suc ip) locals (insert target v slots))
  pure_round (InstructionKind.unwrap_result target result) ip locals slots = do
    v ← pure_unwrapped (lookup result slots)
    ok (goes_on (suc ip) locals (insert target v slots))
  pure_round (InstructionKind.branch condition then_target else_target) ip locals slots = do
    target ← branch_target (lookup condition slots) then_target else_target
    ok (goes_on target locals slots)
  pure_round (InstructionKind.jump target) ip locals slots = ok (goes_on target locals slots)
  pure_round (InstructionKind.match_value value arms) ip locals slots = do
    v ← ok_or unknown_value (lookup value slots)
    found ← ok_or non_exhaustive_match (find_target v arms)
    ok (goes_on found.0 (bind_pattern found.1 locals) slots)
  pure_round (InstructionKind.require condition) ip locals slots = do
    v ← ok_or requirement_failed (lookup condition slots)
    ensure (same_value v (RuntimeValue.boolean true)) requirement_failed
    ok (goes_on (suc ip) locals slots)
  pure_round (InstructionKind.return_value value) ip locals slots = do
    v ← ok_or unknown_value (lookup value slots)
    ok (returns v)
  pure_round _ ip locals slots = err effect_in_pure_routine

  -- The loop; its steps are bounded, since a routine may jump back for ever.
  unfoldable pub routine_loop :
      ℕ → List Ir.Instruction → ℕ → Locals → Slots → Result MachineError RuntimeValue
  unfolding pure_round
  routine_loop zero instructions ip locals slots = err stack_overflow
  routine_loop (suc steps) instructions ip locals slots = elim (get_elem? instructions ip) [
    | none ↦ err invalid_ip
    | some instruction ↦ elim (pure_round instruction.kind ip locals slots) [
      | err e ↦ err e
      | ok (returns v) ↦ ok v
      | ok (goes_on next l s) ↦ routine_loop steps instructions next l s
    ]
  ]

  -- `eval_routine`
  unfoldable pub run_routine : ℕ → String → List RuntimeValue → Result MachineError RuntimeValue
  unfolding routine_loop named_locals
  run_routine steps name arguments = elim (find_routine program name) [
    | none ↦ err unknown_routine
    | some routine ↦
        routine_loop steps routine.instructions 0
          (named_locals [] (zip_parameters routine.parameters arguments)) []
  ]
