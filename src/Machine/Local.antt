-- ===== src/Machine/Local.antt =====
-- The local instructions of crates/aster-runtime/src/machine.rs: `execute_local_instruction`,
-- `execute_unwrap`, `execute_call` and `execute_return`.
use aster_lang.Base.{ℕ, String, Bool, true, false, Option, none, some, List, [], ◌∷◌}
use aster_lang.Base.Maps.{nat_ord, string_ord, extend}
use aster_lang.Base.Outcome.{Result, ok, err, ok_or, map_m, and_then}
use aster_lang.Json.{Json}
use aster_lang.Ir.{InstructionKind, NamedValue, find_routine}
use aster_lang.Value.{RuntimeValue}
use aster_lang.Machine.Errors.{
  MachineError, type_mismatch, unknown_routine, non_exhaustive_match, missing_return_target,
  unreconciled_receipt,
}
use aster_lang.Machine.Decode.{Externals, runtime_to_json}
use aster_lang.Machine.Eval.{eval_expression}
use aster_lang.Machine.Eval.Arguments.{order_runtime_arguments}
use aster_lang.Machine.Eval.Rounds.{
  PatternBinding, unbound, bound, find_target, unwrapped, zip_parameters, named_locals,
}
use aster_lang.Machine.State.{
  FrameSnapshot, Machine, M, Step, completed, RunOutcome, lift, query, gets, pure, slot, set_slot,
  set_local, set_pointer, advance, update, top_frame, ◌>>=◌, ◌>>◌,
}
use aster_lang.Machine.Queries.{supplied_values}

abbrev branch_on : RuntimeValue → ℕ → ℕ → Result MachineError ℕ
branch_on (RuntimeValue.boolean true) then_target else_target = ok then_target
branch_on (RuntimeValue.boolean false) then_target else_target = ok else_target
branch_on _ then_target else_target = err (type_mismatch "branch condition")

abbrev pub bind_local : PatternBinding → M (Unit {0})
bind_local unbound = pure tt
bind_local (bound name v) = set_local name v

abbrev pub push_frame : FrameSnapshot → M (Unit {0})
push_frame f = update (λ s. record s { frames = f ∷ s.frames })

unfoldable pub execute_unwrap : ℕ → ℕ → M (Unit {0})
execute_unwrap target result = do
  r ← slot result
  v ← lift (unwrapped r)
  set_slot target v
  advance

unfoldable pub execute_call : ℕ → String → List NamedValue → M (Unit {0})
execute_call target name arguments = do
  routine ← query (λ m. ok_or unknown_routine (find_routine m.program name))
  supplied ← query (λ m. supplied_values m arguments)
  values ← lift (order_runtime_arguments routine.parameters supplied)
  advance
  push_frame (record {
    routine = routine.name;
    instruction_pointer = 0;
    locals = named_locals [] (zip_parameters routine.parameters values);
    slots = [];
    return_target = some target;
  })

module _ (x : Externals) (depth : ℕ) where
  -- `execute_local_instruction`; the answer tells whether the instruction was a local one.
  unfoldable pub execute_local_instruction : InstructionKind → M Bool
  execute_local_instruction (InstructionKind.evaluate target expression) = do
    f ← query top_frame
    v ← query (λ m. eval_expression x m.program depth expression f.locals f.slots)
    set_slot target v
    advance
    pure true
  execute_local_instruction (InstructionKind.bind name value) = do
    v ← slot value
    set_local name v
    advance
    pure true
  execute_local_instruction (InstructionKind.copy target source) = do
    v ← slot source
    set_slot target v
    advance
    pure true
  execute_local_instruction (InstructionKind.unwrap_result target result) = do
    execute_unwrap target result
    pure true
  execute_local_instruction (InstructionKind.call_routine target routine arguments) = do
    execute_call target routine arguments
    pure true
  execute_local_instruction (InstructionKind.branch condition then_target else_target) = do
    v ← slot condition
    target ← lift (branch_on v then_target else_target)
    set_pointer target
    pure true
  execute_local_instruction (InstructionKind.jump target) = do set_pointer target; pure true
  execute_local_instruction (InstructionKind.match_value value arms) = do
    v ← slot value
    found ← lift (ok_or non_exhaustive_match (find_target v arms))
    bind_local found.1
    set_pointer found.0
    pure true
  execute_local_instruction _ = pure false

  abbrev pub entry_json : String × RuntimeValue → Result MachineError (String × Json)
  entry_json (k, v) = and_then (runtime_to_json x v) (λ j. ok (k, j))

  -- the return of a called routine: its frame goes, and the caller's slot takes the value
  unfoldable pub return_to_caller :
      FrameSnapshot → List FrameSnapshot → RuntimeValue → M (Option Step)
  return_to_caller f rest returned = do
    update (λ s. record s { frames = rest })
    target ← lift (ok_or missing_return_target f.return_target)
    set_slot target returned
    pure none

  abbrev pub no_receipts : Machine → Result MachineError (Unit {0})
  no_receipts m = elim m.snapshot.outstanding_receipts [
    | [] ↦ ok tt
    | _ ∷ _ ↦ err unreconciled_receipt
  ]

  -- `self.completed = Some(outcome)`, and the step that reports it
  unfoldable pub complete : RunOutcome → M (Option Step)
  complete result m = (ok (some (completed result)), record m { outcome = some result })

  -- the return of the handler: the pending state is published over the current one
  unfoldable pub publish : RuntimeValue → M (Option Step)
  publish returned = do
    query no_receipts
    value ← lift (runtime_to_json x returned)
    state ← gets (λ m. extend m.snapshot.pending_state m.snapshot.current_state)
    update (λ s. record s { pending_state = [] })
    published ← lift (map_m entry_json state)
    complete (record { state = published; value = value })

  abbrev pub return_from : List FrameSnapshot → RuntimeValue → M (Option Step)
  return_from (f ∷ g ∷ rest) returned = return_to_caller f (g ∷ rest) returned
  return_from _ returned = publish returned

  unfoldable pub execute_return : ℕ → M (Option Step)
  execute_return value = do
    returned ← slot value
    frames ← gets (λ m. m.snapshot.frames)
    return_from frames returned
