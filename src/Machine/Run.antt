-- ===== src/Machine/Run.antt =====
-- `step` and `supply` of the machine of crates/aster-runtime/src/machine.rs.
use aster_lang.Base.{
  ℕ, String, Bool, true, false, not, Option, none, some, [], ◌∷◌, str_eq, ltb, if◌then◌else◌,
  get_elem?,
}
use aster_lang.Base.Maps.{BTreeMap, string_ord, lookup, insert, contains_key, extend}
use aster_lang.Base.Outcome.{Result, ok, err, ok_or, and_then, ensure}
use aster_lang.Base.Text.{◌+++◌}
use aster_lang.Json.{Json, get, string}
use aster_lang.Budget.{BudgetDimension, Reservation, remaining_of, or_zero}
use aster_lang.Authority.{Proposal}
use aster_lang.Ir
use aster_lang.Ir.{InstructionKind, TypeSpec, Program}
use aster_lang.Value.{RuntimeValue, same_value}
use aster_lang.Machine.Errors.{
  MachineError, type_mismatch, unknown_routine, invalid_ip, requirement_failed,
  unsupported_instruction, no_pending_effect, resolution_mismatch, unexpected_usage_dimension,
  usage_already_reserved, budget, dimension_name,
}
use aster_lang.Machine.Decode.{Externals, decode_json, json_object, single_fields, as_bool}
use aster_lang.Machine.Eval.{result_error}
use aster_lang.Machine.State.{
  EffectResolution, PendingCompletion, model_completion, read_completion, approval_completion,
  write_completion, PendingEffect, Machine, M, Step, continue, yield, completed, failed, lift,
  query, gets, pure, raise, slot, set_slot, advance, update, top_frame, settle_budget,
  reserve_budget, audit, issue_permit, ◌>>=◌, ◌>>◌,
}
use aster_lang.Machine.Queries.{named_runtime_values}
use aster_lang.Machine.Local.{execute_local_instruction, execute_return}
use aster_lang.Machine.Governed.{
  yield_inference, execute_validate, yield_observation, execute_intent, execute_proposal,
  execute_authorize, yield_commit, execute_reconcile,
}

-- `current_instruction`
unfoldable pub current_instruction : Machine → Result MachineError Ir.Instruction
current_instruction m = and_then (top_frame m) λ f.
    and_then (ok_or unknown_routine (lookup f.routine m.program.routines))
      λ r. ok_or invalid_ip (get_elem? r.instructions f.instruction_pointer)

-- the error for a name that `settle` was not told to expect
abbrev pub expected_names : BTreeMap String Reservation → BTreeMap String ℕ → Bool
expected_names reservations [] = true
expected_names reservations ((name, actual) ∷ rest) = elim (lookup name reservations) [
  | none ↦ false
  | some r ↦ expected_names reservations rest
]

-- the loop of `supply` over the variable reservations
unfoldable pub settle_all : BTreeMap String ℕ → BTreeMap String Reservation → M (Unit {0})
settle_all usage [] = pure tt
settle_all usage ((name, r) ∷ rest) = do
  settle_budget r (or_zero (lookup name usage))
  settle_all usage rest

abbrev pub settle_count : Option Reservation → M (Unit {0})
settle_count none = pure tt
settle_count (some r) = settle_budget r 1

unfoldable pub variable_usage_dimension : String → Option BudgetDimension
variable_usage_dimension name =
    if str_eq name "model_tokens"
    then some BudgetDimension.model_tokens
    else if str_eq name "money_microunits"
    then some BudgetDimension.money_microunits
    else none

-- the first loop of `reserve_pending_usage`
unfoldable pub check_usage :
    PendingEffect → Machine → BTreeMap String ℕ → Result MachineError (Unit {0})
unfolding variable_usage_dimension
check_usage pending m [] = ok tt
check_usage pending m ((name, maximum) ∷ rest) =
    let later = check_usage pending m rest in
    and_then (ensure (not (contains_key name pending.usage_reservations)) usage_already_reserved)
      λ _. and_then (ok_or unexpected_usage_dimension (variable_usage_dimension name)) λ d.
        and_then
          (ensure (not (ltb (remaining_of m.snapshot.budget d) maximum))
            (budget ("budget exhausted for " +++ dimension_name d)))
          λ _. later

-- the second loop
unfoldable pub reserve_usage : BTreeMap String ℕ → M (BTreeMap String Reservation)
reserve_usage [] = pure []
reserve_usage ((name, maximum) ∷ rest) = do
  d ← lift (ok_or unexpected_usage_dimension (variable_usage_dimension name))
  r ← reserve_budget d maximum
  others ← reserve_usage rest
  pure (insert name r others)

abbrev pub with_usage : BTreeMap String Reservation → PendingEffect → PendingEffect
with_usage rs p = record p { usage_reservations = extend rs p.usage_reservations }

unfoldable pub reserve_pending_usage : BTreeMap String ℕ → M (Unit {0})
reserve_pending_usage maximums = do
  pending ← query (λ m. ok_or no_pending_effect m.snapshot.pending_effect)
  query (λ m. check_usage pending m maximums)
  reservations ← reserve_usage maximums
  after ← query (λ m. ok_or no_pending_effect m.snapshot.pending_effect)
  update (λ s. record s { pending_effect = some (with_usage reservations after) })

module _ (x : Externals) (depth : ℕ) where
  abbrev pub approval_result : Proposal → String → String → Bool → M RuntimeValue
  approval_result p policy expires_at true = do
    grant ← gets (λ m. m.snapshot.grant_fingerprint)
    now ← gets (λ m. m.snapshot.event_time)
    permit ← issue_permit x p policy grant now expires_at "human_approval"
    audit "permit_issued"
        (json_object (("proposal_hash", string p.digest) ∷ ("policy", string policy) ∷ []))
    pure (RuntimeValue.result_ok (RuntimeValue.permit permit))
  approval_result p policy expires_at false = pure (result_error "approval denied")

  -- the answer to an approval request
  abbrev pub approved_of : Json → Result MachineError Bool
  approved_of payload =
      and_then (ok_or (type_mismatch "approval response") (single_fields payload)) λ fields.
        and_then (ok_or (type_mismatch "approval response") (get "approved" fields))
          λ v. ok_or (type_mismatch "approval response") (as_bool v)

  unfoldable pub decode_resolution : PendingCompletion → String → Json → M RuntimeValue
  decode_resolution (model_completion ty) provenance payload = do
    v ← query (λ m. decode_json x m.program depth payload ty)
    pure (RuntimeValue.result_ok (RuntimeValue.candidate v provenance))
  decode_resolution (read_completion ty) provenance payload = do
    v ← query (λ m. decode_json x m.program depth payload ty)
    pure (RuntimeValue.result_ok (RuntimeValue.observation v provenance))
  decode_resolution (approval_completion p policy expires_at) provenance payload = do
    approved ← lift (approved_of payload)
    approval_result p policy expires_at approved
  decode_resolution (write_completion action proposal_hash ty) provenance payload = do
    v ← query (λ m. decode_json x m.program depth payload ty)
    update (λ s. record s { outstanding_receipts = insert proposal_hash tt s.outstanding_receipts })
    pure (RuntimeValue.result_ok (RuntimeValue.receipt action proposal_hash v))

  -- `supply`, once the resolution is seen to answer the pending request
  unfoldable pub settle_and_resume : PendingEffect → EffectResolution → M (Unit {0})
  settle_and_resume pending resolution = do
    settle_count pending.reservation
    settle_all resolution.actual_usage pending.usage_reservations
    value ← decode_resolution pending.completion pending.request.request_hash resolution.payload
    set_slot pending.target value
    advance
    update (λ s. record s { pending_effect = none })

  unfoldable pub supply : EffectResolution → M (Unit {0})
  supply resolution = do
    pending ← query (λ m. ok_or no_pending_effect m.snapshot.pending_effect)
    lift (ensure (str_eq resolution.request_hash pending.request.request_hash) resolution_mismatch)
    lift (
        ensure (expected_names pending.usage_reservations resolution.actual_usage)
          unexpected_usage_dimension)
    settle_and_resume pending resolution

  abbrev pub then_continue : M (Unit {0}) → M (Option Step)
  then_continue m = m >>= λ _. pure none

  abbrev pub then_yield : M Step → M (Option Step)
  then_yield m = m >>= λ s. pure (some s)

  -- the second match of `execute_current`
  unfoldable pub execute_governed : InstructionKind → M (Option Step)
  execute_governed (InstructionKind.infer target prompt arguments model_alias) =
      then_yield (yield_inference x depth target prompt arguments model_alias)
  execute_governed (InstructionKind.validate target candidate validator) =
      then_continue (execute_validate x depth target candidate validator)
  execute_governed (InstructionKind.observe target action arguments) =
      then_yield (yield_observation x depth target action arguments)
  execute_governed (InstructionKind.construct_intent target purpose fields) =
      then_continue (execute_intent x depth target purpose fields)
  execute_governed (InstructionKind.construct_proposal target action arguments intent) =
      then_continue (execute_proposal x depth target action arguments intent)
  execute_governed (InstructionKind.authorize target proposal policy may_suspend) =
      execute_authorize x depth target proposal policy may_suspend
  execute_governed (InstructionKind.commit target proposal permit) =
      then_yield (yield_commit x depth target proposal permit)
  execute_governed (InstructionKind.reconcile target receipt observation validator) =
      then_continue (execute_reconcile x depth target receipt observation validator)
  execute_governed (InstructionKind.require condition) = do
    v ← slot condition
    lift (ensure (same_value v (RuntimeValue.boolean true)) requirement_failed)
    advance
    pure none
  execute_governed (InstructionKind.update_state fields) = do
    values ← query (λ m. named_runtime_values m fields)
    update (λ s. record s { pending_state = extend values s.pending_state })
    advance
    pure none
  execute_governed (InstructionKind.return_value value) = execute_return x depth value
  execute_governed _ = raise unsupported_instruction

  abbrev pub unless_local : InstructionKind → Bool → M (Option Step)
  unless_local kind true = pure none
  unless_local kind false = execute_governed kind

  unfoldable pub execute_current : M (Option Step)
  execute_current = do
    instruction ← query current_instruction
    local ← execute_local_instruction x depth instruction.kind
    unless_local instruction.kind local

  abbrev pub step_of : Result MachineError (Option Step) × Machine → Step × Machine
  step_of (ok (some s), m) = (s, m)
  step_of (ok none, m) = (continue, m)
  step_of (err e, m) = (failed e, record m { failure = some e })

  abbrev pub idle_step : Machine → Option MachineError → Option Step
  idle_step m (some e) = some (failed e)
  idle_step m none = elim m.outcome [
    | some o ↦ some (completed o)
    | none ↦ elim m.snapshot.pending_effect [ some p ↦ some (yield p.request) | none ↦ none ]
  ]

  -- A machine that has failed or completed, or waits for an effect, repeats itself.
  unfoldable pub step : Machine → Step × Machine
  step m = elim (idle_step m m.failure) [ some s ↦ (s, m) | none ↦ step_of (execute_current m) ]
