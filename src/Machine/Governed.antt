-- ===== src/Machine/Governed.antt =====
-- The governed instructions of crates/aster-runtime/src/machine.rs: inference, validation,
-- observation, intents, proposals, authorisation, commits and reconciliation.
use aster_lang.Base.{ℕ, String, Bool, true, false, Option, none, some, List, [], ◌∷◌, if◌then◌else◌}
use aster_lang.Base.Maps.{BTreeMap, string_ord, lookup, remove}
use aster_lang.Base.Outcome.{Result, ok, err, ok_or, map_err}
use aster_lang.Base.Text.{◌+++◌, join_comma}
use aster_lang.Json.{Json, string, boolean, number, array, from_list, canonical_json}
use aster_lang.Budget.{BudgetDimension}
use aster_lang.Authority.{Intent, Proposal, Permit, new_proposal}
use aster_lang.Ir.{NamedValue}
use aster_lang.Value.{RuntimeValue}
use aster_lang.Machine.Errors.{
  MachineError, type_mismatch, unknown_prompt, unknown_tool, missing_idempotency, missing_risk,
  missing_sensitivity, approval_not_representable, invalid_instant, canonical_error,
}
use aster_lang.Machine.Decode.{Externals, json_object, as_str, runtime_to_json}
use aster_lang.Machine.Eval.{result_error}
use aster_lang.Machine.State.{
  EffectKind, PendingCompletion, model_completion, read_completion, approval_completion,
  write_completion, M, Step, yield, lift, query, gets, pure, raise, slot, set_slot, advance, update,
  reserve_budget, audit, issue_permit, consume_permit, ◌>>=◌, ◌>>◌,
}
use aster_lang.Machine.Queries.{
  named_values_json, call_values_json, validator_failures, policy_decision, PolicyRuntimeDecision,
  allows, approves, denies, capability_request_json, require_capability, effect_request,
}

-- the value that an instruction wants in a slot, or its error
abbrev pub as_candidate : RuntimeValue → Result MachineError (RuntimeValue × String)
as_candidate (RuntimeValue.candidate v p) = ok (v, p)
as_candidate _ = err (type_mismatch "Candidate")

abbrev pub as_intent : RuntimeValue → Result MachineError Intent
as_intent (RuntimeValue.intent i) = ok i
as_intent _ = err (type_mismatch "Intent")

abbrev pub as_proposal : RuntimeValue → Result MachineError Proposal
as_proposal (RuntimeValue.proposal p) = ok p
as_proposal _ = err (type_mismatch "Proposal")

abbrev pub as_permit : RuntimeValue → Result MachineError Permit
as_permit (RuntimeValue.permit p) = ok p
as_permit _ = err (type_mismatch "Permit")

pub record Receipt : Type 0 where
  pub action : String
  pub proposal_hash : String
  pub value : RuntimeValue

abbrev pub as_receipt : RuntimeValue → Result MachineError Receipt
as_receipt (RuntimeValue.receipt a h v) = ok (record { action = a; proposal_hash = h; value = v })
as_receipt _ = err (type_mismatch "Receipt")

abbrev pub as_observation : RuntimeValue → Result MachineError (RuntimeValue × String)
as_observation (RuntimeValue.observation v p) = ok (v, p)
as_observation _ = err (type_mismatch "Observation")

-- the arguments of a JSON object that is a map
abbrev map_json : BTreeMap String Json → Json
map_json fields = json_object fields

module _ (x : Externals) (depth : ℕ) where
  -- `{"dimension": .., "maximum": 1}`
  abbrev count_budget : String → Json
  count_budget dimension = json_object (
      ("dimension", string dimension)
      ∷ ("maximum", number (x.from_i64 (aster_lang.Base.Int.pos 1)))
      ∷ [])

  -- Reserves the count of an effect, then files it as pending and yields its request.
  unfoldable pub file_effect :
      EffectKind → String → Json → ℕ → BudgetDimension → PendingCompletion → M Step
  file_effect kind identity payload target dimension completion = do
    budget_before ← gets (λ m. m.snapshot.budget)
    reservation ← reserve_budget dimension 1
    request ← lift (effect_request x depth kind identity payload)
    update (λ s. record s {
      pending_effect = some (record {
        request = request;
        target = target;
        budget_before = budget_before;
        reservation = some reservation;
        usage_reservations = [];
        completion = completion;
      });
    })
    pure (yield request)

  unfoldable pub yield_inference : ℕ → String → List NamedValue → String → M Step
  yield_inference target prompt arguments model_alias = do
    spec ← query (λ m. ok_or unknown_prompt (lookup prompt m.program.catalog.prompts))
    query (λ m. require_capability x depth m (
        json_object (
          ("capability", string "ModelUse")
          ∷ ("arguments", array (from_list (string model_alias ∷ [])))
          ∷ [])))
    values ← query (λ m. call_values_json x depth m spec.parameters arguments)
    source_hash ← gets (λ m. m.program.source_hash)
    file_effect EffectKind.model prompt
        (json_object (
          ("prompt", string prompt)
          ∷ ("instruction", string spec.instruction)
          ∷ ("model_alias", string model_alias)
          ∷ ("data", map_json values)
          ∷ ("expected_type", x.type_value spec.result_type)
          ∷ ("source_provenance", string source_hash)
          ∷ ("count_budget", count_budget "model_calls")
          ∷ []))
        target BudgetDimension.model_calls (model_completion spec.result_type)

  abbrev validation_failure : String → List String → String → RuntimeValue
  validation_failure validator failures provenance = result_error (
      "validator `"
      +++ validator
      +++ "` failed requirements at "
      +++ join_comma failures
      +++ "; provenance "
      +++ provenance)

  abbrev validation_result : String → RuntimeValue → String → List String → RuntimeValue
  validation_result validator v provenance [] =
      RuntimeValue.result_ok (RuntimeValue.checked v provenance)
  validation_result validator v provenance (f ∷ fs) =
      validation_failure validator (f ∷ fs) provenance

  unfoldable pub execute_validate : ℕ → ℕ → String → M (Unit {0})
  execute_validate target candidate validator = do
    value ← slot candidate
    c ← lift (as_candidate value)
    failures ← query (λ m. validator_failures x depth m validator (c.0 ∷ []))
    set_slot target (validation_result validator c.0 c.1 failures)
    advance

  unfoldable pub yield_observation : ℕ → String → List NamedValue → M Step
  yield_observation target action arguments = do
    tool ← query (λ m. ok_or unknown_tool (lookup action m.program.catalog.tools))
    values ← query (λ m. call_values_json x depth m tool.parameters arguments)
    request ← query (λ m. capability_request_json x depth m tool.capability values)
    query (λ m. require_capability x depth m request)
    file_effect EffectKind.read action
        (json_object (
          ("action", string action)
          ∷ ("arguments", map_json values)
          ∷ ("count_budget", count_budget "external_reads")
          ∷ []))
        target BudgetDimension.external_reads (read_completion tool.result_type)

  unfoldable pub execute_intent : ℕ → String → List NamedValue → M (Unit {0})
  execute_intent target purpose fields = do
    values ← query (λ m. named_values_json x depth m fields)
    expiry ← lift (ok_or invalid_instant (lookup "expires_at" values))
    expires_at ← lift (ok_or invalid_instant (as_str expiry))
    set_slot target (
        RuntimeValue.intent (record {
          purpose = purpose;
          fields = remove "expires_at" values;
          expires_at = expires_at;
        }))
    advance

  -- a text is its own key, and any other value its canonical JSON
  abbrev idempotency_key : Json → Result MachineError String
  idempotency_key (string s) = ok s
  idempotency_key v = map_err canonical_error (canonical_json x.codec (ok v))

  unfoldable pub execute_proposal : ℕ → String → List NamedValue → ℕ → M (Unit {0})
  execute_proposal target action arguments intent = do
    value ← slot intent
    i ← lift (as_intent value)
    tool ← query (λ m. ok_or unknown_tool (lookup action m.program.catalog.tools))
    values ← query (λ m. call_values_json x depth m tool.parameters arguments)
    name ← lift (ok_or missing_idempotency tool.idempotency)
    named ← lift (ok_or missing_idempotency (lookup name values))
    key ← lift (idempotency_key named)
    request ← query (λ m. capability_request_json x depth m tool.capability values)
    query (λ m. require_capability x depth m request)
    risk ← lift (ok_or missing_risk tool.risk)
    sensitivity ← lift (ok_or missing_sensitivity tool.sensitivity)
    program_hash ← gets (λ m. m.program.program_hash)
    p ← lift (
        map_err canonical_error (
          new_proposal x.codec x.proposal_value action values i (record {
            risk = risk;
            sensitivity = sensitivity;
            capability_request = request;
            idempotency_key = key;
            program_hash = program_hash;
          })))
    set_slot target (RuntimeValue.proposal p)
    advance

  abbrev decision_evidence : String → Proposal → String → Json
  decision_evidence policy p decision = json_object (
      ("policy", string policy)
      ∷ ("proposal_hash", string p.digest)
      ∷ ("decision", string decision)
      ∷ [])

  abbrev permit_evidence : String → Proposal → Json
  permit_evidence policy p =
      json_object (("policy", string policy) ∷ ("proposal_hash", string p.digest) ∷ [])

  unfoldable pub authorize_allow : ℕ → Proposal → String → M (Option Step)
  authorize_allow target p policy = do
    grant ← gets (λ m. m.snapshot.grant_fingerprint)
    now ← gets (λ m. m.snapshot.event_time)
    permit ← issue_permit x p policy grant now p.intent.expires_at "direct_allow"
    audit "policy_decision" (decision_evidence policy p "allow")
    audit "permit_issued" (permit_evidence policy p)
    set_slot target (RuntimeValue.result_ok (RuntimeValue.permit permit))
    advance
    pure none

  unfoldable pub authorize_approve : ℕ → Proposal → String → RuntimeValue → M (Option Step)
  authorize_approve target p policy principal = do
    audit "policy_decision" (decision_evidence policy p "approve")
    principal_json ← lift (runtime_to_json x principal)
    query (λ m. require_capability x depth m (
        json_object (
          ("capability", string "HumanApproval")
          ∷ ("arguments", array (from_list (principal_json ∷ [])))
          ∷ [])))
    step ←
        file_effect EffectKind.approval policy
          (json_object (
            ("policy", string policy)
            ∷ ("proposal_hash", string p.digest)
            ∷ ("principal", principal_json)
            ∷ ("count_budget", count_budget "approvals")
            ∷ []))
          target BudgetDimension.approvals (approval_completion p policy p.intent.expires_at)
    pure (some step)

  unfoldable pub authorize_deny : ℕ → Proposal → String → String → M (Option Step)
  authorize_deny target p policy reason = do
    audit "policy_decision" (decision_evidence policy p "deny")
    set_slot target (result_error reason)
    advance
    pure none

  abbrev pub authorize_by : ℕ → Proposal → String → Bool → PolicyRuntimeDecision → M (Option Step)
  authorize_by target p policy may_suspend allows = authorize_allow target p policy
  authorize_by target p policy true (approves principal) =
      authorize_approve target p policy principal
  authorize_by target p policy false (approves principal) = raise approval_not_representable
  authorize_by target p policy may_suspend (denies reason) = authorize_deny target p policy reason

  unfoldable pub execute_authorize : ℕ → ℕ → String → Bool → M (Option Step)
  execute_authorize target proposal policy may_suspend = do
    value ← slot proposal
    p ← lift (as_proposal value)
    decision ← query (λ m. policy_decision x depth m policy p)
    authorize_by target p policy may_suspend decision

  -- the payload of the write that a proposal asks for
  abbrev pub commit_payload : Proposal → Json
  commit_payload p = json_object (
      ("action", string p.action)
      ∷ ("arguments", map_json p.arguments)
      ∷ ("proposal_hash", string p.digest)
      ∷ ("count_budget", count_budget "external_writes")
      ∷ [])

  unfoldable pub yield_commit : ℕ → ℕ → ℕ → M Step
  yield_commit target proposal permit = do
    proposal_value ← slot proposal
    p ← lift (as_proposal proposal_value)
    permit_value ← slot permit
    q ← lift (as_permit permit_value)
    query (λ m. require_capability x depth m p.capability_request)
    grant ← gets (λ m. m.snapshot.grant_fingerprint)
    now ← gets (λ m. m.snapshot.event_time)
    consume_permit x p q grant now
    audit "proposal_committed"
        (json_object (("action", string p.action) ∷ ("proposal_hash", string p.digest) ∷ []))
    budget_before ← gets (λ m. m.snapshot.budget)
    reservation ← reserve_budget BudgetDimension.external_writes 1
    tool ← query (λ m. ok_or unknown_tool (lookup p.action m.program.catalog.tools))
    request ← lift (effect_request x depth EffectKind.write p.action (commit_payload p))
    update (λ s. record s {
      pending_effect = some (record {
        request = request;
        target = target;
        budget_before = budget_before;
        reservation = some reservation;
        usage_reservations = [];
        completion = write_completion p.action p.digest tool.result_type;
      });
    })
    pure (yield request)

  abbrev reconciliation_failure : String → List String → String → RuntimeValue
  reconciliation_failure validator failures provenance = result_error (
      "reconciliation validator `"
      +++ validator
      +++ "` failed requirements at "
      +++ join_comma failures
      +++ "; provenance "
      +++ provenance)

  abbrev matched : List String → Bool
  matched [] = true
  matched (f ∷ fs) = false

  -- a receipt that the validator matched is no longer outstanding
  abbrev pub settle_receipt : String → Receipt → String → List String → M RuntimeValue
  settle_receipt validator r provenance [] = do
    update (λ s. record s { outstanding_receipts = remove r.proposal_hash s.outstanding_receipts })
    pure (RuntimeValue.result_ok (RuntimeValue.reconciled r.action r.proposal_hash r.value))
  settle_receipt validator r provenance (f ∷ fs) =
      pure (reconciliation_failure validator (f ∷ fs) provenance)

  unfoldable pub execute_reconcile : ℕ → ℕ → ℕ → String → M (Unit {0})
  execute_reconcile target receipt observation validator = do
    receipt_value ← slot receipt
    r ← lift (as_receipt receipt_value)
    observed ← slot observation
    o ← lift (as_observation observed)
    failures ← query (λ m. validator_failures x depth m validator (r.value ∷ o.0 ∷ []))
    audit "reconciliation_decision" (
        json_object (
          ("validator", string validator)
          ∷ ("proposal_hash", string r.proposal_hash)
          ∷ ("matched", boolean (matched failures))
          ∷ []))
    value ← settle_receipt validator r o.1 failures
    set_slot target value
    advance
