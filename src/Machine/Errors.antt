-- ===== src/Machine/Errors.antt =====
-- `MachineError` of crates/aster-runtime/src/machine.rs, and the messages that the errors of the
-- parts become in it.
use aster_lang.Base.{String}
use aster_lang.Base.Text.{◌+++◌}
use aster_lang.Json.{CanonicalError, serialization, digest_mismatch}
use aster_lang.Budget.{
  BudgetDimension, BudgetError, exhausted, actual_exceeds_reservation, unknown_reservation,
}
use aster_lang.Authority.{AuthorityError}

-- `stack_overflow` is not a value of the source: it stands for a recursion deeper than the stack,
-- which ends the process, and comes where the depth given to a recursive function is used up.
pub data MachineError : Type 0 where
  unknown_agent unknown_event unknown_routine missing_handler_parameter : MachineError
  missing_input : String → MachineError
  unknown_agent_argument unknown_state_field : MachineError
  type_mismatch : String → MachineError
  unknown_value missing_frame invalid_ip missing_return_target unsupported_instruction :
      MachineError
  non_exhaustive_match unsupported_pure_expression effect_in_pure_routine : MachineError
  propagated_error : String → MachineError
  no_pending_effect resolution_mismatch unexpected_usage_dimension usage_already_reserved :
      MachineError
  unknown_tool unknown_prompt unknown_validator unknown_policy non_total_policy : MachineError
  requirement_failed unreconciled_receipt missing_idempotency missing_risk missing_sensitivity :
      MachineError
  approval_not_representable authority_value_opaque invalid_instant program_mismatch : MachineError
  snapshot_schema_mismatch runtime_version_mismatch snapshot_hash_mismatch : MachineError
  secret_persistence_rejected : MachineError
  budget authority : String → MachineError
  missing_capability unknown_capability_grant invalid_capability_grant : MachineError
  capability serialization_failure : String → MachineError
  stack_overflow : MachineError

-- `derive(Debug)`
abbrev pub dimension_name : BudgetDimension → String
dimension_name BudgetDimension.model_calls = "ModelCalls"
dimension_name BudgetDimension.model_tokens = "ModelTokens"
dimension_name BudgetDimension.external_reads = "ExternalReads"
dimension_name BudgetDimension.external_writes = "ExternalWrites"
dimension_name BudgetDimension.approvals = "Approvals"
dimension_name BudgetDimension.money_microunits = "MoneyMicrounits"

abbrev pub budget_error : BudgetError → MachineError
budget_error (exhausted d) = budget ("budget exhausted for " +++ dimension_name d)
budget_error actual_exceeds_reservation = budget "actual usage exceeds reservation"
budget_error unknown_reservation = budget "unknown budget reservation"

abbrev pub authority_error : AuthorityError → MachineError
authority_error AuthorityError.forged_permit =
    authority "permit is forged or was not issued by this authority ledger"
authority_error AuthorityError.proposal_mismatch = authority "permit does not match proposal"
authority_error AuthorityError.grant_mismatch = authority "permit capability fingerprint mismatch"
authority_error AuthorityError.expired = authority "permit or intent expired"
authority_error AuthorityError.already_consumed = authority "permit already consumed"

abbrev pub canonical_message : CanonicalError → String
canonical_message (serialization e) = "canonical JSON conversion failed: " +++ e
canonical_message digest_mismatch = "canonical digest mismatch"

abbrev pub canonical_error : CanonicalError → MachineError
canonical_error e = serialization_failure (canonical_message e)
