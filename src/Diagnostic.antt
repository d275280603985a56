-- ===== src/Diagnostic.antt =====
-- crates/aster-diagnostics/src/registry.rs and diagnostic.rs: the codes of the diagnostics and their
-- stable texts, and a diagnostic. Texts and Explain have what `explain` gives, Render the printing
-- of a diagnostic.
pub mod Texts
pub mod Explain
pub mod Render
use aster_lang.Base.{String, Option, none, some, List, [], ◌∷◌, ◌++◌}
use aster_lang.Ir.{Span}

pub data KnownDiagnosticCode : Type 0 where
  parse_error invalid_string_escape unknown_token invalid_integer : KnownDiagnosticCode
  unterminated_block_comment unterminated_string unterminated_block_string unknown_name :
      KnownDiagnosticCode
  duplicate_declaration candidate_before_validation type_mismatch commit_without_permit :
      KnownDiagnosticCode
  missing_idempotency permit_action_mismatch write_tool_observed read_tool_proposed :
      KnownDiagnosticCode
  direct_tool_call effect_in_pure_context recursion non_total_policy permit_use_after_move :
      KnownDiagnosticCode
  proposal_use_after_move missing_capability invalid_capability_grant : KnownDiagnosticCode
  dynamic_prompt_instruction secret_to_model secret_in_state unknown_budget_dimension :
      KnownDiagnosticCode
  duplicate_budget_dimension budget_exhausted host_malformed_frame host_out_of_sequence :
      KnownDiagnosticCode
  host_binding_mismatch host_invalid_usage host_unexpected_eof host_write_failure :
      KnownDiagnosticCode
  runtime_failure replay_divergence trace_mismatch internal_failure : KnownDiagnosticCode

-- `KnownDiagnosticCode::as_str`
unfoldable pub as_str : KnownDiagnosticCode → String
as_str parse_error = "ASTER-PARSE-0001"
as_str invalid_string_escape = "ASTER-PARSE-0002"
as_str unknown_token = "ASTER-PARSE-0003"
as_str invalid_integer = "ASTER-PARSE-0004"
as_str unterminated_block_comment = "ASTER-PARSE-0005"
as_str unterminated_string = "ASTER-PARSE-0006"
as_str unterminated_block_string = "ASTER-PARSE-0007"
as_str unknown_name = "ASTER-NAME-1001"
as_str duplicate_declaration = "ASTER-NAME-1002"
as_str candidate_before_validation = "ASTER-TYPE-2001"
as_str type_mismatch = "ASTER-TYPE-2002"
as_str commit_without_permit = "ASTER-TYPE-2003"
as_str missing_idempotency = "ASTER-TYPE-2004"
as_str permit_action_mismatch = "ASTER-TYPE-2005"
as_str write_tool_observed = "ASTER-EFFECT-3001"
as_str read_tool_proposed = "ASTER-EFFECT-3002"
as_str direct_tool_call = "ASTER-EFFECT-3003"
as_str effect_in_pure_context = "ASTER-EFFECT-3004"
as_str recursion = "ASTER-EFFECT-3005"
as_str non_total_policy = "ASTER-POLICY-4001"
as_str permit_use_after_move = "ASTER-AFFINE-5001"
as_str proposal_use_after_move = "ASTER-AFFINE-5002"
as_str missing_capability = "ASTER-CAP-6001"
as_str invalid_capability_grant = "ASTER-CAP-6002"
as_str dynamic_prompt_instruction = "ASTER-PROMPT-7001"
as_str secret_to_model = "ASTER-SECRET-8001"
as_str secret_in_state = "ASTER-SECRET-8002"
as_str unknown_budget_dimension = "ASTER-BUDGET-11001"
as_str duplicate_budget_dimension = "ASTER-BUDGET-11002"
as_str budget_exhausted = "ASTER-BUDGET-11003"
as_str host_malformed_frame = "ASTER-HOST-11001"
as_str host_out_of_sequence = "ASTER-HOST-11002"
as_str host_binding_mismatch = "ASTER-HOST-11003"
as_str host_invalid_usage = "ASTER-HOST-11004"
as_str host_unexpected_eof = "ASTER-HOST-11005"
as_str host_write_failure = "ASTER-HOST-11006"
as_str runtime_failure = "ASTER-RUNTIME-9001"
as_str replay_divergence = "ASTER-REPLAY-10001"
as_str trace_mismatch = "ASTER-REPLAY-10002"
as_str internal_failure = "ASTER-INTERNAL-9901"

pub data Severity : Type 0 where
  error_severity warning : Severity

pub record Diagnostic : Type 0 where
  pub code : String
  pub severity : Severity
  pub message : String
  pub primary_span : Span
  pub labels : List String
  pub notes : List String
  pub help : Option String

-- `Diagnostic::error`
abbrev pub error : KnownDiagnosticCode → String → Span → Diagnostic
error code message span = record {
  code = as_str code;
  severity = error_severity;
  message = message;
  primary_span = span;
  labels = [];
  notes = [];
  help = none;
}

-- `Diagnostic::with_help`
abbrev pub with_help : String → Diagnostic → Diagnostic
with_help help d = record d { help = some help }

-- `Diagnostic::with_label`
abbrev pub with_label : String → Diagnostic → Diagnostic
with_label label d = record d { labels = d.labels ++ label ∷ [] }

-- `Diagnostic::with_note`
abbrev pub with_note : String → Diagnostic → Diagnostic
with_note note d = record d { notes = d.notes ++ note ∷ [] }
