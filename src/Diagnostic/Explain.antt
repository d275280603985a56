-- ===== src/Diagnostic/Explain.antt =====
-- The lookup of an explanation, `explain`, and `DiagnosticCode::new` of
-- crates/aster-diagnostics/src/registry.rs.
use Prim.Native.Char.{Char, code}
use aster_lang.Base.{
  ℕ, suc, String, Bool, true, false, not, ◌&&◌, Option, none, some, List, [], ◌∷◌, leb, ◌==◌,
  if◌then◌else◌, str_eq, ◌≡◌, refl,
}
use aster_lang.Base.Outcome.{Result, ok, err}
use aster_lang.Diagnostic.Texts.{
  ExplanationText, parse_explanations, governance_explanations, host_explanations,
  other_explanations,
}
use aster_lang.Diagnostic.{
  KnownDiagnosticCode, as_str, Severity, error_severity, parse_error, invalid_string_escape,
  unknown_token, invalid_integer, unterminated_block_comment, unterminated_string,
  unterminated_block_string, unknown_name, duplicate_declaration, candidate_before_validation,
  type_mismatch, commit_without_permit, missing_idempotency, permit_action_mismatch,
  write_tool_observed, read_tool_proposed, direct_tool_call, effect_in_pure_context, recursion,
  non_total_policy, permit_use_after_move, proposal_use_after_move, missing_capability,
  invalid_capability_grant, dynamic_prompt_instruction, secret_to_model, secret_in_state,
  unknown_budget_dimension, duplicate_budget_dimension, budget_exhausted, host_malformed_frame,
  host_out_of_sequence, host_binding_mismatch, host_invalid_usage, host_unexpected_eof,
  host_write_failure, runtime_failure, replay_divergence, trace_mismatch, internal_failure,
}

pub record Explanation : Type 0 where
  pub code : String
  pub severity : Severity
  pub meaning : String
  pub cause : String
  pub remediation : String

-- the arm of a `match` on a code
unfoldable pub arm : String → List (String × ExplanationText) → Option ExplanationText
arm id [] = none
arm id ((c, text) ∷ arms) = let later = arm id arms in if str_eq id c then some text else later

abbrev pub or_else : Option ExplanationText → Option ExplanationText → Option ExplanationText
or_else (some text) other = some text
or_else none other = other

unfoldable pub explanation_of : String → Option ExplanationText
unfolding arm
explanation_of id = or_else (arm id parse_explanations) (
    or_else (arm id governance_explanations)
      (or_else (arm id host_explanations) (arm id other_explanations)))

-- `str::split` at a dash
abbrev pub put_first : Char → List String → List String
put_first c [] = String.◌∷◌ c "" ∷ []
put_first c (part ∷ parts) = String.◌∷◌ c part ∷ parts

unfoldable pub split_dashes : String → List String
split_dashes String.[] = "" ∷ []
split_dashes (String.◌∷◌ c s) =
    let parts = split_dashes s in if code c == b'-' then "" ∷ parts else put_first c parts

unfoldable pub all_chars : (ℕ → Bool) → String → Bool
all_chars test String.[] = true
all_chars test (String.◌∷◌ c s) = test (code c) && all_chars test s

unfoldable pub count_chars : String → ℕ
count_chars String.[] = 0
count_chars (String.◌∷◌ c s) = suc (count_chars s)

abbrev pub is_uppercase : ℕ → Bool
is_uppercase c = leb b'A' c && leb c b'Z'

abbrev pub is_decimal : ℕ → Bool
is_decimal c = leb b'0' c && leb c b'9'

-- A number of digits has as many bytes as characters.
unfoldable pub is_valid_parts : List String → Bool
unfolding all_chars count_chars
is_valid_parts (prefix ∷ (family ∷ (number ∷ []))) =
    str_eq prefix "ASTER"
    && (not (str_eq family "") && all_chars is_uppercase family)
    && (leb 4 (count_chars number) && leb (count_chars number) 5 && all_chars is_decimal number)
is_valid_parts _ = false

pub data DiagnosticCodeError : Type 0 where
  malformed_code : DiagnosticCodeError

-- `DiagnosticCode::new`
unfoldable pub diagnostic_code : String → Result DiagnosticCodeError String
unfolding split_dashes is_valid_parts
diagnostic_code id = if is_valid_parts (split_dashes id) then ok id else err malformed_code

abbrev pub explained : ExplanationText → Result DiagnosticCodeError String → Option Explanation
explained text (err why) = none
explained text (ok id) = some (record {
  code = id;
  severity = error_severity;
  meaning = text.0;
  cause = text.1;
  remediation = text.2;
})

abbrev pub explained_by : String → Option ExplanationText → Option Explanation
explained_by id none = none
explained_by id (some text) = explained text (diagnostic_code id)

unfoldable pub explain : String → Option Explanation
unfolding explanation_of diagnostic_code
explain id = explained_by id (explanation_of id)

-- Every code that the compiler and the runtime use has an explanation, which is of that code.
pub explain_known :
    (k : KnownDiagnosticCode)
    → (e : Explanation) × (explain (as_str k) ≡ some e) × (e.code ≡ as_str k)
unfolding explain as_str
explain_known parse_error = (_, refl, refl)
explain_known invalid_string_escape = (_, refl, refl)
explain_known unknown_token = (_, refl, refl)
explain_known invalid_integer = (_, refl, refl)
explain_known unterminated_block_comment = (_, refl, refl)
explain_known unterminated_string = (_, refl, refl)
explain_known unterminated_block_string = (_, refl, refl)
explain_known unknown_name = (_, refl, refl)
explain_known duplicate_declaration = (_, refl, refl)
explain_known candidate_before_validation = (_, refl, refl)
explain_known type_mismatch = (_, refl, refl)
explain_known commit_without_permit = (_, refl, refl)
explain_known missing_idempotency = (_, refl, refl)
explain_known permit_action_mismatch = (_, refl, refl)
explain_known write_tool_observed = (_, refl, refl)
explain_known read_tool_proposed = (_, refl, refl)
explain_known direct_tool_call = (_, refl, refl)
explain_known effect_in_pure_context = (_, refl, refl)
explain_known recursion = (_, refl, refl)
explain_known non_total_policy = (_, refl, refl)
explain_known permit_use_after_move = (_, refl, refl)
explain_known proposal_use_after_move = (_, refl, refl)
explain_known missing_capability = (_, refl, refl)
explain_known invalid_capability_grant = (_, refl, refl)
explain_known dynamic_prompt_instruction = (_, refl, refl)
explain_known secret_to_model = (_, refl, refl)
explain_known secret_in_state = (_, refl, refl)
explain_known unknown_budget_dimension = (_, refl, refl)
explain_known duplicate_budget_dimension = (_, refl, refl)
explain_known budget_exhausted = (_, refl, refl)
explain_known host_malformed_frame = (_, refl, refl)
explain_known host_out_of_sequence = (_, refl, refl)
explain_known host_binding_mismatch = (_, refl, refl)
explain_known host_invalid_usage = (_, refl, refl)
explain_known host_unexpected_eof = (_, refl, refl)
explain_known host_write_failure = (_, refl, refl)
explain_known runtime_failure = (_, refl, refl)
explain_known replay_divergence = (_, refl, refl)
explain_known trace_mismatch = (_, refl, refl)
explain_known internal_failure = (_, refl, refl)
