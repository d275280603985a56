-- ===== src/Checks/Starts.antt =====
-- A run that `Machine::start` of machine.rs begins: an agent that may ask a model five times.
use aster_lang.Base.{
  ℕ, ◌⊎◌, ◌↔◌, true, String, ◌≡◌, ◌≤◌, ◌<◌, ◌+◌, u64_max, refl, none, [], ◌∷◌, arith,
}
use aster_lang.Base.Maps.{Distinct, BTreeMap, string_ord, nat_ord, lookup, insert}
use aster_lang.Base.Outcome.{Result, ok, err, map_m}
use aster_lang.Base.Text.{decimal, bytes}
use aster_lang.Json.{
  Json, string, canonical_sha256, canonical_json, canonicalize, collect, put, from_list,
}
use aster_lang.Budget.{BudgetDimension, dimension_ord, new, reserve, remaining_of, or_zero}
use aster_lang.Budget.Conserve.{reserved_of}
use aster_lang.Authority.{empty_ledger, validate_ledger}
use aster_lang.Capability.Exact.{IsGranted, permits_iff}
use aster_lang.Capability.{permits, CapabilityGrants, compile, grant_request, collect_set}
use aster_lang.Ir.{Program, Routine, InstructionKind, Agent, PromptSpec, find_handler}
use aster_lang.Value.{RuntimeValue, from_map}
use aster_lang.Instant.{validate_instant, instant_parts, parse_decimal, days_in_month}
use aster_lang.Machine.Decode.{
  json_object, decode_json, decode_step, decode_plain, collect_map, has_name,
}
use aster_lang.Machine.State.{Machine, top_frame, reserve_budget, ◌>>=◌}
use aster_lang.Machine.Start.{
  StartRequest, start, budget_limits, collect_limits, budget_dimension, all_names,
  validate_agent_argument_names, self_record, check_grant_arguments, validate_runtime_grants,
  validate_declared_capabilities, initial_state, argument_locals,
}
use aster_lang.Machine.Start.Entry.{limits_of}
use aster_lang.Machine.Queries.{
  require_capability, call_values_json, supplied_values, indexed_values, effect_request,
}
use aster_lang.Machine.Eval.Arguments.{order_runtime_arguments}
use aster_lang.Machine.Local.{execute_local_instruction}
use aster_lang.Machine.Governed.{yield_inference, file_effect}
use aster_lang.Machine.Run.{
  reserve_pending_usage, step, execute_current, current_instruction, execute_governed,
}
use aster_lang.Machine.Follows.Runs.{Reaches}
use aster_lang.Machine.Errors.{MachineError}
use aster_lang.Machine.Usage.{asked_of, reserve_pending_usage_branches}
use aster_lang.Machine.Lifetime.{Reaches-le-limit, Reaches-validate_ledger}
use aster_lang.Checks.{externals, show}
use aster_lang.Checks.Machines.{text_type}

abbrev ask : PromptSpec
ask = record { parameters = []; result_type = text_type; instruction = "Say"; data_names = [] }

abbrev asks_once : Routine
asks_once = record {
  name = "handler";
  parameters = record { name = "input"; ty = text_type } ∷ [];
  return_type = text_type;
  instructions =
      record { id = 0; kind = InstructionKind.infer 0 "Ask" [] "fast" }
      ∷ record { id = 1; kind = InstructionKind.return_value 0 }
      ∷ [];
}

abbrev clerk : Agent
clerk = record {
  parameters = [];
  state = [];
  budget = ("model_calls", 5) ∷ ("model_tokens", 100) ∷ [];
  handlers = ("tick", "handler") ∷ [];
  capabilities = [];
}

abbrev pub ask_program : Program
ask_program = record {
  schema_version = 1;
  compiler_version = "0.2.0";
  module_name = "ask";
  source_hash = "s";
  program_hash = "p";
  routines = ("handler", asks_once) ∷ [];
  agents = ("Clerk", clerk) ∷ [];
  catalog = record {
    aliases = [];
    capabilities = ("ModelUse", record { name = "alias"; ty = text_type } ∷ []) ∷ [];
    records = [];
    enums = [];
    prompts = ("Ask", ask) ∷ [];
    tools = [];
    validators = [];
    policies = [];
  };
}

abbrev pub request : StartRequest
request = record {
  agent = "Clerk";
  event = "tick";
  event_id = "e1";
  event_time = "2026-01-01T00:00:00Z";
  agent_arguments = [];
  payload = string "hello";
  state = [];
  capabilities = record {
    schema_version = 1;
    grants = record { capability = "ModelUse"; arguments = string "fast" ∷ [] } ∷ [];
  };
}

abbrev pub grants_json : CapabilityGrants → Result String Json
grants_json g = ok (string "grants")

abbrev pub request_json : StartRequest → Result String Json
request_json r = ok (string r.event_id)

-- the machine that the start gives
abbrev pub begun : Machine
begun = record {
  program = ask_program;
  snapshot = record {
    schema_version = 1;
    runtime_version = "0.2.0";
    program_hash = "p";
    agent = "Clerk";
    event = "tick";
    event_id = "e1";
    event_time = "2026-01-01T00:00:00Z";
    input_hash = "\"e1\"";
    frames =
        record {
          routine = "handler";
          instruction_pointer = 0;
          locals =
              (
                "event",
                RuntimeValue.record_of (
                    from_map (
                      ("id", RuntimeValue.text "e1")
                      ∷ ("time", RuntimeValue.text "2026-01-01T00:00:00Z")
                      ∷ [])),
              )
              ∷ ("input", RuntimeValue.text "hello")
              ∷ ("self", RuntimeValue.record_of (from_map []))
              ∷ [];
          slots = [];
          return_target = none;
        }
        ∷ [];
    current_state = [];
    pending_state = [];
    budget = new ((BudgetDimension.model_calls, 5) ∷ (BudgetDimension.model_tokens, 100) ∷ []);
    grant_fingerprint = "\"grants\"";
    grant_request_hashes = ("{arguments:[\"fast\",],capability:\"ModelUse\",}", tt) ∷ [];
    authority = empty_ledger;
    outstanding_receipts = [];
    trace_position = 0;
    trace_hash = "";
    pending_effect = none;
    snapshot_hash = "";
  };
  outcome = none;
  failure = none;
  audit_events = [];
}

start_ok : start externals 9 "0.2.0" grants_json request_json ask_program request ≡ ok begun
unfolding start validate_instant instant_parts parse_decimal days_in_month bytes
    validate_runtime_grants check_grant_arguments compile grant_request collect_set canonical_sha256
    canonical_json canonicalize collect put find_handler validate_agent_argument_names all_names
    argument_locals validate_declared_capabilities initial_state self_record budget_limits
    collect_limits budget_dimension decode_json decode_step decode_plain lookup insert map_m
    from_map show collect_map has_name from_list json_object
start_ok = refl

-- after the step that asks the model
abbrev pub asked : Machine
asked = (step externals 9 begun).1

asks : Reaches externals 9 begun asked
asks = Reaches.steps Reaches.begins

Reaches-le-limit_example :
    remaining_of asked.snapshot.budget BudgetDimension.model_calls
      + reserved_of asked.snapshot.budget BudgetDimension.model_calls
    ≤ or_zero (lookup BudgetDimension.model_calls (limits_of (lookup "Clerk" ask_program.agents)))
Reaches-le-limit_example =
    Reaches-le-limit externals 9 "0.2.0" grants_json request_json ask_program request begun asked
      start_ok asks BudgetDimension.model_calls

no_permit_yet : asked.snapshot.authority.next_sequence < u64_max
unfolding step execute_current current_instruction top_frame ◌>>=◌ execute_local_instruction
    execute_governed yield_inference file_effect require_capability call_values_json supplied_values
    indexed_values order_runtime_arguments effect_request json_object reserve_budget reserve new
    canonical_sha256 canonical_json canonicalize collect put from_list show map_m collect_map insert
    decimal lookup
no_permit_yet = omega arith

Reaches-validate_ledger_example :
    validate_ledger externals.codec externals.proposal_value asked.snapshot.authority ≡ ok tt
Reaches-validate_ledger_example =
    Reaches-validate_ledger externals 9 "0.2.0" grants_json request_json ask_program request begun
      asked start_ok asks no_permit_yet

-- the maximum that a fixture declares for the request
abbrev pub maxima : BTreeMap String ℕ
maxima = ("model_tokens", 40) ∷ []

maxima-Distinct : Distinct maxima
unfolding lookup
maxima-Distinct = (refl, tt)

reserve_pending_usage_branches_example :
    ((m' : Machine) × (reserve_pending_usage maxima asked ≡ (ok tt, m'))
      × ((d : BudgetDimension)
          → remaining_of m'.snapshot.budget d + asked_of d maxima
            ≡ remaining_of asked.snapshot.budget d))
    ⊎ ((e : MachineError) × (reserve_pending_usage maxima asked ≡ (err e, asked)))
reserve_pending_usage_branches_example = reserve_pending_usage_branches maxima asked maxima-Distinct

compiles :
    compile externals.codec grants_json request.capabilities
    ≡ ok (record {
      fingerprint = begun.snapshot.grant_fingerprint;
      request_hashes = begun.snapshot.grant_request_hashes;
    })
unfolding compile grant_request collect_set canonical_sha256 canonical_json canonicalize collect put
    from_list map_m insert show
compiles = refl

model_request_hash :
    canonical_sha256 externals.codec (ok (grant_request "ModelUse" (string "fast" ∷ [])))
    ≡ ok "{arguments:[\"fast\",],capability:\"ModelUse\",}"
unfolding grant_request canonical_sha256 canonical_json canonicalize collect put from_list show
model_request_hash = refl

permits_iff_example :
    (permits externals.codec
        (record {
          fingerprint = begun.snapshot.grant_fingerprint;
          request_hashes = begun.snapshot.grant_request_hashes;
        })
        (grant_request "ModelUse" (string "fast" ∷ []))
      ≡ ok true)
    ↔ IsGranted externals.codec grants_json "{arguments:[\"fast\",],capability:\"ModelUse\",}"
        request.capabilities.grants
permits_iff_example =
    permits_iff externals.codec grants_json request.capabilities
      (record {
        fingerprint = begun.snapshot.grant_fingerprint;
        request_hashes = begun.snapshot.grant_request_hashes;
      })
      (grant_request "ModelUse" (string "fast" ∷ []))
      "{arguments:[\"fast\",],capability:\"ModelUse\",}" compiles model_request_hash
