-- ===== src/Checks/Machines.antt =====
-- Runs of the machine of machine.rs: an event that writes twice under two permits and returns.
use aster_lang.Base.{ℕ, ◌≡◌, ◌≢◌, refl, none, some, [], ◌∷◌}
use aster_lang.Base.Maps.{string_ord, nat_ord, lookup, insert, remove, extend}
use aster_lang.Base.Outcome.{map_m}
use aster_lang.Base.Text.{join_nul, decimal}
use aster_lang.Json.{
  Json, string, number, object, field, end, canonical_sha256, canonical_json, canonicalize, collect,
  put,
}
use aster_lang.Budget.{BudgetDimension, dimension_ord, new, reserve, settle}
use aster_lang.Authority.{
  AuthorityLedger, Permit, consume, validate_proposal, content_hash, computed_id, material,
}
use aster_lang.Ir
use aster_lang.Ir.{
  Program, Catalog, Routine, Instruction, InstructionKind, ToolSpec, ToolMode, TypeSpec, type_spec,
  FieldSpec, Agent, PromptSpec,
}
use aster_lang.Value.{RuntimeValue}
use aster_lang.Machine.State.{
  top_frame, slot_of, set_slot, change_frame, set_pointer, advance, ◌>>=◌, audit, reserve_budget,
  settle_budget, consume_permit, Machine, MachineSnapshot, EffectRequest, EffectResolution,
  EffectKind, yield, completed, RunOutcome,
}
use aster_lang.Machine.Decode.{json_object, decode_json, decode_step, decode_plain, runtime_to_json}
use aster_lang.Machine.Queries.{require_capability, effect_request}
use aster_lang.Machine.Local.{execute_local_instruction, execute_return, publish, complete}
use aster_lang.Machine.Governed.{yield_commit}
use aster_lang.Machine.Run.{
  step, supply, idle_step, execute_current, current_instruction, execute_governed,
  settle_and_resume, decode_resolution, settle_all,
}
use aster_lang.Machine.Commits.{Committed, Published}
use aster_lang.Machine.Commits.Steps.{step-Committed, step-Published}
use aster_lang.Machine.Follows.{identity_of}
use aster_lang.Machine.Follows.Runs.{Reaches}
use aster_lang.Machine.Lifetime.{step-step-Committed, Reaches-kept}
use aster_lang.Checks.{externals, show, map_fields}
use aster_lang.Checks.Permits.{mail, mail_permit, issue_time, expiry}

abbrev pub text_type : TypeSpec
text_type = type_spec "Text" Ir.TypeSpecs.nil

abbrev pub send_tool : ToolSpec
send_tool = record {
  parameters = record { name = "to"; ty = text_type } ∷ [];
  result_type = text_type;
  mode = ToolMode.write;
  capability = none;
  idempotency = some "to";
  risk = some "low";
  sensitivity = some "public";
}

abbrev no_catalog : Catalog
no_catalog = record {
  aliases = [];
  capabilities = [];
  records = [];
  enums = [];
  prompts = [];
  tools = ("Mail.send", send_tool) ∷ [];
  validators = [];
  policies = [];
}

abbrev commits_twice : Routine
commits_twice = record {
  name = "handler";
  parameters = [];
  return_type = text_type;
  instructions =
      record { id = 0; kind = InstructionKind.commit 4 0 1 }
      ∷ record { id = 1; kind = InstructionKind.commit 5 0 2 }
      ∷ record { id = 2; kind = InstructionKind.return_value 3 }
      ∷ [];
}

abbrev pub mail_program : Program
mail_program = record {
  schema_version = 1;
  compiler_version = "0.2.0";
  module_name = "mail";
  source_hash = "s";
  program_hash = "p";
  routines = ("handler", commits_twice) ∷ [];
  agents = [];
  catalog = no_catalog;
}

abbrev other_permit : Permit
other_permit = record mail_permit {
  id =
      join_nul
        (mail.digest ∷ "send" ∷ "grant" ∷ issue_time ∷ expiry ∷ "policy_allow" ∷ decimal 1 ∷ []);
  sequence = 1;
}

abbrev both_issued : AuthorityLedger
both_issued = record {
  next_sequence = 2;
  issued = (mail_permit.id, mail_permit) ∷ (other_permit.id, other_permit) ∷ [];
  consumed = [];
}

-- about to run the instruction at the position
abbrev at_instruction : ℕ → MachineSnapshot
at_instruction position = record {
  schema_version = 1;
  runtime_version = "0.2.0";
  program_hash = "p";
  agent = "Clerk";
  event = "tick";
  event_id = "e1";
  event_time = issue_time;
  input_hash = "i";
  frames =
      record {
        routine = "handler";
        instruction_pointer = position;
        locals = [];
        slots =
            (0, RuntimeValue.proposal mail)
            ∷ (1, RuntimeValue.permit mail_permit)
            ∷ (2, RuntimeValue.permit other_permit)
            ∷ (3, RuntimeValue.text "done")
            ∷ [];
        return_target = none;
      }
      ∷ [];
  current_state = ("seen", RuntimeValue.text "no") ∷ [];
  pending_state = ("seen", RuntimeValue.text "yes") ∷ [];
  budget = new ((BudgetDimension.external_writes, 2) ∷ []);
  grant_fingerprint = "grant";
  grant_request_hashes = ("\"Net\"", tt) ∷ [];
  authority = both_issued;
  outstanding_receipts = [];
  trace_position = 0;
  trace_hash = "";
  pending_effect = none;
  snapshot_hash = "";
}

abbrev pub machine_at : ℕ → Machine
machine_at position = record {
  program = mail_program;
  snapshot = at_instruction position;
  outcome = none;
  failure = none;
  audit_events = [];
}

abbrev write_payload : Json
write_payload = object (
    field "action" (string "Mail.send") (
      field "arguments" (object (field "to" (string "ops") end)) (
        field "count_budget"
          (object (field "dimension" (string "external_writes") (field "maximum" (number "1") end)))
          (field "proposal_hash" (string mail.digest) end))))

abbrev write_request : EffectRequest
write_request = record {
  kind = EffectKind.write;
  identity = "Mail.send";
  payload = write_payload;
  request_hash =
      "{identity:\"Mail.send\",kind:\"write\",payload:{action:\"Mail.send\",arguments:{to:\"ops\",},count_budget:{dimension:\"external_writes\",maximum:1,},proposal_hash:\"{action:\"Mail.send\",arguments:{to:\"ops\",},digest:\"\",intent:{expires_at:\"2026-02-01T00:00:00Z\",fields:{},purpose:\"notify\",},key:\"k1\",}\",},}";
}

abbrev sent : EffectResolution
sent = record {
  request_hash = write_request.request_hash;
  payload = string "accepted";
  actual_usage = [];
}

-- the machine after the first write was answered
abbrev answered : Machine
answered = (supply externals 9 sent (step externals 9 (machine_at 0)).1).1

asks_first : (step externals 9 (machine_at 0)).0 ≡ yield write_request
unfolding step execute_current current_instruction top_frame slot_of ◌>>=◌ audit reserve_budget
    consume_permit execute_local_instruction execute_governed yield_commit require_capability
    effect_request json_object canonical_sha256 canonical_json canonicalize collect put consume
    validate_proposal content_hash computed_id material reserve new lookup insert join_nul decimal
    show map_fields
asks_first = refl

waits_for_none : idle_step externals 9 answered answered.failure ≡ none
unfolding step execute_current current_instruction top_frame slot_of ◌>>=◌ audit reserve_budget
    consume_permit execute_local_instruction execute_governed yield_commit require_capability
    effect_request json_object canonical_sha256 canonical_json canonicalize collect put consume
    validate_proposal content_hash computed_id material reserve new lookup insert join_nul decimal
    show map_fields supply settle_and_resume settle_budget settle settle_all decode_resolution
    decode_json decode_step decode_plain set_slot change_frame set_pointer advance remove
waits_for_none = refl

asks_again : (step externals 9 answered).0 ≡ yield write_request
unfolding step execute_current current_instruction top_frame slot_of ◌>>=◌ audit reserve_budget
    consume_permit execute_local_instruction execute_governed yield_commit require_capability
    effect_request json_object canonical_sha256 canonical_json canonicalize collect put consume
    validate_proposal content_hash computed_id material reserve new lookup insert join_nul decimal
    show map_fields supply settle_and_resume settle_budget settle settle_all decode_resolution
    decode_json decode_step decode_plain set_slot change_frame set_pointer advance remove
asks_again = refl

step-Committed_example :
    Committed externals 9 (machine_at 0) (step externals 9 (machine_at 0)).1 write_request
step-Committed_example =
    step-Committed externals 9 (machine_at 0) write_request refl asks_first refl

between : Reaches externals 9 (step externals 9 (machine_at 0)).1 answered
between = Reaches.supplies sent Reaches.begins

step-step-Committed_example :
    (first : Committed externals 9 (machine_at 0) (step externals 9 (machine_at 0)).1 write_request)
    × (second : Committed externals 9 answered (step externals 9 answered).1 write_request)
    × (second.permit.id ≢ first.permit.id)
step-step-Committed_example =
    step-step-Committed externals 9 (machine_at 0) answered write_request write_request refl
      asks_first refl between waits_for_none asks_again refl

abbrev outcome : RunOutcome
outcome = record { state = ("seen", string "yes") ∷ []; value = string "done" }

completes : (step externals 9 (machine_at 2)).0 ≡ completed outcome
unfolding step execute_current current_instruction top_frame slot_of ◌>>=◌ execute_local_instruction
    execute_governed execute_return publish complete runtime_to_json extend lookup insert map_m
completes = refl

step-Published_example :
    Published externals 9 (machine_at 2) (step externals 9 (machine_at 2)).1 outcome
step-Published_example = step-Published externals 9 (machine_at 2) outcome refl completes

Reaches-kept_example :
    ((step externals 9 answered).1.program ≡ (machine_at 0).program)
    × (identity_of (step externals 9 answered).1.snapshot ≡ identity_of (machine_at 0).snapshot)
    × ((step externals 9 answered).1.snapshot.current_state ≡ (machine_at 0).snapshot.current_state)
Reaches-kept_example =
    Reaches-kept externals 9 (machine_at 0) (step externals 9 answered).1
      (Reaches.steps (Reaches.supplies sent (Reaches.steps Reaches.begins)))
