-- ===== src/Checks/Recordings.antt =====
-- Runs of run.rs that are recorded, replayed and taken up again.
use aster_lang.Base.{ℕ, zero, suc, String, ◌≡◌, refl, ap, [], ◌∷◌, arith, length, u64_max, ◌≤◌}
use aster_lang.Base.Maps.{BTreeMap, string_ord}
use aster_lang.Base.Outcome.{Result, ok, err}
use aster_lang.Json.{Json, Items, Fields, null, string, array, object, nil, cons, end, field}
use aster_lang.Trace.{Trace, new_trace, verify}
use aster_lang.Trace.Chain.{Extends}
use aster_lang.Machine.State.{
  PendingEffect, EffectKind, EffectRequest, EffectResolution, RunOutcome,
}
use aster_lang.Fixture
use aster_lang.Fixture.{FixtureEntry, FixtureDriver}
use aster_lang.Session.{
  awaiting_admission, AdmittedEffect, RecordSession, RunError, Evidence, admit,
}
use aster_lang.Session.Asked.{Asks}
use aster_lang.Session.Opening.{Inputs, RecordFailure}
use aster_lang.Session.Opening.Resumed.{Resumes, restore_session-admit}
use aster_lang.Session.Recording.{EffectDriver, RecordResult, record_run_evidenced}
use aster_lang.Session.Recording.Evidenced.{Evidenced, record_run_evidenced-Evidenced}
use aster_lang.Session.Replay.{Readers, replay_run, EffectRecords, effect_records}
use aster_lang.Session.Replay.Faithful.{IsReplay, replay_run-IsReplay}
use aster_lang.Session.Replay.Complete.{IsReplay-replay_run, length-map}
use aster_lang.Authority.{any_entry, validate_ledger}
use aster_lang.Base.Maps.{extend, insert, lookup, remove}
use aster_lang.Base.Outcome.{map_m}
use aster_lang.Base.Text.{bytes, decimal}
use aster_lang.Budget.{new, remaining_of, reserve, settle}
use aster_lang.Capability.{collect_set, compile, grant_request}
use aster_lang.Fixture.{is_json_subset}
use aster_lang.Instant.{days_in_month, instant_parts, parse_decimal, validate_instant}
use aster_lang.Ir.{find_handler}
use aster_lang.Json.{
  canonical_json, canonical_sha256, canonicalize, collect, from_list, get, put, same_json,
}
use aster_lang.Machine.Decode.{
  collect_map, decode_json, decode_plain, decode_step, has_name, json_object, runtime_to_json,
}
use aster_lang.Machine.Eval.Arguments.{order_runtime_arguments}
use aster_lang.Machine.Governed.{file_effect, yield_inference}
use aster_lang.Machine.Local.{execute_local_instruction, execute_return, publish}
use aster_lang.Machine.Queries.{
  call_values_json, effect_request, indexed_values, require_capability, supplied_values,
}
use aster_lang.Machine.Run.{
  check_usage, current_instruction, decode_resolution, execute_current, execute_governed,
  reserve_pending_usage, reserve_usage, settle_all, settle_and_resume, step, supply,
  variable_usage_dimension,
}
use aster_lang.Machine.Snapshot.{
  check_frame, check_frames, check_governance, check_values, compute_hash, seal, slot_texts,
  validate_no_secrets,
}
use aster_lang.Machine.Start.{
  all_names, argument_locals, budget_dimension, budget_limits, check_grant_arguments,
  collect_limits, initial_state, self_record, validate_agent_argument_names,
  validate_declared_capabilities, validate_runtime_grants,
}
use aster_lang.Machine.State.{
  advance, change_frame, reserve_budget, set_pointer, set_slot, settle_budget, slot_of, top_frame,
}
use aster_lang.Session.{
  append_audit_events, budget_settlement_evidence, drain_audit_events, maximums_of,
  pending_budget_evidence, progress, record_entry,
}
use aster_lang.Session.Opening.{
  event_json, fingerprints_json, header_json, initialize, received_json, run_id_of, start_evidenced,
}
use aster_lang.Session.Replay.{
  check_completion, is_audit_kind, payloads, recorded_audit, replay_effect, same_audit,
  same_entries, same_outcome, same_request, verify_header,
}
use aster_lang.Trace.{append, check_entry, checkpoint, head_hash}
use aster_lang.Value.{any_value, contains_secret, snapshot_values, validate_governance}
use aster_lang.Value
use aster_lang.Checks.{externals, show}
use aster_lang.Checks.Starts.{ask_program, request, grants_json, request_json, maxima}
use aster_lang.Checks.Sessions.{model_request, evidence, waiting, admitted}

-- amounts as JSON: a number is that many nulls
nulls : ℕ → Items
nulls zero = nil
nulls (suc n) = cons null (nulls n)

count_of : Items → ℕ
count_of nil = 0
count_of (cons v vs) = suc (count_of vs)

unfoldable pub amounts_fields : BTreeMap String ℕ → Fields
unfolding nulls
amounts_fields [] = end
amounts_fields ((k, n) ∷ m) = field k (array (nulls n)) (amounts_fields m)

abbrev items_of : Json → Items
items_of (array vs) = vs
items_of _ = nil

unfoldable pub amounts_of : Fields → BTreeMap String ℕ
unfolding count_of
amounts_of end = []
amounts_of (field k v fs) = (k, count_of (items_of v)) ∷ amounts_of fs

abbrev read_amounts : Json → Result String (BTreeMap String ℕ)
read_amounts (object fs) = ok (amounts_of fs)
read_amounts _ = err "no map"

count_of-nulls : (n : ℕ) → count_of (nulls n) ≡ n
unfolding count_of nulls
count_of-nulls zero = refl
count_of-nulls (suc n) = ap suc (count_of-nulls n)

amounts_of-fields : (m : BTreeMap String ℕ) → amounts_of (amounts_fields m) ≡ m
unfolding amounts_of amounts_fields
amounts_of-fields [] = refl
amounts_of-fields ((k, n) ∷ m) = λ j. (k, count_of-nulls n j) ∷ amounts_of-fields m j

abbrev written : Evidence
written = record evidence { amounts_json = λ m. object (amounts_fields m) }

abbrev inputs : Inputs
inputs = record {
  grants_value = grants_json;
  request_value = request_json;
  error_text = λ why. "failed";
  maximums_of_json = read_amounts;
}

reads_back : (m : BTreeMap String ℕ) → read_amounts (object (amounts_fields m)) ≡ ok m
reads_back m = ap ok (amounts_of-fields m)

-- the answer to the question of the program
abbrev reply : FixtureEntry
reply = record {
  kind = EffectKind.model;
  identity = "Ask";
  match_request = object (field "prompt" (string "Ask") end);
  response = string "hi";
  max_usage = maxima;
  actual_usage = ("model_tokens", 7) ∷ [];
}

abbrev fixtures : FixtureDriver
fixtures = record {
  fixtures = record { schema_version = 1; entries = reply ∷ [] };
  consumed = [];
  calls = [];
}

abbrev fixture_driver : EffectDriver FixtureDriver
fixture_driver = record { preview = Fixture.preview; resolve = Fixture.resolve }

abbrev recorded : Result RecordFailure RecordResult × FixtureDriver
recorded =
    record_run_evidenced externals written 9 "0.2.0" inputs 5 fixture_driver 9 ask_program request
      fixtures

abbrev trace_of : Result RecordFailure RecordResult × FixtureDriver → Trace
trace_of (ok r, d) = r.trace
trace_of (err f, d) = f.trace

record_run_evidenced-Evidenced_example :
    Evidenced externals written 9 "0.2.0" inputs
      (record_run_evidenced externals written 9 "0.2.0" inputs 5 fixture_driver 9 ask_program
        request fixtures).0
record_run_evidenced-Evidenced_example =
    record_run_evidenced-Evidenced externals written 9 "0.2.0" inputs 5 fixture_driver 9 ask_program
      request fixtures

abbrev tape : Trace
tape = trace_of recorded

abbrev final : RunOutcome
final = record { state = []; value = object (field "ok" (string "hi") end) }

-- the readers know the one request, the one answer and the one outcome of the run
abbrev readers : Readers
readers = record {
  request_of_json = λ v. ok model_request;
  resolution_of_json = λ v. ok (record {
    request_hash = model_request.request_hash;
    payload = string "hi";
    actual_usage = ("model_tokens", 7) ∷ [];
  });
  outcome_of_json = λ v. ok final;
}

replayed :
    (replay_run externals written 9 "0.2.0" inputs readers 9 ask_program request tape ≡ ok final)
    × (length (effect_records tape).requests ≡ 1)
unfolding step execute_current current_instruction top_frame aster_lang.Machine.State.◌>>=◌
    execute_local_instruction execute_governed yield_inference file_effect require_capability
    call_values_json supplied_values indexed_values order_runtime_arguments effect_request
    json_object reserve_budget reserve new canonical_sha256 canonical_json canonicalize collect put
    from_list show map_m collect_map insert decimal lookup admit aster_lang.Session.◌>>=◌
    reserve_pending_usage check_usage reserve_usage variable_usage_dimension pending_budget_evidence
    maximums_of record_entry append aster_lang.Trace.content_hash checkpoint head_hash
    aster_lang.Machine.Snapshot.snapshot seal compute_hash validate_no_secrets check_frames
    check_frame check_values check_governance slot_texts snapshot_values any_value contains_secret
    validate_governance validate_ledger any_entry Value.from_map Value.to_map extend remaining_of
    amounts_fields amounts_of aster_lang.Session.resolve supply settle_and_resume settle_budget
    settle settle_all decode_resolution decode_json decode_step decode_plain set_slot change_frame
    set_pointer advance remove drain_audit_events append_audit_events budget_settlement_evidence
    progress Fixture.preview Fixture.resolve Fixture.matching Fixture.find_index is_json_subset
    same_json get aster_lang.Machine.Start.start validate_instant instant_parts parse_decimal
    days_in_month bytes validate_runtime_grants check_grant_arguments compile grant_request
    collect_set find_handler validate_agent_argument_names all_names argument_locals
    validate_declared_capabilities initial_state self_record budget_limits collect_limits
    budget_dimension has_name record_run_evidenced start_evidenced initialize header_json
    received_json event_json fingerprints_json run_id_of execute_return publish runtime_to_json
    slot_of replay_run verify_header payloads effect_records recorded_audit is_audit_kind
    same_request same_outcome same_entries same_audit replay_effect check_completion verify
    check_entry aster_lang.Machine.Local.complete
replayed = (refl, refl)

replay_run-IsReplay_example :
    IsReplay externals written 9 "0.2.0" inputs readers ask_program request tape final
replay_run-IsReplay_example =
    replay_run-IsReplay externals written 9 "0.2.0" inputs readers 9 ask_program request tape final
      replayed.0

short :
    (r : IsReplay externals written 9 "0.2.0" inputs readers ask_program request tape final)
    → length r.exs ≤ u64_max
short r = omega (
  arith,
  replayed.1,
  ap (λ (rs : EffectRecords). length rs.requests) r.recorded,
  length-map (λ n. n.requested) r.exs,
)

IsReplay-replay_run_example :
    (n : ℕ) × ((bound : ℕ)
      → n ≤ bound
      → replay_run externals written 9 "0.2.0" inputs readers bound ask_program request tape
        ≡ ok final)
IsReplay-replay_run_example =
    IsReplay-replay_run externals written 9 "0.2.0" inputs readers ask_program request tape final
      replay_run-IsReplay_example (short replay_run-IsReplay_example)

abbrev handed : Result RunError AdmittedEffect × RecordSession
handed = admit externals written 9 "0.2.0" model_request.request_hash maxima waiting

abbrev effect_of : Result RunError AdmittedEffect → AdmittedEffect
effect_of (ok a) = a
effect_of (err why) = admitted

hands_out :
    (handed ≡ (ok (effect_of handed.0), handed.1))
    × ((effect_of handed.0).snapshot.schema_version ≡ 1)
    × ((effect_of handed.0).snapshot.runtime_version ≡ "0.2.0")
    × (ask_program.program_hash ≡ (effect_of handed.0).snapshot.program_hash)
unfolding step execute_current current_instruction top_frame aster_lang.Machine.State.◌>>=◌
    execute_local_instruction execute_governed yield_inference file_effect require_capability
    call_values_json supplied_values indexed_values order_runtime_arguments effect_request
    json_object reserve_budget reserve new canonical_sha256 canonical_json canonicalize collect put
    from_list show map_m collect_map insert decimal lookup admit aster_lang.Session.◌>>=◌
    reserve_pending_usage check_usage reserve_usage variable_usage_dimension pending_budget_evidence
    maximums_of record_entry append aster_lang.Trace.content_hash checkpoint head_hash
    aster_lang.Machine.Snapshot.snapshot seal compute_hash validate_no_secrets check_frames
    check_frame check_values check_governance slot_texts snapshot_values any_value contains_secret
    validate_governance validate_ledger any_entry Value.from_map Value.to_map extend remaining_of
    amounts_fields amounts_of
hands_out = (refl, refl, refl, refl)

begins_verified : verify externals.codec written.entry_value waiting.trace ≡ ok tt
unfolding verify
begins_verified = refl

waits_with_request : Asks waiting model_request
unfolding step execute_current current_instruction top_frame aster_lang.Machine.State.◌>>=◌
    execute_local_instruction execute_governed yield_inference file_effect require_capability
    call_values_json supplied_values order_runtime_arguments effect_request json_object
    reserve_budget reserve new canonical_sha256 canonical_json canonicalize collect put from_list
    show map_m collect_map insert decimal lookup extend Value.from_map Value.to_map
waits_with_request = record {
  waits = record { pending = _; waits = refl; same_request = refl };
  phase = refl;
}

restore_session-admit_example :
    Resumes externals written 9 "0.2.0" inputs ask_program
      (effect_of handed.0)
      handed.1.trace
      handed.1
restore_session-admit_example =
    restore_session-admit externals written 9 "0.2.0" inputs model_request.request_hash maxima
      waiting handed.1 (effect_of handed.0) ask_program handed.1.trace model_request
      waits_with_request begins_verified hands_out.0 Extends.here hands_out.1 hands_out.2
      hands_out.3 reads_back
