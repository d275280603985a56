-- ===== src/Checks/Sessions.antt =====
-- A record session that asks a model once.
use aster_lang.Base.{String, ◌≡◌, refl, []}
use aster_lang.Base.Maps.{string_ord, nat_ord, lookup, insert, remove, extend}
use aster_lang.Base.Outcome.{ok, err, map_m}
use aster_lang.Base.Text.{decimal, ◌+++◌}
use aster_lang.Json.{
  null, string, number, object, field, end, canonicalize, canonical_json, canonical_sha256, collect,
  put, from_list,
}
use aster_lang.Budget.{dimension_ord, new, reserve, settle, remaining_of}
use aster_lang.Authority.{validate_ledger, any_entry}
use aster_lang.Trace.{new_trace, content_hash, verify, append, checkpoint, head_hash}
use aster_lang.Value
use aster_lang.Value.{
  RuntimeValue, contains_secret, any_value, snapshot_values, validate_governance,
}
use aster_lang.Machine.Decode.{json_object, decode_json, decode_step, decode_plain, collect_map}
use aster_lang.Machine.State.{
  Machine, MachineSnapshot, EffectKind, EffectRequest, EffectResolution, Step, yield, top_frame,
  reserve_budget, settle_budget, set_slot, change_frame, set_pointer, advance,
}
use aster_lang.Machine.Local.{execute_local_instruction}
use aster_lang.Machine.Governed.{yield_inference, file_effect}
use aster_lang.Machine.Queries.{
  require_capability, call_values_json, supplied_values, indexed_values, effect_request,
}
use aster_lang.Machine.Eval.Arguments.{order_runtime_arguments}
use aster_lang.Machine.Run.{
  step, execute_current, current_instruction, execute_governed, supply, settle_and_resume,
  settle_all, decode_resolution, reserve_pending_usage, check_usage, reserve_usage,
  variable_usage_dimension,
}
use aster_lang.Machine.Snapshot.{
  snapshot, seal, compute_hash, validate_no_secrets, check_frames, check_frame, check_values,
  check_governance, slot_texts,
}
use aster_lang.Machine.Follows.{identity_of}
use aster_lang.Session.{
  AdmittedEffect, RecordPhase, running, awaiting_admission, awaiting_resolution, RecordSession,
  progress_loop, session_phase, Evidence, progress, admit, resolve, record_entry,
  append_audit_events, drain_audit_events, budget_settlement_evidence, pending_budget_evidence,
  maximums_of,
}
use aster_lang.Session.Kept.{Sessions, Sessions-verify}
use aster_lang.Session.Phases.{admit-awaiting, resolve-running}
use aster_lang.Session.Asked.{Asks, progress-Asks}
use aster_lang.Session.Once.{Unadmitted, resolve-once}
use aster_lang.Checks.{externals, entry_json, show}
use aster_lang.Checks.Starts.{begun, asked, maxima}

abbrev pub model_request : EffectRequest
model_request = record {
  kind = EffectKind.model;
  identity = "Ask";
  payload = object (
      field "count_budget"
        (object (field "dimension" (string "model_calls") (field "maximum" (number "1") end)))
        (field "data" (object end) (
          field "expected_type" (string "type") (
            field "instruction" (string "Say") (
              field "model_alias" (string "fast")
                (field "prompt" (string "Ask") (field "source_provenance" (string "s") end)))))));
  request_hash =
      "{identity:\"Ask\",kind:\"model\",payload:{count_budget:{dimension:\"model_calls\",maximum:1,},data:{},expected_type:\"type\",instruction:\"Say\",model_alias:\"fast\",prompt:\"Ask\",source_provenance:\"s\",},}";
}

-- the trace keeps the shape of its payloads, and leaves their parts out
abbrev pub evidence : Evidence
evidence = record {
  entry_value = entry_json;
  snapshot_value = λ s.
      ok (object (field "event_id" (string s.event_id) (field "trace" (string s.trace_hash) end)));
  request_value = λ r. ok (string r.request_hash);
  resolution_value = λ r. ok (string r.request_hash);
  outcome_value = λ o. ok o.value;
  state_value = λ s. ok null;
  budget_value = λ b. ok null;
  budget_json = λ b. null;
  reservation_json = λ r. null;
  reservations_json = λ rs. null;
  amount_json = λ n. number (decimal n);
  amounts_json = λ m. null;
}

abbrev session_in : RecordPhase → Machine → RecordSession
session_in phase m = record {
  machine = m;
  trace = new_trace "run-2";
  snapshots = [];
  phase = phase;
}

abbrev reserved : Machine
reserved = (reserve_pending_usage maxima asked).1

abbrev bound : MachineSnapshot
bound = record reserved.snapshot {
  trace_position = 1;
  trace_hash =
      "{hash:\"\",kind:\"budget_reserved\",payload:{after_reservation:null,before:null,count_reservation:null,variable_maximums:null,variable_reservations:null,},previous:\"\",run_id:\"run-2\",sequence:0,}";
  snapshot_hash = "";
}

abbrev bound_hash : String
bound_hash = "{event_id:\"e1\",trace:\"" +++ bound.trace_hash +++ "\",}"

abbrev pub admitted : AdmittedEffect
admitted = record {
  request = model_request;
  maximums = maxima;
  snapshot = record bound { snapshot_hash = bound_hash };
  snapshot_hash = bound_hash;
  trace_position = 1;
  trace_hash = bound.trace_hash;
}

abbrev pub waiting : RecordSession
waiting = session_in (awaiting_admission model_request) asked

admits_all : admit externals evidence 9 "0.2.0" model_request.request_hash maxima waiting ≡ (
  ok admitted,
  (admit externals evidence 9 "0.2.0" model_request.request_hash maxima waiting).1,
)
unfolding step execute_current current_instruction top_frame aster_lang.Machine.State.◌>>=◌
    execute_local_instruction execute_governed yield_inference file_effect require_capability
    call_values_json supplied_values indexed_values order_runtime_arguments effect_request
    json_object reserve_budget reserve new canonical_sha256 canonical_json canonicalize collect put
    from_list show map_m collect_map insert decimal lookup admit aster_lang.Session.◌>>=◌
    reserve_pending_usage check_usage reserve_usage variable_usage_dimension pending_budget_evidence
    maximums_of record_entry append content_hash checkpoint head_hash snapshot seal compute_hash
    validate_no_secrets check_frames check_frame check_values check_governance slot_texts
    snapshot_values any_value contains_secret validate_governance validate_ledger any_entry
    Value.from_map Value.to_map extend remaining_of
admits_all = refl

admit-awaiting_example :
    (waiting.phase ≡ awaiting_admission admitted.request)
    × (admitted.request.request_hash ≡ model_request.request_hash)
    × ((admit externals evidence 9 "0.2.0" model_request.request_hash maxima waiting).1.phase
        ≡ awaiting_resolution admitted)
    × (admitted.snapshot.trace_position ≡ admitted.trace_position)
    × (admitted.snapshot.trace_hash ≡ admitted.trace_hash)
admit-awaiting_example =
    admit-awaiting externals evidence 9 "0.2.0" model_request.request_hash maxima waiting
      (admit externals evidence 9 "0.2.0" model_request.request_hash maxima waiting).1 admitted
      admits_all

abbrev answer : EffectResolution
answer = record {
  request_hash = model_request.request_hash;
  payload = string "hi";
  actual_usage = [];
}

abbrev asked_effect : AdmittedEffect
asked_effect = record admitted { maximums = [] }

abbrev answering : RecordSession
answering = session_in (awaiting_resolution asked_effect) asked

resolves_it :
    resolve externals evidence 9 "0.2.0" answer answering
    ≡ (ok tt, (resolve externals evidence 9 "0.2.0" answer answering).1)
unfolding step execute_current current_instruction top_frame aster_lang.Machine.State.◌>>=◌
    execute_local_instruction execute_governed yield_inference file_effect require_capability
    call_values_json supplied_values indexed_values order_runtime_arguments effect_request
    json_object reserve_budget reserve new canonical_sha256 canonical_json canonicalize collect put
    from_list show map_m collect_map insert decimal lookup admit aster_lang.Session.◌>>=◌
    reserve_pending_usage check_usage reserve_usage variable_usage_dimension pending_budget_evidence
    maximums_of record_entry append content_hash checkpoint head_hash snapshot seal compute_hash
    validate_no_secrets check_frames check_frame check_values check_governance slot_texts
    snapshot_values any_value contains_secret validate_governance validate_ledger any_entry
    Value.from_map Value.to_map extend remaining_of resolve supply settle_and_resume settle_budget
    settle settle_all decode_resolution decode_json decode_step decode_plain set_slot change_frame
    set_pointer advance remove drain_audit_events append_audit_events budget_settlement_evidence
resolves_it = refl

-- what follows the answer: the machine goes on, and an admission out of turn is refused
abbrev answered : RecordSession
answered = (resolve externals evidence 9 "0.2.0" answer answering).1

out_of_turn : admit externals evidence 9 "0.2.0" "h" [] answered ≡ (err session_phase, answered)
unfolding admit aster_lang.Session.◌>>=◌
out_of_turn =
    rw (resolve-running externals evidence 9 "0.2.0" answer answering answered resolves_it).3 refl

later_calls :
    Unadmitted externals evidence 9 "0.2.0" answered
      (progress externals evidence 9 "0.2.0" 3 answered).1
later_calls = Unadmitted.progresses 3 (Unadmitted.refused "h" [] Unadmitted.here out_of_turn)

resolve-once_example :
    (chosen : AdmittedEffect) × (answering.phase ≡ awaiting_resolution chosen)
    × (chosen.request.request_hash ≡ answer.request_hash)
    × (resolve externals evidence 9 "0.2.0" answer
          (progress externals evidence 9 "0.2.0" 3 answered).1
        ≡ (err session_phase, (progress externals evidence 9 "0.2.0" 3 answered).1))
resolve-once_example =
    resolve-once externals evidence 9 "0.2.0" answer answer answering answered
      (progress externals evidence 9 "0.2.0" 3 answered).1 resolves_it later_calls

abbrev first_session : RecordSession
first_session = session_in running begun

asks_it : progress externals evidence 9 "0.2.0" 5 first_session ≡ (
  ok (awaiting_admission model_request),
  (progress externals evidence 9 "0.2.0" 5 first_session).1,
)
unfolding step execute_current current_instruction top_frame aster_lang.Machine.State.◌>>=◌
    execute_local_instruction execute_governed yield_inference file_effect require_capability
    call_values_json supplied_values indexed_values order_runtime_arguments effect_request
    json_object reserve_budget reserve new canonical_sha256 canonical_json canonicalize collect put
    from_list show map_m collect_map insert decimal lookup admit aster_lang.Session.◌>>=◌
    reserve_pending_usage check_usage reserve_usage variable_usage_dimension pending_budget_evidence
    maximums_of record_entry append content_hash checkpoint head_hash snapshot seal compute_hash
    validate_no_secrets check_frames check_frame check_values check_governance slot_texts
    snapshot_values any_value contains_secret validate_governance validate_ledger any_entry
    Value.from_map Value.to_map extend remaining_of resolve supply settle_and_resume settle_budget
    settle settle_all decode_resolution decode_json decode_step decode_plain set_slot change_frame
    set_pointer advance remove drain_audit_events append_audit_events budget_settlement_evidence
    progress progress_loop
asks_it = refl

progress-Asks_example : Asks (progress externals evidence 9 "0.2.0" 5 first_session).1 model_request
progress-Asks_example =
    progress-Asks externals evidence 9 "0.2.0" 5 first_session
      (progress externals evidence 9 "0.2.0" 5 first_session).1 model_request refl asks_it

abbrev last_session : RecordSession
last_session =
    (resolve externals evidence 9 "0.2.0" answer
      (admit externals evidence 9 "0.2.0" model_request.request_hash maxima
        (progress externals evidence 9 "0.2.0" 5 first_session).1).1).1

calls : Sessions externals evidence 9 "0.2.0" first_session last_session
calls =
    Sessions.resolves answer
      (Sessions.admits model_request.request_hash maxima (Sessions.progresses 5 Sessions.here))

starts_verified : verify externals.codec evidence.entry_value first_session.trace ≡ ok tt
unfolding verify
starts_verified = refl

Sessions-verify_example :
    (verify externals.codec evidence.entry_value last_session.trace ≡ ok tt)
    × (last_session.machine.program ≡ first_session.machine.program)
    × (identity_of last_session.machine.snapshot ≡ identity_of first_session.machine.snapshot)
    × (last_session.machine.snapshot.current_state ≡ first_session.machine.snapshot.current_state)
Sessions-verify_example =
    Sessions-verify externals evidence 9 "0.2.0" first_session last_session starts_verified calls
