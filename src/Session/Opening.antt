-- ===== src/Session/Opening.antt =====
-- `RecordSession::start` and `RecordSession::restore` of crates/aster-runtime/src/run.rs, and the
-- failure that takes the trace along. `error_text` is what `thiserror` derives, and
-- `maximums_of_json` what `serde` does. The proofs are in the module below.
pub mod Resumed
use aster_lang.Base.{ℕ, String, Option, none, some, List, [], ◌∷◌}
use aster_lang.Base.Maps.{BTreeMap}
use aster_lang.Base.Outcome.{Result, ok, err, ok_or, map_err, and_then, ◌>>=◌, ◌>>◌}
use aster_lang.Json.{Json, CanonicalError, string, get, canonical_sha256}
use aster_lang.Capability.{CapabilityGrants}
use aster_lang.Ir.{Program}
use aster_lang.Trace.{Trace, TraceEntry, TraceError, new_trace, append, rewind_to}
use aster_lang.Machine.Errors.{canonical_message}
use aster_lang.Machine.Decode.{Externals, json_object, object_fields}
use aster_lang.Machine.State.{
  Machine, MachineSnapshot, EffectRequest, Step, continue, yield, completed, failed,
}
use aster_lang.Machine.Start.{StartRequest, start}
use aster_lang.Machine.Run.{step}
use aster_lang.Machine.Snapshot.{restore}
use aster_lang.Session.{
  AdmittedEffect, running, awaiting_resolution, RecordSession, RunError, machine_error, trace_error,
  session_phase, data_error, Evidence, pending_budget_evidence,
}

-- `RecordFailure`
pub record RecordFailure : Type 0 where
  pub error : RunError
  pub trace : Trace
  pub snapshots : List MachineSnapshot

-- `Machine::start` and the hash of its request take these.
pub record Inputs : Type 0 where
  pub grants_value : CapabilityGrants → Result String Json
  pub request_value : StartRequest → Result String Json
  pub error_text : RunError → String
  pub maximums_of_json : Json → Result String (BTreeMap String ℕ)

-- `map_err(|error| RunError::Data(error.to_string()))` on a hash
abbrev pub hashed : Result CanonicalError String → Result RunError String
hashed r = map_err (λ c. data_error (canonical_message c)) r

abbrev pub appended : Result TraceError (Unit {0}) × Trace → Result RunError Trace
appended (ok u, t) = ok t
appended (err e, t) = err (trace_error e)

-- a `?` that leaves the trace as it is
abbrev pub keeping : Trace → Result RunError Machine → Result RunError Machine × Trace
keeping t r = (r, t)

module _ (x : Externals) (e : Evidence) (depth : ℕ) (runtime_version : String) (i : Inputs) where
  abbrev pub failed_as :
      RunError → List MachineSnapshot → Result TraceError (Unit {0}) × Trace → RecordFailure
  failed_as why snapshots (ok u, t) = record { error = why; trace = t; snapshots = snapshots }
  failed_as why snapshots (err other, t) = record {
    error = trace_error other;
    trace = t;
    snapshots = snapshots;
  }

  -- `record_failure`
  unfoldable pub record_failure : RunError → Trace → List MachineSnapshot → RecordFailure
  record_failure why t snapshots = failed_as why snapshots (
      append x.codec e.entry_value "run_failed"
        (json_object (("error", string (i.error_text why)) ∷ [])) t)

  -- `initial_record_failure`
  abbrev pub initial_record_failure : RunError → RecordFailure
  initial_record_failure why = record {
    error = why;
    trace = new_trace "record-initialization-failed";
    snapshots = [];
  }

  abbrev pub then_with :
      Result RunError (Unit {0}) × Trace
      → (Trace → Result RunError Machine × Trace)
      → Result RunError Machine × Trace
  then_with (ok u, t) f = f t
  then_with (err why, t) f = (err why, t)

  abbrev pub write :
      String
      → Json
      → (Trace → Result RunError Machine × Trace)
      → Trace
      → Result RunError Machine × Trace
  write kind payload f t =
      let r = append x.codec e.entry_value kind payload t in
      then_with (map_err trace_error r.0, r.1) f

  -- the payload of the entry "run_header"
  unfoldable pub header_json : Program → StartRequest → String → Json
  header_json program request input_hash = json_object (
      ("program_hash", string program.program_hash)
      ∷ ("input_hash", string input_hash)
      ∷ ("agent", string request.agent)
      ∷ ("event", string request.event)
      ∷ [])

  unfoldable pub received_json : StartRequest → Json
  received_json request =
      json_object
        (("event_id", string request.event_id) ∷ ("event_time", string request.event_time) ∷ [])

  unfoldable pub event_json : StartRequest → Json
  event_json request = json_object (
      ("agent", string request.agent)
      ∷ ("event", string request.event)
      ∷ ("event_id", string request.event_id)
      ∷ ("event_time", string request.event_time)
      ∷ ("agent_arguments", json_object request.agent_arguments)
      ∷ ("payload", request.payload)
      ∷ [])

  unfoldable pub fingerprints_json : Program → StartRequest → Result RunError Json
  fingerprints_json program request = do
    event ← hashed (canonical_sha256 x.codec (ok (event_json request)))
    state ← hashed (canonical_sha256 x.codec (ok (json_object request.state)))
    capabilities ← hashed (canonical_sha256 x.codec (i.grants_value request.capabilities))
    ok (
        json_object (
          ("program", string program.program_hash)
          ∷ ("event", string event)
          ∷ ("state", string state)
          ∷ ("capabilities", string capabilities)
          ∷ []))

  abbrev pub write_fingerprints :
      Result RunError Json
      → (Trace → Result RunError Machine × Trace)
      → Trace
      → Result RunError Machine × Trace
  write_fingerprints (ok payload) f t = write "fingerprints" payload f t
  write_fingerprints (err why) f t = (err why, t)

  -- the closure `initialized`
  unfoldable pub initialize :
      Program → StartRequest → String → Trace → Result RunError Machine × Trace
  initialize program request input_hash =
      write "run_header" (header_json program request input_hash) (
        write "event_received" (received_json request) (
          write_fingerprints (fingerprints_json program request) λ t. keeping t (
            map_err machine_error
              (start x depth runtime_version i.grants_value i.request_value program request))))

  abbrev pub opened : Result RunError Machine × Trace → Result RecordFailure RecordSession
  opened (ok m, t) = ok (record { machine = m; trace = t; snapshots = []; phase = running })
  opened (err why, t) = err (record_failure why t [])

  -- the hash of the program and of the input, which names the run
  unfoldable pub run_id_of : Program → String → Result RunError String
  run_id_of program input_hash = hashed (
      canonical_sha256 x.codec (
        ok (
          json_object (
            ("program_hash", string program.program_hash)
            ∷ ("input_hash", string input_hash)
            ∷ []))))

  -- `RecordSession::start_evidenced`
  unfoldable pub start_evidenced : Program → StartRequest → Result RecordFailure RecordSession
  start_evidenced program request = do
    input_hash ←
        map_err initial_record_failure (hashed (canonical_sha256 x.codec (i.request_value request)))
    run_id ← map_err initial_record_failure (run_id_of program input_hash)
    opened (initialize program request input_hash (new_trace run_id))

  -- `RecordSession::start`
  unfoldable pub start_session : Program → StartRequest → Result RunError RecordSession
  unfolding start_evidenced
  start_session program request = map_err (λ f. f.error) (start_evidenced program request)

  abbrev pub yielded : Step → Result RunError EffectRequest
  yielded (yield request) = ok request
  yielded _ = err session_phase

  -- `budget_evidence.get("variable_maximums")` and its reading
  abbrev pub recorded_maximums : Json → Result RunError (BTreeMap String ℕ)
  recorded_maximums evidence = do
    fields ← ok_or session_phase (object_fields evidence)
    value ← ok_or session_phase (get "variable_maximums" fields)
    map_err data_error (i.maximums_of_json value)

  abbrev pub restored_with :
      MachineSnapshot → BTreeMap String ℕ → EffectRequest → Machine → String → Trace → RecordSession
  restored_with s maximums request m hash t = record {
    machine = m;
    trace = t;
    snapshots = s ∷ [];
    phase = awaiting_resolution (record {
      request = request;
      maximums = maximums;
      snapshot = s;
      snapshot_hash = hash;
      trace_position = s.trace_position;
      trace_hash = s.trace_hash;
    });
  }

  -- `RecordSession::restore`
  unfoldable pub restore_session : Program → MachineSnapshot → Trace → Result RunError RecordSession
  restore_session program s t = do
    rewound ← appended (rewind_to x.codec e.entry_value s.trace_position s.trace_hash t)
    m ← map_err machine_error (restore x runtime_version e.snapshot_value program s)
    let stepped = step x depth m
    request ← yielded stepped.0
    evidence ← map_err machine_error (pending_budget_evidence e stepped.1)
    maximums ← recorded_maximums evidence
    hash ← hashed (canonical_sha256 x.codec (e.snapshot_value s))
    written ← appended (
        append x.codec e.entry_value "snapshot_written"
          (json_object (("snapshot_hash", string hash) ∷ [])) rewound)
    ok (restored_with s maximums request stepped.1 hash written)
