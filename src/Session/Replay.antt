-- ===== src/Session/Replay.antt =====
-- `replay_run` of crates/aster-runtime/src/run.rs: the machine runs again on the answers that a
-- trace has recorded, with no driver. Reading the recorded JSON back is what `serde` derives, and
-- comes in through `Readers`. The loop has a bound on its steps. The proofs are in the modules
-- below.
pub mod Same
pub mod Replays
pub mod Faithful
pub mod Complete
use aster_lang.Base.{
  ℕ, zero, suc, ◌+◌, String, Bool, true, false, not, ◌&&◌, ◌||◌, Option, none, some, List, [], ◌∷◌,
  ◌++◌, str_eq, ◌==◌, ltb, if◌then◌else◌, length, get_elem?, u64_max,
}
use aster_lang.Base.Maps.{BTreeMap}
use aster_lang.Base.Outcome.{Result, ok, err, ok_or, map_err, and_then, ensure, ◌>>=◌, ◌>>◌}
use aster_lang.Json.{Json, get, same_json, canonical_sha256}
use aster_lang.Trace.{Trace, TraceEntry, TraceError, verify}
use aster_lang.Ir.{Program}
use aster_lang.Machine.Errors.{MachineError, canonical_message, serialization_failure}
use aster_lang.Machine.Decode.{Externals, object_fields, as_str}
use aster_lang.Machine.State.{
  Machine, EffectKind, EffectRequest, EffectResolution, RunOutcome, AuditEvent, Step, continue,
  yield, completed, failed,
}
use aster_lang.Machine.Run.{step, supply, reserve_pending_usage}
use aster_lang.Machine.Start.{StartRequest, start}
use aster_lang.Machine.Snapshot.{take_audit_events}
use aster_lang.Session.{Evidence, pending_budget_evidence, budget_settlement_evidence}
use aster_lang.Session.Opening.{Inputs}

-- `out_of_steps` is not a value of the source: it ends the loop where its bound is used up.
pub data ReplayError : Type 0 where
  trace_failure : TraceError → ReplayError
  machine_failure : MachineError → ReplayError
  missing_header missing_completion fingerprint_mismatch effect_sequence_mismatch request_divergence
        outcome_divergence governance_divergence budget_divergence :
      ReplayError
  data_failure : String → ReplayError
  out_of_steps : ReplayError

-- `from_value`
pub record Readers : Type 0 where
  pub request_of_json : Json → Result String EffectRequest
  pub resolution_of_json : Json → Result String EffectResolution
  pub outcome_of_json : Json → Result String RunOutcome

abbrev pub read_as : {A : Type 0} → Result String A → Result ReplayError A
read_as r = map_err data_failure r

-- `payloads`
unfoldable pub payloads : String → List TraceEntry → List Json
payloads kind [] = []
payloads kind (entry ∷ rest) =
    let others = payloads kind rest in
    if str_eq entry.kind kind then entry.payload ∷ others else others

abbrev pub first_of : List Json → Option Json
first_of [] = none
first_of (v ∷ vs) = some v

-- `is_audit_kind`
unfoldable pub is_audit_kind : String → Bool
is_audit_kind kind =
    str_eq kind "policy_decision"
    || str_eq kind "permit_issued"
    || str_eq kind "proposal_committed"
    || str_eq kind "reconciliation_decision"

-- the entries that record what the policies decided
unfoldable pub recorded_audit : List TraceEntry → List AuditEvent
recorded_audit [] = []
recorded_audit (entry ∷ rest) =
    let others = recorded_audit rest in
    if is_audit_kind entry.kind
    then record { kind = entry.kind; payload = entry.payload } ∷ others
    else others

-- `derive(PartialEq)`
abbrev pub same_kind : EffectKind → EffectKind → Bool
same_kind EffectKind.model EffectKind.model = true
same_kind EffectKind.read EffectKind.read = true
same_kind EffectKind.approval EffectKind.approval = true
same_kind EffectKind.write EffectKind.write = true
same_kind _ _ = false

unfoldable pub same_request : EffectRequest → EffectRequest → Bool
same_request a b =
    same_kind a.kind b.kind
    && str_eq a.identity b.identity
    && same_json a.payload b.payload
    && str_eq a.request_hash b.request_hash

unfoldable pub same_audit : List AuditEvent → List AuditEvent → Bool
same_audit [] [] = true
same_audit (a ∷ rest) (b ∷ others) =
    str_eq a.kind b.kind && same_json a.payload b.payload && same_audit rest others
same_audit _ _ = false

unfoldable pub same_entries : BTreeMap String Json → BTreeMap String Json → Bool
same_entries [] [] = true
same_entries ((k, v) ∷ m) ((j, w) ∷ n) = str_eq k j && same_json v w && same_entries m n
same_entries _ _ = false

unfoldable pub same_outcome : RunOutcome → RunOutcome → Bool
same_outcome a b = same_entries a.state b.state && same_json a.value b.value

-- The payloads of the four kinds of entries that an effect leaves, in the order of the trace.
pub record EffectRecords : Type 0 where
  pub requests : List Json
  pub reservations : List Json
  pub resolutions : List Json
  pub settlements : List Json

unfoldable pub effect_records : Trace → EffectRecords
effect_records t = record {
  requests = payloads "effect_requested" t.entries;
  reservations = payloads "budget_reserved" t.entries;
  resolutions = payloads "effect_resolved" t.entries;
  settlements = payloads "budget_settled" t.entries;
}

abbrev pub same_lengths : EffectRecords → Bool
same_lengths rs =
    length rs.requests == length rs.reservations
    && length rs.requests == length rs.resolutions
    && length rs.requests == length rs.settlements

module _ (x : Externals) (e : Evidence) (depth : ℕ) (runtime_version : String) (i : Inputs)
    (rd : Readers) where
  abbrev pub text_at : String → Json → Option String
  text_at key v = elim (object_fields v) [
    | none ↦ none
    | some fields ↦ elim (get key fields) [ none ↦ none | some w ↦ as_str w ]
  ]

  abbrev pub is_text : Option String → String → Bool
  is_text none s = false
  is_text (some t) s = str_eq t s

  -- `verify_header`
  unfoldable pub verify_header : Program → StartRequest → Trace → Result ReplayError (Unit {0})
  verify_header program request t = do
    header ← ok_or missing_header (first_of (payloads "run_header" t.entries))
    input_hash ←
        map_err (λ c. data_failure (canonical_message c))
          (canonical_sha256 x.codec (i.request_value request))
    ensure
        (is_text (text_at "program_hash" header) program.program_hash
          && is_text (text_at "input_hash" header) input_hash)
        fingerprint_mismatch

  -- `?` on a method of the machine, of which the error alone is kept
  abbrev pub machine_of : Result MachineError (Unit {0}) × Machine → Result ReplayError Machine
  machine_of r = elim r.0 [ ok a ↦ ok r.1 | err why ↦ err (machine_failure why) ]

  -- the entry at the index of the effect
  abbrev pub recorded_at : List Json → ℕ → Result ReplayError Json
  recorded_at vs index = ok_or effect_sequence_mismatch (get_elem? vs index)

  -- `recorded_reservation.get("variable_maximums")` and its reading
  abbrev pub maximums_in : Json → Result ReplayError (BTreeMap String ℕ)
  maximums_in reservation = do
    fields ← ok_or effect_sequence_mismatch (object_fields reservation)
    value ← ok_or effect_sequence_mismatch (get "variable_maximums" fields)
    read_as (i.maximums_of_json value)

  abbrev pub same_settlement : Json → Option Json → Bool
  same_settlement settlement none = false
  same_settlement settlement (some recorded) = same_json settlement recorded

  -- what a request of the machine meets: the machine with the recorded answer
  unfoldable pub replay_effect :
      EffectRecords → ℕ → EffectRequest → Machine → Result ReplayError Machine
  replay_effect rs index request m = do
    recorded ← recorded_at rs.requests index
    expected ← read_as (rd.request_of_json recorded)
    ensure (same_request request expected) request_divergence
    reservation ← recorded_at rs.reservations index
    maximums ← maximums_in reservation
    reserved ← machine_of (reserve_pending_usage maximums m)
    evidence ← map_err machine_failure (pending_budget_evidence e reserved)
    ensure (same_json evidence reservation) budget_divergence
    answer ← recorded_at rs.resolutions index
    resolution ← read_as (rd.resolution_of_json answer)
    supplied ← machine_of (supply x depth resolution reserved)
    after ←
        map_err (λ t. machine_failure (serialization_failure t))
          (e.budget_value supplied.snapshot.budget)
    settlement ← read_as (budget_settlement_evidence e maximums resolution.actual_usage after)
    ensure (same_settlement settlement (get_elem? rs.settlements index)) budget_divergence
    ok supplied

  -- what a completed run is compared with
  unfoldable pub check_completion :
      Trace → EffectRecords → ℕ → List AuditEvent → RunOutcome → Result ReplayError RunOutcome
  check_completion t rs index generated outcome = do
    ensure (index == length rs.requests) effect_sequence_mismatch
    recorded ← ok_or missing_completion (first_of (payloads "run_completed" t.entries))
    expected ← read_as (rd.outcome_of_json recorded)
    ensure (same_outcome outcome expected) outcome_divergence
    ensure (same_audit generated (recorded_audit t.entries)) governance_divergence
    ok outcome

  abbrev pub next_index : ℕ → Result ReplayError ℕ
  next_index index = if ltb index u64_max then ok (suc index) else err effect_sequence_mismatch

  -- `generated_audit.extend(machine.take_audit_events())`
  abbrev pub drained : Machine → Machine
  drained m = (take_audit_events m).1

  abbrev pub after_replayed :
      Trace
      → EffectRecords
      → (ℕ → List AuditEvent → Machine → Result ReplayError RunOutcome)
      → ℕ
      → List AuditEvent
      → Machine
      → Step
      → Result ReplayError RunOutcome
  after_replayed t rs again index generated m continue = again index generated m
  after_replayed t rs again index generated m (yield request) = do
    supplied ← replay_effect rs index request m
    next ← next_index index
    again next (generated ++ supplied.audit_events) (drained supplied)
  after_replayed t rs again index generated m (completed outcome) =
      check_completion t rs index generated outcome
  after_replayed t rs again index generated m (failed why) = err (machine_failure why)

  unfoldable pub replay_loop :
      Trace → EffectRecords → ℕ → ℕ → List AuditEvent → Machine → Result ReplayError RunOutcome
  replay_loop t rs zero index generated m = err out_of_steps
  replay_loop t rs (suc bound) index generated m =
      let r = step x depth m in
      after_replayed t rs (replay_loop t rs bound) index (generated ++ r.1.audit_events)
        (drained r.1) r.0

  -- `replay_run`
  unfoldable pub replay_run : ℕ → Program → StartRequest → Trace → Result ReplayError RunOutcome
  unfolding replay_loop
  replay_run bound program request t = do
    map_err trace_failure (verify x.codec e.entry_value t)
    verify_header program request t
    ensure (same_lengths (effect_records t)) effect_sequence_mismatch
    m ←
        map_err machine_failure
          (start x depth runtime_version i.grants_value i.request_value program request)
    replay_loop t (effect_records t) bound 0 [] m
