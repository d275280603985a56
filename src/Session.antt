-- ===== src/Session.antt =====
-- `RecordSession` of crates/aster-runtime/src/run.rs: `progress`, `admit` and `resolve`, which
-- drive the machine and write the trace. What `serde` derives comes in through `Evidence`. The
-- start, the restoring, the recording and the replay of a run, and the proofs, are in the modules
-- below.
pub mod Kept
pub mod Phases
pub mod Once
pub mod Asked
pub mod Opening
pub mod Recording
pub mod Replay
use aster_lang.Base.{
  ℕ, zero, suc, String, Bool, true, false, Option, none, some, List, [], ◌∷◌, ◌++◌, str_eq,
  if◌then◌else◌, checked_sub,
}
use aster_lang.Base.Maps.{BTreeMap, string_ord, lookup}
use aster_lang.Base.Outcome.{Result, ok, err, ok_or, map_err, and_then, map_m, Exec}
use aster_lang.Base.Text.{◌+++◌}
use aster_lang.Json.{Json, string, canonical_sha256}
use aster_lang.Budget.{Budget, Reservation, or_zero}
use aster_lang.Fixture.{DriverError}
use aster_lang.Trace.{Trace, TraceEntry, TraceError, append, checkpoint}
use aster_lang.Machine.Errors.{
  MachineError, canonical_message, no_pending_effect, serialization_failure,
}
use aster_lang.Machine.Decode.{Externals, json_object}
use aster_lang.Machine.State.{
  Machine, M, MachineSnapshot, EffectRequest, EffectResolution, RunOutcome, AuditEvent, Step,
  continue, yield, completed, failed,
}
use aster_lang.Machine.Run.{step, supply, reserve_pending_usage}
use aster_lang.Machine.Snapshot.{snapshot, take_audit_events, set_trace_checkpoint}

pub record AdmittedEffect : Type 0 where
  pub request : EffectRequest
  pub maximums : BTreeMap String ℕ
  pub snapshot : MachineSnapshot
  pub snapshot_hash : String
  pub trace_position : ℕ
  pub trace_hash : String

-- `RecordPhase`, and `RecordProgress`, which has the last three
pub data RecordPhase : Type 0 where
  running : RecordPhase
  awaiting_admission : EffectRequest → RecordPhase
  awaiting_resolution : AdmittedEffect → RecordPhase
  completed_with : RunOutcome → RecordPhase

pub record RecordSession : Type 0 where
  pub machine : Machine
  pub trace : Trace
  pub snapshots : List MachineSnapshot
  pub phase : RecordPhase

-- `out_of_steps` is not a value of the source: it ends the loop of `progress` where its bound is
-- used up.
pub data RunError : Type 0 where
  machine_error : MachineError → RunError
  driver_error : DriverError → RunError
  trace_error : TraceError → RunError
  session_phase : RunError
  data_error : String → RunError
  out_of_steps : RunError

-- The JSON of what goes into the trace.
pub record Evidence : Type 0 where
  pub entry_value : TraceEntry → Result String Json
  pub snapshot_value : MachineSnapshot → Result String Json
  pub request_value : EffectRequest → Result String Json
  pub resolution_value : EffectResolution → Result String Json
  pub outcome_value : RunOutcome → Result String Json
  pub state_value : BTreeMap String Json → Result String Json
  pub budget_value : Budget → Result String Json
  pub budget_json : Budget → Json
  pub reservation_json : Option Reservation → Json
  pub reservations_json : BTreeMap String Reservation → Json
  pub amount_json : ℕ → Json
  pub amounts_json : BTreeMap String ℕ → Json

-- A method on `&mut self` of the session.
abbrev pub S : Type 0 → Type 0
S A = Exec RecordSession RunError A

abbrev pub after :
    {A B : Type 0}
    → Result RunError A × RecordSession
    → (A → S B)
    → Result RunError B × RecordSession
after (ok a, s) f = f a s
after (err e, s) f = (err e, s)

infixl 5 ◌>>=◌ ◌>>◌
unfoldable pub ◌>>=◌ : {A B : Type 0} → S A → (A → S B) → S B
◌>>=◌ m f s = after (m s) f

abbrev pub ◌>>◌ : {B : Type 0} → S (Unit {0}) → S B → S B
m >> k = m >>= λ _. k

abbrev pub give : {A : Type 0} → A → S A
give a s = (ok a, s)

-- `?` on a result that reads the session
abbrev pub ask : {A : Type 0} → (RecordSession → Result RunError A) → S A
ask f s = (f s, s)

-- a call on the machine
abbrev pub on_machine : {A : Type 0} → M A → S A
on_machine f s = let r = f s.machine in (map_err machine_error r.0, record s { machine = r.1 })

abbrev pub enter : RecordPhase → S (Unit {0})
enter p s = (ok tt, record s { phase = p })

-- the maxima of the variable reservations
unfoldable pub maximums_of : BTreeMap String Reservation → BTreeMap String ℕ
maximums_of [] = []
maximums_of ((name, r) ∷ rest) = (name, r.maximum) ∷ maximums_of rest

-- what of a maximum was not used
abbrev pub released_of : BTreeMap String ℕ → String × ℕ → Result String (String × ℕ)
released_of actual (name, maximum) =
    and_then
      (ok_or ("actual usage exceeds maximum for " +++ name)
        (checked_sub maximum (or_zero (lookup name actual))))
      λ released. ok (name, released)

module _ (e : Evidence) where
  -- `Machine::pending_budget_evidence`
  unfoldable pub pending_budget_evidence : Machine → Result MachineError Json
  unfolding maximums_of
  pending_budget_evidence m =
      and_then (ok_or no_pending_effect m.snapshot.pending_effect) λ pending. ok (
        json_object (
          ("before", e.budget_json pending.budget_before)
          ∷ ("count_reservation", e.reservation_json pending.reservation)
          ∷ ("variable_reservations", e.reservations_json pending.usage_reservations)
          ∷ ("variable_maximums", e.amounts_json (maximums_of pending.usage_reservations))
          ∷ ("after_reservation", e.budget_json m.snapshot.budget)
          ∷ []))

  -- `budget_settlement_evidence`
  unfoldable pub budget_settlement_evidence :
      BTreeMap String ℕ → BTreeMap String ℕ → Json → Result String Json
  budget_settlement_evidence maximums actual after_value =
      and_then (map_m (released_of actual) maximums) λ released. ok (
        json_object (
          ("count_actual", e.amount_json 1)
          ∷ ("count_released", e.amount_json 0)
          ∷ ("variable_actual", e.amounts_json actual)
          ∷ ("variable_released", e.amounts_json released)
          ∷ ("after_settlement", after_value)
          ∷ []))

module _ (x : Externals) (e : Evidence) (depth : ℕ) (runtime_version : String) where
  -- `trace.append(..)?`
  unfoldable pub record_entry : String → Json → S (Unit {0})
  record_entry kind payload s =
      let r = append x.codec e.entry_value kind payload s.trace in
      (map_err trace_error r.0, record s { trace = r.1 })

  -- `append_audit_events`
  unfoldable pub append_audit_events : List AuditEvent → S (Unit {0})
  append_audit_events [] = give tt
  append_audit_events (a ∷ rest) = do record_entry a.kind a.payload; append_audit_events rest

  -- `append_audit_events(&mut self.trace, self.machine.take_audit_events())?`
  unfoldable pub drain_audit_events : S (Unit {0})
  drain_audit_events s =
      append_audit_events s.machine.audit_events
        (record s { machine = (take_audit_events s.machine).1 })

  -- `to_value`
  abbrev pub data_of : Result String Json → Result RunError Json
  data_of r = map_err data_error r

  -- what a step of the loop does: it ends the call, or goes on
  abbrev pub after_step : S RecordPhase → Step → S RecordPhase
  after_step again continue = again
  after_step again (yield request) = do
    payload ← ask (λ s. data_of (e.request_value request))
    record_entry "effect_requested" payload
    enter (awaiting_admission request)
    give (awaiting_admission request)
  after_step again (completed outcome) = do
    state ← ask (λ s. data_of (e.state_value outcome.state))
    record_entry "state_committed" state
    payload ← ask (λ s. data_of (e.outcome_value outcome))
    record_entry "run_completed" payload
    enter (completed_with outcome)
    give (completed_with outcome)
  after_step again (failed why) = ask (λ s. err (machine_error why))

  -- `self.machine.step()`
  abbrev pub step_machine : S Step
  step_machine s = let r = step x depth s.machine in (ok r.0, record s { machine = r.1 })

  -- the loop of `progress`, with a bound on its steps
  unfoldable pub progress_loop : ℕ → S RecordPhase
  progress_loop zero = ask (λ s. err out_of_steps)
  progress_loop (suc bound) = do
    next ← step_machine
    drain_audit_events
    after_step (progress_loop bound) next

  abbrev pub progress_from : ℕ → RecordPhase → S RecordPhase
  progress_from bound running = progress_loop bound
  progress_from bound phase = give phase

  -- `RecordSession::progress`
  unfoldable pub progress : ℕ → S RecordPhase
  unfolding progress_loop
  progress bound s = progress_from bound s.phase s

  abbrev pub admission_of : String → RecordPhase → Result RunError EffectRequest
  admission_of hash (awaiting_admission request) =
      if str_eq request.request_hash hash then ok request else err session_phase
  admission_of hash _ = err session_phase

  abbrev pub push_snapshot : MachineSnapshot → S (Unit {0})
  push_snapshot taken s = (ok tt, record s { snapshots = s.snapshots ++ taken ∷ [] })

  abbrev pub bind_checkpoint : ℕ × String → S (Unit {0})
  bind_checkpoint (position, hash) s =
      (ok tt, record s { machine = set_trace_checkpoint position hash s.machine })

  -- `RecordSession::admit`
  unfoldable pub admit : String → BTreeMap String ℕ → S AdmittedEffect
  admit request_hash maximums = do
    request ← ask (λ s. admission_of request_hash s.phase)
    on_machine (reserve_pending_usage maximums)
    budgeted ← ask (λ s. map_err machine_error (pending_budget_evidence e s.machine))
    record_entry "budget_reserved" budgeted
    point ← ask (λ s. map_err trace_error (checkpoint x.codec e.entry_value s.trace))
    bind_checkpoint point
    taken ← ask (λ s. map_err machine_error (snapshot x runtime_version e.snapshot_value s.machine))
    hash ← ask (λ s.
        map_err (λ c. data_error (canonical_message c))
          (canonical_sha256 x.codec (e.snapshot_value taken)))
    record_entry "snapshot_written" (json_object (("snapshot_hash", string hash) ∷ []))
    push_snapshot taken
    let admitted : AdmittedEffect = record {
      request = request;
      maximums = maximums;
      snapshot = taken;
      snapshot_hash = hash;
      trace_position = point.0;
      trace_hash = point.1;
    }
    enter (awaiting_resolution admitted)
    give admitted

  abbrev pub resolution_of : String → RecordPhase → Result RunError AdmittedEffect
  resolution_of hash (awaiting_resolution admitted) =
      if str_eq admitted.request.request_hash hash then ok admitted else err session_phase
  resolution_of hash _ = err session_phase

  -- `self.machine.budget_evidence()?` and what is made of it
  abbrev pub settled_evidence :
      BTreeMap String ℕ → BTreeMap String ℕ → RecordSession → Result RunError Json
  settled_evidence maximums actual s =
      and_then
        (map_err (λ t. machine_error (serialization_failure t))
          (e.budget_value s.machine.snapshot.budget))
        λ after_value. map_err data_error (budget_settlement_evidence e maximums actual after_value)

  -- `RecordSession::resolve`
  unfoldable pub resolve : EffectResolution → S (Unit {0})
  resolve resolution = do
    admitted ← ask (λ s. resolution_of resolution.request_hash s.phase)
    payload ← ask (λ s. data_of (e.resolution_value resolution))
    record_entry "effect_resolved" payload
    on_machine (supply x depth resolution)
    drain_audit_events
    settled ← ask (settled_evidence admitted.maximums resolution.actual_usage)
    record_entry "budget_settled" settled
    enter running
