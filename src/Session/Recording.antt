-- ===== src/Session/Recording.antt =====
-- `record_run` of crates/aster-runtime/src/run.rs: a driver answers the effects of a session until
-- the event completes. The loop has a bound on its rounds, as `progress` has on its steps. The
-- proofs are in the module below.
pub mod Evidenced
use aster_lang.Base.{ℕ, zero, suc, String, Option, none, some, List}
use aster_lang.Base.Outcome.{Result, ok, err, map_err}
use aster_lang.Fixture.{FixturePreview, DriverError}
use aster_lang.Trace.{Trace}
use aster_lang.Ir.{Program}
use aster_lang.Machine.Decode.{Externals}
use aster_lang.Machine.State.{EffectRequest, EffectResolution, MachineSnapshot, RunOutcome}
use aster_lang.Machine.Start.{StartRequest}
use aster_lang.Session.{
  AdmittedEffect, RecordPhase, running, awaiting_admission, awaiting_resolution, completed_with,
  RecordSession, RunError, driver_error, session_phase, out_of_steps, Evidence, progress, admit,
  resolve,
}
use aster_lang.Session.Opening.{RecordFailure, Inputs, record_failure, start_evidenced}

-- `EffectDriver`: `preview` does not change the driver.
pub record EffectDriver (D : Type 0) : Type 0 where
  pub preview : D → EffectRequest → Result DriverError FixturePreview
  pub resolve : EffectRequest → FixturePreview → D → Result DriverError EffectResolution × D

-- `RecordResult`
pub record RecordResult : Type 0 where
  pub outcome : RunOutcome
  pub trace : Trace
  pub snapshots : List MachineSnapshot

-- `RecordSession::finish`
abbrev pub finish : RecordSession → RunOutcome → RecordResult
finish s outcome = record { outcome = outcome; trace = s.trace; snapshots = s.snapshots }

module _ (x : Externals) (e : Evidence) (depth : ℕ) (runtime_version : String) (i : Inputs)
    (bound : ℕ) {D : Type 0} (driver : EffectDriver D) where
  -- what the recording returns, and the driver as it leaves it
  abbrev pub Recorded : Type 0
  Recorded = Result RecordFailure RecordResult × D

  -- `session.fail(error)`
  abbrev pub fail : RecordSession → RunError → RecordFailure
  fail s why = record_failure x e depth runtime_version i why s.trace s.snapshots

  abbrev pub Again : Type 0
  Again = Option FixturePreview → RecordSession → D → Recorded

  abbrev pub after_admit :
      Again → FixturePreview → D → Result RunError AdmittedEffect × RecordSession → Recorded
  after_admit again found d (ok admitted, s) = again (some found) s d
  after_admit again found d (err why, s) = (err (fail s why), d)

  abbrev pub after_preview :
      Again → EffectRequest → RecordSession → D → Result DriverError FixturePreview → Recorded
  after_preview again request s d (ok found) =
      after_admit again found d
        (admit x e depth runtime_version request.request_hash found.max_usage s)
  after_preview again request s d (err why) = (err (fail s (driver_error why)), d)

  abbrev pub after_resolve : Again → D → Result RunError (Unit {0}) × RecordSession → Recorded
  after_resolve again d (ok u, s) = again none s d
  after_resolve again d (err why, s) = (err (fail s why), d)

  abbrev pub after_driver :
      Again → RecordSession → Result DriverError EffectResolution × D → Recorded
  after_driver again s (ok resolution, d) =
      after_resolve again d (resolve x e depth runtime_version resolution s)
  after_driver again s (err why, d) = (err (fail s (driver_error why)), d)

  -- the body of the loop, once the session has made progress; `running` is no progress
  abbrev pub after_progress :
      Again → Option FixturePreview → D → Result RunError RecordPhase × RecordSession → Recorded
  after_progress again previewed d (err why, s) = (err (fail s why), d)
  after_progress again previewed d (ok running, s) = (err (fail s session_phase), d)
  after_progress again previewed d (ok (awaiting_admission request), s) =
      after_preview again request s d (driver.preview d request)
  after_progress again none d (ok (awaiting_resolution admitted), s) =
      (err (fail s session_phase), d)
  after_progress again (some found) d (ok (awaiting_resolution admitted), s) =
      after_driver again s (driver.resolve admitted.request found d)
  after_progress again previewed d (ok (completed_with outcome), s) = (ok (finish s outcome), d)

  unfoldable pub record_loop : ℕ → Again
  record_loop zero previewed s d = (err (fail s out_of_steps), d)
  record_loop (suc rounds) previewed s d =
      after_progress (record_loop rounds) previewed d (progress x e depth runtime_version bound s)

  abbrev pub begin_recording : ℕ → D → Result RecordFailure RecordSession → Recorded
  begin_recording rounds d (err why) = (err why, d)
  begin_recording rounds d (ok s) = record_loop rounds none s d

  -- `record_run_evidenced`
  unfoldable pub record_run_evidenced : ℕ → Program → StartRequest → D → Recorded
  unfolding record_loop
  record_run_evidenced rounds program request d =
      begin_recording rounds d (start_evidenced x e depth runtime_version i program request)

  abbrev pub error_only : Recorded → Result RunError RecordResult × D
  error_only (r, d) = (map_err (λ f. f.error) r, d)

  -- `record_run`
  unfoldable pub record_run : ℕ → Program → StartRequest → D → Result RunError RecordResult × D
  unfolding record_run_evidenced
  record_run rounds program request d = error_only (record_run_evidenced rounds program request d)
