-- ===== src/Session/Once.antt =====
-- The answers that `RecordSession::resolve` of run.rs takes, over the calls that follow one.
use aster_lang.Base.{ℕ, zero, suc, String, ◌≡◌, refl, ap, arith, Bool, true, false, List, [], ◌∷◌}
use aster_lang.Base.Maps.{BTreeMap}
use aster_lang.Base.Outcome.{Result, ok, err}
use aster_lang.Json.{Json}
use aster_lang.Machine.Decode.{Externals}
use aster_lang.Machine.State.{
  AuditEvent, EffectResolution, Step, continue, yield, completed, failed,
}
use aster_lang.Session.{
  AdmittedEffect, RecordPhase, running, awaiting_admission, awaiting_resolution, completed_with,
  RecordSession, RunError, session_phase, Evidence, S, after, ◌>>=◌, give, ask, enter, record_entry,
  append_audit_events, drain_audit_events, after_step, progress_loop, progress, progress_from,
  resolution_of, admit, resolve,
}
use aster_lang.Session.Phases.{resolve-running}

-- whether a session in the phase waits for an answer
abbrev waits_for_answer : RecordPhase → Bool
waits_for_answer (awaiting_resolution a) = true
waits_for_answer _ = false

abbrev IsClosed : RecordSession → Type 0
IsClosed s = waits_for_answer s.phase ≡ false

-- A call leaves closed what was closed, whatever it gives.
record Closes {A : Type 0} (k : S A) : Type 0 where
  at : (s : RecordSession) → IsClosed s → IsClosed (k s).1

-- A call that fails does.
record Fails {A : Type 0} (k : S A) : Type 0 where
  at : (s s' : RecordSession) (why : RunError) → k s ≡ (err why, s') → IsClosed s → IsClosed s'

module _ {A B : Type 0} where
  after-IsClosed :
      (f : A → S B) (r : Result RunError A × RecordSession)
      → ((a : A) → Closes (f a))
      → IsClosed r.1
      → IsClosed (after r f).1
  after-IsClosed f (ok a, s) h c = (h a).at s c
  after-IsClosed f (err why, s) h c = c

  bind-Closes : (k : S A) (f : A → S B) → Closes k → ((a : A) → Closes (f a)) → Closes (k >>= f)
  unfolding ◌>>=◌
  bind-Closes k f p q = record { at = λ s c. after-IsClosed f (k s) q (p.at s c) }

  ask-Closes :
      (r : RecordSession → Result RunError A) (f : A → S B)
      → ((a : A) → Closes (f a))
      → Closes (ask r >>= f)
  ask-Closes r f q = bind-Closes (ask r) f (record { at = λ s c. c }) q

  after-Fails :
      (f : A → S B) (r : Result RunError A × RecordSession) (s' : RecordSession) (why : RunError)
      → ((a : A) → Fails (f a))
      → after r f ≡ (err why, s')
      → IsClosed r.1
      → IsClosed s'
  after-Fails f (ok a, s) s' why h e c = (h a).at s s' why e c
  after-Fails f (err w, s) s' why h e c = ground arith

  bind-Fails : (k : S A) (f : A → S B) → Closes k → ((a : A) → Fails (f a)) → Fails (k >>= f)
  unfolding ◌>>=◌
  bind-Fails k f p q = record { at = λ s s' why e c. after-Fails f (k s) s' why q e (p.at s c) }

  ask-Fails :
      (r : RecordSession → Result RunError A) (f : A → S B)
      → ((a : A) → Fails (f a))
      → Fails (ask r >>= f)
  ask-Fails r f q = bind-Fails (ask r) f (record { at = λ s c. c }) q

enters-Fails : {A : Type 0} (p : RecordPhase) (a : A) → Fails (enter p >>= λ _. give a)
unfolding ◌>>=◌
enters-Fails p a = record { at = λ s s' why e c. cc }

module _ (x : Externals) (e : Evidence) (depth : ℕ) (runtime_version : String) where
  entry-Closes :
      (kind : String) (payload : Json)
      → Closes (record_entry x e depth runtime_version kind payload)
  unfolding record_entry
  entry-Closes kind payload = record { at = λ s c. c }

  events-Closes :
      (events : List AuditEvent) → Closes (append_audit_events x e depth runtime_version events)
  unfolding append_audit_events
  events-Closes [] = record { at = λ s c. c }
  events-Closes (a ∷ rest) = bind-Closes _ _ (entry-Closes a.kind a.payload) λ _. events-Closes rest

  drain-Closes : Closes (drain_audit_events x e depth runtime_version)
  unfolding drain_audit_events
  drain-Closes = record { at = λ s c. (events-Closes s.machine.audit_events).at _ c }

  after_step-Closes :
      (again : S RecordPhase) (next : Step)
      → Closes again
      → Closes (after_step x e depth runtime_version again next)
  after_step-Closes again continue h = h
  after_step-Closes again (yield request) h = ask-Closes _ _ λ payload.
      bind-Closes _ _ (entry-Closes _ payload)
        λ _. bind-Closes _ _ (record { at = λ s c. refl }) λ _. record { at = λ s c. c }
  after_step-Closes again (completed outcome) h = ask-Closes _ _ λ state.
      bind-Closes _ _ (entry-Closes _ state) λ _. ask-Closes _ _ λ payload.
        bind-Closes _ _ (entry-Closes _ payload)
          λ _. bind-Closes _ _ (record { at = λ s c. refl }) λ _. record { at = λ s c. c }
  after_step-Closes again (failed why) h = record { at = λ s c. c }

  loop-Closes : (bound : ℕ) → Closes (progress_loop x e depth runtime_version bound)
  unfolding progress_loop
  loop-Closes zero = record { at = λ s c. c }
  loop-Closes (suc bound) =
      bind-Closes _ _ (record { at = λ s c. c })
        λ next. bind-Closes _ _ drain-Closes λ _. after_step-Closes _ next (loop-Closes bound)

  from-Closes :
      (bound : ℕ) (phase : RecordPhase)
      → Closes (progress_from x e depth runtime_version bound phase)
  from-Closes bound running = loop-Closes bound
  from-Closes bound (awaiting_admission r) = record { at = λ s c. c }
  from-Closes bound (awaiting_resolution a) = record { at = λ s c. c }
  from-Closes bound (completed_with o) = record { at = λ s c. c }

  progress-Closes : (bound : ℕ) → Closes (progress x e depth runtime_version bound)
  unfolding progress
  progress-Closes bound = record { at = λ s c. (from-Closes bound s.phase).at s c }

  admit-Fails :
      (request_hash : String) (maximums : BTreeMap String ℕ)
      → Fails (admit x e depth runtime_version request_hash maximums)
  unfolding admit
  admit-Fails request_hash maximums = ask-Fails _ _ λ request.
      bind-Fails _ _ (record { at = λ s c. c })
        λ _. ask-Fails _ _ λ budgeted. bind-Fails _ _ (entry-Closes _ budgeted) λ _.
          ask-Fails _ _ λ point.
            bind-Fails _ _ (record { at = λ s c. c })
              λ _. ask-Fails _ _ λ taken. ask-Fails _ _ λ hash.
                bind-Fails _ _ (entry-Closes _ _)
                  λ _. bind-Fails _ _ (record { at = λ s c. c }) λ _. enters-Fails _ _

  resolve-Closes :
      (resolution : EffectResolution) → Closes (resolve x e depth runtime_version resolution)
  unfolding resolve
  resolve-Closes resolution = ask-Closes _ _ λ admitted. ask-Closes _ _ λ payload.
      bind-Closes _ _ (entry-Closes _ payload) λ _.
        bind-Closes _ _ (record { at = λ s c. c })
          λ _. bind-Closes _ _ drain-Closes λ _.
            ask-Closes _ _
              λ settled. bind-Closes _ _ (entry-Closes _ settled) λ _. record { at = λ s c. refl }

  -- The sessions that calls lead to, failing ones included, where no admission succeeds.
  pub data Unadmitted (start : RecordSession) : RecordSession → Type 0 where
    here : Unadmitted start start
    progresses :
        {s : RecordSession} (bound : ℕ)
        → Unadmitted start s
        → Unadmitted start (progress x e depth runtime_version bound s).1
    refused :
        {s s' : RecordSession} {why : RunError} (request_hash : String)
        (maximums : BTreeMap String ℕ)
        → Unadmitted start s
        → admit x e depth runtime_version request_hash maximums s ≡ (err why, s')
        → Unadmitted start s'
    resolves :
        {s : RecordSession} (resolution : EffectResolution)
        → Unadmitted start s
        → Unadmitted start (resolve x e depth runtime_version resolution s).1

  Unadmitted-IsClosed : {start s : RecordSession} → Unadmitted start s → IsClosed start → IsClosed s
  Unadmitted-IsClosed here c = c
  Unadmitted-IsClosed (progresses bound u) c =
      (progress-Closes bound).at _ (Unadmitted-IsClosed u c)
  Unadmitted-IsClosed (refused {s} {s'} {why} request_hash maximums u failed_so) c =
      (admit-Fails request_hash maximums).at s s' why failed_so (Unadmitted-IsClosed u c)
  Unadmitted-IsClosed (resolves resolution u) c =
      (resolve-Closes resolution).at _ (Unadmitted-IsClosed u c)

  closed-resolution_of :
      (hash : String) (phase : RecordPhase)
      → waits_for_answer phase ≡ false
      → resolution_of x e depth runtime_version hash phase ≡ err session_phase
  closed-resolution_of hash running c = refl
  closed-resolution_of hash (awaiting_admission r) c = refl
  closed-resolution_of hash (awaiting_resolution a) c = cc
  closed-resolution_of hash (completed_with o) c = refl

  refuses :
      (s : RecordSession) (other : EffectResolution)
      → IsClosed s
      → resolve x e depth runtime_version other s ≡ (err session_phase, s)
  unfolding resolve ◌>>=◌
  refuses s other c = rw (closed-resolution_of other.request_hash s.phase c) refl

  -- An answer that `resolve` takes is to the effect that was admitted last. After it, whatever
  -- calls follow, every answer is refused and changes nothing until an admission succeeds.
  pub resolve-once :
      (resolution other : EffectResolution) (s s' s'' : RecordSession)
      → resolve x e depth runtime_version resolution s ≡ (ok tt, s')
      → Unadmitted s' s''
      → (admitted : AdmittedEffect) × (s.phase ≡ awaiting_resolution admitted)
        × (admitted.request.request_hash ≡ resolution.request_hash)
        × (resolve x e depth runtime_version other s'' ≡ (err session_phase, s''))
  resolve-once resolution other s s' s'' h u =
      let (admitted, waits, same, runs) =
        resolve-running x e depth runtime_version resolution s s' h in
      (admitted, waits, same, refuses s'' other (Unadmitted-IsClosed u (ap waits_for_answer runs)))
