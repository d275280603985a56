-- ===== src/Session/Kept.antt =====
-- What the methods of `RecordSession` in run.rs keep, whether they succeed or fail.
use aster_lang.Base.{ℕ, zero, suc, String, ◌≡◌, refl, List, [], ◌∷◌, arith, inl, inr}
use aster_lang.Base.Maps.{BTreeMap}
use aster_lang.Base.Outcome.{Result, ok, err, Result-cases}
use aster_lang.Json.{Json}
use aster_lang.Trace.{Trace, verify, append}
use aster_lang.Trace.Chain.{verify-append}
use aster_lang.Machine.Decode.{Externals}
use aster_lang.Machine.State.{
  MachineSnapshot, M, AuditEvent, EffectResolution, Step, continue, yield, completed, failed,
}
use aster_lang.Machine.Follows.{Follows, Follows-IsPreorder, Safe, identity_of}
use aster_lang.Machine.Follows.Runs.{step-Follows, Safe-supply, Safe-reserve_pending_usage}
use aster_lang.Session.{
  RecordPhase, running, awaiting_admission, awaiting_resolution, completed_with, RecordSession,
  RunError, Evidence, S, after, ◌>>=◌, give, ask, on_machine, enter, record_entry,
  append_audit_events, drain_audit_events, after_step, step_machine, progress_loop, progress,
  progress_from, push_snapshot, bind_checkpoint, admit, resolve,
}

module _ (x : Externals) (e : Evidence) where
  IsVerified : Trace → Type 0
  IsVerified t = verify x.codec e.entry_value t ≡ ok tt

  -- What goes from one session to the next.
  pub record Keeps (s s' : RecordSession) : Type 0 where
    pub verified :
        verify x.codec e.entry_value s.trace ≡ ok tt → verify x.codec e.entry_value s'.trace ≡ ok tt
    pub follows : Follows x s.machine s'.machine

  stays : (s : RecordSession) → Keeps s s
  stays s = record { verified = λ v. v; follows = (Follows-IsPreorder x).stay s.machine }

  Keeps-then : (s t u : RecordSession) → Keeps s t → Keeps t u → Keeps s u
  Keeps-then s t u p q = record {
    verified = λ v. q.verified (p.verified v);
    follows = (Follows-IsPreorder x).then p.follows q.follows;
  }

  pub record IsKeeper {A : Type 0} (k : S A) : Type 0 where
    pub at : (s : RecordSession) → Keeps s (k s).1

  after-Keeps :
      {A B : Type 0} (f : A → S B) (r : Result RunError A × RecordSession)
      → ((a : A) → IsKeeper (f a))
      → Keeps r.1 (after r f).1
  after-Keeps f (ok a, s) h = (h a).at s
  after-Keeps f (err why, s) h = stays s

  bind-IsKeeper :
      {A B : Type 0} (k : S A) (f : A → S B)
      → IsKeeper k
      → ((a : A) → IsKeeper (f a))
      → IsKeeper (k >>= f)
  unfolding ◌>>=◌
  bind-IsKeeper k f p q = record {
    at = λ s. Keeps-then s (k s).1 (after (k s) f).1 (p.at s) (after-Keeps f (k s) q);
  }

  ask-IsKeeper :
      {A B : Type 0} (r : RecordSession → Result RunError A) (f : A → S B)
      → ((a : A) → IsKeeper (f a))
      → IsKeeper (ask r >>= f)
  ask-IsKeeper r f q = bind-IsKeeper (ask r) f (record { at = λ s. stays s }) q

  give-IsKeeper : {A : Type 0} (a : A) → IsKeeper (give a)
  give-IsKeeper a = record { at = λ s. stays s }

  on_machine-IsKeeper : {A : Type 0} (f : M A) → Safe x f → IsKeeper (on_machine f)
  on_machine-IsKeeper f h = record {
    at = λ s. record { verified = λ v. v; follows = h.at s.machine };
  }

  enter-IsKeeper : (p : RecordPhase) → IsKeeper (enter p)
  enter-IsKeeper p = record {
    at = λ s. record { verified = λ v. v; follows = (Follows-IsPreorder x).stay s.machine };
  }

  -- An append keeps the trace verified, also where it fails.
  pub append_any :
      (kind : String) (payload : Json) (t : Trace)
      → verify x.codec e.entry_value t ≡ ok tt
      → verify x.codec e.entry_value (append x.codec e.entry_value kind payload t).1 ≡ ok tt
  unfolding append
  append_any kind payload t v =
      elim (Result-cases (append x.codec e.entry_value kind payload t).0) [
        | inl (u, done) ↦
            verify-append x.codec e.entry_value kind payload t
              (append x.codec e.entry_value kind payload t).1 v (ground arith)
        | inr (why, refused) ↦ ground arith
      ]

  module _ (depth : ℕ) (runtime_version : String) where
    entry-IsKeeper :
        (kind : String) (payload : Json)
        → IsKeeper (record_entry x e depth runtime_version kind payload)
    unfolding record_entry
    entry-IsKeeper kind payload = record {
      at = λ s. record {
        verified = append_any kind payload s.trace;
        follows = (Follows-IsPreorder x).stay s.machine;
      };
    }

    events-IsKeeper :
        (events : List AuditEvent) → IsKeeper (append_audit_events x e depth runtime_version events)
    unfolding append_audit_events
    events-IsKeeper [] = give-IsKeeper tt
    events-IsKeeper (a ∷ rest) =
        bind-IsKeeper _ _ (entry-IsKeeper a.kind a.payload) λ _. events-IsKeeper rest

    emptied : RecordSession → RecordSession
    emptied s = record s { machine = record s.machine { audit_events = [] } }

    emptied-Keeps : (s : RecordSession) → Keeps s (emptied s)
    unfolding emptied
    emptied-Keeps s = record {
      verified = λ v. v;
      follows = record {
        same_program = refl;
        same_identity = refl;
        same_state = refl;
        accounted = λ limits a. a;
        authority_calls = λ start c. c;
      };
    }

    drain-IsKeeper : IsKeeper (drain_audit_events x e depth runtime_version)
    unfolding drain_audit_events emptied
    drain-IsKeeper = record {
      at = λ s.
          Keeps-then s (emptied s) _ (emptied-Keeps s)
            ((events-IsKeeper s.machine.audit_events).at (emptied s));
    }

    step-IsKeeper : IsKeeper (step_machine x e depth runtime_version)
    step-IsKeeper = record {
      at = λ s. record { verified = λ v. v; follows = step-Follows x depth s.machine };
    }

    after_step-IsKeeper :
        (again : S RecordPhase) (next : Step)
        → IsKeeper again
        → IsKeeper (after_step x e depth runtime_version again next)
    after_step-IsKeeper again continue h = h
    after_step-IsKeeper again (yield request) h = ask-IsKeeper _ _ λ payload.
        bind-IsKeeper _ _ (entry-IsKeeper _ payload)
          λ _. bind-IsKeeper _ _ (enter-IsKeeper _) λ _. give-IsKeeper _
    after_step-IsKeeper again (completed outcome) h = ask-IsKeeper _ _ λ state.
        bind-IsKeeper _ _ (entry-IsKeeper _ state) λ _. ask-IsKeeper _ _ λ payload.
          bind-IsKeeper _ _ (entry-IsKeeper _ payload)
            λ _. bind-IsKeeper _ _ (enter-IsKeeper _) λ _. give-IsKeeper _
    after_step-IsKeeper again (failed why) h = record { at = λ s. stays s }

    loop-IsKeeper : (bound : ℕ) → IsKeeper (progress_loop x e depth runtime_version bound)
    unfolding progress_loop
    loop-IsKeeper zero = record { at = λ s. stays s }
    loop-IsKeeper (suc bound) = bind-IsKeeper _ _ step-IsKeeper λ next.
        bind-IsKeeper _ _ drain-IsKeeper λ _. after_step-IsKeeper _ next (loop-IsKeeper bound)

    from-Keeps :
        (bound : ℕ) (phase : RecordPhase)
        → IsKeeper (progress_from x e depth runtime_version bound phase)
    from-Keeps bound running = loop-IsKeeper bound
    from-Keeps bound (awaiting_admission r) = give-IsKeeper _
    from-Keeps bound (awaiting_resolution a) = give-IsKeeper _
    from-Keeps bound (completed_with o) = give-IsKeeper _

    pub progress-Keeps :
        (bound : ℕ) (s : RecordSession) → Keeps s (progress x e depth runtime_version bound s).1
    unfolding progress
    progress-Keeps bound s = (from-Keeps bound s.phase).at s

    checkpoint-IsKeeper :
        (point : ℕ × String) → IsKeeper (bind_checkpoint x e depth runtime_version point)
    checkpoint-IsKeeper (position, hash) = record {
      at = λ s. record {
        verified = λ v. v;
        follows = record {
          same_program = refl;
          same_identity = refl;
          same_state = refl;
          accounted = λ limits a. a;
          authority_calls = λ start c. c;
        };
      };
    }

    push-IsKeeper :
        (taken : MachineSnapshot) → IsKeeper (push_snapshot x e depth runtime_version taken)
    push-IsKeeper taken = record {
      at = λ s. record { verified = λ v. v; follows = (Follows-IsPreorder x).stay s.machine };
    }

    pub admit-IsKeeper :
        (request_hash : String) (maximums : BTreeMap String ℕ)
        → IsKeeper (admit x e depth runtime_version request_hash maximums)
    unfolding admit
    admit-IsKeeper request_hash maximums = ask-IsKeeper _ _ λ request.
        bind-IsKeeper _ _ (on_machine-IsKeeper _ (Safe-reserve_pending_usage x maximums)) λ _.
          ask-IsKeeper _ _ λ budgeted. bind-IsKeeper _ _ (entry-IsKeeper _ budgeted) λ _.
            ask-IsKeeper _ _ λ point. bind-IsKeeper _ _ (checkpoint-IsKeeper point) λ _.
              ask-IsKeeper _ _ λ taken. ask-IsKeeper _ _ λ hash.
                bind-IsKeeper _ _ (entry-IsKeeper _ _) λ _.
                  bind-IsKeeper _ _ (push-IsKeeper taken)
                    λ _. bind-IsKeeper _ _ (enter-IsKeeper _) λ _. give-IsKeeper _

    pub resolve-IsKeeper :
        (resolution : EffectResolution) → IsKeeper (resolve x e depth runtime_version resolution)
    unfolding resolve
    resolve-IsKeeper resolution = ask-IsKeeper _ _ λ admitted. ask-IsKeeper _ _ λ payload.
        bind-IsKeeper _ _ (entry-IsKeeper _ payload) λ _.
          bind-IsKeeper _ _ (on_machine-IsKeeper _ (Safe-supply x depth resolution)) λ _.
            bind-IsKeeper _ _ drain-IsKeeper λ _.
              ask-IsKeeper _ _
                λ settled. bind-IsKeeper _ _ (entry-IsKeeper _ settled) λ _. enter-IsKeeper running

    -- The sessions that a sequence of calls, failing ones included, leads to.
    pub data Sessions (start : RecordSession) : RecordSession → Type 0 where
      here : Sessions start start
      progresses :
          {s : RecordSession} (bound : ℕ)
          → Sessions start s
          → Sessions start (progress x e depth runtime_version bound s).1
      admits :
          {s : RecordSession} (request_hash : String) (maximums : BTreeMap String ℕ)
          → Sessions start s
          → Sessions start (admit x e depth runtime_version request_hash maximums s).1
      resolves :
          {s : RecordSession} (resolution : EffectResolution)
          → Sessions start s
          → Sessions start (resolve x e depth runtime_version resolution s).1

    Sessions-Keeps : (start s : RecordSession) → Sessions start s → Keeps start s
    Sessions-Keeps start s here = stays start
    Sessions-Keeps start s (progresses {s = t} bound c) =
        Keeps-then start t s (Sessions-Keeps start t c) (progress-Keeps bound t)
    Sessions-Keeps start s (admits {s = t} request_hash maximums c) =
        Keeps-then start t s (Sessions-Keeps start t c)
          ((admit-IsKeeper request_hash maximums).at t)
    Sessions-Keeps start s (resolves {s = t} resolution c) =
        Keeps-then start t s (Sessions-Keeps start t c) ((resolve-IsKeeper resolution).at t)

    -- Where a session starts with a trace that verifies, every sequence of calls of `progress`,
    -- `admit` and `resolve`, failing ones included, leaves one, and the machine has the program,
    -- the identity and the published state that it had.
    pub Sessions-verify :
        (start s : RecordSession)
        → verify x.codec e.entry_value start.trace ≡ ok tt
        → Sessions start s
        → (verify x.codec e.entry_value s.trace ≡ ok tt)
          × (s.machine.program ≡ start.machine.program)
          × (identity_of s.machine.snapshot ≡ identity_of start.machine.snapshot)
          × (s.machine.snapshot.current_state ≡ start.machine.snapshot.current_state)
    Sessions-verify start s v c =
        let k = Sessions-Keeps start s c in
        (k.verified v, k.follows.same_program, k.follows.same_identity, k.follows.same_state)
