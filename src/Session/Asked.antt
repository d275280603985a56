-- ===== src/Session/Asked.antt =====
-- `RecordSession::progress` of run.rs, and the machine of a session that it brings to an admission.
use aster_lang.Base.{ℕ, zero, suc, String, ◌≡◌, refl, sym, ap, ◌∙◌, subst, arith, List, [], ◌∷◌}
use aster_lang.Base.Outcome.{Result, ok, err}
use aster_lang.Json.{Json}
use aster_lang.Machine.Decode.{Externals}
use aster_lang.Machine.State.{
  Machine, AuditEvent, EffectRequest, Step, continue, yield, completed, failed,
}
use aster_lang.Machine.Waits.{WaitsWith, WaitsAfter, step-WaitsAfter}
use aster_lang.Session.{
  RecordPhase, running, awaiting_admission, awaiting_resolution, completed_with, RecordSession,
  RunError, Evidence, S, after, ◌>>=◌, record_entry, append_audit_events, drain_audit_events,
  after_step, progress_loop, progress, progress_from,
}
use aster_lang.Session.Phases.{past, past_ask}

-- The session waits for the admission of a request, and its machine waits with that request.
pub record Asks (s : RecordSession) (request : EffectRequest) : Type 0 where
  pub waits : WaitsWith s.machine request
  pub phase : s.phase ≡ awaiting_admission request

emptied : Machine → Machine
emptied m = record m { audit_events = [] }

emptied-WaitsAfter : (next : Step) (m : Machine) → WaitsAfter next m → WaitsAfter next (emptied m)
unfolding emptied
emptied-WaitsAfter continue m w = tt
emptied-WaitsAfter (yield r) m w = record {
  pending = w.pending;
  waits = w.waits;
  same_request = w.same_request;
}
emptied-WaitsAfter (completed o) m w = tt
emptied-WaitsAfter (failed e) m w = tt

abbrev WaitsMoved : Result RunError Step × RecordSession → Type 0
WaitsMoved (ok next, s) = WaitsAfter next s.machine
WaitsMoved (err why, s) = Unit {0}

module _ (x : Externals) (e : Evidence) (depth : ℕ) (runtime_version : String) where
  entry-machine :
      (kind : String) (payload : Json) (s : RecordSession)
      → (record_entry x e depth runtime_version kind payload s).1.machine ≡ s.machine
  unfolding record_entry
  entry-machine kind payload s = refl

  after-machine :
      (f : (Unit {0}) → S (Unit {0})) (r : Result RunError (Unit {0}) × RecordSession)
      → ((s : RecordSession) → (f tt s).1.machine ≡ s.machine)
      → (after r f).1.machine ≡ r.1.machine
  after-machine f (ok u, s) h = h s
  after-machine f (err why, s) h = refl

  events-machine :
      (events : List AuditEvent) (s : RecordSession)
      → (append_audit_events x e depth runtime_version events s).1.machine ≡ s.machine
  unfolding append_audit_events ◌>>=◌
  events-machine [] s = refl
  events-machine (a ∷ rest) s =
      after-machine _ (record_entry x e depth runtime_version a.kind a.payload s)
        (events-machine rest)
      ∙ entry-machine a.kind a.payload s

  drain-machine :
      (s : RecordSession)
      → (drain_audit_events x e depth runtime_version s).1.machine ≡ emptied s.machine
  unfolding drain_audit_events emptied
  drain-machine s = events-machine s.machine.audit_events _

  drained-machine :
      (s s' : RecordSession)
      → drain_audit_events x e depth runtime_version s ≡ (ok tt, s')
      → s'.machine ≡ emptied s.machine
  drained-machine s s' h =
      ap (λ (t : Result RunError (Unit {0}) × RecordSession). t.1.machine) (sym h) ∙ drain-machine s

  -- what a step of the loop leaves, where it gives a request to admit
  step-Asks :
      (again : S RecordPhase) (next : Step) (s s' : RecordSession) (r : EffectRequest)
      → ((t : RecordSession) → again t ≡ (ok (awaiting_admission r), s') → Asks s' r)
      → WaitsAfter next s.machine
      → after_step x e depth runtime_version again next s ≡ (ok (awaiting_admission r), s')
      → Asks s' r
  unfolding record_entry
  step-Asks again continue s s' r later w h = later s h
  step-Asks again (yield request) s s' r later w h = past_ask _ _ s s' _ h λ payload p h1.
      past _ _ s s' _ h1 λ u s1 written h2. past _ _ s1 s' _ h2 λ u2 s2 entered h3.
        let kept : s'.machine ≡ s.machine = ground arith in
        let same : request ≡ r = ground arith in
        record {
          waits = record {
            pending = w.pending;
            waits = ap (λ (m : Machine). m.snapshot.pending_effect) kept ∙ w.waits;
            same_request = w.same_request ∙ same;
          };
          phase = ground arith;
        }
  step-Asks again (completed outcome) s s' r later w h = past_ask _ _ s s' _ h λ state p h1.
      past _ _ s s' _ h1 λ u s1 written h2. past_ask _ _ s1 s' _ h2 λ payload q h3.
        past _ _ s1 s' _ h3 λ u2 s2 done h4. past _ _ s2 s' _ h4 λ u3 s3 entered h5. cc
  step-Asks again (failed why) s s' r later w h = cc

  loop-Asks :
      (bound : ℕ) (s s' : RecordSession) (r : EffectRequest)
      → progress_loop x e depth runtime_version bound s ≡ (ok (awaiting_admission r), s')
      → Asks s' r
  unfolding progress_loop
  loop-Asks zero s s' r h = cc
  loop-Asks (suc bound) s s' r h = past _ _ s s' _ h λ next s1 moved h1.
      past _ _ s1 s' _ h1 λ u s2 drained h2.
        step-Asks (progress_loop x e depth runtime_version bound) next s2 s' r
          (λ t k. loop-Asks bound t s' r k)
          (subst (WaitsAfter next) (sym (drained-machine s1 s2 drained)) (
            emptied-WaitsAfter next s1.machine
              (subst WaitsMoved moved (step-WaitsAfter x depth s.machine))))
          h2

  from-Asks :
      (bound : ℕ) (phase : RecordPhase) (s s' : RecordSession) (r : EffectRequest)
      → phase ≡ running
      → progress_from x e depth runtime_version bound phase s ≡ (ok (awaiting_admission r), s')
      → Asks s' r
  from-Asks bound running s s' r c h = loop-Asks bound s s' r h
  from-Asks bound (awaiting_admission q) s s' r c h = cc
  from-Asks bound (awaiting_resolution a) s s' r c h = cc
  from-Asks bound (completed_with o) s s' r c h = cc

  -- Where `progress` brings a running session to the admission of a request, the session waits for
  -- that admission, and the machine waits for the answer to that very request.
  pub progress-Asks :
      (bound : ℕ) (s s' : RecordSession) (request : EffectRequest)
      → s.phase ≡ running
      → progress x e depth runtime_version bound s ≡ (ok (awaiting_admission request), s')
      → Asks s' request
  unfolding progress
  progress-Asks bound s s' request c h = from-Asks bound s.phase s s' request c h
