-- ===== src/Session/Phases.antt =====
-- The order in which `RecordSession` of run.rs takes admissions and answers.
use aster_lang.Base.{ℕ, String, ◌≡◌, refl, ap, arith, eq_iff}
use aster_lang.Base.Maps.{BTreeMap}
use aster_lang.Base.Outcome.{Result, ok, err}
use aster_lang.Machine.Decode.{Externals}
use aster_lang.Machine.State.{EffectRequest, EffectResolution}
use aster_lang.Machine.Snapshot.Restored.{snapshot-eq-ok}
use aster_lang.Session.{
  AdmittedEffect, RecordPhase, running, awaiting_admission, awaiting_resolution, completed_with,
  RecordSession, RunError, Evidence, S, after, ◌>>=◌, ask, admission_of, resolution_of, admit,
  resolve,
}

module _ {P : Type 0} {A B : Type 0} where
  after-eq-ok :
      (f : A → S B) (r : Result RunError A × RecordSession) (s' : RecordSession) (b : B)
      → after r f ≡ (ok b, s')
      → ((a : A) → r ≡ (ok a, r.1) → f a r.1 ≡ (ok b, s') → P)
      → P
  after-eq-ok f (ok a, s) s' b h k = k a refl h
  after-eq-ok f (err e, s) s' b h k = cc

  pub past :
      (m : S A) (f : A → S B) (s s' : RecordSession) (b : B)
      → (m >>= f) s ≡ (ok b, s')
      → ((a : A) (t : RecordSession) → m s ≡ (ok a, t) → f a t ≡ (ok b, s') → P)
      → P
  unfolding ◌>>=◌
  past m f s s' b h k = after-eq-ok f (m s) s' b h λ a e rest. k a (m s).1 e rest

  pub past_ask :
      (r : RecordSession → Result RunError A) (f : A → S B) (s s' : RecordSession) (b : B)
      → (ask r >>= f) s ≡ (ok b, s')
      → ((a : A) → r s ≡ ok a → f a s ≡ (ok b, s') → P)
      → P
  unfolding ◌>>=◌
  past_ask r f s s' b h k = after-eq-ok f (r s, s) s' b h λ a e rest. k a (ap (λ p. p.0) e) rest

module _ (x : Externals) (e : Evidence) (depth : ℕ) (runtime_version : String) where
  resolution_of-awaiting :
      (hash : String) (phase : RecordPhase) (a : AdmittedEffect)
      → resolution_of x e depth runtime_version hash phase ≡ ok a
      → (phase ≡ awaiting_resolution a) × (a.request.request_hash ≡ hash)
  resolution_of-awaiting hash running a h = cc
  resolution_of-awaiting hash (awaiting_admission r) a h = cc
  resolution_of-awaiting hash (completed_with o) a h = cc
  resolution_of-awaiting hash (awaiting_resolution b) a h = (
    ground (arith, eq_iff b.request.request_hash hash),
    ground (arith, eq_iff b.request.request_hash hash),
  )

  admission_of-awaiting :
      (hash : String) (phase : RecordPhase) (r : EffectRequest)
      → admission_of x e depth runtime_version hash phase ≡ ok r
      → (phase ≡ awaiting_admission r) × (r.request_hash ≡ hash)
  admission_of-awaiting hash running r h = cc
  admission_of-awaiting hash (awaiting_resolution a) r h = cc
  admission_of-awaiting hash (completed_with o) r h = cc
  admission_of-awaiting hash (awaiting_admission q) r h =
      (ground (arith, eq_iff q.request_hash hash), ground (arith, eq_iff q.request_hash hash))

  -- An answer that `resolve` takes is to the effect that was admitted last, and the session then
  -- runs on.
  pub resolve-running :
      (resolution : EffectResolution) (s s' : RecordSession)
      → resolve x e depth runtime_version resolution s ≡ (ok tt, s')
      → (admitted : AdmittedEffect) × (s.phase ≡ awaiting_resolution admitted)
        × (admitted.request.request_hash ≡ resolution.request_hash)
        × (s'.phase ≡ running)
  unfolding resolve
  resolve-running resolution s s' h = past_ask _ _ s s' tt h λ admitted found h1.
      past_ask _ _ s s' tt h1 λ _ _ h2. past _ _ s s' tt h2 λ _ s1 _ h3.
        past _ _ s1 s' tt h3 λ _ s2 _ h4. past _ _ s2 s' tt h4 λ _ s3 _ h5.
          past_ask _ _ s3 s' tt h5 λ _ _ h6. past _ _ s3 s' tt h6 λ _ s4 _ h7.
            let (waits, same) =
              resolution_of-awaiting resolution.request_hash s.phase admitted found in
            (admitted, waits, same, ground arith)

  -- An effect is admitted only while its request waits for that, and then waits for its answer.
  -- The snapshot that is handed out is bound to the place in the trace that goes with it.
  pub admit-awaiting :
      (request_hash : String) (maximums : BTreeMap String ℕ) (s s' : RecordSession)
      (admitted : AdmittedEffect)
      → admit x e depth runtime_version request_hash maximums s ≡ (ok admitted, s')
      → (s.phase ≡ awaiting_admission admitted.request)
        × (admitted.request.request_hash ≡ request_hash)
        × (s'.phase ≡ awaiting_resolution admitted)
        × (admitted.snapshot.trace_position ≡ admitted.trace_position)
        × (admitted.snapshot.trace_hash ≡ admitted.trace_hash)
  unfolding admit
  admit-awaiting request_hash maximums s s' admitted h =
      past_ask _ _ s s' admitted h λ request found h1. past _ _ s s' admitted h1 λ _ s1 _ h2.
        past_ask _ _ s1 s' admitted h2 λ _ _ h3. past _ _ s1 s' admitted h3 λ _ s2 _ h4.
          past_ask _ _ s2 s' admitted h4 λ point _ h5. past _ _ s2 s' admitted h5 λ _ s3 bound h6.
            past_ask _ _ s3 s' admitted h6 λ taken t h7. past_ask _ _ s3 s' admitted h7 λ _ _ h8.
              past _ _ s3 s' admitted h8 λ _ s4 _ h9. past _ _ s4 s' admitted h9 λ _ s5 _ h10.
                past _ _ s5 s' admitted h10 λ _ s6 entered h11.
                  let (waits, same) = admission_of-awaiting request_hash s.phase request found in
                  let (hash, _, _, at) =
                    snapshot-eq-ok x runtime_version e.snapshot_value s3.machine taken
                      (ground arith) in
                  (ground arith, ground arith, ground arith, ground arith, ground arith)
