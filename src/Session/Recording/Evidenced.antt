-- ===== src/Session/Recording/Evidenced.antt =====
-- The trace that `record_run_evidenced` of run.rs returns, with its result or with its failure.
use aster_lang.Base.{
  ℕ, zero, suc, String, ◌≡◌, refl, sym, subst, ◌⊎◌, inl, inr, Bool, true, false, Option, none, some,
  List, [], ◌∷◌, ◌++◌, arith,
}
use aster_lang.Base.Outcome.{Result, ok, err, map_err, and_then}
use aster_lang.Json.{Json, canonical_sha256, string}
use aster_lang.Fixture.{FixturePreview, DriverError}
use aster_lang.Trace.{Trace, TraceEntry, TraceError, new_trace, append, verify}
use aster_lang.Trace.Chain.{next_entry, append-eq-ok}
use aster_lang.Ir.{Program}
use aster_lang.Machine.Decode.{Externals, json_object}
use aster_lang.Machine.State.{
  Machine, EffectRequest, EffectResolution, MachineSnapshot, Step, continue, yield, completed,
  failed,
}
use aster_lang.Machine.Start.{StartRequest}
use aster_lang.Session.{
  AdmittedEffect, RecordPhase, running, awaiting_admission, awaiting_resolution, completed_with,
  RecordSession, RunError, driver_error, session_phase, out_of_steps, trace_error, Evidence, S,
  give, after_step, progress_loop, progress, progress_from, admit, resolve, record_entry,
}
use aster_lang.Session.Kept.{append_any, progress-Keeps, admit-IsKeeper, resolve-IsKeeper}
use aster_lang.Session.Phases.{past, past_ask, admit-awaiting, resolve-running}
use aster_lang.Session.Opening.{
  RecordFailure, Inputs, record_failure, failed_as, initial_record_failure, then_with, write,
  write_fingerprints, initialize, opened, run_id_of, start_evidenced, hashed,
}
use aster_lang.Session.Recording.{
  EffectDriver, RecordResult, after_admit, after_preview, after_resolve, after_driver,
  after_progress, record_loop, begin_recording, record_run_evidenced, fail,
}

-- The last entry has this kind and this payload.
pub record Ends (kind : String) (payload : Json) (t : Trace) : Type 0 where
  pub before : List TraceEntry
  pub entry : TraceEntry
  pub entries : t.entries ≡ before ++ entry ∷ []
  pub same_kind : entry.kind ≡ kind
  pub same_payload : entry.payload ≡ payload

module _ (x : Externals) (e : Evidence) where
  append-Ends :
      (kind : String) (payload : Json) (t t' : Trace)
      → append x.codec e.entry_value kind payload t ≡ (ok tt, t')
      → Ends kind payload t'
  append-Ends kind payload t t' h =
      let (hash, _, _, at) = append-eq-ok x.codec e.entry_value kind payload t t' h in
      record {
        before = t.entries;
        entry = record (next_entry x.codec e.entry_value kind payload t) { entry_hash = hash };
        entries = ground arith;
        same_kind = refl;
        same_payload = refl;
      }

  module _ (depth : ℕ) (runtime_version : String) where
    record_entry-Ends :
        (kind : String) (payload : Json) (s s' : RecordSession)
        → record_entry x e depth runtime_version kind payload s ≡ (ok tt, s')
        → Ends kind payload s'.trace
    unfolding record_entry
    record_entry-Ends kind payload s s' h = append-Ends kind payload s.trace s'.trace (ground arith)

    module _ (i : Inputs) where
      -- What a failure keeps: the trace verifies, and its last entry names the error, unless no
      -- entry could be written: then it is empty, or the error is that of the trace.
      pub record Kept (f : RecordFailure) : Type 0 where
        pub verified : verify x.codec e.entry_value f.trace ≡ ok tt
        pub ends :
            Ends "run_failed" (json_object (("error", string (i.error_text f.error)) ∷ [])) f.trace
            ⊎ (f.trace.entries ≡ [])
            ⊎ ((why : TraceError) × (f.error ≡ trace_error why))

      failed_as-Kept :
          (why : RunError) (snapshots : List MachineSnapshot)
          (r : Result TraceError (Unit {0}) × Trace)
          → verify x.codec e.entry_value r.1 ≡ ok tt
          → (r ≡ (ok tt, r.1)
              → Ends "run_failed" (json_object (("error", string (i.error_text why)) ∷ [])) r.1)
          → Kept (failed_as x e depth runtime_version i why snapshots r)
      failed_as-Kept why snapshots (ok tt, t) v k = record { verified = v; ends = inl (k refl) }
      failed_as-Kept why snapshots (err other, t) v k = record {
        verified = v;
        ends = inr (inr (other, refl));
      }

      record_failure-Kept :
          (why : RunError) (t : Trace) (snapshots : List MachineSnapshot)
          → verify x.codec e.entry_value t ≡ ok tt
          → Kept (record_failure x e depth runtime_version i why t snapshots)
      unfolding record_failure
      record_failure-Kept why t snapshots v =
          failed_as-Kept why snapshots _ (append_any x e "run_failed" _ t v)
            (append-Ends "run_failed" _ t _)

      initial-Kept :
          (why : RunError) → Kept (initial_record_failure x e depth runtime_version i why)
      unfolding verify
      initial-Kept why = record { verified = refl; ends = inr (inl refl) }

      -- A write keeps the trace verified, as what comes after it does.
      IsTidy : (Trace → Result RunError Machine × Trace) → Type 0
      IsTidy f =
          (t : Trace)
          → verify x.codec e.entry_value t ≡ ok tt
          → verify x.codec e.entry_value (f t).1 ≡ ok tt

      then_with-verify :
          (f : Trace → Result RunError Machine × Trace) (r : Result RunError (Unit {0}) × Trace)
          → IsTidy f
          → verify x.codec e.entry_value r.1 ≡ ok tt
          → verify x.codec e.entry_value (then_with x e depth runtime_version i r f).1 ≡ ok tt
      unfolding IsTidy
      then_with-verify f (ok u, t) k v = k t v
      then_with-verify f (err why, t) k v = v

      write-IsTidy :
          (kind : String) (payload : Json) (f : Trace → Result RunError Machine × Trace)
          → IsTidy f
          → IsTidy (write x e depth runtime_version i kind payload f)
      unfolding IsTidy
      write-IsTidy kind payload f k t v = then_with-verify f _ k (append_any x e kind payload t v)

      fingerprints-IsTidy :
          (r : Result RunError Json) (f : Trace → Result RunError Machine × Trace)
          → IsTidy f
          → IsTidy (write_fingerprints x e depth runtime_version i r f)
      unfolding IsTidy
      fingerprints-IsTidy (ok payload) f k t v = write-IsTidy "fingerprints" payload f k t v
      fingerprints-IsTidy (err why) f k t v = v

      initialize-IsTidy :
          (program : Program) (request : StartRequest) (input_hash : String)
          → IsTidy (initialize x e depth runtime_version i program request input_hash)
      unfolding initialize IsTidy
      initialize-IsTidy program request input_hash =
          write-IsTidy "run_header" _ _
            (write-IsTidy "event_received" _ _ (fingerprints-IsTidy _ _ (λ t v. v)))

      -- What a start gives: a session that runs on a verified trace, or what a failure keeps.
      pub Opens : Result RecordFailure RecordSession → Type 0
      Opens (ok s) = (verify x.codec e.entry_value s.trace ≡ ok tt) × (s.phase ≡ running)
      Opens (err f) = Kept f

      opened-Opens :
          (r : Result RunError Machine × Trace)
          → verify x.codec e.entry_value r.1 ≡ ok tt
          → Opens (opened x e depth runtime_version i r)
      unfolding Opens
      opened-Opens (ok m, t) v = (v, refl)
      opened-Opens (err why, t) v = record_failure-Kept why t [] v

      Opens-after :
          (r : Result RunError String) (f : String → Result RecordFailure RecordSession)
          → ((a : String) → Opens (f a))
          → Opens (and_then (map_err (initial_record_failure x e depth runtime_version i) r) f)
      unfolding Opens
      Opens-after (ok a) f k = k a
      Opens-after (err why) f k = initial-Kept why

      new_trace-verify : (run_id : String) → verify x.codec e.entry_value (new_trace run_id) ≡ ok tt
      unfolding verify
      new_trace-verify run_id = refl

      pub start_evidenced-Opens :
          (program : Program) (request : StartRequest)
          → Opens (start_evidenced x e depth runtime_version i program request)
      unfolding start_evidenced IsTidy
      start_evidenced-Opens program request =
          Opens-after (hashed (canonical_sha256 x.codec (i.request_value request))) _ λ input_hash.
            Opens-after (run_id_of x e depth runtime_version i program input_hash) _ λ run_id.
              opened-Opens
                (initialize x e depth runtime_version i program request input_hash
                  (new_trace run_id))
                (initialize-IsTidy program request input_hash (new_trace run_id)
                  (new_trace-verify run_id))

      -- What the whole recording leaves in its result.
      pub Evidenced : Result RecordFailure RecordResult → Type 0
      Evidenced (ok r) =
          (verify x.codec e.entry_value r.trace ≡ ok tt)
          × (payload : Json) × (e.outcome_value r.outcome ≡ ok payload)
          × Ends "run_completed" payload r.trace
      Evidenced (err f) = Kept f

      abbrev is_done : RecordPhase → Bool
      is_done (completed_with o) = true
      is_done _ = false

      -- the entry that a completed event leaves
      Closed : RecordPhase → RecordSession → Type 0
      Closed (completed_with o) s =
          (payload : Json) × (e.outcome_value o ≡ ok payload) × Ends "run_completed" payload s.trace
      Closed _ s = Unit {0}

      given :
          (q : RecordPhase) (s s' : RecordSession) (p : RecordPhase) → give q s ≡ (ok p, s') → q ≡ p
      given q s s' p h = cc

      after_step-Closed :
          (again : S RecordPhase) (next : Step) (s s' : RecordSession) (p : RecordPhase)
          → ((t : RecordSession) → again t ≡ (ok p, s') → Closed p s')
          → after_step x e depth runtime_version again next s ≡ (ok p, s')
          → Closed p s'
      unfolding Closed
      after_step-Closed again continue s s' p k h = k s h
      after_step-Closed again (failed why) s s' p k h = cc
      after_step-Closed again (yield request) s s' p k h = past_ask _ _ s s' p h λ _ _ h1.
          past _ _ s s' p h1 λ _ s1 _ h2.
            past _ _ s1 s' p h2 λ _ s2 _ h3.
              subst (λ q. Closed q s') (given (awaiting_admission request) s2 s' p h3) tt
      after_step-Closed again (completed outcome) s s' p k h = past_ask _ _ s s' p h λ _ _ h1.
          past _ _ s s' p h1 λ _ s1 _ h2. past_ask _ _ s1 s' p h2 λ payload made h3.
            past _ _ s1 s' p h3 λ _ s2 written h4. past _ _ s2 s' p h4 λ _ s3 entered h5.
              let made' : e.outcome_value outcome ≡ ok payload = ground arith in
              let ends = record_entry-Ends "run_completed" payload s1 s2 written in
              let same : s'.trace ≡ s2.trace = ground arith in
              subst (λ q. Closed q s') (given (completed_with outcome) s3 s' p h5)
                (payload, made', subst (Ends "run_completed" payload) (sym same) ends)

      loop-Closed :
          (bound : ℕ) (s s' : RecordSession) (p : RecordPhase)
          → progress_loop x e depth runtime_version bound s ≡ (ok p, s')
          → Closed p s'
      unfolding progress_loop
      loop-Closed zero s s' p h = cc
      loop-Closed (suc bound) s s' p h = past _ _ s s' p h λ next s1 _ h1.
          past _ _ s1 s' p h1
            λ _ s2 _ h2. after_step-Closed _ next s2 s' p (λ t. loop-Closed bound t s' p) h2

      from-Closed :
          (bound : ℕ) (phase : RecordPhase) (s s' : RecordSession) (p : RecordPhase)
          → is_done phase ≡ false
          → progress_from x e depth runtime_version bound phase s ≡ (ok p, s')
          → Closed p s'
      unfolding Closed
      from-Closed bound running s s' p d h = loop-Closed bound s s' p h
      from-Closed bound (awaiting_admission r) s s' p d h =
          subst (λ q. Closed q s') (given (awaiting_admission r) s s' p h) tt
      from-Closed bound (awaiting_resolution r) s s' p d h =
          subst (λ q. Closed q s') (given (awaiting_resolution r) s s' p h) tt
      from-Closed bound (completed_with r) s s' p d h = cc

      module _ (bound : ℕ) {D : Type 0} (driver : EffectDriver D) where
        -- A session that the loop goes on with: its trace verifies, and its event is not complete.
        Open : RecordSession → Type 0
        Open s = (verify x.codec e.entry_value s.trace ≡ ok tt) × (is_done s.phase ≡ false)

        HoldsNext :
            (Option FixturePreview → RecordSession → D → Result RecordFailure RecordResult × D)
            → Type 0
        HoldsNext again =
            (previewed : Option FixturePreview) (s : RecordSession) (d : D)
            → Open s
            → Evidenced (again previewed s d).0

        failing :
            (s : RecordSession) (why : RunError)
            → verify x.codec e.entry_value s.trace ≡ ok tt
            → Evidenced (err (fail x e depth runtime_version i bound driver s why))
        unfolding Evidenced
        failing s why v = record_failure-Kept why s.trace s.snapshots v

        after_admit-Evidenced :
            (again : Option FixturePreview
              → RecordSession
              → D
              → Result RecordFailure RecordResult × D)
            (found : FixturePreview) (d : D) (r : Result RunError AdmittedEffect × RecordSession)
            → HoldsNext again
            → verify x.codec e.entry_value r.1.trace ≡ ok tt
            → ((a : AdmittedEffect) → r ≡ (ok a, r.1) → r.1.phase ≡ awaiting_resolution a)
            → Evidenced (after_admit x e depth runtime_version i bound driver again found d r).0
        unfolding HoldsNext Open
        after_admit-Evidenced again found d (ok a, s) k v p = k (some found) s d (v, rw (p a refl))
        after_admit-Evidenced again found d (err why, s) k v p = failing s why v

        after_resolve-Evidenced :
            (again : Option FixturePreview
              → RecordSession
              → D
              → Result RecordFailure RecordResult × D)
            (d : D) (r : Result RunError (Unit {0}) × RecordSession)
            → HoldsNext again
            → verify x.codec e.entry_value r.1.trace ≡ ok tt
            → (r ≡ (ok tt, r.1) → r.1.phase ≡ running)
            → Evidenced (after_resolve x e depth runtime_version i bound driver again d r).0
        unfolding HoldsNext Open
        after_resolve-Evidenced again d (ok tt, s) k v p = k none s d (v, rw (p refl))
        after_resolve-Evidenced again d (err why, s) k v p = failing s why v

        after_preview-Evidenced :
            (again : Option FixturePreview
              → RecordSession
              → D
              → Result RecordFailure RecordResult × D)
            (request : EffectRequest) (s : RecordSession) (d : D)
            (r : Result DriverError FixturePreview)
            → HoldsNext again
            → verify x.codec e.entry_value s.trace ≡ ok tt
            → Evidenced
                (after_preview x e depth runtime_version i bound driver again request s d r).0
        after_preview-Evidenced again request s d (err why) k v = failing s (driver_error why) v
        after_preview-Evidenced again request s d (ok found) k v =
            after_admit-Evidenced again found d
              (admit x e depth runtime_version request.request_hash found.max_usage s) k
              ((((admit-IsKeeper x e depth runtime_version request.request_hash found.max_usage).at
                  s)).verified
                v)
              λ a done.
                (admit-awaiting x e depth runtime_version request.request_hash found.max_usage s _ a
                  done).2

        after_driver-Evidenced :
            (again : Option FixturePreview
              → RecordSession
              → D
              → Result RecordFailure RecordResult × D)
            (s : RecordSession) (r : Result DriverError EffectResolution × D)
            → HoldsNext again
            → verify x.codec e.entry_value s.trace ≡ ok tt
            → Evidenced (after_driver x e depth runtime_version i bound driver again s r).0
        after_driver-Evidenced again s (err why, d) k v = failing s (driver_error why) v
        after_driver-Evidenced again s (ok resolution, d) k v =
            after_resolve-Evidenced again d (resolve x e depth runtime_version resolution s) k
              (((resolve-IsKeeper x e depth runtime_version resolution).at s).verified v)
              λ done. (resolve-running x e depth runtime_version resolution s _ done).3

        after_progress-Evidenced :
            (again : Option FixturePreview
              → RecordSession
              → D
              → Result RecordFailure RecordResult × D)
            (previewed : Option FixturePreview) (d : D)
            (r : Result RunError RecordPhase × RecordSession)
            → HoldsNext again
            → verify x.codec e.entry_value r.1.trace ≡ ok tt
            → ((p : RecordPhase) → r ≡ (ok p, r.1) → Closed p r.1)
            → Evidenced
                (after_progress x e depth runtime_version i bound driver again previewed d r).0
        unfolding Closed Evidenced
        after_progress-Evidenced again previewed d (err why, s) k v p = failing s why v
        after_progress-Evidenced again previewed d (ok running, s) k v p = failing s session_phase v
        after_progress-Evidenced again previewed d (ok (completed_with o), s) k v p =
            let (payload, made, ends) = p (completed_with o) refl in (v, payload, made, ends)
        after_progress-Evidenced again none d (ok (awaiting_resolution a), s) k v p =
            failing s session_phase v
        after_progress-Evidenced again previewed d (ok (awaiting_admission request), s) k v p =
            after_preview-Evidenced again request s d (driver.preview d request) k v
        after_progress-Evidenced again (some found) d (ok (awaiting_resolution a), s) k v p =
            after_driver-Evidenced again s (driver.resolve a.request found d) k v

        loop-Evidenced :
            (rounds : ℕ) → HoldsNext (record_loop x e depth runtime_version i bound driver rounds)
        unfolding record_loop HoldsNext Open progress
        loop-Evidenced zero previewed s d o = failing s out_of_steps o.0
        loop-Evidenced (suc rounds) previewed s d o =
            after_progress-Evidenced (record_loop x e depth runtime_version i bound driver rounds)
              previewed d (progress x e depth runtime_version bound s) (loop-Evidenced rounds)
              ((progress-Keeps x e depth runtime_version bound s).verified o.0)
              λ p done. from-Closed bound s.phase s _ p o.1 done

        begin-Evidenced :
            (rounds : ℕ) (d : D) (r : Result RecordFailure RecordSession)
            → Opens r
            → Evidenced (begin_recording x e depth runtime_version i bound driver rounds d r).0
        unfolding Opens Evidenced HoldsNext Open
        begin-Evidenced rounds d (err f) o = o
        begin-Evidenced rounds d (ok s) o = loop-Evidenced rounds none s d (o.0, rw o.1)

        -- Whatever the driver answers, the trace that a recording returns verifies. Where the
        -- recording succeeds, the last entry is "run_completed" with the outcome that it returns.
        -- Where it fails, the last entry is "run_failed" with the text of the error, unless the
        -- error is of the trace or the trace is empty.
        pub record_run_evidenced-Evidenced :
            (rounds : ℕ) (program : Program) (request : StartRequest) (d : D)
            → Evidenced
                (record_run_evidenced x e depth runtime_version i bound driver rounds program
                  request d).0
        unfolding record_run_evidenced
        record_run_evidenced-Evidenced rounds program request d =
            begin-Evidenced rounds d (start_evidenced x e depth runtime_version i program request)
              (start_evidenced-Opens program request)
