-- ===== src/Session/Opening/Resumed.antt =====
-- `RecordSession::restore` of run.rs takes up an effect that was admitted.
use aster_lang.Base.{
  ℕ, String, ◌≡◌, refl, sym, ap, ◌∙◌, some, [], ◌∷◌, arith, Option-cases, inl, inr,
}
use aster_lang.Base.Maps.{BTreeMap}
use aster_lang.Base.Outcome.{Result, ok, err, map_err}
use aster_lang.Json.{Json, string, get, collect, put, canonical_sha256}
use aster_lang.Ir.{Program}
use aster_lang.Trace.{Trace, verify, append, checkpoint}
use aster_lang.Trace.Chain.{Extends, here, appends, verify-append, rewind_to-checkpoint}
use aster_lang.Machine.Errors.{canonical_message}
use aster_lang.Machine.Decode.{Externals, json_object}
use aster_lang.Machine.State.{Machine, MachineSnapshot, PendingEffect, EffectRequest, yield}
use aster_lang.Machine.Run.{step, reserve_pending_usage}
use aster_lang.Machine.Usage.{reserve_pending_usage-request}
use aster_lang.Machine.Snapshot.{snapshot}
use aster_lang.Machine.Snapshot.Restored.{resumed, snapshot-eq-ok, restore-snapshot}
use aster_lang.Session.{
  AdmittedEffect, awaiting_admission, awaiting_resolution, on_machine, RecordSession, RunError,
  machine_error, trace_error, data_error, Evidence, record_entry, admit, maximums_of,
  pending_budget_evidence,
}
use aster_lang.Session.Asked.{Asks}
use aster_lang.Session.Phases.{past, past_ask, admit-awaiting}
use aster_lang.Session.Opening.{Inputs, recorded_maximums, restore_session, restored_with}

map_err-ok :
    {E A : Type 0} (f : E → RunError) (r : Result E A) (a : A) → map_err f r ≡ ok a → r ≡ ok a
map_err-ok f (ok b) a h = cc
map_err-ok f (err why) a h = cc

admission_request : (q r : EffectRequest) → awaiting_admission q ≡ awaiting_admission r → q ≡ r
admission_request q r h = cc

module _ (x : Externals) (e : Evidence) where
  Extends-then :
      {s t u : Trace}
      → Extends x.codec e.entry_value s t
      → Extends x.codec e.entry_value t u
      → Extends x.codec e.entry_value s u
  Extends-then p here = p
  Extends-then p (appends kind payload q h) = appends kind payload (Extends-then p q) h

  -- an entry that a session writes, for its trace
  record_entry-append :
      (depth : ℕ) (runtime_version kind : String) (payload : Json) (s s' : RecordSession)
      → record_entry x e depth runtime_version kind payload s ≡ (ok tt, s')
      → (append x.codec e.entry_value kind payload s.trace ≡ (ok tt, s'.trace))
        × (s'.machine ≡ s.machine)
  unfolding record_entry
  record_entry-append depth runtime_version kind payload s s' h = (ground arith, ground arith)

  module _ (depth : ℕ) (runtime_version : String) where
    -- What `admit` has done when it returns: the trace at which the snapshot was taken, and the
    -- machine that it is of.
    record Admits (admitted : AdmittedEffect) (s s' : RecordSession) : Type 0 where
      bound : Trace
      machine : Machine
      budgeted : Json
      reserved : append x.codec e.entry_value "budget_reserved" budgeted s.trace ≡ (ok tt, bound)
      placed :
          checkpoint x.codec e.entry_value bound ≡ ok (admitted.trace_position, admitted.trace_hash)
      position : admitted.snapshot.trace_position ≡ admitted.trace_position
      head : admitted.snapshot.trace_hash ≡ admitted.trace_hash
      taken : snapshot x runtime_version e.snapshot_value machine ≡ ok admitted.snapshot
      pending : PendingEffect
      waits : machine.snapshot.pending_effect ≡ some pending
      asked :
          (p : PendingEffect)
          → s.machine.snapshot.pending_effect ≡ some p
          → pending.request ≡ p.request
      hash :
          canonical_sha256 x.codec (e.snapshot_value admitted.snapshot) ≡ ok admitted.snapshot_hash
      written :
          append x.codec e.entry_value "snapshot_written"
            (json_object (("snapshot_hash", string admitted.snapshot_hash) ∷ []))
            bound
          ≡ (ok tt, s'.trace)

    -- the reservation of `admit`, for its machine
    reserves :
        (maximums : BTreeMap String ℕ) (s s' : RecordSession)
        → on_machine (reserve_pending_usage maximums) s ≡ (ok tt, s')
        → reserve_pending_usage maximums s.machine ≡ (ok tt, s'.machine)
    reserves maximums s s' h = λ i. (
      map_err-ok machine_error (reserve_pending_usage maximums s.machine).0 tt
          (ap (λ (t : Result RunError (Unit {0}) × RecordSession). t.0) h) i,
      (h i).1.machine,
    )

    pending-of :
        (m : Machine) (v : Json)
        → pending_budget_evidence e m ≡ ok v
        → (p : PendingEffect) × (m.snapshot.pending_effect ≡ some p)
    unfolding pending_budget_evidence
    pending-of m v h = elim (Option-cases m.snapshot.pending_effect) [
      | inl gone ↦ absurd (ground arith)
      | inr at ↦ at
    ]

    admit-Admits :
        (request_hash : String) (maximums : BTreeMap String ℕ) (s s' : RecordSession)
        (admitted : AdmittedEffect)
        → admit x e depth runtime_version request_hash maximums s ≡ (ok admitted, s')
        → Admits admitted s s'
    unfolding admit
    admit-Admits request_hash maximums s s' admitted h =
        past_ask _ _ s s' admitted h λ request found h1. past _ _ s s' admitted h1 λ _ s1 moved h2.
          past_ask _ _ s1 s' admitted h2 λ budgeted b h3.
            past _ _ s1 s' admitted h3 λ _ s2 wrote h4. past_ask _ _ s2 s' admitted h4 λ point p h5.
              past _ _ s2 s' admitted h5 λ _ s3 bound h6.
                past_ask _ _ s3 s' admitted h6 λ taken t h7.
                  past_ask _ _ s3 s' admitted h7 λ hash c h8.
                    past _ _ s3 s' admitted h8 λ _ s4 written h9.
                      past _ _ s4 s' admitted h9 λ _ s5 pushed h10.
                        past _ _ s5 s' admitted h10 λ _ s6 entered h11.
                          let (wrote1, same1) =
                            record_entry-append depth runtime_version "budget_reserved" budgeted s1
                              s2 wrote in
                          let (wrote2, same2) =
                            record_entry-append depth runtime_version "snapshot_written" _ s3 s4
                              written in
                          let (p1, at1) =
                            pending-of s1.machine budgeted (map_err-ok machine_error _ _ b) in
                          let t1 =
                            map_err-ok machine_error
                              (snapshot x runtime_version e.snapshot_value s3.machine) taken t in
                          let c1 =
                            map_err-ok (λ c. data_error (canonical_message c))
                              (canonical_sha256 x.codec (e.snapshot_value taken)) hash c in
                          let p2 =
                            map_err-ok trace_error (checkpoint x.codec e.entry_value s2.trace) point
                              p in
                          let (_, _, _, at) =
                            snapshot-eq-ok x runtime_version e.snapshot_value s3.machine taken t1 in
                          record {
                            bound = s2.trace;
                            machine = s3.machine;
                            budgeted = budgeted;
                            reserved = ground arith;
                            placed = ground arith;
                            position = ground arith;
                            head = ground arith;
                            taken = ground arith;
                            pending = p1;
                            waits = ground arith;
                            asked = λ p q.
                                reserve_pending_usage-request maximums s.machine s1.machine p p1
                                  (reserves maximums s s1 moved) q at1;
                            hash = ground arith;
                            written = ground arith;
                          }

    module _ (i : Inputs) where
      -- The session that `restore` makes of an admitted effect: its trace is that of the session
      -- at the admission, its machine has the admitted snapshot, and it waits for the answer to
      -- the request that was admitted, with the maxima that the snapshot holds reserved for it.
      pub record Resumes (program : Program) (admitted : AdmittedEffect) (t : Trace)
          (s' : RecordSession) : Type 0 where
        pub session : RecordSession
        pub restored :
            restore_session x e depth runtime_version i program admitted.snapshot t ≡ ok session
        pub same_trace : session.trace ≡ s'.trace
        pub same_machine : session.machine ≡ resumed program admitted.snapshot
        pub pending : PendingEffect
        pub waits : admitted.snapshot.pending_effect ≡ some pending
        pub same_request : pending.request ≡ admitted.request
        pub same_phase :
            session.phase
            ≡ awaiting_resolution (record admitted {
              request = admitted.request;
              maximums = maximums_of pending.usage_reservations;
            })

      steps-pending :
          (program : Program) (s : MachineSnapshot) (p : PendingEffect)
          → s.pending_effect ≡ some p
          → step x depth (resumed program s) ≡ (yield p.request, resumed program s)
      unfolding step
      steps-pending program s p h = ground arith

      reads-maximums :
          (m : Machine) (p : PendingEffect)
          → m.snapshot.pending_effect ≡ some p
          → i.maximums_of_json (e.amounts_json (maximums_of p.usage_reservations))
            ≡ ok (maximums_of p.usage_reservations)
          → (v : Json) × (pending_budget_evidence e m ≡ ok v)
            × (recorded_maximums x e depth runtime_version i v
                ≡ ok (maximums_of p.usage_reservations))
      unfolding pending_budget_evidence json_object collect put get
      reads-maximums m p h reads = rw h (_, refl, rw reads)

      -- Where the trace of a session verifies and its machine waits with the request that the
      -- session is to admit, an effect that `admit` hands out can be restored from its snapshot
      -- and from the trace, however much was appended to it since, if the snapshot is of this
      -- schema, version and program and the recorded maxima read back. The restored session waits
      -- for the answer to the admitted request.
      pub restore_session-admit :
          (request_hash : String) (maximums : BTreeMap String ℕ) (s s' : RecordSession)
          (admitted : AdmittedEffect) (program : Program) (t : Trace) (request : EffectRequest)
          → Asks s request
          → verify x.codec e.entry_value s.trace ≡ ok tt
          → admit x e depth runtime_version request_hash maximums s ≡ (ok admitted, s')
          → Extends x.codec e.entry_value s'.trace t
          → admitted.snapshot.schema_version ≡ 1
          → admitted.snapshot.runtime_version ≡ runtime_version
          → program.program_hash ≡ admitted.snapshot.program_hash
          → ((m : BTreeMap String ℕ) → i.maximums_of_json (e.amounts_json m) ≡ ok m)
          → Resumes program admitted t s'
      unfolding restore_session snapshot
      restore_session-admit request_hash maximums s s' admitted program t request asks v h more
            schema version same reads =
          let a = admit-Admits request_hash maximums s s' admitted h in
          let (hash, _, _, at) =
            snapshot-eq-ok x runtime_version e.snapshot_value a.machine admitted.snapshot a.taken in
          let waits : admitted.snapshot.pending_effect ≡ some a.pending =
            ap (λ n. n.pending_effect) at ∙ a.waits in
          let placed : checkpoint x.codec e.entry_value a.bound
              ≡ ok (admitted.snapshot.trace_position, admitted.snapshot.trace_hash) =
            a.placed ∙ (λ j. ok (sym a.position j, sym a.head j)) in
          let rewound =
            rewind_to-checkpoint x.codec e.entry_value a.bound t admitted.snapshot.trace_position
              admitted.snapshot.trace_hash
              (verify-append x.codec e.entry_value _ _ s.trace a.bound v a.reserved) placed
              (Extends-then (appends _ _ here a.written) more) in
          let restored =
            restore-snapshot x runtime_version e.snapshot_value
              (record a.machine { program = program }) admitted.snapshot a.taken
              (sym (ap (λ n. n.schema_version) at) ∙ schema)
              (sym (ap (λ n. n.runtime_version) at) ∙ version)
              (same ∙ ap (λ n. n.program_hash) at) in
          let same_request : a.pending.request ≡ admitted.request =
            a.asked asks.waits.pending asks.waits.waits
            ∙ asks.waits.same_request
            ∙ admission_request _ _ (
                sym asks.phase
                ∙ (admit-awaiting x e depth runtime_version request_hash maximums s s' admitted
                    h).0) in
          let (evidence, made, found) =
            reads-maximums (resumed program admitted.snapshot) a.pending waits (reads _) in
          record {
            session =
                restored_with x e depth runtime_version i admitted.snapshot
                  (maximums_of a.pending.usage_reservations) a.pending.request
                  (resumed program admitted.snapshot) admitted.snapshot_hash s'.trace;
            restored =
                rw
                  (
                    rewound,
                    restored.0,
                    steps-pending program admitted.snapshot a.pending waits,
                    made,
                    found,
                    a.hash,
                    a.written,
                  )
                  refl;
            same_trace = refl;
            same_machine = refl;
            pending = a.pending;
            waits = waits;
            same_request = same_request;
            same_phase = ground arith;
          }
