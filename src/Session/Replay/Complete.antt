-- ===== src/Session/Replay/Complete.antt =====
-- `replay_run` of run.rs accepts every trace that records a run.
use aster_lang.Base.{
  ℕ, zero, suc, ◌<◌, ◌≤◌, String, ◌≡◌, refl, sym, ap, ◌∙◌, subst, some, List, [], ◌∷◌, ◌++◌, map,
  arith, length, get_elem?, u64_max, length-append, true,
}
use mathlib.Core.List.{append-nil, append_assoc}
use aster_lang.Base.Outcome.{ok}
use aster_lang.Json.{Json}
use aster_lang.Json.Same.{same_json_self}
use aster_lang.Machine.Decode.{Externals}
use aster_lang.Machine.State.{Machine, RunOutcome, AuditEvent, Step, continue, yield, completed}
use aster_lang.Machine.Run.{step}
use aster_lang.Machine.Start.{StartRequest}
use aster_lang.Session.{Evidence}
use aster_lang.Session.Opening.{Inputs}
use aster_lang.Trace.{Trace}
use aster_lang.Ir.{Program}
use aster_lang.Session.Replay.{
  Readers, EffectRecords, same_lengths, replay_effect, drained, recorded_audit, check_completion,
  after_replayed, replay_loop, replay_run,
}
use aster_lang.Session.Replay.Same.{same_audit_self, same_outcome_self, same_request_self}
use aster_lang.Session.Replay.Replays.{Exchange, records_of, Exchanges, Runs, ends, moves, asks}
use aster_lang.Session.Replay.Faithful.{Closes, IsReplay}

-- the value that stands after the first ones
get-map :
    (f : Exchange → Json) (done exs : List Exchange) (ex : Exchange) (index : ℕ)
    → index ≡ length done
    → get_elem? (map f (done ++ ex ∷ exs)) index ≡ some (f ex)
get-map f [] exs ex zero h = refl
get-map f [] exs ex (suc index) h = absurd (omega arith)
get-map f (d ∷ done) exs ex zero h = absurd (omega arith)
get-map f (d ∷ done) exs ex (suc index) h = get-map f done exs ex index (omega arith)

pub length-map : (f : Exchange → Json) (exs : List Exchange) → length (map f exs) ≡ length exs
length-map f [] = refl
length-map f (ex ∷ exs) = ap suc (length-map f exs)

module _ (x : Externals) (e : Evidence) (depth : ℕ) (runtime_version : String) (i : Inputs)
    (rd : Readers) where
  replay_effect-Exchanges :
      (rs : EffectRecords) (index : ℕ) (ex : Exchange) (m m' : Machine)
      → Exchanges x e depth runtime_version i rd ex m m'
      → get_elem? rs.requests index ≡ some ex.requested
      → get_elem? rs.reservations index ≡ some ex.reservation
      → get_elem? rs.resolutions index ≡ some ex.answer
      → get_elem? rs.settlements index ≡ some ex.settlement
      → replay_effect x e depth runtime_version i rd rs index ex.request m ≡ ok m'
  unfolding replay_effect
  replay_effect-Exchanges rs index ex m m' h a1 a2 a3 a4 = rw (
    a1,
    h.reads_request,
    same_request_self ex.request,
    a2,
    h.reads_maximums,
    h.reserves,
    h.evidence,
    same_json_self ex.reservation,
    a3,
    h.reads_answer,
    h.supplies,
    h.budget,
    h.settles,
    a4,
    same_json_self ex.settlement,
  )

  completes :
      (t : Trace) (rs : EffectRecords) (index : ℕ) (events : List AuditEvent) (o : RunOutcome)
      → index ≡ length rs.requests
      → events ≡ recorded_audit t.entries
      → Closes x e depth runtime_version i rd t o
      → check_completion x e depth runtime_version i rd t rs index events o ≡ ok o
  unfolding check_completion
  completes t rs index events o last audited c =
      rw
        (c.first, c.reads, same_outcome_self o, audited, same_audit_self (recorded_audit t.entries))
        (ground arith)

  module _ (t : Trace) (o : RunOutcome) (closes : Closes x e depth runtime_version i rd t o)
      (all : List Exchange) (short : length all ≤ u64_max) where
    -- The steps that a replay needs, and that as many are enough.
    abbrev Enough : ℕ → List AuditEvent → Machine → Type 0
    Enough index generated m =
        (n : ℕ) × ((bound : ℕ)
          → n ≤ bound
          → replay_loop x e depth runtime_version i rd t (records_of all) bound index generated m
            ≡ ok o)

    -- the loop, once it has made a step
    abbrev Goes : ℕ → ℕ → List AuditEvent → Machine → Step → Type 0
    Goes bound index generated m s =
        after_replayed x e depth runtime_version i rd t (records_of all)
          (replay_loop x e depth runtime_version i rd t (records_of all) bound) index
          (generated ++ (step x depth m).1.audit_events)
          (drained x e depth runtime_version i rd (step x depth m).1) s
        ≡ ok o

    goes-on :
        (n index : ℕ) (generated : List AuditEvent) (m : Machine)
        → ((bound : ℕ) → n ≤ bound → Goes bound index generated m (step x depth m).0)
        → (bound : ℕ) → suc n ≤ bound
        → replay_loop x e depth runtime_version i rd t (records_of all) bound index generated m
          ≡ ok o
    unfolding replay_loop
    goes-on n index generated m h zero enough = absurd (omega arith)
    goes-on n index generated m h (suc bound) enough = h bound (omega arith)

    one_more :
        (n index : ℕ) (generated : List AuditEvent) (m : Machine) (s : Step)
        → (step x depth m).0 ≡ s
        → ((bound : ℕ) → n ≤ bound → Goes bound index generated m s)
        → Enough index generated m
    one_more n index generated m s at h = (
      suc n,
      goes-on n index generated m
          λ bound enough. subst (Goes bound index generated m) (sym at) (h bound enough),
    )

    stands :
        (f : Exchange → Json) (done exs : List Exchange) (ex : Exchange) (index : ℕ)
        → all ≡ done ++ ex ∷ exs
        → index ≡ length done
        → get_elem? (map f all) index ≡ some (f ex)
    stands f done exs ex index parts here =
        subst (λ l. get_elem? (map f l) index ≡ some (f ex)) (sym parts)
          (get-map f done exs ex index here)

    answered :
        (index n : ℕ) (generated : List AuditEvent) (m m' : Machine) (ex : Exchange)
        (done exs : List Exchange)
        → all ≡ done ++ ex ∷ exs
        → index ≡ length done
        → Exchanges x e depth runtime_version i rd ex
            (drained x e depth runtime_version i rd (step x depth m).1)
            m'
        → ((bound : ℕ)
            → n ≤ bound
            → replay_loop x e depth runtime_version i rd t
                (records_of all)
                bound
                (suc index)
                ((generated ++ (step x depth m).1.audit_events) ++ m'.audit_events)
                (drained x e depth runtime_version i rd m')
              ≡ ok o)
        → (bound : ℕ) → n ≤ bound
        → Goes bound index generated m (yield ex.request)
    answered index n generated m m' ex done exs parts here exchange h bound enough =
        let room : index < u64_max =
          omega (arith, length-append done (ex ∷ exs), ap length parts) in
        rw
          (replay_effect-Exchanges (records_of all) index ex _ m' exchange
            (stands (λ n. n.requested) done exs ex index parts here)
            (stands (λ n. n.reservation) done exs ex index parts here)
            (stands (λ n. n.answer) done exs ex index parts here)
            (stands (λ n. n.settlement) done exs ex index parts here))
          (ground (arith, h bound enough))

    loop-Enough :
        {m : Machine} {exs : List Exchange} {events : List AuditEvent} (done : List Exchange)
        (index : ℕ) (generated : List AuditEvent)
        → Runs x e depth runtime_version i rd m exs events o
        → all ≡ done ++ exs
        → index ≡ length done
        → generated ++ events ≡ recorded_audit t.entries
        → Enough index generated m
    loop-Enough {m} done index generated (ends at) parts here audited =
        one_more 0 index generated m (completed o) at λ bound enough.
          completes t (records_of all) index _ o
            (omega (arith, ap length (parts ∙ append-nil done), length-map (λ n. n.requested) all))
            audited closes
    loop-Enough {m} done index generated (moves at r split) parts here audited =
        let (n, h) =
          (loop-Enough done index (generated ++ (step x depth m).1.audit_events) r parts here (
            append_assoc generated (step x depth m).1.audit_events _
            ∙ ap (λ l. generated ++ l) (sym split)
            ∙ audited)) in
        one_more n index generated m continue at h
    loop-Enough {m} done index generated (asks {m' = m'} {ex = ex} {exs = exs} at exchange r split)
          parts here audited =
        let (n, h) =
          (loop-Enough (done ++ ex ∷ []) (suc index) _ r
            (parts ∙ sym (append_assoc done (ex ∷ []) exs))
            (omega (arith, length-append done (ex ∷ [])))
            (append_assoc (generated ++ (step x depth m).1.audit_events) m'.audit_events _
              ∙ append_assoc generated (step x depth m).1.audit_events _
              ∙ ap (λ l. generated ++ l) (sym split)
              ∙ audited)) in
        one_more n index generated m (yield ex.request) at
          (answered index n generated m m' ex done exs parts here exchange h)

  lengths-records : (exs : List Exchange) → same_lengths (records_of exs) ≡ true
  lengths-records exs =
      rw
        (
          length-map (λ n. n.requested) exs,
          length-map (λ n. n.reservation) exs,
          length-map (λ n. n.answer) exs,
          length-map (λ n. n.settlement) exs,
        )
        (ground arith)

  -- A trace that records a run of the program from this start, of at most `u64::MAX` effects, is
  -- replayed to the outcome of that run, given steps enough.
  pub IsReplay-replay_run :
      (program : Program) (request : StartRequest) (t : Trace) (o : RunOutcome)
      → (r : IsReplay x e depth runtime_version i rd program request t o) → length r.exs ≤ u64_max
      → (n : ℕ) × ((bound : ℕ)
          → n ≤ bound
          → replay_run x e depth runtime_version i rd bound program request t ≡ ok o)
  unfolding replay_run
  IsReplay-replay_run program request t o r short =
      let (n, h) = loop-Enough t o r.closes r.exs short [] 0 [] r.runs refl refl refl in
      (
        n,
        λ bound enough.
            rw (r.verified, r.headed, r.recorded, lengths-records r.exs, r.starts) (h bound enough),
      )
