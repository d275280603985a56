-- ===== src/Session/Replay/Faithful.antt =====
-- `replay_run` of run.rs returns an outcome exactly where the trace records a run of the machine
-- that ends with it.
use aster_lang.Base.{
  ℕ, zero, suc, String, ◌≡◌, refl, sym, ap, ◌∙◌, subst, true, some, List, [], ◌∷◌, ◌++◌, map, arith,
  length, get_elem?, ◌==◌,
}
use mathlib.Core.List.{append_assoc}
use aster_lang.Base.Outcome.{Result, ok, map_err, ok_or, ensure}
use aster_lang.Json.{Json}
use aster_lang.Machine.Decode.{Externals}
use aster_lang.Machine.State.{
  Machine, RunOutcome, AuditEvent, Step, continue, yield, completed, failed,
}
use aster_lang.Machine.Run.{step}
use aster_lang.Machine.Start.{StartRequest, start}
use aster_lang.Session.{Evidence}
use aster_lang.Session.Opening.{Inputs}
use aster_lang.Trace.{Trace, verify}
use aster_lang.Ir.{Program}
use aster_lang.Session.Replay.{
  ReplayError, machine_failure, trace_failure, data_failure, effect_sequence_mismatch,
  missing_completion, outcome_divergence, governance_divergence, Readers, same_audit, same_outcome,
  EffectRecords, same_lengths, effect_records, replay_effect, read_as, drained, payloads, first_of,
  recorded_audit, check_completion, next_index, after_replayed, replay_loop, verify_header,
  replay_run,
}
use aster_lang.Session.Replay.Same.{eq_of_same_audit, eq_of_same_outcome}
use aster_lang.Session.Replay.Replays.{
  Exchange, records_of, Runs, ends, moves, asks, replay_effect-Replayed, ensured, took,
  map_err-eq-ok,
}

-- The values from an index on.
abbrev From : List Json → ℕ → List Json → Type 0
From vs index [] = index ≡ length vs
From vs index (w ∷ ws) = (get_elem? vs index ≡ some w) × From vs (suc index) ws

From-tail :
    (v : Json) (vs : List Json) (index : ℕ) (ws : List Json)
    → From (v ∷ vs) (suc index) ws
    → From vs index ws
From-tail v vs index [] h = omega arith
From-tail v vs index (w ∷ ws) h = (h.0, From-tail v vs (suc index) ws h.1)

From-zero : (vs ws : List Json) → From vs 0 ws → vs ≡ ws
From-zero [] [] h = refl
From-zero [] (w ∷ ws) h = absurd (ground arith)
From-zero (v ∷ vs) [] h = absurd (omega arith)
From-zero (v ∷ vs) (w ∷ ws) h = let rest = From-zero vs ws (From-tail v vs 0 ws h.1) in ground arith

-- The records from an index on are those of the exchanges.
abbrev Holds : EffectRecords → ℕ → List Exchange → Type 0
Holds rs index exs =
    From rs.requests index (map (λ ex. ex.requested) exs)
    × From rs.reservations index (map (λ ex. ex.reservation) exs)
    × From rs.resolutions index (map (λ ex. ex.answer) exs)
    × From rs.settlements index (map (λ ex. ex.settlement) exs)

module _ (x : Externals) (e : Evidence) (depth : ℕ) (runtime_version : String) (i : Inputs)
    (rd : Readers) where
  -- The outcome is the one that the trace records.
  pub record Closes (t : Trace) (outcome : RunOutcome) : Type 0 where
    pub completion : Json
    pub first : first_of (payloads "run_completed" t.entries) ≡ some completion
    pub reads : rd.outcome_of_json completion ≡ ok outcome

  -- What the rest of a replay tells.
  record Rest (t : Trace) (rs : EffectRecords) (index : ℕ) (generated : List AuditEvent)
      (m : Machine) (outcome : RunOutcome) : Type 0 where
    exs : List Exchange
    events : List AuditEvent
    runs : Runs x e depth runtime_version i rd m exs events outcome
    holds : Holds rs index exs
    audited : generated ++ events ≡ recorded_audit t.entries
    closes : Closes t outcome

  completion-Closes :
      (t : Trace) (rs : EffectRecords) (index : ℕ) (generated : List AuditEvent)
      (outcome o : RunOutcome)
      → check_completion x e depth runtime_version i rd t rs index generated outcome ≡ ok o
      → (o ≡ outcome)
        × (index ≡ length rs.requests)
        × (generated ≡ recorded_audit t.entries)
        × Closes t outcome
  unfolding check_completion
  completion-Closes t rs index generated outcome o h =
      took (ensure (index == length rs.requests) effect_sequence_mismatch) _ o h λ _ h0 k0.
        took (ok_or missing_completion (first_of (payloads "run_completed" t.entries))) _ o k0
          λ completion h1 k1.
            took (read_as (rd.outcome_of_json completion)) _ o k1 λ expected h2 k2.
              took (ensure (same_outcome outcome expected) outcome_divergence) _ o k2 λ _ h3 k3.
                took
                  (ensure (same_audit generated (recorded_audit t.entries)) governance_divergence) _
                  o k3
                  λ _ h4 k4.
                    let same = eq_of_same_outcome outcome expected (ensured _ _ h3) in
                    (
                      cc,
                      ground (arith, ensured _ _ h0),
                      eq_of_same_audit generated (recorded_audit t.entries) (ensured _ _ h4),
                      record {
                        completion = completion;
                        first = ground arith;
                        reads =
                            map_err-eq-ok data_failure (rd.outcome_of_json completion) outcome
                              (h2 ∙ ap ok (sym same));
                      },
                    )

  module _ (t : Trace) (rs : EffectRecords) where
    AllLengths : ℕ → Type 0
    AllLengths index =
        (index ≡ length rs.requests)
        → (index ≡ length rs.reservations)
          × (index ≡ length rs.resolutions)
          × (index ≡ length rs.settlements)

    after-Rest :
        (again : ℕ → List AuditEvent → Machine → Result ReplayError RunOutcome) (index : ℕ)
        (generated : List AuditEvent) (m : Machine) (s : Step) (o : RunOutcome)
        → ((n : ℕ) → AllLengths n)
        → (step x depth m).0 ≡ s
        → ((n : ℕ) (g : List AuditEvent) (m' : Machine) → again n g m' ≡ ok o → Rest t rs n g m' o)
        → after_replayed x e depth runtime_version i rd t rs again index
            (generated ++ (step x depth m).1.audit_events)
            (drained x e depth runtime_version i rd (step x depth m).1)
            s
          ≡ ok o
        → Rest t rs index generated m o
    unfolding AllLengths
    after-Rest again index generated m (failed why) o lengths at k h = cc
    after-Rest again index generated m (completed outcome) o lengths at k h =
        let (same, last, audited, closes) = completion-Closes t rs index _ outcome o h in
        let (l1, l2, l3) = lengths index last in
        record {
          exs = [];
          events = (step x depth m).1.audit_events;
          runs = ends (rw same at);
          holds = (last, l1, l2, l3);
          audited = audited;
          closes = rw same closes;
        }
    after-Rest again index generated m continue o lengths at k h =
        let r = k index _ _ h in
        record {
          exs = r.exs;
          events = (step x depth m).1.audit_events ++ r.events;
          runs = moves at r.runs refl;
          holds = r.holds;
          audited =
              sym (append_assoc generated (step x depth m).1.audit_events r.events) ∙ r.audited;
          closes = r.closes;
        }
    after-Rest again index generated m (yield request) o lengths at k h =
        took (replay_effect x e depth runtime_version i rd rs index request _) _ o h
          λ supplied replayed h1.
            took (next_index x e depth runtime_version i rd index) _ o h1 λ next counted h2.
              let p =
                replay_effect-Replayed x e depth runtime_version i rd rs index request _ supplied
                  replayed in
              let r = k next _ _ h2 in
              let up : next ≡ suc index = ground arith in
              let q = subst (λ n. Holds rs n r.exs) up r.holds in
              let first = (step x depth m).1.audit_events in
              record {
                exs = p.exchange ∷ r.exs;
                events = (step x depth m).1.audit_events ++ (supplied.audit_events ++ r.events);
                runs = asks (at ∙ ap yield p.same_request) p.exchanges r.runs refl;
                holds = (
                  (p.at_requests, q.0),
                  (p.at_reservations, q.1),
                  (p.at_resolutions, q.2),
                  (p.at_settlements, q.3),
                );
                audited =
                    sym (append_assoc generated first (supplied.audit_events ++ r.events))
                    ∙ sym (append_assoc (generated ++ first) supplied.audit_events r.events)
                    ∙ r.audited;
                closes = r.closes;
              }

    loop-Rest :
        (bound index : ℕ) (generated : List AuditEvent) (m : Machine) (o : RunOutcome)
        → ((n : ℕ) → AllLengths n)
        → replay_loop x e depth runtime_version i rd t rs bound index generated m ≡ ok o
        → Rest t rs index generated m o
    unfolding replay_loop
    loop-Rest zero index generated m o lengths h = cc
    loop-Rest (suc bound) index generated m o lengths h =
        after-Rest (replay_loop x e depth runtime_version i rd t rs bound) index generated m
          (step x depth m).0 o lengths refl (λ n g m'. loop-Rest bound n g m' o lengths) h

  equal_lengths :
      (t : Trace) (rs : EffectRecords) → same_lengths rs ≡ true → (n : ℕ) → AllLengths t rs n
  unfolding AllLengths
  equal_lengths t rs h n last = (ground arith, ground arith, ground arith)

  -- The trace records a run of this program from this start that ends with the outcome: it
  -- verifies and its header is that of the program and the start; the machine that they start has
  -- a run to the outcome, whose exchanges are, in their order, what the trace's entries for
  -- requests, reservations, resolutions and settlements hold, whose audit events are those of the
  -- trace, and whose outcome is the one that the trace records.
  pub record IsReplay (program : Program) (request : StartRequest) (t : Trace) (o : RunOutcome)
      : Type 0 where
    pub verified : verify x.codec e.entry_value t ≡ ok tt
    pub headed : verify_header x e depth runtime_version i rd program request t ≡ ok tt
    pub machine : Machine
    pub starts :
        start x depth runtime_version i.grants_value i.request_value program request ≡ ok machine
    pub exs : List Exchange
    pub runs : Runs x e depth runtime_version i rd machine exs (recorded_audit t.entries) o
    pub recorded : effect_records t ≡ records_of exs
    pub closes : Closes t o

  Rest-IsReplay :
      (program : Program) (request : StartRequest) (t : Trace) (o : RunOutcome) (m : Machine)
      → verify x.codec e.entry_value t ≡ ok tt
      → verify_header x e depth runtime_version i rd program request t ≡ ok tt
      → start x depth runtime_version i.grants_value i.request_value program request ≡ ok m
      → Rest t (effect_records t) 0 [] m o
      → IsReplay program request t o
  Rest-IsReplay program request t o m v hd st r = record {
    verified = v;
    headed = hd;
    machine = m;
    starts = st;
    exs = r.exs;
    runs = subst (λ events. Runs x e depth runtime_version i rd m r.exs events o) r.audited r.runs;
    recorded = λ j. record {
      requests = From-zero (effect_records t).requests _ r.holds.0 j;
      reservations = From-zero (effect_records t).reservations _ r.holds.1 j;
      resolutions = From-zero (effect_records t).resolutions _ r.holds.2 j;
      settlements = From-zero (effect_records t).settlements _ r.holds.3 j;
    };
    closes = r.closes;
  }

  -- An outcome that `replay_run` returns, on a driver that it never asks, is that of a run which
  -- the trace records: all of the requests, the reserved maxima, the answers, the audit events
  -- and the outcome of the trace are the run's own.
  pub replay_run-IsReplay :
      (bound : ℕ) (program : Program) (request : StartRequest) (t : Trace) (o : RunOutcome)
      → replay_run x e depth runtime_version i rd bound program request t ≡ ok o
      → IsReplay program request t o
  unfolding replay_run
  replay_run-IsReplay bound program request t o h =
      took (map_err trace_failure (verify x.codec e.entry_value t)) _ o h λ _ h0 k0.
        took (verify_header x e depth runtime_version i rd program request t) _ o k0 λ _ h1 k1.
          took (ensure (same_lengths (effect_records t)) effect_sequence_mismatch) _ o k1 λ _ h2 k2.
            took
              (map_err machine_failure
                (start x depth runtime_version i.grants_value i.request_value program request))
              _ o k2
              λ m h3 k3.
                Rest-IsReplay program request t o m
                  (map_err-eq-ok trace_failure (verify x.codec e.entry_value t) tt h0) h1
                  (map_err-eq-ok machine_failure
                    (start x depth runtime_version i.grants_value i.request_value program request) m
                    h3)
                  (loop-Rest t (effect_records t) bound 0 [] m o
                    (equal_lengths t (effect_records t) (ensured _ _ h2)) k3)
