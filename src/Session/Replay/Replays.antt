-- ===== src/Session/Replay/Replays.antt =====
-- What `replay_run` of run.rs takes for a replay: a run of the machine on the recorded answers.
use aster_lang.Base.{
  ℕ, String, ◌≡◌, refl, sym, ap, ◌∙◌, subst, Bool, true, false, Option, none, some, List, [], ◌∷◌,
  ◌++◌, map, arith, get_elem?,
}
use aster_lang.Base.Maps.{BTreeMap}
use aster_lang.Base.Outcome.{Result, ok, err, map_err, and_then, ensure}
use aster_lang.Json.{Json, same_json}
use aster_lang.Json.Same.{eq_of_same_json}
use aster_lang.Machine.Errors.{MachineError, serialization_failure}
use aster_lang.Machine.Decode.{Externals}
use aster_lang.Machine.State.{
  Machine, EffectRequest, EffectResolution, RunOutcome, AuditEvent, continue, yield, completed,
}
use aster_lang.Machine.Run.{step, supply, reserve_pending_usage}
use aster_lang.Session.{Evidence, pending_budget_evidence, budget_settlement_evidence}
use aster_lang.Session.Opening.{Inputs}
use aster_lang.Session.Replay.{
  ReplayError, machine_failure, data_failure, request_divergence, budget_divergence, Readers,
  same_request, EffectRecords, maximums_in, machine_of, recorded_at, replay_effect, read_as,
  same_settlement, drained,
}
use aster_lang.Session.Replay.Same.{eq_of_same_request}

-- One effect of a run: the request, what was reserved for it, the answer, and the four payloads
-- that record them.
pub record Exchange : Type 0 where
  pub request : EffectRequest
  pub maximums : BTreeMap String ℕ
  pub resolution : EffectResolution
  pub requested : Json
  pub reservation : Json
  pub answer : Json
  pub settlement : Json

abbrev pub records_of : List Exchange → EffectRecords
records_of exs = record {
  requests = map (λ ex. ex.requested) exs;
  reservations = map (λ ex. ex.reservation) exs;
  resolutions = map (λ ex. ex.answer) exs;
  settlements = map (λ ex. ex.settlement) exs;
}

pub took :
    {A B P : Type 0} (r : Result ReplayError A) (f : A → Result ReplayError B) (b : B)
    → and_then r f ≡ ok b
    → ((a : A) → r ≡ ok a → f a ≡ ok b → P)
    → P
took (ok a) f b h k = k a refl h
took (err why) f b h k = cc

pub ensured : (b : Bool) (why : ReplayError) → ensure b why ≡ ok tt → b ≡ true
ensured true why h = refl
ensured false why h = cc

pub map_err-eq-ok :
    {E A : Type 0} (f : E → ReplayError) (r : Result E A) (a : A) → map_err f r ≡ ok a → r ≡ ok a
map_err-eq-ok f (ok b) a h = cc
map_err-eq-ok f (err why) a h = cc

module _ (x : Externals) (e : Evidence) (depth : ℕ) (runtime_version : String) (i : Inputs)
    (rd : Readers) where
  -- The exchange takes a waiting machine `m` to `m'`, and its payloads are the evidence of that.
  pub record Exchanges (ex : Exchange) (m m' : Machine) : Type 0 where
    pub reads_request : rd.request_of_json ex.requested ≡ ok ex.request
    pub reads_maximums : maximums_in x e depth runtime_version i rd ex.reservation ≡ ok ex.maximums
    pub reads_answer : rd.resolution_of_json ex.answer ≡ ok ex.resolution
    pub reserved : Machine
    pub reserves : reserve_pending_usage ex.maximums m ≡ (ok tt, reserved)
    pub evidence : pending_budget_evidence e reserved ≡ ok ex.reservation
    pub supplies : supply x depth ex.resolution reserved ≡ (ok tt, m')
    pub after : Json
    pub budget : e.budget_value m'.snapshot.budget ≡ ok after
    pub settles :
        budget_settlement_evidence e ex.maximums ex.resolution.actual_usage after ≡ ok ex.settlement

  -- A run from `m` to its outcome, on these exchanges and with these audit events.
  pub data Runs : Machine → List Exchange → List AuditEvent → RunOutcome → Type 0 where
    ends :
        {m : Machine} {outcome : RunOutcome}
        → (step x depth m).0 ≡ completed outcome
        → Runs m [] (step x depth m).1.audit_events outcome
    moves :
        {m : Machine} {exs : List Exchange} {events all : List AuditEvent} {outcome : RunOutcome}
        → (step x depth m).0 ≡ continue
        → Runs (drained x e depth runtime_version i rd (step x depth m).1) exs events outcome
        → all ≡ (step x depth m).1.audit_events ++ events
        → Runs m exs all outcome
    asks :
        {m m' : Machine} {ex : Exchange} {exs : List Exchange} {events all : List AuditEvent}
        {outcome : RunOutcome}
        → (step x depth m).0 ≡ yield ex.request
        → Exchanges ex (drained x e depth runtime_version i rd (step x depth m).1) m'
        → Runs (drained x e depth runtime_version i rd m') exs events outcome
        → all ≡ (step x depth m).1.audit_events ++ (m'.audit_events ++ events)
        → Runs m (ex ∷ exs) all outcome

  machine_of-eq-ok :
      (r : Result MachineError (Unit {0}) × Machine) (m : Machine)
      → machine_of x e depth runtime_version i rd r ≡ ok m
      → r ≡ (ok tt, m)
  machine_of-eq-ok r m h = ground arith

  at-some :
      (vs : List Json) (index : ℕ) (v : Json)
      → recorded_at x e depth runtime_version i rd vs index ≡ ok v
      → get_elem? vs index ≡ some v
  at-some vs index v h = ground arith

  settlement-some :
      (settlement : Json) (o : Option Json)
      → same_settlement x e depth runtime_version i rd settlement o ≡ true
      → o ≡ some settlement
  settlement-some settlement none h = cc
  settlement-some settlement (some v) h = ap some (sym (eq_of_same_json settlement v h))

  -- What an effect that was replayed tells of the record at its index.
  pub record Replayed (rs : EffectRecords) (index : ℕ) (request : EffectRequest) (m m' : Machine)
      : Type 0 where
    pub exchange : Exchange
    pub same_request : request ≡ exchange.request
    pub exchanges : Exchanges exchange m m'
    pub at_requests : get_elem? rs.requests index ≡ some exchange.requested
    pub at_reservations : get_elem? rs.reservations index ≡ some exchange.reservation
    pub at_resolutions : get_elem? rs.resolutions index ≡ some exchange.answer
    pub at_settlements : get_elem? rs.settlements index ≡ some exchange.settlement

  pub replay_effect-Replayed :
      (rs : EffectRecords) (index : ℕ) (request : EffectRequest) (m m' : Machine)
      → replay_effect x e depth runtime_version i rd rs index request m ≡ ok m'
      → Replayed rs index request m m'
  unfolding replay_effect
  replay_effect-Replayed rs index request m m' h =
      took (recorded_at x e depth runtime_version i rd rs.requests index) _ m' h λ recorded h0 k0.
        took (read_as (rd.request_of_json recorded)) _ m' k0 λ expected h1 k1.
          took (ensure (same_request request expected) request_divergence) _ m' k1 λ _ h2 k2.
            took (recorded_at x e depth runtime_version i rd rs.reservations index) _ m' k2
              λ reservation h3 k3.
                took (maximums_in x e depth runtime_version i rd reservation) _ m' k3
                  λ maximums h4 k4.
                    took
                      (machine_of x e depth runtime_version i rd (reserve_pending_usage maximums m))
                      _ m' k4
                      λ reserved h5 k5.
                        took (map_err machine_failure (pending_budget_evidence e reserved)) _ m' k5
                          λ evidence h6 k6.
                            took (ensure (same_json evidence reservation) budget_divergence) _ m' k6
                              λ _ h7 k7.
                                took
                                  (recorded_at x e depth runtime_version i rd rs.resolutions index)
                                  _ m' k7
                                  λ answer h8 k8.
                                    took (read_as (rd.resolution_of_json answer)) _ m' k8
                                      λ resolution h9 k9.
                                        took
                                          (machine_of x e depth runtime_version i rd
                                            (supply x depth resolution reserved))
                                          _ m' k9
                                          λ supplied h10 k10.
                                            took
                                              (map_err
                                                (λ t. machine_failure (serialization_failure t))
                                                (e.budget_value supplied.snapshot.budget))
                                              _ m' k10
                                              λ after h11 k11.
                                                took
                                                  (read_as (
                                                    budget_settlement_evidence e maximums
                                                      resolution.actual_usage after))
                                                  _ m' k11
                                                  λ settlement h12 k12.
                                                    took
                                                      (ensure
                                                        (same_settlement x e depth runtime_version i
                                                          rd settlement
                                                          (get_elem? rs.settlements index))
                                                        budget_divergence)
                                                      _ m' k12
                                                      λ _ h13 k13.
                                                        let sp : supplied ≡ m' = cc in
                                                        record {
                                                          exchange = record {
                                                            request = request;
                                                            maximums = maximums;
                                                            resolution = resolution;
                                                            requested = recorded;
                                                            reservation = reservation;
                                                            answer = answer;
                                                            settlement = settlement;
                                                          };
                                                          same_request = refl;
                                                          exchanges = record {
                                                            reads_request =
                                                            map_err-eq-ok data_failure
                                                            (rd.request_of_json recorded) request
                                                            (h1
                                                            ∙ ap ok (
                                                            sym (
                                                            eq_of_same_request request expected
                                                            (ensured _ _ h2))));
                                                            reads_maximums = h4;
                                                            reads_answer =
                                                            map_err-eq-ok data_failure
                                                            (rd.resolution_of_json answer)
                                                            resolution h9;
                                                            reserved = reserved;
                                                            reserves =
                                                            machine_of-eq-ok
                                                            (reserve_pending_usage maximums m)
                                                            reserved h5;
                                                            evidence =
                                                            map_err-eq-ok machine_failure
                                                            (pending_budget_evidence e reserved)
                                                            reservation
                                                            (h6
                                                            ∙ ap ok (
                                                            eq_of_same_json evidence reservation
                                                            (ensured _ _ h7)));
                                                            supplies =
                                                            machine_of-eq-ok
                                                            (supply x depth resolution reserved) m'
                                                            (h10 ∙ k13);
                                                            after = after;
                                                            budget =
                                                            subst
                                                            (λ n.
                                                            e.budget_value n.snapshot.budget
                                                            ≡ ok after)
                                                            sp
                                                            (map_err-eq-ok
                                                            (λ t.
                                                            machine_failure
                                                            (serialization_failure t))
                                                            (e.budget_value
                                                            supplied.snapshot.budget)
                                                            after h11);
                                                            settles =
                                                            map_err-eq-ok data_failure
                                                            (budget_settlement_evidence e maximums
                                                            resolution.actual_usage after)
                                                            settlement h12;
                                                          };
                                                          at_requests =
                                                            at-some rs.requests index recorded h0;
                                                          at_reservations =
                                                            at-some rs.reservations index
                                                            reservation h3;
                                                          at_resolutions =
                                                            at-some rs.resolutions index answer h8;
                                                          at_settlements =
                                                            settlement-some settlement
                                                            (get_elem? rs.settlements index)
                                                            (ensured _ _ h13);
                                                        }
