-- ===== src/Machine/Lifetime.antt =====
-- Whole runs of the machine of crates/aster-runtime/src/machine.rs: what holds of every machine
-- that `step`, `supply` and `reserve_pending_usage` lead to, in any order.
use aster_lang.Base.{ℕ, String, ◌<◌, ◌≤◌, ◌+◌, ◌≡◌, ◌≢◌, none, arith, u64_max}
use aster_lang.Base.Maps.{BTreeMap, string_ord, lookup}
use aster_lang.Base.Outcome.{Result, ok}
use aster_lang.Json.{Json}
use aster_lang.Budget.{BudgetDimension, dimension_ord, Budget, remaining_of, or_zero}
use aster_lang.Budget.Conserve.{History, reserved_of, History-le-limit}
use aster_lang.Authority.{empty_ledger, validate_ledger}
use aster_lang.Authority.Ledger.{here, Calls-consumed, Calls-validate_ledger}
use aster_lang.Capability.{CapabilityGrants}
use aster_lang.Ir.{Program}
use aster_lang.Machine.Decode.{Externals}
use aster_lang.Machine.State.{Machine, EffectKind, EffectRequest, yield}
use aster_lang.Machine.Run.{step, idle_step}
use aster_lang.Machine.Start.{StartRequest, start}
use aster_lang.Machine.Start.Entry.{limits_of, start-Started}
use aster_lang.Machine.Follows.{identity_of, Accounted}
use aster_lang.Machine.Follows.Runs.{Reaches, Reaches-Follows}
use aster_lang.Machine.Commits.{Committed}
use aster_lang.Machine.Commits.Steps.{step-Committed}

module _ (x : Externals) (depth : ℕ) where
  -- No run changes the program, the identity that `start` fixed (the program's hash, the agent,
  -- the event, its id and time, the hash of its input and the grants) or the published state.
  pub Reaches-kept :
      (m m' : Machine)
      → Reaches x depth m m'
      → (m'.program ≡ m.program)
        × (identity_of m'.snapshot ≡ identity_of m.snapshot)
        × (m'.snapshot.current_state ≡ m.snapshot.current_state)
  Reaches-kept m m' r =
      let f = Reaches-Follows x depth m m' r in (f.same_program, f.same_identity, f.same_state)

  permits_differ :
      (m m1 n n1 : Machine) (r r' : EffectRequest)
      → (first : Committed x depth m m1 r) → Reaches x depth m1 n
      → (second : Committed x depth n n1 r') → second.permit.id ≢ first.permit.id
  permits_differ m m1 n n1 r r' first between second same = ground (
    arith,
    Calls-consumed x.codec x.proposal_value first.permit.id
        ((Reaches-Follows x depth m1 n between).authority_calls m1.snapshot.authority here)
        first.consumed,
    second.authorised.unused,
    same,
  )

  -- Two steps of a run that ask for a write, however many calls lie between them, have consumed
  -- permits of different ids, each for a proposal that it authorises.
  pub step-step-Committed :
      (m n : Machine) (r r' : EffectRequest)
      → idle_step x depth m m.failure ≡ none
      → (step x depth m).0 ≡ yield r
      → r.kind ≡ EffectKind.write
      → Reaches x depth (step x depth m).1 n
      → idle_step x depth n n.failure ≡ none
      → (step x depth n).0 ≡ yield r'
      → r'.kind ≡ EffectKind.write
      → (first : Committed x depth m (step x depth m).1 r) × (second : Committed x depth n
          (step x depth n).1
          r')
        × (second.permit.id ≢ first.permit.id)
  step-step-Committed m n r r' idle asks write between idle' asks' write' =
      let first = step-Committed x depth m r idle asks write in
      let second = step-Committed x depth n r' idle' asks' write' in
      (
        first,
        second,
        permits_differ m (step x depth m).1 n (step x depth n).1 r r' first between second,
      )

  module _ (runtime_version : String) (grants_value : CapabilityGrants → Result String Json)
      (request_value : StartRequest → Result String Json) where
    limited :
        (limits : BTreeMap BudgetDimension ℕ) (b : Budget) (d : BudgetDimension)
        → Accounted limits b
        → remaining_of b d + reserved_of b d ≤ or_zero (lookup d limits)
    limited limits b d (spent, h) = omega (arith, History-le-limit limits b spent h d)

    -- In a run that `start` began, what a budget has left and what it holds reserved are together
    -- never more than the limit that the requested agent declares for it.
    pub Reaches-le-limit :
        (program : Program) (request : StartRequest) (m m' : Machine)
        → start x depth runtime_version grants_value request_value program request ≡ ok m
        → Reaches x depth m m'
        → (d : BudgetDimension)
        → remaining_of m'.snapshot.budget d + reserved_of m'.snapshot.budget d
          ≤ or_zero (lookup d (limits_of (lookup request.agent program.agents)))
    Reaches-le-limit program request m m' h r d =
        let limits = limits_of (lookup request.agent program.agents) in
        let s =
          start-Started x depth runtime_version grants_value request_value program request m h in
        limited limits m'.snapshot.budget d (
          (Reaches-Follows x depth m m' r).accounted limits
            (rw s.full_budget ((λ d. 0), History.start)))

    -- In a run that `start` began, the permits pass `AuthorityLedger::validate` at every point
    -- at which the ledger's counter has not reached the largest `u64`.
    pub Reaches-validate_ledger :
        (program : Program) (request : StartRequest) (m m' : Machine)
        → start x depth runtime_version grants_value request_value program request ≡ ok m
        → Reaches x depth m m'
        → m'.snapshot.authority.next_sequence < u64_max
        → validate_ledger x.codec x.proposal_value m'.snapshot.authority ≡ ok tt
    Reaches-validate_ledger program request m m' h r room =
        let s =
          start-Started x depth runtime_version grants_value request_value program request m h in
        Calls-validate_ledger x.codec x.proposal_value
          ((Reaches-Follows x depth m m' r).authority_calls empty_ledger (rw s.no_permits here))
          room
