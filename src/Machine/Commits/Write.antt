-- ===== src/Machine/Commits/Write.antt =====
-- `yield_commit` of machine.rs: the one instruction that requests a write.
use aster_lang.Base.{ℕ, ◌≡◌, some, [], arith}
use aster_lang.Base.Outcome.{ok}
use aster_lang.Authority.{Proposal, Permit, consume}
use aster_lang.Authority.Permits.{consume-Authorises}
use aster_lang.Authority.Ledger.{consume-consumed}
use aster_lang.Budget.{BudgetDimension, Budget, Reservation}
use aster_lang.Ir.{TypeSpec}
use aster_lang.Json.{Json}
use aster_lang.Machine.Decode.{Externals}
use aster_lang.Machine.State.{
  Machine, Step, yield, pure, update, EffectKind, EffectRequest, PendingEffect, write_completion,
  ◌>>=◌, ◌>>◌, audit, consume_permit, reserve_budget,
}
use aster_lang.Machine.Queries.{require_capability, effect_request}
use aster_lang.Machine.Governed.{yield_commit, commit_payload}
use aster_lang.Machine.Rules.{past, past_read}
use aster_lang.Machine.Commits.{Committed}

-- the pending effect that a commit files
abbrev filed_write : EffectRequest → ℕ → Budget → Reservation → Proposal → TypeSpec → PendingEffect
filed_write request target before r p ty = record {
  request = request;
  target = target;
  budget_before = before;
  reservation = some r;
  usage_reservations = [];
  completion = write_completion p.action p.digest ty;
}

module _ (x : Externals) (depth : ℕ) where
  -- the part of `yield_commit` that changes the state
  module _ (p : Proposal) (q : Permit) (m m1 m2 m3 m' : Machine) (s : Step)
      (request : EffectRequest) (target : ℕ) (before : Budget) (r : Reservation) (ty : TypeSpec)
      (payload : Json)
      (consumes : consume_permit x p q m.snapshot.grant_fingerprint m.snapshot.event_time m
        ≡ (ok tt, m1))
      (audits : audit "proposal_committed" payload m1 ≡ (ok tt, m2))
      (reserves : reserve_budget BudgetDimension.external_writes 1 m2 ≡ (ok r, m3))
      (files : (update
              (λ s. record s { pending_effect = some (filed_write request target before r p ty) })
            >> pure (yield request))
          m3
        ≡ (ok s, m')) where
    consumed_ok :
        (consume x.codec x.proposal_value p q m.snapshot.grant_fingerprint m.snapshot.event_time
          m.snapshot.authority).0
        ≡ ok tt
    unfolding consume_permit
    consumed_ok = ground arith

    commit-Committed :
        require_capability x depth m p.capability_request ≡ ok tt
        → effect_request x depth EffectKind.write p.action (commit_payload x depth p) ≡ ok request
        → (s ≡ yield request) × Committed x depth m m' request
    unfolding consume_permit audit reserve_budget ◌>>=◌
    commit-Committed granted asked = (
      ground arith,
      record {
        proposal = p;
        permit = q;
        reservation = r;
        authorised =
            consume-Authorises x.codec x.proposal_value m.snapshot.authority p q
              m.snapshot.grant_fingerprint m.snapshot.event_time consumed_ok;
        granted = granted;
        consumed = ground (
          arith,
          consume-consumed x.codec x.proposal_value p q m.snapshot.grant_fingerprint
              m.snapshot.event_time m.snapshot.authority m1.snapshot.authority,
        );
        reserved = ground arith;
        asked = asked;
        pending =
            (filed_write request target before r p ty, ground arith, ground arith, ground arith);
      },
    )

  -- A commit that returns has requested a write for a proposal that a permit authorises.
  pub yield_commit-Committed :
      (target proposal permit : ℕ) (m m' : Machine) (s : Step)
      → yield_commit x depth target proposal permit m ≡ (ok s, m')
      → (r : EffectRequest) × (s ≡ yield r) × Committed x depth m m' r
  unfolding yield_commit
  yield_commit-Committed target proposal permit m m' s h = past_read _ _ m m' s h λ _ _ h1.
      past_read _ _ m m' s h1 λ p _ h2. past_read _ _ m m' s h2 λ _ _ h3.
        past_read _ _ m m' s h3 λ q _ h4. past_read _ _ m m' s h4 λ _ granted h5.
          past_read _ _ m m' s h5 λ grant g h6. past_read _ _ m m' s h6 λ now n h7.
            past _ _ m m' s h7 λ _ m1 e1 h8. past _ _ m1 m' s h8 λ _ m2 e2 h9.
              past_read _ _ m2 m' s h9 λ before _ h10. past _ _ m2 m' s h10 λ r m3 e3 h11.
                past_read _ _ m3 m' s h11 λ tool _ h12.
                  past_read _ _ m3 m' s h12 λ request asked h13.
                    let done =
                      commit-Committed p q m m1 m2 m3 m' s request target before r tool.result_type
                        _ (cc) e2 e3 h13 granted asked in
                    (request, done.0, done.1)
