-- ===== src/Authority/Permits.antt =====
-- What `consume` of authority.rs admits, that a permit is used once, and that an issued permit
-- can be used.
use aster_lang.Base.{
  String, ◌≡◌, ◌↔◌, true, false, Option, none, some, arith, eq_iff, str_lt, ap, if◌then◌else◌, inl,
  inr,
}
use aster_lang.Base.Maps.{string_ord, lookup, insert}
use aster_lang.Base.Outcome.{Result, ok, is_err, Result-cases}
use aster_lang.Json.{Json, Codec}
use aster_lang.Authority.{
  Proposal, Permit, AuthorityLedger, same_permit, content_hash, validate_proposal, computed_id,
  consume, filed_as,
}

pub same_permit-eq : (a b : Permit) → same_permit a b ≡ true → a ≡ b
same_permit-eq a b h = ground (
  arith,
  eq_iff a.id b.id,
  eq_iff a.proposal_hash b.proposal_hash,
  eq_iff a.action b.action,
  eq_iff a.grant_fingerprint b.grant_fingerprint,
  eq_iff a.policy b.policy,
  eq_iff a.issued_at b.issued_at,
  eq_iff a.expires_at b.expires_at,
  eq_iff a.decision_evidence b.decision_evidence,
)

pub same_permit_self : (a : Permit) → same_permit a a ≡ true
same_permit_self a = ground (
  arith,
  eq_iff a.id a.id,
  eq_iff a.proposal_hash a.proposal_hash,
  eq_iff a.action a.action,
  eq_iff a.grant_fingerprint a.grant_fingerprint,
  eq_iff a.policy a.policy,
  eq_iff a.issued_at a.issued_at,
  eq_iff a.expires_at a.expires_at,
  eq_iff a.decision_evidence a.decision_evidence,
)

filed_as-eq : (permit : Permit) (o : Option Permit) → filed_as permit o ≡ true → o ≡ some permit
filed_as-eq permit none h = cc
filed_as-eq permit (some filed) h = ap some (same_permit-eq filed permit h)

filed_as-of_eq : (permit : Permit) (o : Option Permit) → o ≡ some permit → filed_as permit o ≡ true
filed_as-of_eq permit o h = rw h (same_permit_self permit)

module _ (codec : Codec) (value : Proposal → Result String Json) where
  -- What has to hold for a permit to authorise a proposal now.
  pub record Authorises (ledger : AuthorityLedger) (proposal : Proposal) (permit : Permit)
      (grant now : String) : Type 0 where
    pub sealed : content_hash codec value proposal ≡ ok proposal.digest
    pub genuine : computed_id codec value permit ≡ permit.id
    pub filed : lookup permit.id ledger.issued ≡ some permit
    pub bound : permit.proposal_hash ≡ proposal.digest
    pub same_action : permit.action ≡ proposal.action
    pub same_grant : permit.grant_fingerprint ≡ grant
    pub permit_in_time : str_lt permit.expires_at now ≡ false
    pub intent_in_time : str_lt proposal.intent.expires_at now ≡ false
    pub unused : lookup permit.id ledger.consumed ≡ none

  pub sealed-eq :
      (p : Proposal)
      → is_err (validate_proposal codec value p) ≡ false
      → content_hash codec value p ≡ ok p.digest
  unfolding validate_proposal
  sealed-eq p h = elim (Result-cases (content_hash codec value p)) [
    | inl (t, e) ↦ ground (arith, eq_iff t p.digest)
    | inr (t, e) ↦ ground arith
  ]

  sealed-of_eq :
      (p : Proposal)
      → content_hash codec value p ≡ ok p.digest
      → is_err (validate_proposal codec value p) ≡ false
  unfolding validate_proposal
  sealed-of_eq p h = rw h (ground (arith, eq_iff p.digest p.digest))

  module _ (ledger : AuthorityLedger) (proposal : Proposal) (permit : Permit)
      (grant now : String) where
    pub consume-Authorises :
        (consume codec value proposal permit grant now ledger).0 ≡ ok tt
        → Authorises ledger proposal permit grant now
    unfolding consume
    consume-Authorises h = record {
      sealed = sealed-eq proposal (ground arith);
      genuine = ground (arith, eq_iff (computed_id codec value permit) permit.id);
      filed = filed_as-eq permit (lookup permit.id ledger.issued) (ground arith);
      bound = ground (arith, eq_iff permit.proposal_hash proposal.digest);
      same_action = ground (arith, eq_iff permit.action proposal.action);
      same_grant = ground (arith, eq_iff permit.grant_fingerprint grant);
      permit_in_time = ground arith;
      intent_in_time = ground arith;
      unused = ground arith;
    }

    pub consume-of_Authorises :
        Authorises ledger proposal permit grant now
        → (consume codec value proposal permit grant now ledger).0 ≡ ok tt
    unfolding consume
    consume-of_Authorises h = ground (
      arith,
      sealed-of_eq proposal,
      eq_iff (computed_id codec value permit) permit.id,
      filed_as-of_eq permit (lookup permit.id ledger.issued),
      eq_iff permit.proposal_hash proposal.digest,
      eq_iff permit.action proposal.action,
      eq_iff permit.grant_fingerprint grant,
    )

    -- `consume` succeeds exactly when the proposal is sealed, the permit is the one that this
    -- ledger issued for it under the same grants, neither has expired, and it is unused; then the
    -- permit's id is all that is added. Where it fails the ledger is unchanged.
    pub consume_iff :
        ((consume codec value proposal permit grant now ledger).0 ≡ ok tt
          ↔ Authorises ledger proposal permit grant now)
        × ((consume codec value proposal permit grant now ledger).1 ≡ (
            if is_err (consume codec value proposal permit grant now ledger).0
            then ledger
            else record ledger { consumed = insert permit.id tt ledger.consumed }))
    unfolding consume
    consume_iff = ((consume-Authorises, consume-of_Authorises), ground arith)
