-- ===== src/Authority.antt =====
-- crates/aster-runtime/src/authority.rs: sealed proposals, permits bound to them, and the ledger
-- that issues and consumes permits. Hashing a proposal goes through `serde_json::to_value`, which
-- comes in as `proposal_value`. The proofs are in the modules below.
pub mod Ledger
pub mod Permits
use aster_lang.Base.{
  ℕ, ◌+◌, String, ◌≡◌, Bool, true, false, ◌&&◌, ◌||◌, not, Option, none, some, List, [], ◌∷◌, leb,
  str_eq, str_lt, ◌==◌, if◌then◌else◌, saturating_add,
}
use aster_lang.Base.Maps.{BTreeMap, BTreeSet, string_ord, lookup, insert, contains_key, contains}
use aster_lang.Base.Outcome.{Result, ok, err, and_then, is_err, Exec}
use aster_lang.Base.Text.{decimal, join_nul}
use aster_lang.Json.{Json, CanonicalError, digest_mismatch, Codec, canonical_sha256}

pub record Intent : Type 0 where
  pub purpose : String
  pub fields : BTreeMap String Json
  pub expires_at : String

pub record ProposalMetadata : Type 0 where
  pub risk : String
  pub sensitivity : String
  pub capability_request : Json
  pub idempotency_key : String
  pub program_hash : String

pub record Proposal : Type 0 where
  pub schema_version : ℕ
  pub action : String
  pub arguments : BTreeMap String Json
  pub intent : Intent
  pub risk : String
  pub sensitivity : String
  pub capability_request : Json
  pub idempotency_key : String
  pub program_hash : String
  pub digest : String

pub record Permit : Type 0 where
  pub id : String
  pub sequence : ℕ
  pub proposal_hash : String
  pub action : String
  pub grant_fingerprint : String
  pub policy : String
  pub issued_at : String
  pub expires_at : String
  pub decision_evidence : String

pub record AuthorityLedger : Type 0 where
  pub next_sequence : ℕ
  pub issued : BTreeMap String Permit
  pub consumed : BTreeSet String

pub data AuthorityError : Type 0 where
  forged_permit proposal_mismatch grant_mismatch expired already_consumed : AuthorityError

-- `derive(Default)`
abbrev pub empty_ledger : AuthorityLedger
empty_ledger = record { next_sequence = 0; issued = []; consumed = [] }

-- `derive(PartialEq)`
abbrev pub same_permit : Permit → Permit → Bool
same_permit a b =
    str_eq a.id b.id
    && a.sequence == b.sequence
    && str_eq a.proposal_hash b.proposal_hash
    && str_eq a.action b.action
    && str_eq a.grant_fingerprint b.grant_fingerprint
    && str_eq a.policy b.policy
    && str_eq a.issued_at b.issued_at
    && str_eq a.expires_at b.expires_at
    && str_eq a.decision_evidence b.decision_evidence

-- `any` over the entries of a map
unfoldable pub any_entry {ℓ} : {V : Type ℓ} → (String → V → Bool) → BTreeMap String V → Bool
any_entry test [] = false
any_entry test ((k, v) ∷ m) = test k v || any_entry test m

-- The text that a permit's id is the hash of.
unfoldable pub material : String → String → String → String → String → String → ℕ → String
material proposal_hash policy grant issued_at expires_at evidence sequence =
    join_nul
      (proposal_hash ∷ policy ∷ grant ∷ issued_at ∷ expires_at ∷ evidence ∷ decimal sequence ∷ [])

abbrev pub filed_as : Permit → Option Permit → Bool
filed_as permit none = false
filed_as permit (some filed) = same_permit filed permit

-- `issued.get(&permit.id) == Some(permit)`
abbrev pub is_filed : AuthorityLedger → Permit → Bool
is_filed ledger permit = filed_as permit (lookup permit.id ledger.issued)

module _ (codec : Codec) (proposal_value : Proposal → Result String Json) where
  -- the canonical hash of a proposal, its own digest left out
  unfoldable pub content_hash : Proposal → Result CanonicalError String
  content_hash p = canonical_sha256 codec (proposal_value (record p { digest = "" }))

  -- `Proposal::new`
  unfoldable pub new_proposal :
      String → BTreeMap String Json → Intent → ProposalMetadata → Result CanonicalError Proposal
  unfolding content_hash
  new_proposal action arguments intent metadata =
      let proposal : Proposal = record {
        schema_version = 1;
        action = action;
        arguments = arguments;
        intent = intent;
        risk = metadata.risk;
        sensitivity = metadata.sensitivity;
        capability_request = metadata.capability_request;
        idempotency_key = metadata.idempotency_key;
        program_hash = metadata.program_hash;
        digest = "";
      } in
      and_then (canonical_sha256 codec (proposal_value proposal))
        λ hash. ok (record proposal { digest = hash })

  -- `Proposal::validate`
  unfoldable pub validate_proposal : Proposal → Result CanonicalError (Unit {0})
  validate_proposal p =
      and_then (content_hash p) λ hash. if str_eq hash p.digest then ok tt else err digest_mismatch

  -- `Permit::computed_id`
  unfoldable pub computed_id : Permit → String
  computed_id p = codec.sha256_hex (
      material p.proposal_hash p.policy p.grant_fingerprint p.issued_at p.expires_at
        p.decision_evidence p.sequence)

  -- the permit that `issue` makes
  unfoldable pub permit_for :
      AuthorityLedger
      → Proposal
      → (policy grant_fingerprint issued_at expires_at decision_evidence : String) → Permit
  permit_for ledger proposal policy grant issued_at expires_at evidence = record {
    id =
        codec.sha256_hex (
          material proposal.digest policy grant issued_at expires_at evidence ledger.next_sequence);
    sequence = ledger.next_sequence;
    proposal_hash = proposal.digest;
    action = proposal.action;
    grant_fingerprint = grant;
    policy = policy;
    issued_at = issued_at;
    expires_at = expires_at;
    decision_evidence = evidence;
  }

  unfoldable pub issue :
      Proposal
      → (policy grant_fingerprint issued_at expires_at decision_evidence : String)
      → Exec AuthorityLedger AuthorityError Permit
  unfolding permit_for
  issue proposal policy grant issued_at expires_at evidence ledger =
      if is_err (validate_proposal proposal)
      then (err proposal_mismatch, ledger)
      else (let permit : Permit =
            permit_for ledger proposal policy grant issued_at expires_at evidence in
          (
            ok permit,
            record ledger {
              next_sequence = saturating_add ledger.next_sequence 1;
              issued = insert permit.id permit ledger.issued;
            },
          ))

  unfoldable pub consume :
      Proposal
      → Permit
      → (grant_fingerprint now : String) → Exec AuthorityLedger AuthorityError (Unit {0})
  consume proposal permit grant now ledger =
      if is_err (validate_proposal proposal)
      then (err proposal_mismatch, ledger)
      else if not (str_eq (computed_id permit) permit.id) || not (is_filed ledger permit)
      then (err forged_permit, ledger)
      else if not (str_eq permit.proposal_hash proposal.digest)
          || not (str_eq permit.action proposal.action)
      then (err proposal_mismatch, ledger)
      else if not (str_eq permit.grant_fingerprint grant)
      then (err grant_mismatch, ledger)
      else if str_lt permit.expires_at now || str_lt proposal.intent.expires_at now
      then (err expired, ledger)
      else if contains permit.id ledger.consumed
      then (err already_consumed, ledger)
      else (ok tt, record ledger { consumed = insert permit.id tt ledger.consumed })

  -- the two tests of `AuthorityLedger::validate`
  abbrev pub bad_permit : ℕ → String → Permit → Bool
  bad_permit next_sequence id permit =
      not (str_eq id permit.id)
      || not (str_eq (computed_id permit) permit.id)
      || leb next_sequence permit.sequence

  abbrev pub unissued : BTreeMap String Permit → String → Unit {0} → Bool
  unissued issued id _ = not (contains_key id issued)

  -- `AuthorityLedger::validate`
  unfoldable pub validate_ledger : AuthorityLedger → Result AuthorityError (Unit {0})
  validate_ledger ledger =
      if any_entry (bad_permit ledger.next_sequence) ledger.issued
        || any_entry (unissued ledger.issued) ledger.consumed
      then err forged_permit
      else ok tt
