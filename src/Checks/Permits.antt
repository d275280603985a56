-- ===== src/Checks/Permits.antt =====
-- Runs of the ledger of authority.rs.
use aster_lang.Base.{String, ◌≡◌, ◌≢◌, ◌↔◌, refl, [], ◌∷◌, arith, if◌then◌else◌}
use aster_lang.Base.Maps.{string_ord, lookup, insert}
use aster_lang.Base.Outcome.{ok, is_err}
use aster_lang.Base.Text.{decimal, join_nul}
use aster_lang.Json.{string, canonical_json, canonical_sha256, canonicalize}
use aster_lang.Authority.{
  Intent, Proposal, Permit, AuthorityLedger, empty_ledger, issue, consume, validate_ledger,
  content_hash, permit_for,
}
use aster_lang.Authority.Permits.{Authorises, consume_iff}
use aster_lang.Authority.Ledger.{Calls, consume_once, Calls-validate_ledger, issue-Authorises}
use aster_lang.Checks.{printer, proposal_json, show}

abbrev pub mail : Proposal
mail = record {
  schema_version = 1;
  action = "Mail.send";
  arguments = ("to", string "ops") ∷ [];
  intent = record { purpose = "notify"; fields = []; expires_at = "2026-02-01T00:00:00Z" };
  risk = "low";
  sensitivity = "public";
  capability_request = string "Net";
  idempotency_key = "k1";
  program_hash = "p";
  digest =
      "{action:\"Mail.send\",arguments:{to:\"ops\",},digest:\"\",intent:{expires_at:\"2026-02-01T00:00:00Z\",fields:{},purpose:\"notify\",},key:\"k1\",}";
}

abbrev pub issue_time : String
issue_time = "2026-01-01T00:00:00Z"

abbrev pub expiry : String
expiry = "2026-01-01T00:10:00Z"

-- the permit that an empty ledger issues for it
abbrev pub mail_permit : Permit
mail_permit = record {
  id =
      join_nul
        (mail.digest ∷ "send" ∷ "grant" ∷ issue_time ∷ expiry ∷ "policy_allow" ∷ decimal 0 ∷ []);
  sequence = 0;
  proposal_hash = mail.digest;
  action = "Mail.send";
  grant_fingerprint = "grant";
  policy = "send";
  issued_at = issue_time;
  expires_at = expiry;
  decision_evidence = "policy_allow";
}

abbrev pub issued_mail : AuthorityLedger
issued_mail = record {
  next_sequence = 1;
  issued = (mail_permit.id, mail_permit) ∷ [];
  consumed = [];
}

abbrev pub used_mail : AuthorityLedger
used_mail = record issued_mail { consumed = (mail_permit.id, tt) ∷ [] }

pub mail_sealed : content_hash printer proposal_json mail ≡ ok mail.digest
unfolding show aster_lang.Checks.map_fields canonicalize canonical_sha256 canonical_json
    content_hash
mail_sealed = refl

pub mail_issued :
    issue printer proposal_json mail "send" "grant" issue_time expiry "policy_allow" empty_ledger
    ≡ (ok mail_permit, issued_mail)
unfolding issue aster_lang.Authority.validate_proposal permit_for aster_lang.Authority.material
    insert
mail_issued = rw mail_sealed refl

pub mail_consumed :
    consume printer proposal_json mail mail_permit "grant" issue_time issued_mail
    ≡ (ok tt, used_mail)
unfolding consume aster_lang.Authority.validate_proposal aster_lang.Authority.computed_id
    aster_lang.Authority.material insert lookup join_nul decimal
mail_consumed = rw mail_sealed refl

consume_iff_example :
    ((consume printer proposal_json mail mail_permit "grant" issue_time issued_mail).0 ≡ ok tt
      ↔ Authorises printer proposal_json issued_mail mail mail_permit "grant" issue_time)
    × ((consume printer proposal_json mail mail_permit "grant" issue_time issued_mail).1 ≡ (
        if is_err (consume printer proposal_json mail mail_permit "grant" issue_time issued_mail).0
        then issued_mail
        else record issued_mail { consumed = insert mail_permit.id tt issued_mail.consumed }))
consume_iff_example =
    consume_iff printer proposal_json issued_mail mail mail_permit "grant" issue_time

-- the same proposal gets a second permit, which is another one
abbrev second_permit : Permit
second_permit = record mail_permit {
  id =
      join_nul
        (mail.digest ∷ "send" ∷ "grant" ∷ issue_time ∷ expiry ∷ "policy_allow" ∷ decimal 1 ∷ []);
  sequence = 1;
}

issue_again :
    (issue printer proposal_json mail "send" "grant" issue_time expiry "policy_allow" used_mail).0
    ≡ ok second_permit
unfolding issue aster_lang.Authority.validate_proposal permit_for aster_lang.Authority.material
    insert
issue_again = rw mail_sealed refl

abbrev issued_twice : AuthorityLedger
issued_twice =
    (issue printer proposal_json mail "send" "grant" issue_time expiry "policy_allow" used_mail).1

after_mail : Calls printer proposal_json used_mail issued_twice
after_mail = Calls.issues mail "send" "grant" issue_time expiry "policy_allow" Calls.here refl

consume_once_example :
    (consume printer proposal_json mail mail_permit "grant" issue_time issued_twice).0 ≢ ok tt
consume_once_example =
    consume_once printer proposal_json mail mail mail_permit mail_permit "grant" issue_time "grant"
      issue_time issued_mail used_mail issued_twice mail_consumed after_mail refl

since_empty : Calls printer proposal_json empty_ledger used_mail
since_empty =
    Calls.consumes mail mail_permit "grant" issue_time
      (Calls.issues mail "send" "grant" issue_time expiry "policy_allow" Calls.here mail_issued)
      mail_consumed

Calls-validate_ledger_example : validate_ledger printer proposal_json used_mail ≡ ok tt
Calls-validate_ledger_example =
    Calls-validate_ledger printer proposal_json since_empty (omega arith)

issue-Authorises_example :
    (consume printer proposal_json mail mail_permit "grant" "2026-01-01T00:05:00Z" issued_mail).0
    ≡ ok tt
unfolding lookup
issue-Authorises_example =
    issue-Authorises printer proposal_json mail "send" "grant" issue_time expiry "policy_allow"
      "2026-01-01T00:05:00Z" empty_ledger issued_mail mail_permit mail_issued refl refl refl
