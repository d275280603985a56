-- ===== src/Authority/Ledger.antt =====
-- The ledger of authority.rs over sequences of `issue` and `consume`: a permit is consumed once,
-- and every ledger that calls lead to from the empty one passes `AuthorityLedger::validate`.
use aster_lang.Base.{
  ◌<◌, String, ◌≡◌, ◌≢◌, refl, sym, true, false, Bool, [], ◌∷◌, arith, eq_iff, str_lt, ap, subst,
  u64_max, saturating_add,
}
use aster_lang.Base.Maps.{
  BTreeMap, string_ord, insert, contains_key, contains, lookup-insert, string_cmp_iff,
}
use aster_lang.Base.Outcome.{Result, ok}
use aster_lang.Json.{Json, Codec}
use aster_lang.Authority.{
  Proposal, Permit, AuthorityLedger, AuthorityError, empty_ledger, any_entry, computed_id, material,
  bad_permit, unissued, permit_for, issue, consume, validate_ledger,
}
use aster_lang.Authority.Permits.{Authorises, consume-Authorises, consume-of_Authorises, sealed-eq}

module _ {ℓ} {V : Type ℓ} where
  any_entry-insert :
      (test : String → V → Bool) (k : String) (v : V) (m : BTreeMap String V)
      → any_entry test m ≡ false
      → test k v ≡ false
      → any_entry test (insert k v m) ≡ false
  unfolding any_entry insert
  any_entry-insert test k v [] h e = ground arith
  any_entry-insert test k v ((j, w) ∷ m) h e = ground (arith, any_entry-insert test k v m)

  any_entry_mono :
      (test weaker : String → V → Bool) (m : BTreeMap String V)
      → ((k : String) (v : V) → test k v ≡ false → weaker k v ≡ false)
      → any_entry test m ≡ false
      → any_entry weaker m ≡ false
  unfolding any_entry
  any_entry_mono test weaker [] h e = refl
  any_entry_mono test weaker ((j, w) ∷ m) h e =
      ground (arith, h j w, any_entry_mono test weaker m h)

module _ (codec : Codec) (value : Proposal → Result String Json) where
  -- The ledgers that a sequence of calls, failing ones included, leads to from `start`.
  pub data Calls (start : AuthorityLedger) : AuthorityLedger → Type 0 where
    here : Calls start start
    issues :
        {l l' : AuthorityLedger} {r : Result AuthorityError Permit} (p : Proposal)
        (policy grant issued_at expires_at evidence : String)
        → Calls start l
        → issue codec value p policy grant issued_at expires_at evidence l ≡ (r, l')
        → Calls start l'
    consumes :
        {l l' : AuthorityLedger} {r : Result AuthorityError (Unit {0})} (p : Proposal)
        (permit : Permit) (grant now : String)
        → Calls start l
        → consume codec value p permit grant now l ≡ (r, l')
        → Calls start l'

  pub Calls-consumed :
      {start l : AuthorityLedger} (id : String)
      → Calls start l
      → contains id start.consumed ≡ true
      → contains id l.consumed ≡ true
  unfolding issue consume
  Calls-consumed id here h = h
  Calls-consumed id (issues {l = m} p policy grant issued_at expires_at evidence c e) h = ground (
    arith,
    ap (λ (s : Result AuthorityError Permit × AuthorityLedger). s.1) e,
    Calls-consumed id c h,
  )
  Calls-consumed id (consumes {l = m} p permit grant now c e) h = ground (
    arith,
    ap (λ (s : Result AuthorityError (Unit {0}) × AuthorityLedger). s.1) e,
    Calls-consumed id c h,
    lookup-insert id permit.id tt m.consumed,
  )

  pub consume-consumed :
      (p : Proposal) (permit : Permit) (grant now : String) (l l' : AuthorityLedger)
      → consume codec value p permit grant now l ≡ (ok tt, l')
      → contains permit.id l'.consumed ≡ true
  unfolding consume
  consume-consumed p permit grant now l l' e =
      ground
        (arith, lookup-insert permit.id permit.id tt l.consumed, string_cmp_iff permit.id permit.id)

  -- Once a permit has been consumed, no later call of `consume`, after any calls in between,
  -- succeeds with a permit of the same id, for any proposal, grants and time.
  pub consume_once :
      (p p' : Proposal) (permit permit' : Permit) (grant now grant' now' : String)
      (l l' l'' : AuthorityLedger)
      → consume codec value p permit grant now l ≡ (ok tt, l')
      → Calls l' l''
      → permit'.id ≡ permit.id
      → (consume codec value p' permit' grant' now' l'').0 ≢ ok tt
  consume_once p p' permit permit' grant now grant' now' l l' l'' e c same again = ground (
    arith,
    Calls-consumed permit.id c (consume-consumed p permit grant now l l' e),
    (consume-Authorises codec value l'' p' permit' grant' now' again).unused,
  )

  permit_for-good :
      (p : Proposal) (policy grant issued_at expires_at evidence : String) (l : AuthorityLedger)
      → l.next_sequence < u64_max
      → (let permit = permit_for codec value l p policy grant issued_at expires_at evidence in
          bad_permit codec value (saturating_add l.next_sequence 1) permit.id permit ≡ false)
  unfolding permit_for computed_id
  permit_for-good p policy grant issued_at expires_at evidence l room =
      let id =
        codec.sha256_hex
          (material p.digest policy grant issued_at expires_at evidence l.next_sequence) in
      ground (arith, eq_iff id id)

  issue-validate_ledger :
      (p : Proposal) (policy grant issued_at expires_at evidence : String) (l : AuthorityLedger)
      → l.next_sequence < u64_max
      → validate_ledger codec value l ≡ ok tt
      → validate_ledger codec value
          (issue codec value p policy grant issued_at expires_at evidence l).1
        ≡ ok tt
  unfolding issue validate_ledger
  issue-validate_ledger p policy grant issued_at expires_at evidence l room h =
      let permit : Permit = permit_for codec value l p policy grant issued_at expires_at evidence in
      ground (
        arith,
        permit_for-good p policy grant issued_at expires_at evidence l room,
        any_entry-insert (bad_permit codec value (saturating_add l.next_sequence 1)) permit.id
            permit l.issued,
        any_entry_mono (bad_permit codec value l.next_sequence)
            (bad_permit codec value (saturating_add l.next_sequence 1)) l.issued
            (λ k v e. ground arith),
        any_entry_mono (unissued codec value l.issued)
            (unissued codec value (insert permit.id permit l.issued)) l.consumed
            (λ k v e. ground (arith, lookup-insert k permit.id permit l.issued)),
      )

  consume-issued :
      (p : Proposal) (permit : Permit) (grant now : String) (l : AuthorityLedger)
      → (consume codec value p permit grant now l).0 ≡ ok tt
      → contains_key permit.id l.issued ≡ true
  consume-issued p permit grant now l h =
      ground (arith, (consume-Authorises codec value l p permit grant now h).filed)

  consume-validate_ledger :
      (p : Proposal) (permit : Permit) (grant now : String) (l : AuthorityLedger)
      → validate_ledger codec value l ≡ ok tt
      → validate_ledger codec value (consume codec value p permit grant now l).1 ≡ ok tt
  unfolding consume validate_ledger
  consume-validate_ledger p permit grant now l h = ground (
    arith,
    any_entry-insert (unissued codec value l.issued) permit.id tt l.consumed,
    consume-issued p permit grant now l,
  )

  issue-next_sequence :
      (p : Proposal) (policy grant issued_at expires_at evidence : String) (l : AuthorityLedger)
      → (issue codec value p policy grant issued_at expires_at evidence l).1.next_sequence < u64_max
      → l.next_sequence < u64_max
  unfolding issue
  issue-next_sequence p policy grant issued_at expires_at evidence l h = ground arith

  consume-next_sequence :
      (p : Proposal) (permit : Permit) (grant now : String) (l : AuthorityLedger)
      → (consume codec value p permit grant now l).1.next_sequence ≡ l.next_sequence
  unfolding consume
  consume-next_sequence p permit grant now l = ground arith

  validate_ledger-empty : validate_ledger codec value empty_ledger ≡ ok tt
  unfolding validate_ledger any_entry
  validate_ledger-empty = refl

  -- Every ledger that calls lead to from the empty one passes `AuthorityLedger::validate`, so
  -- long as its sequence counter has not reached the largest `u64`.
  pub Calls-validate_ledger :
      {l : AuthorityLedger}
      → Calls empty_ledger l
      → l.next_sequence < u64_max
      → validate_ledger codec value l ≡ ok tt
  Calls-validate_ledger here room = validate_ledger-empty
  Calls-validate_ledger {l} (issues {l = m} p policy grant issued_at expires_at evidence c e) room =
      let m' : AuthorityLedger =
        (issue codec value p policy grant issued_at expires_at evidence m).1 in
      let at_l : m' ≡ l = ap (λ (s : Result AuthorityError Permit × AuthorityLedger). s.1) e in
      let room' =
        issue-next_sequence p policy grant issued_at expires_at evidence m
          (subst (λ (x : AuthorityLedger). x.next_sequence < u64_max) (sym at_l) room) in
      subst (λ x. validate_ledger codec value x ≡ ok tt) at_l
        (issue-validate_ledger p policy grant issued_at expires_at evidence m room'
          (Calls-validate_ledger c room'))
  Calls-validate_ledger {l} (consumes {l = m} p permit grant now c e) room =
      let m' : AuthorityLedger = (consume codec value p permit grant now m).1 in
      let at_l : m' ≡ l = ap (λ (s : Result AuthorityError (Unit {0}) × AuthorityLedger). s.1) e in
      let room' =
        subst (λ n. n < u64_max) (consume-next_sequence p permit grant now m)
          (subst (λ (x : AuthorityLedger). x.next_sequence < u64_max) (sym at_l) room) in
      subst (λ x. validate_ledger codec value x ≡ ok tt) at_l
        (consume-validate_ledger p permit grant now m (Calls-validate_ledger c room'))

  issued_Authorises :
      (p : Proposal) (policy grant issued_at expires_at evidence now : String)
      (l l' : AuthorityLedger) (permit : Permit)
      → issue codec value p policy grant issued_at expires_at evidence l ≡ (ok permit, l')
      → str_lt expires_at now ≡ false
      → str_lt p.intent.expires_at now ≡ false
      → contains permit.id l.consumed ≡ false
      → Authorises codec value l' p permit grant now
  unfolding issue computed_id
  issued_Authorises p policy grant issued_at expires_at evidence now l l' permit e h k unused =
      let new : Permit = permit_for codec value l p policy grant issued_at expires_at evidence in
      record {
        sealed = sealed-eq codec value p (ground arith);
        genuine = ground arith;
        filed =
            ground (arith, lookup-insert new.id new.id new l.issued, string_cmp_iff new.id new.id);
        bound = ground arith;
        same_action = ground arith;
        same_grant = ground arith;
        permit_in_time = ground arith;
        intent_in_time = k;
        unused = ground arith;
      }

  -- A permit just issued for a proposal is accepted for it under the same grants while neither
  -- has expired, unless its id was consumed before.
  pub issue-Authorises :
      (p : Proposal) (policy grant issued_at expires_at evidence now : String)
      (l l' : AuthorityLedger) (permit : Permit)
      → issue codec value p policy grant issued_at expires_at evidence l ≡ (ok permit, l')
      → str_lt expires_at now ≡ false
      → str_lt p.intent.expires_at now ≡ false
      → contains permit.id l.consumed ≡ false
      → (consume codec value p permit grant now l').0 ≡ ok tt
  issue-Authorises p policy grant issued_at expires_at evidence now l l' permit e h k unused =
      consume-of_Authorises codec value l' p permit grant now (
        issued_Authorises p policy grant issued_at expires_at evidence now l l' permit e h k unused)
