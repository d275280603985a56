-- ===== src/Machine/Follows.antt =====
-- What no instruction of machine.rs and no answer to a request does: it leaves the published
-- state and the identity of the run alone, and moves the ledgers of budget.rs and authority.rs by
-- their own operations only.
pub mod Steps
pub mod Governed
pub mod Runs
use aster_lang.Base.{
  ℕ, suc, String, ◌≡◌, refl, Option, none, some, List, Bool, true, false, ltb, if◌then◌else◌,
}
use aster_lang.Base.Maps.{BTreeMap, BTreeSet, string_ord, nat_ord, insert}
use aster_lang.Base.Outcome.{Result, ok, err}
use aster_lang.Budget.{BudgetDimension, Budget, BudgetError, Reservation, reserve, settle}
use aster_lang.Budget.Conserve.{History, reserves, settles, rejects, spend}
use aster_lang.Authority.{AuthorityLedger, Proposal, Permit}
use aster_lang.Authority.Ledger.{Calls, issues, consumes}
use aster_lang.Value.{RuntimeValue}
use aster_lang.Json.{Json}
use aster_lang.Machine.Errors.{MachineError, invalid_ip}
use aster_lang.Machine.Decode.{Externals}
use aster_lang.Machine.State.{
  Machine, MachineSnapshot, FrameSnapshot, M, ◌>>=◌, set_slot, change_frame, written, write_frames,
  u32_max, set_local, set_pointer, advance, top_frame, reserve_budget, settle_budget, audit,
  issue_permit, consume_permit, update,
}
use aster_lang.Machine.Rules.{Within, IsPreorder, Within-bind, Within-reads}

-- what `start` fixes for the whole run
pub record RunIdentity : Type 0 where
  pub program_hash : String
  pub agent : String
  pub event : String
  pub event_id : String
  pub event_time : String
  pub input_hash : String
  pub grant_fingerprint : String
  pub grant_request_hashes : BTreeSet String

abbrev pub identity_of : MachineSnapshot → RunIdentity
identity_of s = record {
  program_hash = s.program_hash;
  agent = s.agent;
  event = s.event;
  event_id = s.event_id;
  event_time = s.event_time;
  input_hash = s.input_hash;
  grant_fingerprint = s.grant_fingerprint;
  grant_request_hashes = s.grant_request_hashes;
}

-- A ledger that calls of `reserve` and `settle` lead to.
abbrev pub Accounted : BTreeMap BudgetDimension ℕ → Budget → Type 0
Accounted limits b = (spent : BudgetDimension → ℕ) × History limits b spent

pub still : (s : Machine) → s ≡ s
still s = refl

module _ (x : Externals) where
  pub record Follows (m m' : Machine) : Type 0 where
    pub same_program : m'.program ≡ m.program
    pub same_identity : identity_of m'.snapshot ≡ identity_of m.snapshot
    pub same_state : m'.snapshot.current_state ≡ m.snapshot.current_state
    pub accounted :
        (limits : BTreeMap BudgetDimension ℕ)
        → Accounted limits m.snapshot.budget
        → Accounted limits m'.snapshot.budget
    pub authority_calls :
        (start : AuthorityLedger)
        → Calls x.codec x.proposal_value start m.snapshot.authority
        → Calls x.codec x.proposal_value start m'.snapshot.authority

  pub Follows-IsPreorder : IsPreorder Follows
  Follows-IsPreorder = record {
    stay = λ s. record {
      same_program = refl;
      same_identity = refl;
      same_state = refl;
      accounted = λ limits a. a;
      authority_calls = λ start c. c;
    };
    then = λ {s} {t} {u} p q. record {
      same_program = cc;
      same_identity = cc;
      same_state = cc;
      accounted = λ limits a. q.accounted limits (p.accounted limits a);
      authority_calls = λ start c. q.authority_calls start (p.authority_calls start c);
    };
  }

  abbrev pub Safe : {A : Type 0} → M A → Type 0
  Safe m = Within Follows m

  pub moved :
      {A B : Type 0} (m : M A) (f : A → M B) → Safe m → ((a : A) → Safe (f a)) → Safe (m >>= f)
  moved m f = Within-bind Follows-IsPreorder m f

  pub Safe-reads : {A : Type 0} (m : M A) → ((s : Machine) → (m s).1 ≡ s) → Safe m
  Safe-reads m = Within-reads Follows-IsPreorder m

  pub seen :
      {A B : Type 0} (m : M A) (f : A → M B)
      → ((s : Machine) → (m s).1 ≡ s)
      → ((a : A) → Safe (f a))
      → Safe (m >>= f)
  seen m f h k = moved m f (Safe-reads m h) k

  -- a change of the other fields of the snapshot
  pub Safe-update :
      (f : MachineSnapshot → MachineSnapshot)
      → ((s : MachineSnapshot)
          → (identity_of (f s) ≡ identity_of s)
            × ((f s).current_state ≡ s.current_state)
            × ((f s).budget ≡ s.budget)
            × ((f s).authority ≡ s.authority))
      → Safe (update f)
  Safe-update f k = record {
    at = λ m. record {
      same_program = refl;
      same_identity = (k m.snapshot).0;
      same_state = (k m.snapshot).1;
      accounted = λ limits a. rw (k m.snapshot).2 a;
      authority_calls = λ start c. rw (k m.snapshot).3 c;
    };
  }

  written-Follows : (m : Machine) (o : Option (List FrameSnapshot)) → Follows m (written m o).1
  written-Follows m none = Follows-IsPreorder.stay m
  written-Follows m (some fs) = record {
    same_program = refl;
    same_identity = refl;
    same_state = refl;
    accounted = λ limits a. a;
    authority_calls = λ start c. c;
  }

  pub Safe-change_frame : (change : FrameSnapshot → FrameSnapshot) → Safe (change_frame change)
  unfolding change_frame
  Safe-change_frame change = record {
    at = λ m. written-Follows m (write_frames change m.snapshot.frames);
  }

  pub Safe-set_slot : (target : ℕ) (v : RuntimeValue) → Safe (set_slot target v)
  unfolding set_slot
  Safe-set_slot target v = Safe-change_frame (λ f. record f { slots = insert target v f.slots })

  pub Safe-set_local : (name : String) (v : RuntimeValue) → Safe (set_local name v)
  unfolding set_local
  Safe-set_local name v = Safe-change_frame (λ f. record f { locals = insert name v f.locals })

  pub Safe-set_pointer : (target : ℕ) → Safe (set_pointer target)
  unfolding set_pointer
  Safe-set_pointer target = Safe-change_frame (λ f. record f { instruction_pointer = target })

  if-Follows :
      {A : Type 0} (b : Bool) (m : Machine) (p q : A × Machine)
      → Follows m p.1
      → Follows m q.1
      → Follows m (if b then p else q).1
  if-Follows true m p q hp hq = hp
  if-Follows false m p q hp hq = hq

  advance-Follows :
      (m : Machine) (r : Result MachineError FrameSnapshot)
      → top_frame m ≡ r
      → Follows m (advance m).1
  unfolding advance
  advance-Follows m (err e) h = rw (h, advance) (Follows-IsPreorder.stay m)
  advance-Follows m (ok f) h =
      rw (h, advance)
        (if-Follows (ltb f.instruction_pointer u32_max) m
          (set_pointer (suc f.instruction_pointer) m) (err invalid_ip, m)
          ((Safe-set_pointer (suc f.instruction_pointer)).at m) (Follows-IsPreorder.stay m))

  pub Safe-advance : Safe advance
  Safe-advance = record { at = λ m. advance-Follows m (top_frame m) refl }

  reserve-Accounted :
      (limits : BTreeMap BudgetDimension ℕ) (d : BudgetDimension) (maximum : ℕ) (b : Budget)
      → Accounted limits b
      → Accounted limits (reserve d maximum b).1
  reserve-Accounted limits d maximum b (spent, h) = (spent, reserves d maximum h refl)

  settle-Accounted :
      (limits : BTreeMap BudgetDimension ℕ) (r : Reservation) (actual : ℕ) (b b' : Budget)
      (o : Result BudgetError (Unit {0}))
      → settle r actual b ≡ (o, b')
      → Accounted limits b
      → Accounted limits b'
  settle-Accounted limits r actual b b' (ok tt) e (spent, h) =
      (spend spent r.dimension actual, settles r actual h e)
  settle-Accounted limits r actual b b' (err why) e (spent, h) = (spent, rejects r actual h e)

  pub Safe-reserve_budget : (d : BudgetDimension) (maximum : ℕ) → Safe (reserve_budget d maximum)
  unfolding reserve_budget
  Safe-reserve_budget d maximum = record {
    at = λ m. record {
      same_program = refl;
      same_identity = refl;
      same_state = refl;
      accounted = λ limits a. reserve-Accounted limits d maximum m.snapshot.budget a;
      authority_calls = λ start c. c;
    };
  }

  pub Safe-settle_budget : (r : Reservation) (actual : ℕ) → Safe (settle_budget r actual)
  unfolding settle_budget
  Safe-settle_budget r actual = record {
    at = λ m. record {
      same_program = refl;
      same_identity = refl;
      same_state = refl;
      accounted = λ limits a.
          settle-Accounted limits r actual m.snapshot.budget (settle r actual m.snapshot.budget).1
            (settle r actual m.snapshot.budget).0 refl a;
      authority_calls = λ start c. c;
    };
  }

  pub Safe-audit : (kind : String) (payload : Json) → Safe (audit kind payload)
  unfolding audit
  Safe-audit kind payload = record {
    at = λ m. record {
      same_program = refl;
      same_identity = refl;
      same_state = refl;
      accounted = λ limits a. a;
      authority_calls = λ start c. c;
    };
  }

  pub Safe-issue_permit :
      (p : Proposal) (policy grant issued_at expires_at evidence : String)
      → Safe (issue_permit x p policy grant issued_at expires_at evidence)
  unfolding issue_permit
  Safe-issue_permit p policy grant issued_at expires_at evidence = record {
    at = λ m. record {
      same_program = refl;
      same_identity = refl;
      same_state = refl;
      accounted = λ limits a. a;
      authority_calls = λ start c. issues p policy grant issued_at expires_at evidence c refl;
    };
  }

  pub Safe-consume_permit :
      (p : Proposal) (permit : Permit) (grant now : String)
      → Safe (consume_permit x p permit grant now)
  unfolding consume_permit
  Safe-consume_permit p permit grant now = record {
    at = λ m. record {
      same_program = refl;
      same_identity = refl;
      same_state = refl;
      accounted = λ limits a. a;
      authority_calls = λ start c. consumes p permit grant now c refl;
    };
  }
