-- ===== src/Machine/State.antt =====
-- The state of the machine of crates/aster-runtime/src/machine.rs, and the methods on its frames.
-- The frames stand with the top one, the last of the vector, first.
use aster_lang.Base.{
  ℕ, suc, ◌-◌, ◌^◌, String, Option, none, some, List, [], ◌∷◌, ◌++◌, ltb, if◌then◌else◌,
}
use aster_lang.Base.Maps.{BTreeMap, BTreeSet, nat_ord, string_ord, lookup, insert}
use aster_lang.Base.Outcome.{Result, ok, err, ok_or, map_err, Exec}
use aster_lang.Budget.{Budget, BudgetDimension, Reservation, reserve, settle}
use aster_lang.Authority.{AuthorityLedger, Proposal, Permit, issue, consume}
use aster_lang.Json.{Json}
use aster_lang.Ir.{Program, TypeSpec}
use aster_lang.Value.{RuntimeValue}
use aster_lang.Machine.Errors.{
  MachineError, budget_error, authority_error, missing_frame, unknown_value, invalid_ip,
}
use aster_lang.Machine.Decode.{Externals}

pub data EffectKind : Type 0 where
  model read approval write : EffectKind

pub record EffectRequest : Type 0 where
  pub kind : EffectKind
  pub identity : String
  pub payload : Json
  pub request_hash : String

pub record EffectResolution : Type 0 where
  pub request_hash : String
  pub payload : Json
  pub actual_usage : BTreeMap String ℕ

pub record FrameSnapshot : Type 0 where
  pub routine : String
  pub instruction_pointer : ℕ
  pub locals : BTreeMap String RuntimeValue
  pub slots : BTreeMap ℕ RuntimeValue
  pub return_target : Option ℕ

pub data PendingCompletion : Type 0 where
  model_completion read_completion : (expected_type : TypeSpec) → PendingCompletion
  approval_completion : Proposal → (policy expires_at : String) → PendingCompletion
  write_completion : (action proposal_hash : String) (expected_type : TypeSpec) → PendingCompletion

pub record PendingEffect : Type 0 where
  pub request : EffectRequest
  pub target : ℕ
  pub budget_before : Budget
  pub reservation : Option Reservation
  pub usage_reservations : BTreeMap String Reservation
  pub completion : PendingCompletion

pub record MachineSnapshot : Type 0 where
  pub schema_version : ℕ
  pub runtime_version : String
  pub program_hash : String
  pub agent : String
  pub event : String
  pub event_id : String
  pub event_time : String
  pub input_hash : String
  pub frames : List FrameSnapshot
  pub current_state : BTreeMap String RuntimeValue
  pub pending_state : BTreeMap String RuntimeValue
  pub budget : Budget
  pub grant_fingerprint : String
  pub grant_request_hashes : BTreeSet String
  pub authority : AuthorityLedger
  pub outstanding_receipts : BTreeSet String
  pub trace_position : ℕ
  pub trace_hash : String
  pub pending_effect : Option PendingEffect
  pub snapshot_hash : String

pub record RunOutcome : Type 0 where
  pub state : BTreeMap String Json
  pub value : Json

pub record AuditEvent : Type 0 where
  pub kind : String
  pub payload : Json

pub data Step : Type 0 where
  continue : Step
  yield : EffectRequest → Step
  completed : RunOutcome → Step
  failed : MachineError → Step

pub record Machine : Type 0 where
  pub program : Program
  pub snapshot : MachineSnapshot
  pub outcome : Option RunOutcome
  pub failure : Option MachineError
  pub audit_events : List AuditEvent

-- A method on `&mut self` of the machine.
abbrev pub M : Type 0 → Type 0
M A = Exec Machine MachineError A

abbrev pub resume :
    {A B : Type 0} → Result MachineError A × Machine → (A → M B) → Result MachineError B × Machine
resume (ok a, m) f = f a m
resume (err e, m) f = (err e, m)

abbrev pub pure : {A : Type 0} → A → M A
pure a m = (ok a, m)

abbrev pub raise : {A : Type 0} → MachineError → M A
raise e m = (err e, m)

-- `?` on a result that does not depend on the state
abbrev pub lift : {A : Type 0} → Result MachineError A → M A
lift r m = (r, m)

-- reads the state
abbrev pub gets : {A : Type 0} → (Machine → A) → M A
gets f m = (ok (f m), m)

-- `?` on a result that reads the state
abbrev pub query : {A : Type 0} → (Machine → Result MachineError A) → M A
query f m = (f m, m)

infixl 5 ◌>>=◌ ◌>>◌
unfoldable pub ◌>>=◌ : {A B : Type 0} → M A → (A → M B) → M B
◌>>=◌ m f s = resume (m s) f

abbrev pub ◌>>◌ : {B : Type 0} → M (Unit {0}) → M B → M B
m >> k = m >>= λ _. k

-- changes the snapshot
abbrev pub update : (MachineSnapshot → MachineSnapshot) → M (Unit {0})
update f m = (ok tt, record m { snapshot = f m.snapshot })

-- `Machine::frame`
unfoldable pub top_frame : Machine → Result MachineError FrameSnapshot
top_frame m = elim m.snapshot.frames [ [] ↦ err missing_frame | f ∷ fs ↦ ok f ]

abbrev pub write_frames :
    (FrameSnapshot → FrameSnapshot) → List FrameSnapshot → Option (List FrameSnapshot)
write_frames change [] = none
write_frames change (f ∷ fs) = some (change f ∷ fs)

abbrev pub written :
    Machine → Option (List FrameSnapshot) → Result MachineError (Unit {0}) × Machine
written m none = (err missing_frame, m)
written m (some fs) = (ok tt, record m { snapshot = record m.snapshot { frames = fs } })

-- `frame_mut()?` and a write through it
unfoldable pub change_frame : (FrameSnapshot → FrameSnapshot) → M (Unit {0})
change_frame change m = written m (write_frames change m.snapshot.frames)

-- `Machine::slot`
unfoldable pub slot_of : ℕ → Machine → Result MachineError RuntimeValue
slot_of id m = elim (top_frame m) [ err e ↦ err e | ok f ↦ ok_or unknown_value (lookup id f.slots) ]

abbrev pub slot : ℕ → M RuntimeValue
slot id = query (slot_of id)

-- `self.frame_mut()?.slots.insert(target, value)`
unfoldable pub set_slot : ℕ → RuntimeValue → M (Unit {0})
unfolding change_frame
set_slot target v = change_frame (λ f. record f { slots = insert target v f.slots })

unfoldable pub set_local : String → RuntimeValue → M (Unit {0})
unfolding change_frame
set_local name v = change_frame (λ f. record f { locals = insert name v f.locals })

unfoldable pub set_pointer : ℕ → M (Unit {0})
unfolding change_frame
set_pointer target = change_frame (λ f. record f { instruction_pointer = target })

abbrev pub u32_max : ℕ
u32_max = 2 ^ 32 - 1

-- `Machine::advance`
unfoldable pub advance : M (Unit {0})
advance m = elim (top_frame m) [
  | err e ↦ (err e, m)
  | ok f ↦
      if ltb f.instruction_pointer u32_max
      then set_pointer (suc f.instruction_pointer) m
      else (err invalid_ip, m)
]

-- `budget.reserve(..)?` and `budget.settle(..)?` on the snapshot's ledger
unfoldable pub reserve_budget : BudgetDimension → ℕ → M Reservation
reserve_budget d maximum m =
    let r = reserve d maximum m.snapshot.budget in
    (map_err budget_error r.0, record m { snapshot = record m.snapshot { budget = r.1 } })

unfoldable pub settle_budget : Reservation → ℕ → M (Unit {0})
settle_budget reservation actual m =
    let r = settle reservation actual m.snapshot.budget in
    (map_err budget_error r.0, record m { snapshot = record m.snapshot { budget = r.1 } })

-- `self.audit_events.push(..)`
unfoldable pub audit : String → Json → M (Unit {0})
audit kind payload m = (
  ok tt,
  record m { audit_events = m.audit_events ++ record { kind = kind; payload = payload } ∷ [] },
)

module _ (x : Externals) where
  -- `authority.issue(..)?` and `authority.consume(..)?`
  unfoldable pub issue_permit :
      Proposal → (policy grant issued_at expires_at evidence : String) → M Permit
  issue_permit p policy grant issued_at expires_at evidence m =
      let r =
        issue x.codec x.proposal_value p policy grant issued_at expires_at evidence
          m.snapshot.authority in
      (map_err authority_error r.0, record m { snapshot = record m.snapshot { authority = r.1 } })

  unfoldable pub consume_permit : Proposal → Permit → (grant now : String) → M (Unit {0})
  consume_permit p permit grant now m =
      let r = consume x.codec x.proposal_value p permit grant now m.snapshot.authority in
      (map_err authority_error r.0, record m { snapshot = record m.snapshot { authority = r.1 } })
