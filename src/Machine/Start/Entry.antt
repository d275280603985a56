-- ===== src/Machine/Start/Entry.antt =====
-- What `Machine::start` of crates/aster-runtime/src/machine.rs hands to the run: the machine that
-- a successful start gives.
use aster_lang.Base.{ℕ, String, ◌≡◌, Option, none, some, [], arith}
use aster_lang.Base.Maps.{BTreeMap, string_ord, lookup}
use aster_lang.Base.Outcome.{Result, ok}
use aster_lang.Json.{Json}
use aster_lang.Budget.{BudgetDimension, new}
use aster_lang.Authority.{empty_ledger}
use aster_lang.Capability.{CapabilityGrants}
use aster_lang.Ir.{Agent, Program}
use aster_lang.Machine.Decode.{Externals}
use aster_lang.Machine.State.{Machine}
use aster_lang.Machine.Start.{StartRequest, budget_limits, start}

-- the limits that the requested agent declares
abbrev pub limits_of : Option Agent → BTreeMap BudgetDimension ℕ
limits_of none = []
limits_of (some agent) = budget_limits agent.budget

pub record Started (program : Program) (request : StartRequest) (m : Machine) : Type 0 where
  pub same_program : m.program ≡ program
  pub same_event : m.snapshot.event_id ≡ request.event_id
  pub full_budget : m.snapshot.budget ≡ new (limits_of (lookup request.agent program.agents))
  pub no_permits : m.snapshot.authority ≡ empty_ledger
  pub no_pending : m.snapshot.pending_effect ≡ none
  pub no_receipts : m.snapshot.outstanding_receipts ≡ []
  pub no_changes : m.snapshot.pending_state ≡ []
  pub running : (m.outcome ≡ none) × (m.failure ≡ none)

module _ (x : Externals) (depth : ℕ) (runtime_version : String)
    (grants_value : CapabilityGrants → Result String Json)
    (request_value : StartRequest → Result String Json) where
  pub start-Started :
      (program : Program) (request : StartRequest) (m : Machine)
      → start x depth runtime_version grants_value request_value program request ≡ ok m
      → Started program request m
  unfolding start
  start-Started program request m h = ground arith
