-- ===== src/Machine/Commits.antt =====
-- What has been checked when the machine of crates/aster-runtime/src/machine.rs requests a write,
-- or completes the event. The proofs are in the modules below.
pub mod Quiet
pub mod Write
pub mod Publish
pub mod Steps
use aster_lang.Base.{ℕ, ◌≡◌, ◌≢◌, true, Option, none, some, List, []}
use aster_lang.Base.Maps.{BTreeMap, contains, string_ord, extend}
use aster_lang.Base.Outcome.{ok, map_m}
use aster_lang.Budget.{BudgetDimension, Reservation, reserve}
use aster_lang.Authority.{Proposal, Permit}
use aster_lang.Authority.Permits.{Authorises}
use aster_lang.Machine.Decode.{Externals}
use aster_lang.Machine.State.{
  Machine, M, Step, continue, yield, completed, failed, EffectKind, EffectRequest, PendingEffect,
  RunOutcome,
}
use aster_lang.Machine.Queries.{require_capability, effect_request}
use aster_lang.Machine.Governed.{commit_payload}
use aster_lang.Machine.Local.{entry_json}

-- A step that neither requests a write nor completes the event.
abbrev pub IsQuiet : Option Step → Type 0
IsQuiet none = Unit {0}
IsQuiet (some continue) = Unit
IsQuiet (some (yield r)) = r.kind ≢ EffectKind.write
IsQuiet (some (completed o)) = ⊥
IsQuiet (some (failed e)) = Unit

module _ (x : Externals) (depth : ℕ) where
  -- What holds when the machine goes from `m` to `m'` by requesting the write `request`.
  pub record Committed (m m' : Machine) (request : EffectRequest) : Type 0 where
    pub proposal : Proposal
    pub permit : Permit
    pub reservation : Reservation
    pub authorised :
        Authorises x.codec x.proposal_value m.snapshot.authority proposal permit
          m.snapshot.grant_fingerprint m.snapshot.event_time
    pub granted : require_capability x depth m proposal.capability_request ≡ ok tt
    pub consumed : contains permit.id m'.snapshot.authority.consumed ≡ true
    pub reserved :
        reserve BudgetDimension.external_writes 1 m.snapshot.budget
        ≡ (ok reservation, m'.snapshot.budget)
    pub asked :
        effect_request x depth EffectKind.write proposal.action (commit_payload x depth proposal)
        ≡ ok request
    pub pending :
        (p : PendingEffect) × (m'.snapshot.pending_effect ≡ some p)
        × (p.request ≡ request)
        × (p.reservation ≡ some reservation)

  -- What holds when the machine goes from `m` to `m'` by completing the event.
  pub record Published (m m' : Machine) (o : RunOutcome) : Type 0 where
    pub reconciled : m.snapshot.outstanding_receipts ≡ []
    pub published :
        map_m (entry_json x depth) (extend m.snapshot.pending_state m.snapshot.current_state)
        ≡ ok o.state
    pub kept : m'.outcome ≡ some o

  pub data Explained (m m' : Machine) : Option Step → Type 0 where
    quiet : {o : Option Step} → IsQuiet o → Explained m m' o
    commits : {r : EffectRequest} → Committed m m' r → Explained m m' (some (yield r))
    publishes : {o : RunOutcome} → Published m m' o → Explained m m' (some (completed o))
