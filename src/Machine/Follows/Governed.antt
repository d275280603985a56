-- ===== src/Machine/Follows/Governed.antt =====
-- The governed instructions of machine.rs follow.
use aster_lang.Base.{ℕ, String, refl, List, [], ◌∷◌, Bool, true, false}
use aster_lang.Ir.{NamedValue}
use aster_lang.Value.{RuntimeValue}
use aster_lang.Json.{Json}
use aster_lang.Authority.{Proposal}
use aster_lang.Budget.{BudgetDimension}
use aster_lang.Machine.Decode.{Externals}
use aster_lang.Machine.State.{EffectKind, PendingCompletion}
use aster_lang.Machine.Queries.{PolicyRuntimeDecision, allows, approves, denies}
use aster_lang.Machine.Governed.{
  Receipt, file_effect, yield_inference, execute_validate, yield_observation, execute_intent,
  execute_proposal, authorize_allow, authorize_approve, authorize_deny, authorize_by,
  execute_authorize, yield_commit, settle_receipt, execute_reconcile,
}
use aster_lang.Machine.Follows.{
  seen, moved, still, Safe-reads, Safe, Safe-update, Safe-set_slot, Safe-advance,
  Safe-reserve_budget, Safe-audit, Safe-issue_permit, Safe-consume_permit,
}
use aster_lang.Machine.Follows.Steps.{slot_then_advance}

module _ (x : Externals) (depth : ℕ) where
  pub Safe-file_effect :
      (kind : EffectKind) (identity : String) (payload : Json) (target : ℕ)
      (dimension : BudgetDimension) (completion : PendingCompletion)
      → Safe x (file_effect x depth kind identity payload target dimension completion)
  unfolding file_effect
  Safe-file_effect kind identity payload target dimension completion = seen x _ _ still λ _.
      moved x _ _ (Safe-reserve_budget x dimension 1) λ _.
        seen x _ _ still
          λ _. moved x _ _ (Safe-update x _ λ s. (refl, refl, refl, refl)) λ _. Safe-reads x _ still

  pub Safe-yield_inference :
      (target : ℕ) (prompt : String) (arguments : List NamedValue) (model_alias : String)
      → Safe x (yield_inference x depth target prompt arguments model_alias)
  unfolding yield_inference
  Safe-yield_inference target prompt arguments model_alias = seen x _ _ still λ _.
      seen x _ _ still
        λ _. seen x _ _ still λ _. seen x _ _ still λ _. Safe-file_effect _ _ _ target _ _

  pub Safe-execute_validate :
      (target candidate : ℕ) (validator : String)
      → Safe x (execute_validate x depth target candidate validator)
  unfolding execute_validate
  Safe-execute_validate target candidate validator =
      seen x _ _ still
        λ _. seen x _ _ still λ _. seen x _ _ still λ _. slot_then_advance x depth target _

  pub Safe-yield_observation :
      (target : ℕ) (action : String) (arguments : List NamedValue)
      → Safe x (yield_observation x depth target action arguments)
  unfolding yield_observation
  Safe-yield_observation target action arguments = seen x _ _ still λ _.
      seen x _ _ still
        λ _. seen x _ _ still λ _. seen x _ _ still λ _. Safe-file_effect _ _ _ target _ _

  pub Safe-execute_intent :
      (target : ℕ) (purpose : String) (fields : List NamedValue)
      → Safe x (execute_intent x depth target purpose fields)
  unfolding execute_intent
  Safe-execute_intent target purpose fields =
      seen x _ _ still
        λ _. seen x _ _ still λ _. seen x _ _ still λ _. slot_then_advance x depth target _

  pub Safe-execute_proposal :
      (target : ℕ) (action : String) (arguments : List NamedValue) (intent : ℕ)
      → Safe x (execute_proposal x depth target action arguments intent)
  unfolding execute_proposal
  Safe-execute_proposal target action arguments intent = seen x _ _ still λ _. seen x _ _ still λ _.
      seen x _ _ still λ _. seen x _ _ still λ _. seen x _ _ still λ _. seen x _ _ still λ _.
        seen x _ _ still λ _. seen x _ _ still λ _. seen x _ _ still λ _. seen x _ _ still λ _.
          seen x _ _ still
            λ _. seen x _ _ still λ _. seen x _ _ still λ _. slot_then_advance x depth target _

  Safe-authorize_allow :
      (target : ℕ) (p : Proposal) (policy : String)
      → Safe x (authorize_allow x depth target p policy)
  unfolding authorize_allow
  Safe-authorize_allow target p policy = seen x _ _ still λ _. seen x _ _ still λ _.
      moved x _ _ (Safe-issue_permit x p policy _ _ _ _) λ _. moved x _ _ (Safe-audit x _ _) λ _.
        moved x _ _ (Safe-audit x _ _) λ _.
          moved x _ _ (Safe-set_slot x target _)
            λ _. moved x _ _ (Safe-advance x) λ _. Safe-reads x _ still

  Safe-authorize_approve :
      (target : ℕ) (p : Proposal) (policy : String) (principal : RuntimeValue)
      → Safe x (authorize_approve x depth target p policy principal)
  unfolding authorize_approve
  Safe-authorize_approve target p policy principal = moved x _ _ (Safe-audit x _ _) λ _.
      seen x _ _ still λ _.
        seen x _ _ still
          λ _. moved x _ _ (Safe-file_effect _ _ _ target _ _) λ _. Safe-reads x _ still

  Safe-authorize_deny :
      (target : ℕ) (p : Proposal) (policy reason : String)
      → Safe x (authorize_deny x depth target p policy reason)
  unfolding authorize_deny
  Safe-authorize_deny target p policy reason = moved x _ _ (Safe-audit x _ _) λ _.
      moved x _ _ (Safe-set_slot x target _)
        λ _. moved x _ _ (Safe-advance x) λ _. Safe-reads x _ still

  Safe-authorize_by :
      (target : ℕ) (p : Proposal) (policy : String) (may_suspend : Bool)
      (decision : PolicyRuntimeDecision)
      → Safe x (authorize_by x depth target p policy may_suspend decision)
  Safe-authorize_by target p policy may_suspend allows = Safe-authorize_allow target p policy
  Safe-authorize_by target p policy true (approves principal) =
      Safe-authorize_approve target p policy principal
  Safe-authorize_by target p policy false (approves principal) = Safe-reads x _ still
  Safe-authorize_by target p policy may_suspend (denies reason) =
      Safe-authorize_deny target p policy reason

  pub Safe-execute_authorize :
      (target proposal : ℕ) (policy : String) (may_suspend : Bool)
      → Safe x (execute_authorize x depth target proposal policy may_suspend)
  unfolding execute_authorize
  Safe-execute_authorize target proposal policy may_suspend = seen x _ _ still λ _.
      seen x _ _ still
        λ p. seen x _ _ still λ decision. Safe-authorize_by target p policy may_suspend decision

  pub Safe-yield_commit :
      (target proposal permit : ℕ) → Safe x (yield_commit x depth target proposal permit)
  unfolding yield_commit
  Safe-yield_commit target proposal permit = seen x _ _ still λ _. seen x _ _ still λ p.
      seen x _ _ still λ _. seen x _ _ still λ q. seen x _ _ still λ _. seen x _ _ still λ grant.
        seen x _ _ still λ now. moved x _ _ (Safe-consume_permit x p q grant now) λ _.
          moved x _ _ (Safe-audit x _ _) λ _. seen x _ _ still λ _.
            moved x _ _ (Safe-reserve_budget x _ 1) λ _. seen x _ _ still λ _. seen x _ _ still λ _.
              moved x _ _ (Safe-update x _ λ s. (refl, refl, refl, refl)) λ _. Safe-reads x _ still

  Safe-settle_receipt :
      (validator : String) (r : Receipt) (provenance : String) (failures : List String)
      → Safe x (settle_receipt x depth validator r provenance failures)
  Safe-settle_receipt validator r provenance [] =
      moved x _ _ (Safe-update x _ λ s. (refl, refl, refl, refl)) λ _. Safe-reads x _ still
  Safe-settle_receipt validator r provenance (f ∷ fs) = Safe-reads x _ still

  pub Safe-execute_reconcile :
      (target receipt observation : ℕ) (validator : String)
      → Safe x (execute_reconcile x depth target receipt observation validator)
  unfolding execute_reconcile
  Safe-execute_reconcile target receipt observation validator = seen x _ _ still λ _.
      seen x _ _ still λ r. seen x _ _ still λ _. seen x _ _ still λ o. seen x _ _ still λ failures.
        moved x _ _ (Safe-audit x _ _) λ _.
          moved x _ _ (Safe-settle_receipt validator r o.1 failures)
            λ v. slot_then_advance x depth target v
