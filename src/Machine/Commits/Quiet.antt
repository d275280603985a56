-- ===== src/Machine/Commits/Quiet.antt =====
-- The instructions of machine.rs that neither request a write nor complete the event.
use aster_lang.Base.{
  ℕ, String, ◌≡◌, ◌≢◌, sym, ◌∙◌, arith, Option, none, some, List, Bool, true, false,
}
use aster_lang.Ir.{NamedValue}
use aster_lang.Json.{Json}
use aster_lang.Authority.{Proposal}
use aster_lang.Budget.{BudgetDimension}
use aster_lang.Machine.Decode.{Externals}
use aster_lang.Machine.State.{M, Step, yield, EffectKind, EffectRequest, PendingCompletion}
use aster_lang.Base.Outcome.{ok}
use aster_lang.Value.{RuntimeValue}
use aster_lang.Machine.Queries.{effect_request, PolicyRuntimeDecision, allows, approves, denies}
use aster_lang.Machine.Governed.{
  file_effect, yield_inference, yield_observation, authorize_allow, authorize_approve,
  authorize_deny, authorize_by, execute_authorize,
}
use aster_lang.Machine.Run.{then_continue, then_yield}
use aster_lang.Machine.Rules.{Ends, Ends-bind, Ends-bind_of, Ends-lift, Ends-pure, Ends-raise}
use aster_lang.Machine.Commits.{IsQuiet}

abbrev pub QuietStep : Step → Type 0
QuietStep s = IsQuiet (some s)

-- Blocks that give a quiet step, or none.
abbrev pub Quietly : M (Option Step) → Type 0
Quietly m = Ends IsQuiet m

pub Quietly-continue :
    (x : Externals) (depth : ℕ) (m : M (Unit {0})) → Quietly (then_continue x depth m)
Quietly-continue x depth m = Ends-bind IsQuiet m _ λ _. Ends-pure IsQuiet none tt

pub Quietly-yield :
    (x : Externals) (depth : ℕ) (m : M Step) → Ends QuietStep m → Quietly (then_yield x depth m)
Quietly-yield x depth m q = Ends-bind_of IsQuiet QuietStep m _ q λ s k. Ends-pure IsQuiet (some s) k

module _ (x : Externals) (depth : ℕ) where
  effect_request-kind :
      (kind : EffectKind) (identity : String) (payload : Json) (r : EffectRequest)
      → effect_request x depth kind identity payload ≡ ok r
      → r.kind ≡ kind
  unfolding effect_request
  effect_request-kind kind identity payload r h = ground arith

  file_effect-quiet :
      (kind : EffectKind) (identity : String) (payload : Json) (target : ℕ)
      (dimension : BudgetDimension) (completion : PendingCompletion)
      → kind ≢ EffectKind.write
      → Ends QuietStep (file_effect x depth kind identity payload target dimension completion)
  unfolding file_effect
  file_effect-quiet kind identity payload target dimension completion h =
      Ends-bind QuietStep _ _ λ _. Ends-bind QuietStep _ _ λ _. Ends-lift QuietStep _ _ λ r e.
        Ends-bind QuietStep _ _ λ _.
          Ends-pure QuietStep (yield r)
            (λ k. h (sym (effect_request-kind kind identity payload r e) ∙ k))

  pub inference-quiet :
      (target : ℕ) (prompt : String) (arguments : List NamedValue) (model_alias : String)
      → Ends QuietStep (yield_inference x depth target prompt arguments model_alias)
  unfolding yield_inference
  inference-quiet target prompt arguments model_alias = Ends-bind QuietStep _ _ λ _.
      Ends-bind QuietStep _ _ λ _.
        Ends-bind QuietStep _ _
          λ _. Ends-bind QuietStep _ _ λ _. file_effect-quiet _ _ _ target _ _ (λ e. cc)

  pub observation-quiet :
      (target : ℕ) (action : String) (arguments : List NamedValue)
      → Ends QuietStep (yield_observation x depth target action arguments)
  unfolding yield_observation
  observation-quiet target action arguments = Ends-bind QuietStep _ _ λ _.
      Ends-bind QuietStep _ _ λ _.
        Ends-bind QuietStep _ _
          λ _. Ends-bind QuietStep _ _ λ _. file_effect-quiet _ _ _ target _ _ (λ e. cc)

  allow-quiet :
      (target : ℕ) (p : Proposal) (policy : String)
      → Quietly (authorize_allow x depth target p policy)
  unfolding authorize_allow
  allow-quiet target p policy = Ends-bind IsQuiet _ _ λ _. Ends-bind IsQuiet _ _ λ _.
      Ends-bind IsQuiet _ _ λ _. Ends-bind IsQuiet _ _ λ _.
        Ends-bind IsQuiet _ _
          λ _. Ends-bind IsQuiet _ _ λ _. Ends-bind IsQuiet _ _ λ _. Ends-pure IsQuiet none tt

  approve-quiet :
      (target : ℕ) (p : Proposal) (policy : String) (principal : RuntimeValue)
      → Quietly (authorize_approve x depth target p policy principal)
  unfolding authorize_approve
  approve-quiet target p policy principal = Ends-bind IsQuiet _ _ λ _. Ends-bind IsQuiet _ _ λ _.
      Ends-bind IsQuiet _ _ λ _.
        Ends-bind_of IsQuiet QuietStep _ _ (file_effect-quiet _ _ _ target _ _ (λ e. cc))
          λ s k. Ends-pure IsQuiet (some s) k

  deny-quiet :
      (target : ℕ) (p : Proposal) (policy reason : String)
      → Quietly (authorize_deny x depth target p policy reason)
  unfolding authorize_deny
  deny-quiet target p policy reason =
      Ends-bind IsQuiet _ _
        λ _. Ends-bind IsQuiet _ _ λ _. Ends-bind IsQuiet _ _ λ _. Ends-pure IsQuiet none tt

  authorize_by-quiet :
      (target : ℕ) (p : Proposal) (policy : String) (may_suspend : Bool)
      (decision : PolicyRuntimeDecision)
      → Quietly (authorize_by x depth target p policy may_suspend decision)
  authorize_by-quiet target p policy may_suspend allows = allow-quiet target p policy
  authorize_by-quiet target p policy true (approves principal) =
      approve-quiet target p policy principal
  authorize_by-quiet target p policy false (approves principal) = Ends-raise IsQuiet _
  authorize_by-quiet target p policy may_suspend (denies reason) = deny-quiet target p policy reason

  pub authorize-quiet :
      (target proposal : ℕ) (policy : String) (may_suspend : Bool)
      → Quietly (execute_authorize x depth target proposal policy may_suspend)
  unfolding execute_authorize
  authorize-quiet target proposal policy may_suspend = Ends-bind IsQuiet _ _ λ _.
      Ends-bind IsQuiet _ _ λ p.
        Ends-bind IsQuiet _ _ λ decision. authorize_by-quiet target p policy may_suspend decision
