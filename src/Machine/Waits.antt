-- ===== src/Machine/Waits.antt =====
-- The steps of machine.rs that yield a request, and the effect that they leave pending.
use aster_lang.Base.{
  ℕ, String, ◌≡◌, refl, Bool, true, false, Option, none, some, Option-cases, inl, inr, List, [],
  ◌∷◌, subst,
}
use aster_lang.Base.Outcome.{Result, ok, err}
use aster_lang.Ir.{InstructionKind, NamedValue}
use aster_lang.Json.{Json}
use aster_lang.Value.{RuntimeValue}
use aster_lang.Budget.{BudgetDimension}
use aster_lang.Authority.{Proposal}
use aster_lang.Machine.Errors.{MachineError}
use aster_lang.Machine.Decode.{Externals}
use aster_lang.Machine.State.{
  Machine, FrameSnapshot, M, Step, yield, EffectKind, EffectRequest, PendingEffect,
  PendingCompletion, write_completion, update, pure, ◌>>=◌,
}
use aster_lang.Machine.Queries.{PolicyRuntimeDecision, allows, approves, denies}
use aster_lang.Machine.Local.{execute_return, return_from, return_to_caller, publish, complete}
use aster_lang.Machine.Governed.{
  file_effect, yield_inference, yield_observation, yield_commit, authorize_allow, authorize_approve,
  authorize_deny, authorize_by, execute_authorize,
}
use aster_lang.Machine.Run.{
  then_continue, then_yield, execute_governed, unless_local, execute_current, step_of, idle_step,
  step,
}
use aster_lang.Machine.Rules.{bind-ok}

-- The machine waits for an effect, with this request.
pub record WaitsWith (m : Machine) (request : EffectRequest) : Type 0 where
  pub pending : PendingEffect
  pub waits : m.snapshot.pending_effect ≡ some pending
  pub same_request : pending.request ≡ request

-- If a step yields a request, the machine waits with it.
abbrev pub WaitsAfter : Step → Machine → Type 0
WaitsAfter (yield r) m = WaitsWith m r
WaitsAfter _ m = Unit {0}

abbrev pub WaitsAfterAny : Option Step → Machine → Type 0
WaitsAfterAny (some s) m = WaitsAfter s m
WaitsAfterAny none m = Unit {0}

-- What a block that returns leaves satisfies `Q`.
record Leaves {A : Type 0} (Q : A → Machine → Type 0) (k : M A) : Type 0 where
  at : (s s' : Machine) (a : A) → k s ≡ (ok a, s') → Q a s'

abbrev Returned : {A : Type 0} → (A → Machine → Type 0) → Result MachineError A × Machine → Type 0
Returned Q (ok a, m) = Q a m
Returned Q (err e, m) = Unit {0}

module _ {B : Type 0} (Q : B → Machine → Type 0) where
  Leaves-bind :
      {A : Type 0} (k : M A) (f : A → M B) → ((a : A) → Leaves Q (f a)) → Leaves Q (k >>= f)
  Leaves-bind k f q = record {
    at = λ s s' b h. let t = bind-ok k f s s' b h in (q t.value).at t.middle s' b t.second;
  }

  Leaves-bind_of :
      {A : Type 0} (P : A → Machine → Type 0) (k : M A) (f : A → M B)
      → Leaves P k
      → ((s : Machine) (a : A) → P a s → Returned Q (f a s))
      → Leaves Q (k >>= f)
  Leaves-bind_of P k f p q = record {
    at = λ s s' b h.
        let t = bind-ok k f s s' b h in
        subst (Returned Q) t.second (q t.middle t.value (p.at s t.middle t.value t.first));
  }

  Leaves-here : (k : M B) → ((m : Machine) → Returned Q (k m)) → Leaves Q k
  Leaves-here k q = record { at = λ s s' b h. subst (Returned Q) h (q s) }

filed-Leaves :
    (p : PendingEffect)
    → Leaves WaitsAfter
        (update (λ s. record s { pending_effect = some p }) >>= λ _. pure (yield p.request))
unfolding ◌>>=◌
filed-Leaves p =
    Leaves-here WaitsAfter
      (update (λ s. record s { pending_effect = some p }) >>= λ _. pure (yield p.request))
      λ m. record { pending = p; waits = refl; same_request = refl }

module _ (x : Externals) (depth : ℕ) where
  file_effect-Leaves :
      (kind : EffectKind) (identity : String) (payload : Json) (target : ℕ)
      (dimension : BudgetDimension) (completion : PendingCompletion)
      → Leaves WaitsAfter (file_effect x depth kind identity payload target dimension completion)
  unfolding file_effect
  file_effect-Leaves kind identity payload target dimension completion =
      Leaves-bind WaitsAfter _ _ λ budget_before. Leaves-bind WaitsAfter _ _ λ reservation.
        Leaves-bind WaitsAfter _ _ λ request. filed-Leaves (record {
          request = request;
          target = target;
          budget_before = budget_before;
          reservation = some reservation;
          usage_reservations = [];
          completion = completion;
        })

  abbrev Waiting : M (Option Step) → Type 0
  Waiting k = Leaves WaitsAfterAny k

  then_yield-Waiting : (k : M Step) → Leaves WaitsAfter k → Waiting (then_yield x depth k)
  then_yield-Waiting k p = Leaves-bind_of WaitsAfterAny WaitsAfter k _ p λ s a w. w

  then_continue-Waiting : (k : M (Unit {0})) → Waiting (then_continue x depth k)
  then_continue-Waiting k = Leaves-bind WaitsAfterAny k _ λ _. Leaves-here WaitsAfterAny _ λ m. tt

  inference-Leaves :
      (target : ℕ) (prompt : String) (arguments : List NamedValue) (model_alias : String)
      → Leaves WaitsAfter (yield_inference x depth target prompt arguments model_alias)
  unfolding yield_inference
  inference-Leaves target prompt arguments model_alias = Leaves-bind WaitsAfter _ _ λ _.
      Leaves-bind WaitsAfter _ _ λ _.
        Leaves-bind WaitsAfter _ _
          λ _. Leaves-bind WaitsAfter _ _ λ _. file_effect-Leaves _ _ _ target _ _

  observation-Leaves :
      (target : ℕ) (action : String) (arguments : List NamedValue)
      → Leaves WaitsAfter (yield_observation x depth target action arguments)
  unfolding yield_observation
  observation-Leaves target action arguments = Leaves-bind WaitsAfter _ _ λ _.
      Leaves-bind WaitsAfter _ _ λ _.
        Leaves-bind WaitsAfter _ _
          λ _. Leaves-bind WaitsAfter _ _ λ _. file_effect-Leaves _ _ _ target _ _

  commit-Leaves :
      (target proposal permit : ℕ) → Leaves WaitsAfter (yield_commit x depth target proposal permit)
  unfolding yield_commit
  commit-Leaves target proposal permit = Leaves-bind WaitsAfter _ _ λ _.
      Leaves-bind WaitsAfter _ _ λ p. Leaves-bind WaitsAfter _ _ λ _.
        Leaves-bind WaitsAfter _ _ λ q. Leaves-bind WaitsAfter _ _ λ _.
          Leaves-bind WaitsAfter _ _ λ grant. Leaves-bind WaitsAfter _ _ λ now.
            Leaves-bind WaitsAfter _ _ λ _. Leaves-bind WaitsAfter _ _ λ _.
              Leaves-bind WaitsAfter _ _ λ budget_before. Leaves-bind WaitsAfter _ _ λ reservation.
                Leaves-bind WaitsAfter _ _ λ tool. Leaves-bind WaitsAfter _ _ λ request.
                  filed-Leaves (record {
                    request = request;
                    target = target;
                    budget_before = budget_before;
                    reservation = some reservation;
                    usage_reservations = [];
                    completion = write_completion p.action p.digest tool.result_type;
                  })

  allow-Waiting :
      (target : ℕ) (p : Proposal) (policy : String)
      → Waiting (authorize_allow x depth target p policy)
  unfolding authorize_allow
  allow-Waiting target p policy = Leaves-bind WaitsAfterAny _ _ λ _.
      Leaves-bind WaitsAfterAny _ _ λ _. Leaves-bind WaitsAfterAny _ _ λ _.
        Leaves-bind WaitsAfterAny _ _ λ _. Leaves-bind WaitsAfterAny _ _ λ _.
          Leaves-bind WaitsAfterAny _ _
            λ _. Leaves-bind WaitsAfterAny _ _ λ _. Leaves-here WaitsAfterAny _ λ m. tt

  authorize_by-Waiting :
      (target : ℕ) (p : Proposal) (policy : String) (may_suspend : Bool)
      (decision : PolicyRuntimeDecision)
      → Waiting (authorize_by x depth target p policy may_suspend decision)
  unfolding authorize_approve authorize_deny
  authorize_by-Waiting target p policy may_suspend allows = allow-Waiting target p policy
  authorize_by-Waiting target p policy true (approves principal) =
      Leaves-bind WaitsAfterAny _ _ λ _. Leaves-bind WaitsAfterAny _ _ λ _.
        Leaves-bind WaitsAfterAny _ _ λ _.
          Leaves-bind_of WaitsAfterAny WaitsAfter _ _ (file_effect-Leaves _ _ _ target _ _)
            λ s a w. w
  authorize_by-Waiting target p policy false (approves principal) =
      Leaves-here WaitsAfterAny _ λ m. tt
  authorize_by-Waiting target p policy may_suspend (denies reason) =
      Leaves-bind WaitsAfterAny _ _ λ _.
        Leaves-bind WaitsAfterAny _ _
          λ _. Leaves-bind WaitsAfterAny _ _ λ _. Leaves-here WaitsAfterAny _ λ m. tt

  publish-Waiting : (v : RuntimeValue) → Waiting (publish x depth v)
  unfolding publish complete
  publish-Waiting v = Leaves-bind WaitsAfterAny _ _ λ _. Leaves-bind WaitsAfterAny _ _ λ _.
      Leaves-bind WaitsAfterAny _ _ λ _.
        Leaves-bind WaitsAfterAny _ _
          λ _. Leaves-bind WaitsAfterAny _ _ λ _. Leaves-here WaitsAfterAny _ λ m. tt

  return_from-Waiting :
      (frames : List FrameSnapshot) (v : RuntimeValue) → Waiting (return_from x depth frames v)
  unfolding return_to_caller
  return_from-Waiting [] v = publish-Waiting v
  return_from-Waiting (f ∷ []) v = publish-Waiting v
  return_from-Waiting (f ∷ g ∷ rest) v = Leaves-bind WaitsAfterAny _ _ λ _.
      Leaves-bind WaitsAfterAny _ _
        λ _. Leaves-bind WaitsAfterAny _ _ λ _. Leaves-here WaitsAfterAny _ λ m. tt

  governed-Waiting : (kind : InstructionKind) → Waiting (execute_governed x depth kind)
  unfolding execute_governed execute_authorize execute_return
  governed-Waiting (InstructionKind.infer target prompt arguments model_alias) =
      then_yield-Waiting _ (inference-Leaves target prompt arguments model_alias)
  governed-Waiting (InstructionKind.validate target candidate validator) = then_continue-Waiting _
  governed-Waiting (InstructionKind.observe target action arguments) =
      then_yield-Waiting _ (observation-Leaves target action arguments)
  governed-Waiting (InstructionKind.construct_intent target purpose fields) =
      then_continue-Waiting _
  governed-Waiting (InstructionKind.construct_proposal target action arguments intent) =
      then_continue-Waiting _
  governed-Waiting (InstructionKind.authorize target proposal policy may_suspend) =
      Leaves-bind WaitsAfterAny _ _ λ _. Leaves-bind WaitsAfterAny _ _ λ p.
        Leaves-bind WaitsAfterAny _ _
          λ decision. authorize_by-Waiting target p policy may_suspend decision
  governed-Waiting (InstructionKind.commit target proposal permit) =
      then_yield-Waiting _ (commit-Leaves target proposal permit)
  governed-Waiting (InstructionKind.reconcile target receipt observation validator) =
      then_continue-Waiting _
  governed-Waiting (InstructionKind.require condition) =
      Leaves-bind WaitsAfterAny _ _ λ _. Leaves-bind WaitsAfterAny _ _ λ _. then_continue-Waiting _
  governed-Waiting (InstructionKind.update_state fields) =
      Leaves-bind WaitsAfterAny _ _ λ _. Leaves-bind WaitsAfterAny _ _ λ _. then_continue-Waiting _
  governed-Waiting (InstructionKind.return_value value) =
      Leaves-bind WaitsAfterAny _ _
        λ v. Leaves-bind WaitsAfterAny _ _ λ frames. return_from-Waiting frames v
  governed-Waiting _ = Leaves-here WaitsAfterAny _ λ m. tt

  unless_local-Waiting : (kind : InstructionKind) (b : Bool) → Waiting (unless_local x depth kind b)
  unless_local-Waiting kind true = Leaves-here WaitsAfterAny _ λ m. tt
  unless_local-Waiting kind false = governed-Waiting kind

  current-Waiting : Waiting (execute_current x depth)
  unfolding execute_current
  current-Waiting =
      Leaves-bind WaitsAfterAny _ _
        λ instruction. Leaves-bind WaitsAfterAny _ _ λ b. unless_local-Waiting instruction.kind b

  step_of-WaitsAfter :
      (r : Result MachineError (Option Step) × Machine)
      → Returned WaitsAfterAny r
      → WaitsAfter (step_of x depth r).0 (step_of x depth r).1
  step_of-WaitsAfter (ok (some s), m) w = w
  step_of-WaitsAfter (ok none, m) w = tt
  step_of-WaitsAfter (err e, m) w = tt

  returned :
      (k : M (Option Step)) (m : Machine) (r : Result MachineError (Option Step) × Machine)
      → Waiting k
      → k m ≡ r
      → Returned WaitsAfterAny r
  returned k m (ok o, m') w h = w.at m m' o h
  returned k m (err e, m') w h = tt

  idle-WaitsAfter :
      (m : Machine) (failure : Option MachineError) → WaitsAfterAny (idle_step x depth m failure) m
  idle-WaitsAfter m (some e) = tt
  idle-WaitsAfter m none = elim (Option-cases m.outcome) [
    | inr (o, done) ↦ rw done tt
    | inl going ↦ rw going (elim (Option-cases m.snapshot.pending_effect) [
      | inl free ↦ rw free tt
      | inr (p, w) ↦ rw w (record { pending = p; waits = refl; same_request = refl })
    ])
  ]

  idle_or_not :
      (m : Machine) (o : Option Step) (r : Step × Machine)
      → WaitsAfterAny o m
      → WaitsAfter r.0 r.1
      → (let t : Step × Machine = elim o [ some s ↦ (s, m) | none ↦ r ] in WaitsAfter t.0 t.1)
  idle_or_not m (some s) r w v = w
  idle_or_not m none r w v = v

  -- A step that yields a request leaves the machine waiting with that request.
  pub step-WaitsAfter : (m : Machine) → WaitsAfter (step x depth m).0 (step x depth m).1
  unfolding step
  step-WaitsAfter m =
      idle_or_not m (idle_step x depth m m.failure) (step_of x depth (execute_current x depth m))
        (idle-WaitsAfter m m.failure)
        (step_of-WaitsAfter (execute_current x depth m)
          (returned (execute_current x depth) m _ current-Waiting refl))
