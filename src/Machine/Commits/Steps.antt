-- ===== src/Machine/Commits/Steps.antt =====
-- `execute_current` and `step` of machine.rs, whichever instruction they run.
use aster_lang.Base.{
  ℕ, ◌≡◌, ◌≢◌, refl, sym, subst, ap, ◌∙◌, Bool, true, false, Option, none, some, ◌⊎◌, inl, inr,
}
use aster_lang.Base.Outcome.{Result, ok, err}
use aster_lang.Ir.{InstructionKind}
use aster_lang.Machine.Errors.{MachineError}
use aster_lang.Machine.Decode.{Externals}
use aster_lang.Machine.State.{
  Machine, M, Step, continue, yield, completed, failed, EffectKind, EffectRequest, RunOutcome,
}
use aster_lang.Machine.Local.{execute_local_instruction}
use aster_lang.Machine.Run.{
  execute_governed, unless_local, execute_current, step_of, idle_step, step,
}
use aster_lang.Machine.Rules.{Ends, Ends-bind, Ends-pure, Ends-raise, past, past_read}
use aster_lang.Machine.Commits.{IsQuiet, Committed, Published, Explained, quiet, commits, publishes}
use aster_lang.Machine.Commits.Quiet.{
  Quietly, Quietly-continue, Quietly-yield, inference-quiet, observation-quiet, authorize-quiet,
}
use aster_lang.Machine.Commits.Write.{yield_commit-Committed}
use aster_lang.Machine.Commits.Publish.{return-Explained}

module _ (x : Externals) (depth : ℕ) where
  explained :
      (k : M (Option Step)) (m m' : Machine) (o : Option Step)
      → Quietly k
      → k m ≡ (ok o, m')
      → Explained x depth m m' o
  explained k m m' o q h = quiet (q.at m m' o h)

  committed :
      (m m' : Machine) (s : Step) (o : Option Step)
      → ((r : EffectRequest) × (s ≡ yield r) × Committed x depth m m' r)
      → some s ≡ o
      → Explained x depth m m' o
  committed m m' s o (r, e, c) eo = rw (sym eo, e) (commits c)

  commit-Explained :
      (target proposal permit : ℕ) (m m' : Machine) (o : Option Step)
      → execute_governed x depth (InstructionKind.commit target proposal permit) m ≡ (ok o, m')
      → Explained x depth m m' o
  unfolding execute_governed
  commit-Explained target proposal permit m m' o h = past _ _ m m' o h λ s m1 e h1.
      committed m m' s o (yield_commit-Committed x depth target proposal permit m m' s (cc)) (cc)

  pub governed-Explained :
      (kind : InstructionKind) (m m' : Machine) (o : Option Step)
      → execute_governed x depth kind m ≡ (ok o, m')
      → Explained x depth m m' o
  unfolding execute_governed
  governed-Explained (InstructionKind.infer target prompt arguments model_alias) m m' o h =
      explained _ m m' o
        (Quietly-yield x depth _ (inference-quiet x depth target prompt arguments model_alias)) h
  governed-Explained (InstructionKind.validate target candidate validator) m m' o h =
      explained _ m m' o (Quietly-continue x depth _) h
  governed-Explained (InstructionKind.observe target action arguments) m m' o h =
      explained _ m m' o
        (Quietly-yield x depth _ (observation-quiet x depth target action arguments)) h
  governed-Explained (InstructionKind.construct_intent target purpose fields) m m' o h =
      explained _ m m' o (Quietly-continue x depth _) h
  governed-Explained (InstructionKind.construct_proposal target action arguments intent) m m' o h =
      explained _ m m' o (Quietly-continue x depth _) h
  governed-Explained (InstructionKind.authorize target proposal policy may_suspend) m m' o h =
      explained _ m m' o (authorize-quiet x depth target proposal policy may_suspend) h
  governed-Explained (InstructionKind.commit target proposal permit) m m' o h =
      commit-Explained target proposal permit m m' o h
  governed-Explained (InstructionKind.reconcile target receipt observation validator) m m' o h =
      explained _ m m' o (Quietly-continue x depth _) h
  governed-Explained (InstructionKind.require condition) m m' o h =
      explained _ m m' o
        (Ends-bind IsQuiet _ _
          λ _. Ends-bind IsQuiet _ _ λ _. Ends-bind IsQuiet _ _ λ _. Ends-pure IsQuiet none tt)
        h
  governed-Explained (InstructionKind.update_state fields) m m' o h =
      explained _ m m' o
        (Ends-bind IsQuiet _ _
          λ _. Ends-bind IsQuiet _ _ λ _. Ends-bind IsQuiet _ _ λ _. Ends-pure IsQuiet none tt)
        h
  governed-Explained (InstructionKind.return_value value) m m' o h =
      return-Explained x depth value m m' o h
  governed-Explained _ m m' o h = explained _ m m' o (Ends-raise IsQuiet _) h

  abbrev IsTrue : Bool → Type 0
  IsTrue b = b ≡ true

  -- A local instruction that returns says so, and any other leaves the machine as it was.
  local_or_not :
      (kind : InstructionKind)
      → Ends IsTrue (execute_local_instruction x depth kind)
        ⊎ ((m : Machine) → execute_local_instruction x depth kind m ≡ (ok false, m))
  unfolding execute_local_instruction
  local_or_not (InstructionKind.evaluate target expression) = inl (
      Ends-bind IsTrue _ _ λ _.
        Ends-bind IsTrue _ _
          λ _. Ends-bind IsTrue _ _ λ _. Ends-bind IsTrue _ _ λ _. Ends-pure IsTrue true refl)
  local_or_not (InstructionKind.bind name value) = inl (
      Ends-bind IsTrue _ _
        λ _. Ends-bind IsTrue _ _ λ _. Ends-bind IsTrue _ _ λ _. Ends-pure IsTrue true refl)
  local_or_not (InstructionKind.copy target source) = inl (
      Ends-bind IsTrue _ _
        λ _. Ends-bind IsTrue _ _ λ _. Ends-bind IsTrue _ _ λ _. Ends-pure IsTrue true refl)
  local_or_not (InstructionKind.unwrap_result target result) =
      inl (Ends-bind IsTrue _ _ λ _. Ends-pure IsTrue true refl)
  local_or_not (InstructionKind.call_routine target routine arguments) =
      inl (Ends-bind IsTrue _ _ λ _. Ends-pure IsTrue true refl)
  local_or_not (InstructionKind.branch condition then_target else_target) = inl (
      Ends-bind IsTrue _ _
        λ _. Ends-bind IsTrue _ _ λ _. Ends-bind IsTrue _ _ λ _. Ends-pure IsTrue true refl)
  local_or_not (InstructionKind.jump target) =
      inl (Ends-bind IsTrue _ _ λ _. Ends-pure IsTrue true refl)
  local_or_not (InstructionKind.match_value value arms) = inl (
      Ends-bind IsTrue _ _ λ _.
        Ends-bind IsTrue _ _
          λ _. Ends-bind IsTrue _ _ λ _. Ends-bind IsTrue _ _ λ _. Ends-pure IsTrue true refl)
  local_or_not _ = inr (λ m. refl)

  after_local :
      (kind : InstructionKind) (b : Bool) (m m1 m' : Machine) (o : Option Step)
      → execute_local_instruction x depth kind m ≡ (ok b, m1)
      → unless_local x depth kind b m1 ≡ (ok o, m')
      → Explained x depth m m' o
  after_local kind true m m1 m' o e h = quiet ((Ends-pure IsQuiet none tt).at m1 m' o h)
  after_local kind false m m1 m' o e h = elim (local_or_not kind) [
    | inl t ↦ elim (impossible (t.at m m1 false e)) [ ]
    | inr same ↦ governed-Explained kind m m' o (rw (moved (same m)) h)
  ]
    where
      impossible : false ≡ true → ⊥
      impossible h = cc

      moved : execute_local_instruction x depth kind m ≡ (ok false, m) → m ≡ m1
      moved k = cc

  current-Explained :
      (m m' : Machine) (o : Option Step)
      → execute_current x depth m ≡ (ok o, m')
      → Explained x depth m m' o
  unfolding execute_current
  current-Explained m m' o h = past_read _ _ m m' o h λ instruction _ h1.
      past _ _ m m' o h1 λ b m1 e h2. after_local instruction.kind b m m1 m' o e h2

  commit_of :
      (m m' : Machine) (o : Option Step) (r : EffectRequest)
      → Explained x depth m m' o
      → o ≡ some (yield r)
      → r.kind ≡ EffectKind.write
      → Committed x depth m m' r
  commit_of m m' o r (quiet q) e k = elim (subst IsQuiet e q k) [ ]
  commit_of m m' _ r (commits {r = r'} c) e k = subst (Committed x depth m m') (same r' e) c
    where
      same : (r' : EffectRequest) → some (yield r') ≡ some (yield r) → r' ≡ r
      same r' h = cc
  commit_of m m' _ r (publishes {o} p) e k = elim (other o e) [ ]
    where
      other : (o : RunOutcome) → some (completed o) ≡ some (yield r) → ⊥
      other o h = cc

  outcome_of :
      (m m' : Machine) (o : Option Step) (r : RunOutcome)
      → Explained x depth m m' o
      → o ≡ some (completed r)
      → Published x depth m m' r
  outcome_of m m' o r (quiet q) e = elim (subst IsQuiet e q) [ ]
  outcome_of m m' _ r (commits {r = r'} c) e = elim (other r' e) [ ]
    where
      other : (r' : EffectRequest) → some (yield r') ≡ some (completed r) → ⊥
      other r' h = cc
  outcome_of m m' _ r (publishes {o} p) e = subst (Published x depth m m') (same o e) p
    where
      same : (o : RunOutcome) → some (completed o) ≡ some (completed r) → o ≡ r
      same o h = cc

  ran :
      (m : Machine) (s : Step) (r : Result MachineError (Option Step) × Machine)
      → execute_current x depth m ≡ r
      → (step_of x depth r).0 ≡ s
      → s ≢ continue
      → ((e : MachineError) → s ≢ failed e)
      → Explained x depth m (step_of x depth r).1 (some s)
  ran m s (ok (some t), m') h e goes fails = current-Explained m m' (some s) (cc)
  ran m s (ok none, m') h e goes fails = elim (goes (sym e)) [ ]
  ran m s (err why, m') h e goes fails = elim (fails why (sym e)) [ ]

  active :
      (m : Machine)
      → idle_step x depth m m.failure ≡ none
      → step x depth m ≡ step_of x depth (execute_current x depth m)
  unfolding step
  active m h = rw (h, step) refl

  -- A step that asks for a write, of a machine that has not failed or completed and waits for
  -- nothing, has committed a proposal: the capability of the proposal is granted, a permit of the
  -- machine's ledger authorised the sealed proposal at the event's time and was unused, that permit
  -- is now consumed, one external write is reserved, and the request, which is the pending one,
  -- asks for what the proposal says.
  pub step-Committed :
      (m : Machine) (r : EffectRequest)
      → idle_step x depth m m.failure ≡ none
      → (step x depth m).0 ≡ yield r
      → r.kind ≡ EffectKind.write
      → Committed x depth m (step x depth m).1 r
  step-Committed m r idle e k = rw (active m idle) (
      commit_of m (step_of x depth (execute_current x depth m)).1 (some (yield r)) r
        (ran m (yield r) (execute_current x depth m) refl (ap (λ p. p.0) (sym (active m idle)) ∙ e)
          (λ h. cc) (λ w h. cc))
        refl k)

  -- A step that completes the event, of a machine that has not failed or completed and waits for
  -- nothing, finds no receipt left to reconcile, and its outcome's state is the pending state over
  -- the current one.
  pub step-Published :
      (m : Machine) (r : RunOutcome)
      → idle_step x depth m m.failure ≡ none
      → (step x depth m).0 ≡ completed r
      → Published x depth m (step x depth m).1 r
  step-Published m r idle e = rw (active m idle) (
      outcome_of m (step_of x depth (execute_current x depth m)).1 (some (completed r)) r
        (ran m (completed r) (execute_current x depth m) refl
          (ap (λ p. p.0) (sym (active m idle)) ∙ e) (λ h. cc) (λ w h. cc))
        refl)
