-- ===== src/Machine/Follows/Runs.antt =====
-- Runs of the machine of machine.rs: every sequence of `step`, `supply` and
-- `reserve_pending_usage` follows.
use aster_lang.Base.{ℕ, String, refl, Option, none, some, [], ◌∷◌, Bool, true, false}
use aster_lang.Base.Maps.{BTreeMap}
use aster_lang.Base.Outcome.{Result, ok, err}
use aster_lang.Ir.{InstructionKind}
use aster_lang.Json.{Json}
use aster_lang.Authority.{Proposal}
use aster_lang.Budget.{Reservation}
use aster_lang.Machine.Errors.{MachineError}
use aster_lang.Machine.Decode.{Externals}
use aster_lang.Machine.State.{
  Machine, Step, PendingEffect, PendingCompletion, EffectResolution, model_completion,
  read_completion, approval_completion, write_completion,
}
use aster_lang.Machine.Run.{
  settle_all, settle_count, reserve_usage, reserve_pending_usage, approval_result,
  decode_resolution, settle_and_resume, supply, execute_governed, unless_local, execute_current,
  step_of, idle_step, step,
}
use aster_lang.Machine.Follows.{
  Follows, Follows-IsPreorder, seen, moved, still, Safe-reads, Safe, Safe-update, Safe-set_slot,
  Safe-advance, Safe-reserve_budget, Safe-settle_budget, Safe-audit, Safe-issue_permit,
}
use aster_lang.Machine.Follows.Steps.{Safe-local, Safe-execute_return}
use aster_lang.Machine.Follows.Governed.{
  Safe-yield_inference, Safe-execute_validate, Safe-yield_observation, Safe-execute_intent,
  Safe-execute_proposal, Safe-execute_authorize, Safe-yield_commit, Safe-execute_reconcile,
}

module _ (x : Externals) where
  Safe-settle_all :
      (usage : BTreeMap String ℕ) (rs : BTreeMap String Reservation) → Safe x (settle_all usage rs)
  unfolding settle_all
  Safe-settle_all usage [] = Safe-reads x _ still
  Safe-settle_all usage ((name, r) ∷ rest) =
      moved x _ _ (Safe-settle_budget x r _) λ _. Safe-settle_all usage rest

  Safe-settle_count : (r : Option Reservation) → Safe x (settle_count r)
  Safe-settle_count none = Safe-reads x _ still
  Safe-settle_count (some r) = Safe-settle_budget x r 1

  Safe-reserve_usage : (maximums : BTreeMap String ℕ) → Safe x (reserve_usage maximums)
  unfolding reserve_usage
  Safe-reserve_usage [] = Safe-reads x _ still
  Safe-reserve_usage ((name, maximum) ∷ rest) = seen x _ _ still λ d.
      moved x _ _ (Safe-reserve_budget x d maximum)
        λ _. moved x _ _ (Safe-reserve_usage rest) λ _. Safe-reads x _ still

  pub Safe-reserve_pending_usage :
      (maximums : BTreeMap String ℕ) → Safe x (reserve_pending_usage maximums)
  unfolding reserve_pending_usage
  Safe-reserve_pending_usage maximums = seen x _ _ still λ _. seen x _ _ still λ _.
      moved x _ _ (Safe-reserve_usage maximums)
        λ _. seen x _ _ still λ _. Safe-update x _ λ s. (refl, refl, refl, refl)

module _ (x : Externals) (depth : ℕ) where
  Safe-approval_result :
      (p : Proposal) (policy expires_at : String) (approved : Bool)
      → Safe x (approval_result x depth p policy expires_at approved)
  Safe-approval_result p policy expires_at true = seen x _ _ still λ _. seen x _ _ still λ _.
      moved x _ _ (Safe-issue_permit x p policy _ _ expires_at _)
        λ _. moved x _ _ (Safe-audit x _ _) λ _. Safe-reads x _ still
  Safe-approval_result p policy expires_at false = Safe-reads x _ still

  Safe-decode_resolution :
      (c : PendingCompletion) (provenance : String) (payload : Json)
      → Safe x (decode_resolution x depth c provenance payload)
  unfolding decode_resolution
  Safe-decode_resolution (model_completion ty) provenance payload =
      seen x _ _ still λ _. Safe-reads x _ still
  Safe-decode_resolution (read_completion ty) provenance payload =
      seen x _ _ still λ _. Safe-reads x _ still
  Safe-decode_resolution (approval_completion p policy expires_at) provenance payload =
      seen x _ _ still λ approved. Safe-approval_result p policy expires_at approved
  Safe-decode_resolution (write_completion action proposal_hash ty) provenance payload =
      seen x _ _ still
        λ _. moved x _ _ (Safe-update x _ λ s. (refl, refl, refl, refl)) λ _. Safe-reads x _ still

  Safe-settle_and_resume :
      (pending : PendingEffect) (resolution : EffectResolution)
      → Safe x (settle_and_resume x depth pending resolution)
  unfolding settle_and_resume
  Safe-settle_and_resume pending resolution =
      moved x _ _ (Safe-settle_count x pending.reservation) λ _.
        moved x _ _ (Safe-settle_all x resolution.actual_usage pending.usage_reservations) λ _.
          moved x _ _ (Safe-decode_resolution pending.completion _ _) λ v.
            moved x _ _ (Safe-set_slot x pending.target v)
              λ _. moved x _ _ (Safe-advance x) λ _. Safe-update x _ λ s. (refl, refl, refl, refl)

  pub Safe-supply : (resolution : EffectResolution) → Safe x (supply x depth resolution)
  unfolding supply
  Safe-supply resolution = seen x _ _ still λ pending.
      seen x _ _ still λ _. seen x _ _ still λ _. Safe-settle_and_resume pending resolution

  Safe-governed : (i : InstructionKind) → Safe x (execute_governed x depth i)
  unfolding execute_governed
  Safe-governed (InstructionKind.infer target prompt arguments model_alias) =
      moved x _ _ (Safe-yield_inference x depth target prompt arguments model_alias)
        λ _. Safe-reads x _ still
  Safe-governed (InstructionKind.validate target candidate validator) =
      moved x _ _ (Safe-execute_validate x depth target candidate validator)
        λ _. Safe-reads x _ still
  Safe-governed (InstructionKind.observe target action arguments) =
      moved x _ _ (Safe-yield_observation x depth target action arguments) λ _. Safe-reads x _ still
  Safe-governed (InstructionKind.construct_intent target purpose fields) =
      moved x _ _ (Safe-execute_intent x depth target purpose fields) λ _. Safe-reads x _ still
  Safe-governed (InstructionKind.construct_proposal target action arguments intent) =
      moved x _ _ (Safe-execute_proposal x depth target action arguments intent)
        λ _. Safe-reads x _ still
  Safe-governed (InstructionKind.authorize target proposal policy may_suspend) =
      Safe-execute_authorize x depth target proposal policy may_suspend
  Safe-governed (InstructionKind.commit target proposal permit) =
      moved x _ _ (Safe-yield_commit x depth target proposal permit) λ _. Safe-reads x _ still
  Safe-governed (InstructionKind.reconcile target receipt observation validator) =
      moved x _ _ (Safe-execute_reconcile x depth target receipt observation validator)
        λ _. Safe-reads x _ still
  Safe-governed (InstructionKind.require condition) =
      seen x _ _ still
        λ _. seen x _ _ still λ _. moved x _ _ (Safe-advance x) λ _. Safe-reads x _ still
  Safe-governed (InstructionKind.update_state fields) = seen x _ _ still λ _.
      moved x _ _ (Safe-update x _ λ s. (refl, refl, refl, refl))
        λ _. moved x _ _ (Safe-advance x) λ _. Safe-reads x _ still
  Safe-governed (InstructionKind.return_value value) = Safe-execute_return x depth value
  Safe-governed _ = Safe-reads x _ still

  Safe-unless_local :
      (kind : InstructionKind) (local : Bool) → Safe x (unless_local x depth kind local)
  Safe-unless_local kind true = Safe-reads x _ still
  Safe-unless_local kind false = Safe-governed kind

  Safe-execute_current : Safe x (execute_current x depth)
  unfolding execute_current
  Safe-execute_current =
      seen x _ _ still
        λ i. moved x _ _ (Safe-local x depth i.kind) λ local. Safe-unless_local i.kind local

  step_of-Follows :
      (m : Machine) (r : Result MachineError (Option Step) × Machine)
      → Follows x m r.1
      → Follows x m (step_of x depth r).1
  step_of-Follows m (ok (some s), m') h = h
  step_of-Follows m (ok none, m') h = h
  step_of-Follows m (err e, m') h = record {
    same_program = h.same_program;
    same_identity = h.same_identity;
    same_state = h.same_state;
    accounted = h.accounted;
    authority_calls = h.authority_calls;
  }

  stepping : Machine → Option Step → Step × Machine
  stepping m idle = elim idle [
    | some s ↦ (s, m)
    | none ↦ step_of x depth (execute_current x depth m)
  ]

  stepping-Follows : (m : Machine) (idle : Option Step) → Follows x m (stepping m idle).1
  unfolding stepping
  stepping-Follows m none =
      step_of-Follows m (execute_current x depth m) ((Safe-execute_current).at m)
  stepping-Follows m (some s) = (Follows-IsPreorder x).stay m

  pub step-Follows : (m : Machine) → Follows x m (step x depth m).1
  unfolding step stepping
  step-Follows m = stepping-Follows m (idle_step x depth m m.failure)

  -- The machines that a sequence of calls, failing ones included, leads to.
  pub data Reaches (m : Machine) : Machine → Type 0 where
    begins : Reaches m m
    steps : {n : Machine} → Reaches m n → Reaches m (step x depth n).1
    supplies :
        {n : Machine} (resolution : EffectResolution)
        → Reaches m n
        → Reaches m (supply x depth resolution n).1
    reserves_usage :
        {n : Machine} (maximums : BTreeMap String ℕ)
        → Reaches m n
        → Reaches m (reserve_pending_usage maximums n).1

  pub Reaches-Follows : (m m' : Machine) → Reaches m m' → Follows x m m'
  Reaches-Follows m m' begins = (Follows-IsPreorder x).stay m
  Reaches-Follows m m' (steps {n = n} r) =
      (Follows-IsPreorder x).then (Reaches-Follows m n r) (step-Follows n)
  Reaches-Follows m m' (supplies {n = n} resolution r) =
      (Follows-IsPreorder x).then (Reaches-Follows m n r) ((Safe-supply resolution).at n)
  Reaches-Follows m m' (reserves_usage {n = n} maximums r) =
      (Follows-IsPreorder x).then (Reaches-Follows m n r)
        ((Safe-reserve_pending_usage x maximums).at n)
