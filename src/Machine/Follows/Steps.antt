-- ===== src/Machine/Follows/Steps.antt =====
-- Every instruction of machine.rs, and every answer to a request, follows.
use aster_lang.Base.{ℕ, String, refl, List, [], ◌∷◌}
use aster_lang.Ir.{NamedValue, InstructionKind}
use aster_lang.Value.{RuntimeValue}
use aster_lang.Machine.Decode.{Externals}
use aster_lang.Machine.State
use aster_lang.Machine.State.{
  Machine, M, FrameSnapshot, EffectKind, PendingCompletion, PendingEffect, EffectResolution, ◌>>=◌,
}
use aster_lang.Machine.Eval.Rounds.{PatternBinding, unbound, bound}
use aster_lang.Machine.Local.{
  execute_unwrap, execute_call, bind_local, push_frame, execute_local_instruction, return_to_caller,
  complete, publish, return_from, execute_return,
}
use aster_lang.Machine.Follows.{
  moved, seen, still, Safe-reads, Safe, Safe-update, Safe-set_slot, Safe-set_local,
  Safe-set_pointer, Safe-advance,
}

module _ (x : Externals) (depth : ℕ) where
  pub slot_then_advance :
      (target : ℕ) (v : RuntimeValue) → Safe x (State.set_slot target v >>= λ _. State.advance)
  slot_then_advance target v = moved x _ _ (Safe-set_slot x target v) λ _. Safe-advance x

  Safe-execute_unwrap : (target result : ℕ) → Safe x (execute_unwrap target result)
  unfolding execute_unwrap
  Safe-execute_unwrap target result =
      seen x _ _ still λ _. seen x _ _ still λ v. slot_then_advance target v

  Safe-push_frame : (f : FrameSnapshot) → Safe x (push_frame f)
  Safe-push_frame f = Safe-update x _ λ s. (refl, refl, refl, refl)

  Safe-execute_call :
      (target : ℕ) (name : String) (arguments : List NamedValue)
      → Safe x (execute_call target name arguments)
  unfolding execute_call
  Safe-execute_call target name arguments = seen x _ _ still λ _.
      seen x _ _ still
        λ _. seen x _ _ still λ _. moved x _ _ (Safe-advance x) λ _. Safe-push_frame _

  Safe-bind_local : (b : PatternBinding) → Safe x (bind_local b)
  Safe-bind_local unbound = Safe-reads x _ still
  Safe-bind_local (bound name v) = Safe-set_local x name v

  pub Safe-local : (i : InstructionKind) → Safe x (execute_local_instruction x depth i)
  unfolding execute_local_instruction
  Safe-local (InstructionKind.evaluate target expression) = seen x _ _ still λ _.
      seen x _ _ still λ v.
        moved x _ _ (Safe-set_slot x target v)
          λ _. moved x _ _ (Safe-advance x) λ _. Safe-reads x _ still
  Safe-local (InstructionKind.bind name value) = seen x _ _ still λ v.
      moved x _ _ (Safe-set_local x _ v) λ _. moved x _ _ (Safe-advance x) λ _. Safe-reads x _ still
  Safe-local (InstructionKind.copy target source) = seen x _ _ still λ v.
      moved x _ _ (Safe-set_slot x target v)
        λ _. moved x _ _ (Safe-advance x) λ _. Safe-reads x _ still
  Safe-local (InstructionKind.unwrap_result target result) =
      moved x _ _ (Safe-execute_unwrap target result) λ _. Safe-reads x _ still
  Safe-local (InstructionKind.call_routine target routine arguments) =
      moved x _ _ (Safe-execute_call target routine arguments) λ _. Safe-reads x _ still
  Safe-local (InstructionKind.branch condition then_target else_target) = seen x _ _ still λ _.
      seen x _ _ still λ target. moved x _ _ (Safe-set_pointer x target) λ _. Safe-reads x _ still
  Safe-local (InstructionKind.jump target) =
      moved x _ _ (Safe-set_pointer x target) λ _. Safe-reads x _ still
  Safe-local (InstructionKind.match_value value arms) = seen x _ _ still λ _.
      seen x _ _ still λ found.
        moved x _ _ (Safe-bind_local found.1)
          λ _. moved x _ _ (Safe-set_pointer x found.0) λ _. Safe-reads x _ still
  Safe-local _ = Safe-reads x _ still

  Safe-return_to_caller :
      (f : FrameSnapshot) (rest : List FrameSnapshot) (v : RuntimeValue)
      → Safe x (return_to_caller x depth f rest v)
  unfolding return_to_caller
  Safe-return_to_caller f rest v = moved x _ _ (Safe-update x _ λ s. (refl, refl, refl, refl)) λ _.
      seen x _ _ still λ target. moved x _ _ (Safe-set_slot x target v) λ _. Safe-reads x _ still

  Safe-complete : (o : State.RunOutcome) → Safe x (complete x depth o)
  unfolding complete
  Safe-complete o = record {
    at = λ m. record {
      same_program = refl;
      same_identity = refl;
      same_state = refl;
      accounted = λ limits a. a;
      authority_calls = λ start c. c;
    };
  }

  Safe-publish : (v : RuntimeValue) → Safe x (publish x depth v)
  unfolding publish
  Safe-publish v = seen x _ _ still λ _. seen x _ _ still λ _. seen x _ _ still λ _.
      moved x _ _ (Safe-update x _ λ s. (refl, refl, refl, refl))
        λ _. seen x _ _ still λ _. Safe-complete _

  Safe-return_from :
      (fs : List FrameSnapshot) (v : RuntimeValue) → Safe x (return_from x depth fs v)
  Safe-return_from [] v = Safe-publish v
  Safe-return_from (f ∷ []) v = Safe-publish v
  Safe-return_from (f ∷ g ∷ rest) v = Safe-return_to_caller f (g ∷ rest) v

  pub Safe-execute_return : (value : ℕ) → Safe x (execute_return x depth value)
  unfolding execute_return
  Safe-execute_return value = seen x _ _ still λ v. seen x _ _ still λ fs. Safe-return_from fs v
