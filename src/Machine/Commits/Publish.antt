-- ===== src/Machine/Commits/Publish.antt =====
-- `execute_return` of machine.rs: the one instruction that completes the event.
use aster_lang.Base.{ℕ, ◌≡◌, Option, none, some, [], ◌∷◌, List, arith}
use aster_lang.Base.Outcome.{ok}
use aster_lang.Value.{RuntimeValue}
use aster_lang.Machine.Decode.{Externals}
use aster_lang.Machine.State.{Machine, FrameSnapshot, M, Step, completed, RunOutcome}
use aster_lang.Machine.Local.{
  complete, publish, return_to_caller, return_from, execute_return, no_receipts,
}
use aster_lang.Machine.Rules.{Ends-bind, Ends-pure, past, past_read}
use aster_lang.Machine.Commits.{IsQuiet, Published, Explained, quiet, publishes}
use aster_lang.Machine.Commits.Quiet.{Quietly}

module _ (x : Externals) (depth : ℕ) where
  receipts_gone :
      (m : Machine) → no_receipts x depth m ≡ ok tt → m.snapshot.outstanding_receipts ≡ []
  receipts_gone m h = ground arith

  pub publish-Published :
      (v : RuntimeValue) (m m' : Machine) (o : Option Step)
      → publish x depth v m ≡ (ok o, m')
      → (r : RunOutcome) × (o ≡ some (completed r)) × Published x depth m m' r
  unfolding publish complete
  publish-Published v m m' o h = past_read _ _ m m' o h λ _ clear h1.
      past_read _ _ m m' o h1 λ value e2 h2. past_read _ _ m m' o h2 λ state e3 h3.
        past _ _ m m' o h3 λ _ m1 e4 h4. past_read _ _ m1 m' o h4 λ published e5 h5.
          let r : RunOutcome = record { state = published; value = value } in
          (
            r,
            ground arith,
            record {
              reconciled = receipts_gone m clear;
              published = ground arith;
              kept = ground arith;
            },
          )

  return_to_caller-quiet :
      (f : FrameSnapshot) (rest : List FrameSnapshot) (v : RuntimeValue)
      → Quietly (return_to_caller x depth f rest v)
  unfolding return_to_caller
  return_to_caller-quiet f rest v =
      Ends-bind IsQuiet _ _
        λ _. Ends-bind IsQuiet _ _ λ _. Ends-bind IsQuiet _ _ λ _. Ends-pure IsQuiet none tt

  quietly :
      (k : M (Option Step)) (m m' : Machine) (o : Option Step)
      → Quietly k
      → k m ≡ (ok o, m')
      → Explained x depth m m' o
  quietly k m m' o q h = quiet (q.at m m' o h)

  published :
      (m m' : Machine) (o : Option Step)
      → ((r : RunOutcome) × (o ≡ some (completed r)) × Published x depth m m' r)
      → Explained x depth m m' o
  published m m' o (r, e, p) = rw (e) (publishes p)

  return_from-Explained :
      (frames : List FrameSnapshot) (v : RuntimeValue) (m m' : Machine) (o : Option Step)
      → return_from x depth frames v m ≡ (ok o, m')
      → Explained x depth m m' o
  return_from-Explained (f ∷ g ∷ rest) v m m' o h =
      quietly _ m m' o (return_to_caller-quiet f (g ∷ rest) v) h
  return_from-Explained (f ∷ []) v m m' o h = published m m' o (publish-Published v m m' o h)
  return_from-Explained [] v m m' o h = published m m' o (publish-Published v m m' o h)

  pub return-Explained :
      (value : ℕ) (m m' : Machine) (o : Option Step)
      → execute_return x depth value m ≡ (ok o, m')
      → Explained x depth m m' o
  unfolding execute_return
  return-Explained value m m' o h =
      past_read _ _ m m' o h
        λ v _ h1. past_read _ _ m m' o h1 λ frames _ h2. return_from-Explained frames v m m' o h2
