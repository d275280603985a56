-- ===== src/Machine/Answers.antt =====
-- `supply` of crates/aster-runtime/src/machine.rs: the answers that it takes.
use aster_lang.Base.{ℕ, String, ◌≤◌, ◌≡◌, true, none, some, [], ◌∷◌}
use aster_lang.Base.Maps.{BTreeMap, string_ord, lookup}
use aster_lang.Base.Outcome.{err}
use aster_lang.Budget.{Reservation, or_zero}
use aster_lang.Machine.Errors.{no_pending_effect}
use aster_lang.Machine.Decode.{Externals}
use aster_lang.Machine.State.{Machine, EffectResolution, PendingEffect}
use aster_lang.Machine.Run.{expected_names, supply}

-- Every reservation covers what the answer says was used of it.
abbrev pub IsWithin : BTreeMap String ℕ → BTreeMap String Reservation → Type 0
IsWithin usage [] = Unit {0}
IsWithin usage ((name, r) ∷ rest) = (or_zero (lookup name usage) ≤ r.maximum) × IsWithin usage rest

-- What holds when the machine goes from `m` to `m'` by an answer.
pub record Answered (x : Externals) (depth : ℕ) (m m' : Machine) (resolution : EffectResolution)
    : Type 0 where
  pub pending : PendingEffect
  pub waited : m.snapshot.pending_effect ≡ some pending
  pub same_hash : resolution.request_hash ≡ pending.request.request_hash
  pub expected : expected_names pending.usage_reservations resolution.actual_usage ≡ true
  pub within : IsWithin resolution.actual_usage pending.usage_reservations
  pub waits_no_more : m'.snapshot.pending_effect ≡ none
  pub not_again : (other : EffectResolution) → supply x depth other m' ≡ (err no_pending_effect, m')
