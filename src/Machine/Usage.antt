-- ===== src/Machine/Usage.antt =====
-- `reserve_pending_usage` of crates/aster-runtime/src/machine.rs reserves all of what it is asked
-- for, or nothing.
use aster_lang.Base.{
  ℕ, String, ◌+◌, ◌-◌, ◌≤◌, ◌≡◌, ◌≢◌, refl, none, some, [], ◌∷◌, ◌⊎◌, inl, inr, Option-cases, arith,
  eq_iff, if◌then◌else◌,
}
use aster_lang.Base.Maps.{
  BTreeMap, string_ord, lookup, insert, lookup-insert, same_key, Distinct, string_cmp_iff,
}
use aster_lang.Base.Outcome.{ok, err, Result-cases}
use aster_lang.Budget.{
  BudgetDimension, dimension_ord, dimension_cmp_iff, Reservation, or_zero, remaining_of, reserve,
}
use aster_lang.Machine.Errors.{MachineError, no_pending_effect}
use aster_lang.Machine.State.{Machine, PendingEffect, reserve_budget, ◌>>=◌}
use aster_lang.Machine.Run.{
  variable_usage_dimension, check_usage, reserve_usage, with_usage, reserve_pending_usage,
}

-- what the maxima ask of a dimension
unfoldable pub asked_of : BudgetDimension → BTreeMap String ℕ → ℕ
asked_of d [] = 0
asked_of d ((name, maximum) ∷ rest) =
    let others = asked_of d rest in
    elim (variable_usage_dimension name) [
      | none ↦ others
      | some d' ↦ if same_key d' d then maximum + others else others
    ]

usage_names_differ :
    (a b : String) (d : BudgetDimension)
    → variable_usage_dimension a ≡ some d
    → variable_usage_dimension b ≡ some d
    → a ≡ b
unfolding variable_usage_dimension
usage_names_differ a b d h k = ground (
  arith,
  eq_iff a "model_tokens",
  eq_iff b "model_tokens",
  eq_iff a "money_microunits",
  eq_iff b "money_microunits",
)

-- A reservation for one name leaves the checks of the others as they were.
check_usage_kept :
    (pending : PendingEffect) (m m' : Machine) (name : String) (d : BudgetDimension)
    (rest : BTreeMap String ℕ)
    → variable_usage_dimension name ≡ some d
    → lookup name rest ≡ none
    → ((d' : BudgetDimension)
        → d' ≢ d
        → remaining_of m'.snapshot.budget d' ≡ remaining_of m.snapshot.budget d')
    → check_usage pending m rest ≡ ok tt
    → check_usage pending m' rest ≡ ok tt
unfolding check_usage lookup
check_usage_kept pending m m' name d [] h free same c = refl
check_usage_kept pending m m' name d ((n, maximum) ∷ rest) h free same c =
    elim (Option-cases (variable_usage_dimension n)) [
      | inl e ↦ absurd (ground arith)
      | inr (d', e) ↦ ground (
        arith,
        check_usage_kept pending m m' name d rest h,
        string_cmp_iff name n,
        usage_names_differ name n d,
        same d',
      )
    ]

-- What a reservation of the machine does: it takes the maximum off its dimension alone.
record Reserved (m m' : Machine) (d : BudgetDimension) (maximum : ℕ) : Type 0 where
  pub reservation : Reservation
  pub same_pending : m'.snapshot.pending_effect ≡ m.snapshot.pending_effect
  pub taken : remaining_of m'.snapshot.budget d + maximum ≡ remaining_of m.snapshot.budget d
  pub others :
      (d' : BudgetDimension)
      → d' ≢ d
      → remaining_of m'.snapshot.budget d' ≡ remaining_of m.snapshot.budget d'
  pub done : reserve_budget d maximum m ≡ (ok reservation, m')

reserve_budget-Reserved :
    (d : BudgetDimension) (maximum : ℕ) (m : Machine)
    → maximum ≤ remaining_of m.snapshot.budget d
    → Reserved m (reserve_budget d maximum m).1 d maximum
unfolding reserve_budget reserve remaining_of
reserve_budget-Reserved d maximum m h =
    let b = m.snapshot.budget in
    record {
      reservation = record { id = b.next_id; dimension = d; maximum = maximum };
      same_pending = refl;
      taken = ground (
        arith,
        lookup-insert d d (or_zero (lookup d b.remaining) - maximum) b.remaining,
        dimension_cmp_iff d d,
      );
      others = λ d' n. ground (
        arith,
        lookup-insert d' d (or_zero (lookup d b.remaining) - maximum) b.remaining,
        dimension_cmp_iff d' d,
        n,
      );
      done = ground arith;
    }

-- What the second loop gives.
record Taken (m m' : Machine) (maximums : BTreeMap String ℕ) : Type 0 where
  pub reservations : BTreeMap String Reservation
  pub same_pending : m'.snapshot.pending_effect ≡ m.snapshot.pending_effect
  pub taken :
      (d : BudgetDimension)
      → remaining_of m'.snapshot.budget d + asked_of d maximums ≡ remaining_of m.snapshot.budget d
  pub done : reserve_usage maximums m ≡ (ok reservations, m')

reserve_usage-Taken :
    (pending : PendingEffect) (maximums : BTreeMap String ℕ) (m : Machine)
    → Distinct maximums
    → check_usage pending m maximums ≡ ok tt
    → (m' : Machine) × Taken m m' maximums
unfolding reserve_usage check_usage asked_of ◌>>=◌
reserve_usage-Taken pending [] m distinct c =
    (m, record { reservations = []; same_pending = refl; taken = λ d. omega arith; done = refl })
reserve_usage-Taken pending ((name, maximum) ∷ rest) m distinct c =
    elim (Option-cases (variable_usage_dimension name)) [
      | inl e ↦ absurd (ground arith)
      | inr (d, e) ↦
          let first = reserve_budget-Reserved d maximum m (ground arith) in
          let m1 = (reserve_budget d maximum m).1 in
          let (m', later) =
            reserve_usage-Taken pending rest m1 distinct.1 (
              check_usage_kept pending m m1 name d rest e distinct.0 first.others (ground arith)) in
          (
            m',
            record {
              reservations = insert name first.reservation later.reservations;
              same_pending = cc;
              taken = λ d'.
                  ground
                    (arith, first.taken, first.others d', later.taken d', dimension_cmp_iff d d');
              done = ground (arith, first.done, later.done);
            },
          )
    ]

-- Where no name stands twice among the maxima, `reserve_pending_usage` either succeeds, and then
-- what remains of each dimension is less by exactly what the maxima ask of it, or it fails and
-- leaves the machine as it was.
pub reserve_pending_usage_branches :
    (maximums : BTreeMap String ℕ) (m : Machine)
    → Distinct maximums
    → ((m' : Machine) × (reserve_pending_usage maximums m ≡ (ok tt, m'))
        × ((d : BudgetDimension)
            → remaining_of m'.snapshot.budget d + asked_of d maximums
              ≡ remaining_of m.snapshot.budget d))
      ⊎ ((e : MachineError) × (reserve_pending_usage maximums m ≡ (err e, m)))
unfolding reserve_pending_usage ◌>>=◌
reserve_pending_usage_branches maximums m distinct = elim (Option-cases m.snapshot.pending_effect) [
  | inl e ↦ inr (no_pending_effect, ground arith)
  | inr (pending, e) ↦ elim (Result-cases (check_usage pending m maximums)) [
    | inl (u, c) ↦
        let (m1, usage) = reserve_usage-Taken pending maximums m distinct c in
        inl (
          record m1 {
            snapshot = record m1.snapshot {
              pending_effect = some (with_usage usage.reservations pending);
            };
          },
          ground (arith, usage.done, usage.same_pending),
          λ d. usage.taken d,
        )
    | inr (why, c) ↦ inr (why, ground arith)
  ]
]

reserve_usage-pending :
    (maximums : BTreeMap String ℕ) (m : Machine)
    → (reserve_usage maximums m).1.snapshot.pending_effect ≡ m.snapshot.pending_effect
unfolding reserve_usage reserve_budget reserve ◌>>=◌
reserve_usage-pending [] m = refl
reserve_usage-pending ((name, maximum) ∷ rest) m =
    elim (Option-cases (variable_usage_dimension name)) [
      | inl e ↦ ground arith
      | inr (d, e) ↦ ground (arith, reserve_usage-pending rest (reserve_budget d maximum m).1)
    ]

-- Reserving for a pending effect leaves the request that it waits with as it was.
pub reserve_pending_usage-request :
    (maximums : BTreeMap String ℕ) (m m' : Machine) (p q : PendingEffect)
    → reserve_pending_usage maximums m ≡ (ok tt, m')
    → m.snapshot.pending_effect ≡ some p
    → m'.snapshot.pending_effect ≡ some q
    → q.request ≡ p.request
unfolding reserve_pending_usage ◌>>=◌
reserve_pending_usage-request maximums m m' p q h waits still =
    ground (arith, reserve_usage-pending maximums m)
