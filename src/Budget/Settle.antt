-- ===== src/Budget/Settle.antt =====
-- The exact effect of `reserve` and `settle` of budget.rs on a well-formed ledger.
use aster_lang.Base.{
  ℕ, ◌+◌, ◌-◌, ◌≤◌, ◌<◌, ◌≡◌, ◌≢◌, false, ◌⊎◌, none, some, arith, u64_max, if◌then◌else◌,
  saturating_add, leb, Bool-cases, inl, inr,
}
use aster_lang.Base.Maps.{
  nat_ord, lookup, insert, same_key, remove, remove_absent, Distinct, insert-Distinct,
  remove-Distinct, lookup-insert, lookup-remove, sum_values-insert, sum_values-remove, nat_cmp_iff,
}
use aster_lang.Base.Outcome.{ok, err}
use aster_lang.Budget.{
  BudgetDimension, dimension_ord, Reservation, same_reservation, Budget, exhausted,
  unknown_reservation, or_zero, remaining_of, reserve, settle, is_found-eq, dimension_cmp_iff,
}
use aster_lang.Budget.Conserve.{held_by, reserved_of}

-- No reservation is filed at or above the next id, no id twice, and no dimension's total passes
-- what a `u64` holds.
pub record IsValid (b : Budget) : Type 0 where
  pub fresh : (id : ℕ) → b.next_id ≤ id → lookup id b.reservations ≡ none
  pub distinct : Distinct b.reservations
  pub fits : (d : BudgetDimension) → remaining_of b d + reserved_of b d ≤ u64_max

pub reserve-total :
    (d : BudgetDimension) (maximum : ℕ) (b : Budget) (d' : BudgetDimension)
    → IsValid b
    → remaining_of (reserve d maximum b).1 d' + reserved_of (reserve d maximum b).1 d'
      ≡ remaining_of b d' + reserved_of b d'
unfolding reserve remaining_of reserved_of
reserve-total d maximum b d' v = ground (
  arith,
  lookup-insert d' d (or_zero (lookup d b.remaining) - maximum) b.remaining,
  sum_values-insert (held_by d') b.next_id
      (record { id = b.next_id; dimension = d; maximum = maximum }) b.reservations,
  v.fresh b.next_id (omega arith),
  dimension_cmp_iff d d',
  dimension_cmp_iff d' d,
)

pub settle-total :
    (r : Reservation) (actual : ℕ) (b : Budget) (d : BudgetDimension)
    → IsValid b
    → (settle r actual b).0 ≡ ok tt
    → remaining_of (settle r actual b).1 d
        + reserved_of (settle r actual b).1 d
        + (if same_key r.dimension d then actual else 0)
      ≡ remaining_of b d + reserved_of b d
unfolding settle remaining_of reserved_of
settle-total r actual b d v h = ground (
  arith,
  is_found-eq r (lookup r.id b.reservations),
  lookup-insert d r.dimension
      (saturating_add (or_zero (lookup r.dimension b.remaining)) (r.maximum - actual)) b.remaining,
  sum_values-remove (held_by d) r.id r b.reservations v.distinct,
  v.fits r.dimension,
  dimension_cmp_iff r.dimension d,
  dimension_cmp_iff d r.dimension,
)

module _ (d : BudgetDimension) (maximum : ℕ) (b : Budget) (v : IsValid b) where
  reserve-fresh :
      b.next_id < u64_max
      → (id : ℕ) → (reserve d maximum b).1.next_id ≤ id
      → lookup id (reserve d maximum b).1.reservations ≡ none
  unfolding reserve
  reserve-fresh room id h = ground (
    arith,
    lookup-insert id b.next_id (record { id = b.next_id; dimension = d; maximum = maximum })
        b.reservations,
    v.fresh id,
    nat_cmp_iff id b.next_id,
  )

  reserve-Distinct : Distinct (reserve d maximum b).1.reservations
  unfolding reserve
  reserve-Distinct = ground (
    arith,
    insert-Distinct b.next_id (record { id = b.next_id; dimension = d; maximum = maximum })
        b.reservations,
    v.fresh b.next_id (omega arith),
    v.distinct,
  )

  pub reserve-IsValid : b.next_id < u64_max → IsValid (reserve d maximum b).1
  reserve-IsValid room = record {
    fresh = reserve-fresh room;
    distinct = reserve-Distinct;
    fits = λ d'. omega (arith, reserve-total d maximum b d' v, v.fits d');
  }

abbrev pub held : BudgetDimension → ℕ → Budget → Reservation
held d maximum b = record { id = b.next_id; dimension = d; maximum = maximum }

-- What `reserve` has made of a ledger where it succeeded: the maximum is off its dimension and
-- nothing is off the others, the reservation is filed under the id that was next, and the others
-- stand as they did.
pub record Holds (d : BudgetDimension) (maximum : ℕ) (b b' : Budget) : Type 0 where
  pub taken :
      (d' : BudgetDimension)
      → remaining_of b' d' + (if same_key d d' then maximum else 0) ≡ remaining_of b d'
  pub filed : lookup b.next_id b'.reservations ≡ some (held d maximum b)
  pub others : (id : ℕ) → id ≢ b.next_id → lookup id b'.reservations ≡ lookup id b.reservations
  pub counted : b'.next_id ≡ saturating_add b.next_id 1

reserve-Holds :
    (d : BudgetDimension) (maximum : ℕ) (b : Budget)
    → maximum ≤ remaining_of b d
    → Holds d maximum b (reserve d maximum b).1
unfolding reserve remaining_of
reserve-Holds d maximum b h = record {
  taken = λ d'. ground (
    arith,
    lookup-insert d' d (or_zero (lookup d b.remaining) - maximum) b.remaining,
    dimension_cmp_iff d d',
    dimension_cmp_iff d' d,
  );
  filed = ground (
    arith,
    lookup-insert b.next_id b.next_id (held d maximum b) b.reservations,
    nat_cmp_iff b.next_id b.next_id,
  );
  others = λ id other. ground (
    arith,
    lookup-insert id b.next_id (held d maximum b) b.reservations,
    nat_cmp_iff id b.next_id,
    other,
  );
  counted = ground arith;
}

-- Where the maximum is no more than what remains of the dimension, `reserve` gives a reservation
-- of that maximum and dimension, takes the maximum off that dimension alone and files the
-- reservation beside the others; otherwise the error names the dimension and the ledger is
-- unchanged.
pub reserve_branches :
    (d : BudgetDimension) (maximum : ℕ) (b : Budget)
    → ((maximum ≤ remaining_of b d)
        × ((b' : Budget) × (reserve d maximum b ≡ (ok (held d maximum b), b'))
            × Holds d maximum b b'))
      ⊎ ((remaining_of b d < maximum) × (reserve d maximum b ≡ (err (exhausted d), b)))
unfolding reserve remaining_of
reserve_branches d maximum b = elim (Bool-cases (leb maximum (or_zero (lookup d b.remaining)))) [
  | inl enough ↦ inl (
    ground arith,
    ((reserve d maximum b).1, ground arith, reserve-Holds d maximum b (ground arith)),
  )
  | inr short ↦ inr (ground arith, ground arith)
]

module _ (r : Reservation) (actual : ℕ) (b : Budget) (v : IsValid b) where
  settle-fresh :
      (id : ℕ)
      → (settle r actual b).1.next_id ≤ id
      → lookup id (settle r actual b).1.reservations ≡ none
  unfolding settle
  settle-fresh id h = ground (arith, lookup-remove id r.id b.reservations, v.fresh id)

  settle-Distinct : Distinct (settle r actual b).1.reservations
  unfolding settle
  settle-Distinct = ground (arith, remove-Distinct r.id b.reservations, v.distinct)

  pub settle-IsValid : (settle r actual b).0 ≡ ok tt → IsValid (settle r actual b).1
  settle-IsValid h = record {
    fresh = settle-fresh;
    distinct = settle-Distinct;
    fits = λ d. omega (arith, settle-total r actual b d v h, v.fits d);
  }

-- Reserving and then settling what was reserved leaves exactly the actual use off the dimension,
-- nothing off the others, and every other outstanding reservation as it was.
pub settle-reserve :
    (d : BudgetDimension) (maximum actual : ℕ) (b : Budget)
    → IsValid b
    → maximum ≤ remaining_of b d
    → actual ≤ maximum
    → (r : Reservation) × (b' : Budget) × ((reserve d maximum b).0 ≡ ok r)
      × (settle r actual (reserve d maximum b).1 ≡ (ok tt, b'))
      × ((d' : BudgetDimension)
          → remaining_of b' d' + (if same_key d d' then actual else 0) ≡ remaining_of b d')
      × ((id : ℕ) → lookup id b'.reservations ≡ lookup id b.reservations)
unfolding reserve settle remaining_of
settle-reserve d maximum actual b v h k = (
  held d maximum b,
  (settle (held d maximum b) actual (reserve d maximum b).1).1,
  ground arith,
  ground (arith, lookup-insert b.next_id b.next_id (held d maximum b) b.reservations),
  λ d'.
      let rest = insert d (or_zero (lookup d b.remaining) - maximum) b.remaining in
      ground (
        arith,
        v.fits d,
        dimension_cmp_iff d d',
        dimension_cmp_iff d' d,
        lookup-insert b.next_id b.next_id (held d maximum b) b.reservations,
        lookup-insert d d (or_zero (lookup d b.remaining) - maximum) b.remaining,
        lookup-insert d' d (or_zero (lookup d b.remaining) - maximum) b.remaining,
        lookup-insert d' d (saturating_add (or_zero (lookup d rest)) (maximum - actual)) rest,
      ),
  λ id. ground (
    arith,
    lookup-insert b.next_id b.next_id (held d maximum b) b.reservations,
    lookup-insert id b.next_id (held d maximum b) b.reservations,
    lookup-remove id b.next_id (insert b.next_id (held d maximum b) b.reservations),
    v.fresh b.next_id (omega arith),
    nat_cmp_iff id b.next_id,
  ),
)

-- A reservation settles once: whatever a first successful settlement reported, a second one of
-- the same reservation within its maximum is refused as unknown.
pub settle_twice :
    (r : Reservation) (actual again : ℕ) (b b' : Budget)
    → settle r actual b ≡ (ok tt, b')
    → again ≤ r.maximum
    → settle r again b' ≡ (err unknown_reservation, b')
unfolding settle
settle_twice r actual again b b' h k = ground (
  arith,
  is_found-eq r (lookup r.id b.reservations),
  lookup-remove r.id r.id b.reservations,
  remove_absent r.id (remove r.id b.reservations),
)

-- A settlement of a reservation that shares its id with an outstanding one and differs from it
-- is refused, and takes the outstanding one off the ledger: settling that one fails from then on,
-- and its maximum does not return to what remains.
pub settle_forged :
    (r genuine : Reservation) (actual again : ℕ) (b : Budget)
    → lookup r.id b.reservations ≡ some genuine
    → genuine.id ≡ r.id
    → same_reservation r genuine ≡ false
    → actual ≤ r.maximum
    → again ≤ genuine.maximum
    → ((settle r actual b).0 ≡ err unknown_reservation)
      × ((settle genuine again (settle r actual b).1).0 ≡ err unknown_reservation)
      × ((d : BudgetDimension) → remaining_of (settle r actual b).1 d ≡ remaining_of b d)
unfolding settle remaining_of
settle_forged r genuine actual again b found same differs h k =
    (ground arith, ground (arith, lookup-remove r.id r.id b.reservations), λ d. ground arith)
