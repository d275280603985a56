-- ===== src/Budget/Conserve.antt =====
-- Capacity of the ledger of budget.rs across sequences of its operations.
use aster_lang.Base.{ℕ, ◌+◌, ◌-◌, ◌≤◌, ◌≡◌, refl, ap, arith, saturating_add, if◌then◌else◌}
use aster_lang.Base.Maps.{
  BTreeMap, nat_ord, lookup, same_key, sum_values, lookup-insert, sum_values-insert-le,
  sum_values-remove-some, sum_values-remove-le,
}
use aster_lang.Base.Outcome.{Result, ok, err}
use aster_lang.Budget.{
  BudgetDimension, dimension_ord, Reservation, Budget, BudgetError, or_zero, new, remaining_of,
  reserve, settle, dimension_cmp_iff, is_found-eq,
}

-- What a reservation holds of one dimension.
abbrev pub held_by : BudgetDimension → Reservation → ℕ
held_by d r = if same_key r.dimension d then r.maximum else 0

-- The sum of the outstanding maxima of a dimension.
unfoldable pub reserved_of : Budget → BudgetDimension → ℕ
reserved_of b d = sum_values (held_by d) b.reservations

abbrev pub spend : (BudgetDimension → ℕ) → BudgetDimension → ℕ → BudgetDimension → ℕ
spend spent dimension actual d = spent d + (if same_key dimension d then actual else 0)

-- The budgets that a sequence of calls can lead to from `new limits`, with what successful
-- settlements have spent. Calls that fail are steps too.
pub data History (limits : BTreeMap BudgetDimension ℕ)
    : Budget → (BudgetDimension → ℕ) → Type 0 where
  start : History limits (new limits) (λ _. 0)
  reserves :
      {b b' : Budget} {spent : BudgetDimension → ℕ} {r : Result BudgetError Reservation}
      (d : BudgetDimension) (maximum : ℕ)
      → History limits b spent
      → reserve d maximum b ≡ (r, b')
      → History limits b' spent
  settles :
      {b b' : Budget} {spent : BudgetDimension → ℕ} (r : Reservation) (actual : ℕ)
      → History limits b spent
      → settle r actual b ≡ (ok tt, b')
      → History limits b' (spend spent r.dimension actual)
  rejects :
      {b b' : Budget} {spent : BudgetDimension → ℕ} {e : BudgetError} (r : Reservation) (actual : ℕ)
      → History limits b spent
      → settle r actual b ≡ (err e, b')
      → History limits b' spent

-- What a successful call of `reserve` leaves.
abbrev reservation_at : Budget → BudgetDimension → ℕ → Reservation
reservation_at b d maximum = record { id = b.next_id; dimension = d; maximum = maximum }

reserve-le :
    (d : BudgetDimension) (maximum : ℕ) (b : Budget) (d' : BudgetDimension)
    → remaining_of (reserve d maximum b).1 d' + reserved_of (reserve d maximum b).1 d'
      ≤ remaining_of b d' + reserved_of b d'
unfolding reserve remaining_of reserved_of
reserve-le d maximum b d' = ground (
  arith,
  lookup-insert d' d (or_zero (lookup d b.remaining) - maximum) b.remaining,
  sum_values-insert-le (held_by d') b.next_id (reservation_at b d maximum) b.reservations,
  dimension_cmp_iff d d',
  dimension_cmp_iff d' d,
)

settle-le :
    (r : Reservation) (actual : ℕ) (b : Budget) (d : BudgetDimension)
    → (settle r actual b).0 ≡ ok tt
    → remaining_of (settle r actual b).1 d
        + reserved_of (settle r actual b).1 d
        + (if same_key r.dimension d then actual else 0)
      ≤ remaining_of b d + reserved_of b d
unfolding settle remaining_of reserved_of
settle-le r actual b d h = ground (
  arith,
  is_found-eq r (lookup r.id b.reservations),
  lookup-insert d r.dimension
      (saturating_add (or_zero (lookup r.dimension b.remaining)) (r.maximum - actual)) b.remaining,
  sum_values-remove-some (held_by d) r.id r b.reservations,
  dimension_cmp_iff r.dimension d,
  dimension_cmp_iff d r.dimension,
)

settle-err-le :
    (r : Reservation) (actual : ℕ) (b : Budget) (d : BudgetDimension) (e : BudgetError)
    → (settle r actual b).0 ≡ err e
    → remaining_of (settle r actual b).1 d + reserved_of (settle r actual b).1 d
      ≤ remaining_of b d + reserved_of b d
unfolding settle remaining_of reserved_of
settle-err-le r actual b d e h =
    ground (arith, sum_values-remove-le (held_by d) r.id b.reservations)

reserved_of-new :
    (limits : BTreeMap BudgetDimension ℕ) (d : BudgetDimension) → reserved_of (new limits) d ≡ 0
unfolding reserved_of new sum_values
reserved_of-new limits d = refl

-- What remains of a dimension, what is reserved of it and what successful settlements have spent
-- of it never exceed the limit that the ledger was made with, after any sequence of calls of
-- `reserve` and `settle`, those that fail included.
pub History-le-limit :
    (limits : BTreeMap BudgetDimension ℕ) (b : Budget) (spent : BudgetDimension → ℕ)
    → History limits b spent
    → (d : BudgetDimension)
    → remaining_of b d + reserved_of b d + spent d ≤ or_zero (lookup d limits)
unfolding remaining_of new
History-le-limit limits b spent start d = ground (arith, reserved_of-new limits d)
History-le-limit limits b spent (reserves {b = a} k m h e) d =
    ground (arith, ap (λ p. p.1) e, reserve-le k m a d, History-le-limit limits a spent h d)
History-le-limit limits b spent (settles {b = a} {spent = before} r n h e) d = ground (
  arith,
  ap (λ p. p.1) e,
  ap (λ p. p.0) e,
  settle-le r n a d,
  History-le-limit limits a before h d,
)
History-le-limit limits b spent (rejects {b = a} {e = why} r n h e) d = ground (
  arith,
  ap (λ p. p.1) e,
  ap (λ p. p.0) e,
  settle-err-le r n a d why,
  History-le-limit limits a spent h d,
)
