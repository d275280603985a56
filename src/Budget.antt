-- ===== src/Budget.antt =====
-- crates/aster-runtime/src/budget.rs: the ledger of remaining and reserved resources. A `u64` is
-- a number at most `u64_max`. The proofs are in the modules below.
pub mod Conserve
pub mod Settle
use Prim.Native.Nat.{compare}
use aster_lang.Base.{
  ℕ, ◌+◌, ◌-◌, ◌≡◌, ◌↔◌, Bool, true, false, Option, none, some, ◌&&◌, [], arith, ltb, ◌==◌,
  if◌then◌else◌, saturating_add, checked_sub,
}
use aster_lang.Base.Maps.{Ord, BTreeMap, nat_ord, lookup, insert, remove, same_key}
use aster_lang.Base.Outcome.{Result, ok, err, Exec}

pub data BudgetDimension : Type 0 where
  model_calls model_tokens external_reads external_writes approvals money_microunits :
      BudgetDimension

-- the order of the variants, which `derive(Ord)` uses
abbrev pub index : BudgetDimension → ℕ
index model_calls = 0
index model_tokens = 1
index external_reads = 2
index external_writes = 3
index approvals = 4
index money_microunits = 5

pub dimension_cmp_iff :
    (a b : BudgetDimension) → (compare (index a) (index b) ≡ Prim.Native.Nat.Ordering.eq) ↔ (a ≡ b)
dimension_cmp_iff a b = ground arith

instance abbrev pub dimension_ord : Ord BudgetDimension
dimension_ord = record { cmp = λ a b. compare (index a) (index b); cmp_iff = dimension_cmp_iff }

pub record Reservation : Type 0 where
  pub id : ℕ
  pub dimension : BudgetDimension
  pub maximum : ℕ

-- `derive(PartialEq)`
abbrev pub same_reservation : Reservation → Reservation → Bool
same_reservation a b = a.id == b.id && same_key a.dimension b.dimension && a.maximum == b.maximum

pub record Budget : Type 0 where
  pub remaining : BTreeMap BudgetDimension ℕ
  pub reservations : BTreeMap ℕ Reservation
  pub next_id : ℕ

pub data BudgetError : Type 0 where
  exhausted : BudgetDimension → BudgetError
  actual_exceeds_reservation unknown_reservation : BudgetError

abbrev pub or_zero : Option ℕ → ℕ
or_zero none = 0
or_zero (some n) = n

unfoldable pub new : BTreeMap BudgetDimension ℕ → Budget
new limits = record { remaining = limits; reservations = []; next_id = 0 }

-- `Budget::remaining`
unfoldable pub remaining_of : Budget → BudgetDimension → ℕ
remaining_of b d = or_zero (lookup d b.remaining)

abbrev reserve_after :
    BudgetDimension → ℕ → Budget → Option ℕ → Result BudgetError Reservation × Budget
reserve_after dimension maximum b none = (err (exhausted dimension), b)
reserve_after dimension maximum b (some after) =
    let reservation : Reservation = record {
      id = b.next_id;
      dimension = dimension;
      maximum = maximum;
    } in
    (
      ok reservation,
      record {
        next_id = saturating_add b.next_id 1;
        remaining = insert dimension after b.remaining;
        reservations = insert b.next_id reservation b.reservations;
      },
    )

unfoldable pub reserve : BudgetDimension → ℕ → Exec Budget BudgetError Reservation
reserve dimension maximum b =
    reserve_after dimension maximum b (checked_sub (or_zero (lookup dimension b.remaining)) maximum)

abbrev pub is_found : Reservation → Option Reservation → Bool
is_found r none = false
is_found r (some found) = same_reservation r found

-- The entry under the reservation's id goes before it is compared with the reservation.
unfoldable pub settle : Reservation → ℕ → Exec Budget BudgetError (Unit {0})
settle r actual b =
    if ltb r.maximum actual
    then (err actual_exceeds_reservation, b)
    else (let found = lookup r.id b.reservations in
        let taken : Budget = record b { reservations = remove r.id b.reservations } in
        if is_found r found
        then (
          ok tt,
          record taken {
            remaining =
                insert r.dimension
                  (saturating_add (or_zero (lookup r.dimension b.remaining)) (r.maximum - actual))
                  b.remaining;
          },
        )
        else (err unknown_reservation, taken))

pub is_found-eq : (r : Reservation) (o : Option Reservation) → is_found r o ≡ true → o ≡ some r
is_found-eq r o h = ground (arith, dimension_cmp_iff r.dimension)
