-- ===== src/Checks/Budgets.antt =====
-- Runs of the ledger of budget.rs.
use aster_lang.Base.{
  ℕ, String, ◌≡◌, ◌≢◌, ◌↔◌, ◌⊎◌, ◌+◌, ◌≤◌, ◌<◌, refl, true, false, none, some, [], ◌∷◌, arith,
  u64_max, if◌then◌else◌, str_lt,
}
use aster_lang.Base.Maps.{BTreeMap, nat_ord, string_ord, lookup, insert, contains}
use aster_lang.Base.Outcome.{ok, err}
use aster_lang.Budget.{
  BudgetDimension, dimension_ord, Reservation, Budget, exhausted, unknown_reservation, new,
  remaining_of, reserve, settle,
}
use aster_lang.Budget.Conserve.{History, reserved_of, History-le-limit}
use aster_lang.Budget.Settle.{
  IsValid, Holds, held, reserve-IsValid, reserve_branches, settle-reserve, settle_twice,
  settle_forged,
}

-- a budget of ten model calls, of which four are reserved
abbrev limits : BTreeMap BudgetDimension ℕ
limits = (BudgetDimension.model_calls, 10) ∷ (BudgetDimension.external_writes, 2) ∷ []

abbrev four : Reservation
four = record { id = 0; dimension = BudgetDimension.model_calls; maximum = 4 }

abbrev held_four : Budget
held_four = record {
  remaining = (BudgetDimension.model_calls, 6) ∷ (BudgetDimension.external_writes, 2) ∷ [];
  reservations = (0, four) ∷ [];
  next_id = 1;
}

abbrev spent_three : Budget
spent_three = record {
  remaining = (BudgetDimension.model_calls, 7) ∷ (BudgetDimension.external_writes, 2) ∷ [];
  reservations = [];
  next_id = 1;
}

holds_four : reserve BudgetDimension.model_calls 4 (new limits) ≡ (ok four, held_four)
unfolding reserve new lookup insert
holds_four = refl

settle_three : settle four 3 held_four ≡ (ok tt, spent_three)
unfolding settle lookup insert aster_lang.Base.Maps.remove
settle_three = refl

History-le-limit_example :
    remaining_of spent_three BudgetDimension.model_calls
      + reserved_of spent_three BudgetDimension.model_calls
      + 3
    ≤ 10
unfolding lookup
History-le-limit_example =
    History-le-limit limits spent_three
      (λ d. 0 + (if aster_lang.Base.Maps.same_key BudgetDimension.model_calls d then 3 else 0))
      (History.settles four 3
        (History.reserves BudgetDimension.model_calls 4 History.start holds_four) settle_three)
      BudgetDimension.model_calls

new-IsValid : IsValid (new limits)
unfolding new lookup remaining_of reserved_of aster_lang.Base.Maps.sum_values
new-IsValid = record { fresh = λ id h. refl; distinct = tt; fits = λ d. ground arith }

held_four-IsValid : IsValid held_four
unfolding reserve new lookup insert
held_four-IsValid =
    reserve-IsValid BudgetDimension.model_calls 4 (new limits) new-IsValid (omega arith)

reserve_branches_example :
    ((5 ≤ remaining_of held_four BudgetDimension.model_calls)
      × ((b' : Budget) × (reserve BudgetDimension.model_calls 5 held_four
            ≡ (ok (held BudgetDimension.model_calls 5 held_four), b'))
          × Holds BudgetDimension.model_calls 5 held_four b'))
    ⊎ ((remaining_of held_four BudgetDimension.model_calls < 5)
        × (reserve BudgetDimension.model_calls 5 held_four
            ≡ (err (exhausted BudgetDimension.model_calls), held_four)))
reserve_branches_example = reserve_branches BudgetDimension.model_calls 5 held_four

settle_twice_example : settle four 4 spent_three ≡ (err unknown_reservation, spent_three)
settle_twice_example = settle_twice four 3 4 held_four spent_three settle_three (omega arith)

-- a reservation that nobody made, under the id of one that is outstanding
abbrev forged : Reservation
forged = record { id = 0; dimension = BudgetDimension.external_writes; maximum = 9 }

filed_zero : lookup forged.id held_four.reservations ≡ some four
unfolding lookup
filed_zero = refl

settle_forged_example :
    ((settle forged 1 held_four).0 ≡ err unknown_reservation)
    × ((settle four 2 (settle forged 1 held_four).1).0 ≡ err unknown_reservation)
    × ((d : BudgetDimension)
        → remaining_of (settle forged 1 held_four).1 d ≡ remaining_of held_four d)
settle_forged_example =
    settle_forged forged four 1 2 held_four filed_zero refl refl (omega arith) (omega arith)

enough : 5 ≤ remaining_of held_four BudgetDimension.model_calls
unfolding remaining_of lookup
enough = omega arith

settle-reserve_example :
    (r : Reservation) × (b' : Budget) × ((reserve BudgetDimension.model_calls 5 held_four).0 ≡ ok r)
    × (settle r 2 (reserve BudgetDimension.model_calls 5 held_four).1 ≡ (ok tt, b'))
    × ((d : BudgetDimension)
        → remaining_of b' d
            + (if aster_lang.Base.Maps.same_key BudgetDimension.model_calls d then 2 else 0)
          ≡ remaining_of held_four d)
    × ((id : ℕ) → lookup id b'.reservations ≡ lookup id held_four.reservations)
settle-reserve_example =
    settle-reserve BudgetDimension.model_calls 5 2 held_four held_four-IsValid enough (omega arith)
