-- ===== src/Base/Maps.antt =====
-- `BTreeMap` and `BTreeSet`: association lists in the order of their keys.
use Prim.Native.Nat.{ℕ, ◌+◌, ◌≤◌, compare, Ordering}
use Prim.Native.String.{String}
use mathlib.Core.Path.{◌≡◌, refl, subst}
use mathlib.Core.Logic.{◌↔◌}
use mathlib.Core.Bool.{Bool, true, false}
use mathlib.Core.Option.{Option, none, some}
use mathlib.Core.List.{List, [], ◌∷◌}
use native.Mathlib.Omega.{arith}
use text.Mathlib.TextEquality.{path_by_compare}
use text.Mathlib.TextPositions.{compare_refl}
use aster_lang.Base.Tests.{if◌then◌else◌}

-- `Ord`, so far as the maps use it.
pub record Ord {ℓ} (K : Type ℓ) : Type ℓ where
  pub cmp : K → K → Ordering
  pub cmp_iff : (a b : K) → (cmp a b ≡ Ordering.eq) ↔ (a ≡ b)

abbrev pub is_equal : Ordering → Bool
is_equal Ordering.eq = true
is_equal _ = false

abbrev pub same_key {ℓ} : {K : Type ℓ} ⦃o : Ord K⦄ → K → K → Bool
same_key ⦃o⦄ a b = is_equal (o.cmp a b)

pub nat_cmp_iff : (a b : ℕ) → (compare a b ≡ Ordering.eq) ↔ (a ≡ b)
nat_cmp_iff a b = ground arith

instance abbrev pub nat_ord : Ord ℕ
nat_ord = record { cmp = compare; cmp_iff = nat_cmp_iff }

pub string_cmp_iff : (a b : String) → (Prim.Native.String.compare a b ≡ Ordering.eq) ↔ (a ≡ b)
string_cmp_iff a b = (
  path_by_compare a b,
  λ p. subst (λ t. Prim.Native.String.compare a t ≡ Ordering.eq) p (compare_refl a),
)

instance abbrev pub string_ord : Ord String
string_ord = record { cmp = Prim.Native.String.compare; cmp_iff = string_cmp_iff }

module _ {ℓ} {K : Type ℓ} ⦃o : Ord K⦄ where
  pub same_key_iff : (a b : K) → (same_key a b ≡ true) ↔ (a ≡ b)
  same_key_iff a b = ground (arith, o.cmp_iff a b)

abbrev pub BTreeMap {ℓ κ} : Type ℓ → Type κ → Type (ℓ ⊔ κ)
BTreeMap K V = List (K × V)

module _ {ℓ κ} {K : Type ℓ} {V : Type κ} ⦃o : Ord K⦄ where
  unfoldable pub lookup : K → BTreeMap K V → Option V
  lookup k [] = none
  lookup k ((j, v) ∷ m) = if same_key k j then some v else lookup k m

  unfoldable pub insert : K → V → BTreeMap K V → BTreeMap K V
  insert k v [] = (k, v) ∷ []
  insert k v ((j, w) ∷ m) =
      let rest = insert k v m in
      elim (o.cmp k j) [
        | Ordering.lt ↦ (k, v) ∷ (j, w) ∷ m
        | Ordering.eq ↦ (k, v) ∷ m
        | Ordering.gt ↦ (j, w) ∷ rest
      ]

  unfoldable pub remove : K → BTreeMap K V → BTreeMap K V
  remove k [] = []
  remove k ((j, w) ∷ m) = let rest = remove k m in if same_key k j then rest else (j, w) ∷ rest

  pub lookup-insert :
      (j k : K) (v : V) (m : BTreeMap K V)
      → lookup j (insert k v m) ≡ (if same_key j k then some v else lookup j m)
  unfolding lookup insert
  lookup-insert j k v [] = refl
  lookup-insert j k v ((i, w) ∷ m) =
      ground (arith, lookup-insert j k v m, o.cmp_iff j k, o.cmp_iff k i, o.cmp_iff j i)

  pub lookup-remove :
      (j k : K) (m : BTreeMap K V)
      → lookup j (remove k m) ≡ (if same_key j k then none else lookup j m)
  unfolding lookup remove
  lookup-remove j k [] = ground arith
  lookup-remove j k ((i, w) ∷ m) =
      ground (arith, lookup-remove j k m, o.cmp_iff j k, o.cmp_iff k i, o.cmp_iff j i)

  -- `contains_key`
  abbrev pub contains_key : K → BTreeMap K V → Bool
  contains_key k m = elim (lookup k m) [ none ↦ false | some v ↦ true ]

  -- `extend`: the entries of the first map, written over the second's.
  unfoldable pub extend : BTreeMap K V → BTreeMap K V → BTreeMap K V
  extend [] m = m
  extend ((k, v) ∷ new) m = extend new (insert k v m)

  -- No key stands twice.
  abbrev pub Distinct : BTreeMap K V → Type κ
  Distinct [] = Unit
  Distinct ((k, v) ∷ m) = (lookup k m ≡ none) × Distinct m

  pub insert-Distinct :
      (k : K) (v : V) (m : BTreeMap K V) → lookup k m ≡ none → Distinct m → Distinct (insert k v m)
  unfolding insert lookup
  insert-Distinct k v [] h d = (refl, tt)
  insert-Distinct k v ((j, w) ∷ m) h d =
      ground (arith, insert-Distinct k v m, lookup-insert j k v m, o.cmp_iff k j, o.cmp_iff j k)

  pub remove-Distinct : (k : K) (m : BTreeMap K V) → Distinct m → Distinct (remove k m)
  unfolding remove
  remove-Distinct k [] d = tt
  remove-Distinct k ((j, w) ∷ m) d =
      ground (arith, remove-Distinct k m d.1, lookup-remove j k m, o.cmp_iff k j, o.cmp_iff j k)

  pub remove_absent : (k : K) (m : BTreeMap K V) → lookup k m ≡ none → remove k m ≡ m
  unfolding remove lookup
  remove_absent k [] h = refl
  remove_absent k ((j, w) ∷ m) h = ground (arith, remove_absent k m)

  -- The sum of a measure over the values.
  unfoldable pub sum_values : (V → ℕ) → BTreeMap K V → ℕ
  sum_values f [] = 0
  sum_values f ((k, v) ∷ m) = f v + sum_values f m

  pub sum_values-insert :
      (f : V → ℕ) (k : K) (v : V) (m : BTreeMap K V)
      → lookup k m ≡ none
      → sum_values f (insert k v m) ≡ f v + sum_values f m
  unfolding sum_values insert lookup
  sum_values-insert f k v [] h = refl
  sum_values-insert f k v ((j, w) ∷ m) h = ground (arith, sum_values-insert f k v m)

  pub sum_values-remove :
      (f : V → ℕ) (k : K) (v : V) (m : BTreeMap K V)
      → Distinct m
      → lookup k m ≡ some v
      → f v + sum_values f (remove k m) ≡ sum_values f m
  unfolding sum_values remove lookup
  sum_values-remove f k v [] d h = cc
  sum_values-remove f k v ((j, w) ∷ m) d h =
      ground (arith, sum_values-remove f k v m d.1, remove_absent k m, o.cmp_iff k j)

  pub sum_values-insert-le :
      (f : V → ℕ) (k : K) (v : V) (m : BTreeMap K V)
      → sum_values f (insert k v m) ≤ f v + sum_values f m
  unfolding sum_values insert
  sum_values-insert-le f k v [] = omega arith
  sum_values-insert-le f k v ((j, w) ∷ m) = ground (arith, sum_values-insert-le f k v m)

  pub sum_values-remove-le :
      (f : V → ℕ) (k : K) (m : BTreeMap K V) → sum_values f (remove k m) ≤ sum_values f m
  unfolding sum_values remove
  sum_values-remove-le f k [] = omega arith
  sum_values-remove-le f k ((j, w) ∷ m) = ground (arith, sum_values-remove-le f k m)

  -- Removing a key takes its value out of the sum, also where the key stands twice.
  pub sum_values-remove-some :
      (f : V → ℕ) (k : K) (v : V) (m : BTreeMap K V)
      → lookup k m ≡ some v
      → f v + sum_values f (remove k m) ≤ sum_values f m
  unfolding sum_values remove lookup
  sum_values-remove-some f k v [] h = cc
  sum_values-remove-some f k v ((j, w) ∷ m) h =
      ground (arith, sum_values-remove-some f k v m, sum_values-remove-le f k m)

abbrev pub BTreeSet {ℓ} : Type ℓ → Type ℓ
BTreeSet K = BTreeMap K (Unit {0})

module _ {ℓ} {K : Type ℓ} ⦃o : Ord K⦄ where
  abbrev pub contains : K → BTreeSet K → Bool
  contains k s = contains_key k s
