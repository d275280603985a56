-- ===== src/Fixture/Within.antt =====
-- What it is for a JSON value to hold another, which `is_json_subset` of fixture.rs tests.
use aster_lang.Base.{String, ◌≡◌, true, some, arith, Option-cases, inl, inr}
use aster_lang.Json.{Json, Items, Fields, array, object, nil, cons, end, field, get}
use aster_lang.Json.Same.{eq_of_same_json}
use aster_lang.Fixture.{is_json_subset, fields_subset, items_subset}

mutual
  -- A value is within an equal one; an object is within one that has each of its fields, the value
  -- within the other's; a list is within one of its length, each value within its counterpart.
  pub data IsWithin : Json → Json → Type 0 where
    equal : {v w : Json} → v ≡ w → IsWithin v w
    objects : {fs gs : Fields} → FieldsWithin fs gs → IsWithin (object fs) (object gs)
    arrays : {vs ws : Items} → ItemsWithin vs ws → IsWithin (array vs) (array ws)

  pub data FieldsWithin : Fields → Fields → Type 0 where
    no_field : {gs : Fields} → FieldsWithin end gs
    one_field :
        {k : String} {v w : Json} {fs gs : Fields}
        → get k gs ≡ some w
        → IsWithin v w
        → FieldsWithin fs gs
        → FieldsWithin (field k v fs) gs

  pub data ItemsWithin : Items → Items → Type 0 where
    no_item : ItemsWithin nil nil
    one_item :
        {v w : Json} {vs ws : Items}
        → IsWithin v w
        → ItemsWithin vs ws
        → ItemsWithin (cons v vs) (cons w ws)

mutual
  unfolding is_json_subset fields_subset items_subset

  subset_within : (v w : Json) → is_json_subset v w ≡ true → IsWithin v w
  subset_within (object fs) (object gs) h = objects (fields_within fs gs h)
  subset_within (array vs) (array ws) h = arrays (items_within vs ws h)
  subset_within v w h = equal (eq_of_same_json v w h)

  fields_within : (fs gs : Fields) → fields_subset fs gs ≡ true → FieldsWithin fs gs
  fields_within end gs h = no_field
  fields_within (field k v fs) gs h = elim (Option-cases (get k gs)) [
    | inl absent ↦ absurd (ground arith)
    | inr (w, found) ↦
        one_field found (subset_within v w (ground arith)) (fields_within fs gs (ground arith))
  ]

  items_within : (vs ws : Items) → items_subset vs ws ≡ true → ItemsWithin vs ws
  items_within nil nil h = no_item
  items_within (cons v vs) (cons w ws) h =
      one_item (subset_within v w (ground arith)) (items_within vs ws (ground arith))
  items_within _ _ h = cc

pub is_json_subset-IsWithin : (v w : Json) → is_json_subset v w ≡ true → IsWithin v w
is_json_subset-IsWithin v w h = subset_within v w h
