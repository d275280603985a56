-- ===== src/Json/Same.antt =====
-- The equality of JSON values that `derive(PartialEq)` gives, which canonical.rs and run.rs use.
use aster_lang.Base.{◌≡◌, refl, ap, Bool, true, false, ◌&&◌, arith, eq_iff, str_eq}
use aster_lang.Json.{
  Json, Items, Fields, null, boolean, number, string, array, object, nil, cons, end, field,
  same_json, same_items, same_fields,
}

both : (a b : Bool) → (a && b) ≡ true → (a ≡ true) × (b ≡ true)
both true true h = (refl, refl)
both true false h = cc
both false b h = cc

mutual
  unfolding same_json same_items same_fields

  same_json_eq : (a b : Json) → same_json a b ≡ true → a ≡ b
  same_json_eq null null h = refl
  same_json_eq (boolean true) (boolean true) h = refl
  same_json_eq (boolean false) (boolean false) h = refl
  same_json_eq (number s) (number t) h = ap number ((eq_iff s t).0 h)
  same_json_eq (string s) (string t) h = ap string ((eq_iff s t).0 h)
  same_json_eq (array vs) (array ws) h = ap array (same_items_eq vs ws h)
  same_json_eq (object fs) (object gs) h = ap object (same_fields_eq fs gs h)
  same_json_eq _ _ h = cc

  same_items_eq : (vs ws : Items) → same_items vs ws ≡ true → vs ≡ ws
  same_items_eq nil nil h = refl
  same_items_eq (cons v vs) (cons w ws) h =
      let (first, rest) = both (same_json v w) (same_items vs ws) h in
      λ i. cons (same_json_eq v w first i) (same_items_eq vs ws rest i)
  same_items_eq _ _ h = cc

  same_fields_eq : (fs gs : Fields) → same_fields fs gs ≡ true → fs ≡ gs
  same_fields_eq end end h = refl
  same_fields_eq (field k v fs) (field j w gs) h =
      let (entry, rest) = both (str_eq k j && same_json v w) (same_fields fs gs) h in
      let (key, value) = both (str_eq k j) (same_json v w) entry in
      λ i. field ((eq_iff k j).0 key i) (same_json_eq v w value i) (same_fields_eq fs gs rest i)
  same_fields_eq _ _ h = cc

mutual
  unfolding same_json same_items same_fields

  same_json_refl : (a : Json) → same_json a a ≡ true
  same_json_refl null = refl
  same_json_refl (boolean true) = refl
  same_json_refl (boolean false) = refl
  same_json_refl (number s) = (eq_iff s s).1 refl
  same_json_refl (string s) = (eq_iff s s).1 refl
  same_json_refl (array vs) = same_items_refl vs
  same_json_refl (object fs) = same_fields_refl fs

  same_items_refl : (vs : Items) → same_items vs vs ≡ true
  same_items_refl nil = refl
  same_items_refl (cons v vs) = ground (arith, same_json_refl v, same_items_refl vs)

  same_fields_refl : (fs : Fields) → same_fields fs fs ≡ true
  same_fields_refl end = refl
  same_fields_refl (field k v fs) =
      ground (arith, eq_iff k k, same_json_refl v, same_fields_refl fs)

-- `same_json` decides equality.
pub eq_of_same_json : (a b : Json) → same_json a b ≡ true → a ≡ b
eq_of_same_json a b h = same_json_eq a b h

pub same_json_self : (a : Json) → same_json a a ≡ true
same_json_self a = same_json_refl a
