-- ===== src/Machine/Decode/Opaque.antt =====
-- Authority and secrets do not leave the runtime as JSON: `runtime_to_json` of
-- crates/aster-runtime/src/machine.rs fails on any value that holds a permit or a secret.
use aster_lang.Base.{String, List, ◌≡◌, refl, Bool, true, false, ◌||◌, arith}
use aster_lang.Base.Outcome.{Result, ok, err, and_then}
use aster_lang.Json.{Json, Items}
use aster_lang.Value.{
  RuntimeValue, MaybeValue, Values, Members, absent, present, unit, boolean, int, text, list,
  record_of, enum_of, option, result_ok, result_err, incoming, untrusted, candidate, checked,
  observation, intent, proposal, permit, receipt, reconciled, secret, nil, cons, end, member,
  contains_secret,
}
use aster_lang.Machine.Errors.{MachineError}
use aster_lang.Machine.Decode.{
  Externals, runtime_to_json, option_to_json, payload_to_json, values_to_json, members_to_json,
}

-- Whether a permit stands anywhere in the value.
mutual
  pub contains_permit : RuntimeValue → Bool
  contains_permit (permit p) = true
  contains_permit (list vs) = values_permit vs
  contains_permit (record_of ms) = members_permit ms
  contains_permit (enum_of variant v) = maybe_permit v
  contains_permit (option v) = maybe_permit v
  contains_permit (result_ok v) = contains_permit v
  contains_permit (result_err v) = contains_permit v
  contains_permit (incoming v p) = contains_permit v
  contains_permit (untrusted v p) = contains_permit v
  contains_permit (candidate v p) = contains_permit v
  contains_permit (checked v p) = contains_permit v
  contains_permit (observation v p) = contains_permit v
  contains_permit (receipt a h v) = contains_permit v
  contains_permit (reconciled a h v) = contains_permit v
  contains_permit _ = false

  pub maybe_permit : MaybeValue → Bool
  maybe_permit absent = false
  maybe_permit (present v) = contains_permit v

  pub values_permit : Values → Bool
  values_permit nil = false
  values_permit (cons v vs) = contains_permit v || values_permit vs

  pub members_permit : Members → Bool
  members_permit end = false
  members_permit (member k v ms) = contains_permit v || members_permit ms

abbrev IsPublic : Bool → Bool → Type 0
IsPublic hidden authority = (hidden ≡ false) × (authority ≡ false)

both_hidden : {a b c d : Bool} → IsPublic a b → IsPublic c d → IsPublic (a || c) (b || d)
both_hidden h k = ground arith

-- a chain that succeeds, by its first step
through :
    {A B P : Type 0} (m : Result MachineError A) (f : A → Result MachineError B) {b : B}
    → and_then m f ≡ ok b
    → ((a : A) → m ≡ ok a → f a ≡ ok b → P)
    → P
through (ok a) f h k = k a refl h
through (err e) f h k = cc

module _ (x : Externals) where
  mutual
    unfolding runtime_to_json contains_secret contains_permit

    value_hides :
        (v : RuntimeValue) (j : Json)
        → runtime_to_json x v ≡ ok j
        → IsPublic (contains_secret v) (contains_permit v)
    value_hides unit j h = (refl, refl)
    value_hides (boolean b) j h = (refl, refl)
    value_hides (int z) j h = (refl, refl)
    value_hides (text s) j h = (refl, refl)
    value_hides (list vs) j h = through (values_to_json x vs) _ h (λ a e _. values_hide vs a e)
    value_hides (record_of ms) j h =
        through (members_to_json x ms) _ h (λ a e _. members_hide ms a e)
    value_hides (enum_of variant v) j h =
        through (payload_to_json x v) _ h (λ a e _. payload_hides v a e)
    value_hides (option v) j h = option_hides v j h
    value_hides (result_ok v) j h = through (runtime_to_json x v) _ h (λ a e _. value_hides v a e)
    value_hides (result_err v) j h = through (runtime_to_json x v) _ h (λ a e _. value_hides v a e)
    value_hides (incoming v p) j h = value_hides v j h
    value_hides (untrusted v p) j h = value_hides v j h
    value_hides (candidate v p) j h = value_hides v j h
    value_hides (checked v p) j h = value_hides v j h
    value_hides (observation v p) j h = value_hides v j h
    value_hides (intent i) j h = (refl, refl)
    value_hides (proposal p) j h = (refl, refl)
    value_hides (permit p) j h = cc
    value_hides (receipt a t v) j h = value_hides v j h
    value_hides (reconciled a t v) j h = value_hides v j h
    value_hides (secret s) j h = cc

    option_hides :
        (v : MaybeValue) (j : Json)
        → option_to_json x v ≡ ok j
        → IsPublic (contains_secret (option v)) (contains_permit (option v))
    option_hides absent j h = (refl, refl)
    option_hides (present v) j h = through (runtime_to_json x v) _ h (λ a e _. value_hides v a e)

    payload_hides :
        (v : MaybeValue) (js : List (String × Json))
        → payload_to_json x v ≡ ok js
        → IsPublic (contains_secret (option v)) (contains_permit (option v))
    payload_hides absent js h = (refl, refl)
    payload_hides (present v) js h = through (runtime_to_json x v) _ h (λ a e _. value_hides v a e)

    values_hide :
        (vs : Values) (js : Items)
        → values_to_json x vs ≡ ok js
        → IsPublic (contains_secret (list vs)) (contains_permit (list vs))
    values_hide nil js h = (refl, refl)
    values_hide (cons v vs) js h = through (runtime_to_json x v) _ h λ a e r.
        both_hidden (value_hides v a e)
          (through (values_to_json x vs) _ r (λ b d _. values_hide vs b d))

    members_hide :
        (ms : Members) (js : List (String × Json))
        → members_to_json x ms ≡ ok js
        → IsPublic (contains_secret (record_of ms)) (contains_permit (record_of ms))
    members_hide end js h = (refl, refl)
    members_hide (member k v ms) js h = through (runtime_to_json x v) _ h λ a e r.
        both_hidden (value_hides v a e)
          (through (members_to_json x ms) _ r (λ b d _. members_hide ms b d))

  -- A value that becomes JSON holds no secret and no permit, at any depth.
  pub runtime_to_json-public :
      (v : RuntimeValue) (j : Json)
      → runtime_to_json x v ≡ ok j
      → (contains_secret v ≡ false) × (contains_permit v ≡ false)
  runtime_to_json-public v j h = value_hides v j h
