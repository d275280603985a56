-- ===== src/Machine/Decode.antt =====
-- JSON to runtime values and back: `decode_json`, `json_to_runtime`, `runtime_to_json` and their
-- helpers in crates/aster-runtime/src/machine.rs.
pub mod Opaque
use aster_lang.Base.{
  ℕ, zero, suc, String, Bool, true, false, not, ◌&&◌, ◌||◌, Option, none, some, List, [], ◌∷◌, map,
  str_eq, ◌==◌, if◌then◌else◌,
}
use aster_lang.Base.Int.{ℤ}
use aster_lang.Base.Maps.{BTreeMap, string_ord, lookup, insert, contains_key}
use aster_lang.Base.Outcome.{Result, ok, err, ok_or, map_err, map_m, and_then, ◌>>=◌, ◌>>◌, ensure}
use aster_lang.Base.Text.{◌+++◌, last_segment}
use aster_lang.Json
use aster_lang.Json.{
  Json, Items, Fields, null, boolean, number, string, array, object, field, nil, cons, end, get,
  count, collect, to_list, entries, Codec, canonical_sha256,
}
use aster_lang.Authority.{Intent, Proposal}
use aster_lang.Ir.{TypeSpec, TypeSpecs, type_spec, FieldSpec, Catalog, Program}
use aster_lang.Value
use aster_lang.Value.{RuntimeValue, MaybeValue, Values, Members, absent, present}
use aster_lang.Machine.Errors.{
  MachineError, missing_input, type_mismatch, unknown_value, authority_value_opaque,
  secret_persistence_rejected, serialization_failure, canonical_error, stack_overflow,
}
use aster_lang.Instant.{validate_instant}

-- What the machine takes from other crates: the serialisation of its types by `serde`, and the
-- reading and printing of JSON integers.
pub record Externals : Type 0 where
  pub codec : Codec
  pub proposal_value : Proposal → Result String Json
  pub intent_value : Intent → Result String Json
  pub type_value : TypeSpec → Json
  pub values_text : BTreeMap String RuntimeValue → Result String String
  pub as_i64 : String → Option ℤ
  pub from_i64 : ℤ → String

-- `json!` of an object
unfoldable pub json_object : List (String × Json) → Json
json_object fields = object (collect fields)

abbrev pub object_fields : Json → Option Fields
object_fields (object fs) = some fs
object_fields _ = none

abbrev pub array_items : Json → Option Items
array_items (array vs) = some vs
array_items _ = none

abbrev pub as_str : Json → Option String
as_str (string s) = some s
as_str _ = none

abbrev pub as_bool : Json → Option Bool
as_bool (boolean b) = some b
as_bool _ = none

abbrev pub is_null : Json → Bool
is_null null = true
is_null _ = false

-- `as_object().filter(|object| object.len() == 1)`
abbrev pub single_fields : Json → Option Fields
single_fields (object fs) = if count fs == 1 then some fs else none
single_fields _ = none

unfoldable pub has_name : String → List FieldSpec → Bool
has_name k [] = false
has_name k (f ∷ fs) = str_eq f.name k || has_name k fs

-- whether every key of the object satisfies the test
unfoldable pub all_keys : (String → Bool) → Fields → Bool
all_keys test end = true
all_keys test (field k v fs) = test k && all_keys test fs

-- collecting into a `BTreeMap`
unfoldable pub collect_map {ℓ} :
    {V : Type ℓ} → BTreeMap String V → List (String × V) → BTreeMap String V
collect_map m [] = m
collect_map m ((k, v) ∷ rest) = collect_map (insert k v m) rest

-- the payload of an enumeration: a value for a variant that has a type, none otherwise
abbrev pub payload_for :
    (Json → TypeSpec → Result MachineError RuntimeValue)
    → String
    → Option TypeSpec
    → Option Json
    → Result MachineError MaybeValue
payload_for decode name (some ty) (some v) = and_then (decode v ty) (λ d. ok (present d))
payload_for decode name (some ty) none = err (missing_input "value")
payload_for decode name none (some v) = err (type_mismatch name)
payload_for decode name none none = ok absent

module _ (x : Externals) where
  -- `as_i64` of a value
  abbrev pub json_i64 : Json → Option ℤ
  json_i64 (number n) = x.as_i64 n
  json_i64 _ = none

  unfoldable pub boundary_provenance : String → Json → TypeSpec → Result MachineError String
  boundary_provenance boundary value ty = map_err canonical_error (
      canonical_sha256 x.codec (
        ok (
          json_object
            (("boundary", string boundary) ∷ ("type", x.type_value ty) ∷ ("value", value) ∷ []))))

  module _ (program : Program) (decode : Json → TypeSpec → Result MachineError RuntimeValue) where
    unfoldable pub decode_result_json :
        Json → TypeSpec → TypeSpec → Result MachineError RuntimeValue
    decode_result_json value good bad = do
      fields ← ok_or (type_mismatch "Result") (single_fields value)
      elim (get "ok" fields) [
        | some v ↦ (do d ← decode v good; ok (RuntimeValue.result_ok d))
        | none ↦ elim (get "error" fields) [
          | some v ↦ (do d ← decode v bad; ok (RuntimeValue.result_err d))
          | none ↦ err (type_mismatch "Result")
        ]
      ]

    unfoldable pub decode_some_json : Json → TypeSpec → Result MachineError RuntimeValue
    decode_some_json value inner = do
      fields ← ok_or (type_mismatch "Option") (single_fields value)
      v ← ok_or (type_mismatch "Option") (get "some" fields)
      d ← decode v inner
      ok (RuntimeValue.option (present d))

    unfoldable pub decode_enum_json : String → Json → Result MachineError RuntimeValue
    decode_enum_json name value = do
      fields ← ok_or (type_mismatch name) (object_fields value)
      named ← ok_or (type_mismatch name) (get "variant" fields)
      variant ← ok_or (type_mismatch name) (as_str named)
      variants ← ok_or unknown_value (lookup name program.catalog.enums)
      payload_type ← ok_or (type_mismatch name) (lookup variant variants)
      ensure (all_keys (λ k. str_eq k "variant" || str_eq k "value") fields) (type_mismatch name)
      payload ← payload_for decode name payload_type (get "value" fields)
      ok (RuntimeValue.enum_of (name +++ "." +++ variant) payload)

    unfoldable pub decode_member : Fields → FieldSpec → Result MachineError (String × RuntimeValue)
    decode_member fields f = do
      v ← ok_or (missing_input f.name) (get f.name fields)
      d ← decode v f.ty
      ok (f.name, d)

    unfoldable pub decode_record_json :
        String → List FieldSpec → Json → Result MachineError RuntimeValue
    unfolding decode_member
    decode_record_json name specs value = do
      fields ← ok_or (type_mismatch name) (object_fields value)
      ensure (all_keys (λ k. has_name k specs) fields)
          (type_mismatch ("unknown field in " +++ name))
      members ← map_m (decode_member fields) specs
      ok (RuntimeValue.record_of (Value.from_map (collect_map [] members)))

    -- the arms for a type without arguments
    unfoldable pub decode_plain : String → Json → Result MachineError RuntimeValue
    decode_plain name value =
        if str_eq name "Unit" && is_null value
        then ok RuntimeValue.unit
        else if str_eq name "Bool"
        then (do b ← ok_or (type_mismatch "Bool") (as_bool value); ok (RuntimeValue.boolean b))
        else if str_eq name "Int" || str_eq name "Duration"
        then (do z ← ok_or (type_mismatch name) (json_i64 value); ok (RuntimeValue.int z))
        else if str_eq name "Text" || str_eq name "ProvenanceRef" || str_eq name "Error"
        then (do t ← ok_or (type_mismatch name) (as_str value); ok (RuntimeValue.text t))
        else if str_eq name "Instant"
        then (do
          t ← ok_or (type_mismatch "Instant") (as_str value)
          validate_instant t
          ok (RuntimeValue.text t))
        else elim (lookup name program.catalog.records) [
          | some specs ↦ decode_record_json name specs value
          | none ↦
              if contains_key name program.catalog.enums
              then decode_enum_json name value
              else err (type_mismatch name)
        ]

    -- the arms for a type with one argument
    unfoldable pub decode_applied :
        String → TypeSpec → TypeSpec → Json → Result MachineError RuntimeValue
    decode_applied name ty inner value =
        if str_eq name "Incoming"
        then (do
          d ← decode value inner
          p ← boundary_provenance "incoming" value ty
          ok (RuntimeValue.incoming d p))
        else if str_eq name "Untrusted"
        then (do
          d ← decode value inner
          p ← boundary_provenance "untrusted" value ty
          ok (RuntimeValue.untrusted d p))
        else if str_eq name "Option"
        then (if is_null value
            then ok (RuntimeValue.option absent)
            else decode_some_json value inner)
        else if str_eq name "List"
        then (do
          items ← ok_or (type_mismatch "List") (array_items value)
          ds ← map_m (λ v. decode v inner) (to_list items)
          ok (RuntimeValue.list (Value.from_list ds)))
        else err (type_mismatch name)

    abbrev pub by_arguments :
        String → TypeSpec → TypeSpecs → Json → Result MachineError RuntimeValue
    by_arguments name ty TypeSpecs.nil value = decode_plain name value
    by_arguments name ty (TypeSpecs.cons inner TypeSpecs.nil) value =
        decode_applied name ty inner value
    by_arguments name ty (TypeSpecs.cons good (TypeSpecs.cons bad TypeSpecs.nil)) value =
        if str_eq name "Result" then decode_result_json value good bad else err (type_mismatch name)
    by_arguments name ty (TypeSpecs.cons _ (TypeSpecs.cons _ (TypeSpecs.cons _ _))) value =
        err (type_mismatch name)

    unfoldable pub decode_step : Json → TypeSpec → Result MachineError RuntimeValue
    unfolding decode_plain decode_applied decode_result_json
    decode_step value (type_spec name arguments) = elim (lookup name program.catalog.aliases) [
      | some target ↦ decode value target
      | none ↦ by_arguments name (type_spec name arguments) arguments value
    ]

  -- `decode_json`, to a depth of recursion
  unfoldable pub decode_json : Program → ℕ → Json → TypeSpec → Result MachineError RuntimeValue
  unfolding decode_step
  decode_json program zero value ty = err stack_overflow
  decode_json program (suc depth) value ty =
      decode_step program (decode_json program depth) value ty

  unfoldable mutual
    unfolding Value.from_list Value.from_map

    pub json_to_runtime : Json → Result MachineError RuntimeValue
    json_to_runtime null = ok (RuntimeValue.option absent)
    json_to_runtime (boolean b) = ok (RuntimeValue.boolean b)
    json_to_runtime (number n) =
        and_then (ok_or (type_mismatch "integer") (x.as_i64 n)) (λ z. ok (RuntimeValue.int z))
    json_to_runtime (string s) = ok (RuntimeValue.text s)
    json_to_runtime (array vs) = and_then (items_to_runtime vs) (λ ds. ok (RuntimeValue.list ds))
    json_to_runtime (object fs) =
        and_then (fields_to_runtime fs)
          (λ ms. ok (RuntimeValue.record_of (Value.from_map (collect_map [] ms))))

    pub items_to_runtime : Items → Result MachineError Values
    items_to_runtime nil = ok Values.nil
    items_to_runtime (cons v vs) =
        and_then (json_to_runtime v)
          λ d. and_then (items_to_runtime vs) (λ ds. ok (Values.cons d ds))

    pub fields_to_runtime : Fields → Result MachineError (List (String × RuntimeValue))
    fields_to_runtime end = ok []
    fields_to_runtime (field k v fs) =
        and_then (json_to_runtime v) λ d. and_then (fields_to_runtime fs) (λ ds. ok ((k, d) ∷ ds))

  unfoldable mutual
    unfolding json_object last_segment

    pub runtime_to_json : RuntimeValue → Result MachineError Json
    runtime_to_json RuntimeValue.unit = ok null
    runtime_to_json (RuntimeValue.boolean b) = ok (boolean b)
    runtime_to_json (RuntimeValue.int z) = ok (number (x.from_i64 z))
    runtime_to_json (RuntimeValue.text s) = ok (string s)
    runtime_to_json (RuntimeValue.list vs) = and_then (values_to_json vs) (λ js. ok (array js))
    runtime_to_json (RuntimeValue.record_of ms) =
        and_then (members_to_json ms) (λ js. ok (json_object js))
    runtime_to_json (RuntimeValue.enum_of variant payload) =
        and_then (payload_to_json payload)
          λ js. ok (json_object (("variant", string (last_segment variant)) ∷ js))
    runtime_to_json (RuntimeValue.option v) = option_to_json v
    runtime_to_json (RuntimeValue.result_ok v) =
        and_then (runtime_to_json v) (λ j. ok (json_object (("ok", j) ∷ [])))
    runtime_to_json (RuntimeValue.result_err v) =
        and_then (runtime_to_json v) (λ j. ok (json_object (("error", j) ∷ [])))
    runtime_to_json (RuntimeValue.incoming v p) = runtime_to_json v
    runtime_to_json (RuntimeValue.untrusted v p) = runtime_to_json v
    runtime_to_json (RuntimeValue.candidate v p) = runtime_to_json v
    runtime_to_json (RuntimeValue.checked v p) = runtime_to_json v
    runtime_to_json (RuntimeValue.observation v p) = runtime_to_json v
    runtime_to_json (RuntimeValue.intent i) = map_err serialization_failure (x.intent_value i)
    runtime_to_json (RuntimeValue.proposal p) = map_err serialization_failure (x.proposal_value p)
    runtime_to_json (RuntimeValue.permit p) = err authority_value_opaque
    runtime_to_json (RuntimeValue.receipt a h v) = runtime_to_json v
    runtime_to_json (RuntimeValue.reconciled a h v) = runtime_to_json v
    runtime_to_json (RuntimeValue.secret s) = err secret_persistence_rejected

    pub option_to_json : MaybeValue → Result MachineError Json
    option_to_json absent = ok null
    option_to_json (present v) =
        and_then (runtime_to_json v) (λ j. ok (json_object (("some", j) ∷ [])))

    pub payload_to_json : MaybeValue → Result MachineError (List (String × Json))
    payload_to_json absent = ok []
    payload_to_json (present v) = and_then (runtime_to_json v) (λ j. ok (("value", j) ∷ []))

    pub values_to_json : Values → Result MachineError Items
    values_to_json Values.nil = ok nil
    values_to_json (Values.cons v vs) =
        and_then (runtime_to_json v) λ j. and_then (values_to_json vs) (λ js. ok (cons j js))

    pub members_to_json : Members → Result MachineError (List (String × Json))
    members_to_json Members.end = ok []
    members_to_json (Members.member k v ms) =
        and_then (runtime_to_json v) λ j. and_then (members_to_json ms) (λ js. ok ((k, j) ∷ js))
