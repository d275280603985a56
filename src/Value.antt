-- ===== src/Value.antt =====
-- crates/aster-runtime/src/value.rs: the values of the runtime, the search for secrets in them and
-- the check of the proposals they hold. A `Box` is the value in it, and an optional or listed
-- value inside a value is a type of its own.
use aster_lang.Base.{
  String, Bool, true, false, ◌&&◌, ◌||◌, List, [], ◌∷◌, str_eq, ◌==◌, if◌then◌else◌,
}
use aster_lang.Base.Int.{ℤ, same_int}
use aster_lang.Base.Maps.{BTreeMap, string_ord}
use aster_lang.Base.Outcome.{Result, ok, err, and_then}
use aster_lang.Json.{Json, Codec, CanonicalError, same_json}
use aster_lang.Authority.{Intent, Proposal, Permit, validate_proposal, same_permit}

mutual
  pub data RuntimeValue : Type 0 where
    unit : RuntimeValue
    boolean : Bool → RuntimeValue
    int : ℤ → RuntimeValue
    text : String → RuntimeValue
    list : Values → RuntimeValue
    record_of : Members → RuntimeValue
    enum_of : (variant : String) → MaybeValue → RuntimeValue
    option : MaybeValue → RuntimeValue
    result_ok result_err : RuntimeValue → RuntimeValue
    incoming untrusted candidate checked observation :
        RuntimeValue → (provenance : String) → RuntimeValue
    intent : Intent → RuntimeValue
    proposal : Proposal → RuntimeValue
    permit : Permit → RuntimeValue
    receipt reconciled : (action proposal_hash : String) → RuntimeValue → RuntimeValue
    secret : String → RuntimeValue

  pub data MaybeValue : Type 0 where
    absent : MaybeValue
    present : RuntimeValue → MaybeValue

  pub data Values : Type 0 where
    nil : Values
    cons : RuntimeValue → Values → Values

  pub data Members : Type 0 where
    end : Members
    member : String → RuntimeValue → Members → Members

unfoldable pub to_list : Values → List RuntimeValue
to_list nil = []
to_list (cons v vs) = v ∷ to_list vs

unfoldable pub from_list : List RuntimeValue → Values
from_list [] = nil
from_list (v ∷ vs) = cons v (from_list vs)

unfoldable pub to_map : Members → BTreeMap String RuntimeValue
to_map end = []
to_map (member k v ms) = (k, v) ∷ to_map ms

unfoldable pub from_map : BTreeMap String RuntimeValue → Members
from_map [] = end
from_map ((k, v) ∷ ms) = member k v (from_map ms)

-- `RuntimeValue::contains_secret`
unfoldable mutual
  pub contains_secret : RuntimeValue → Bool
  contains_secret (secret s) = true
  contains_secret (list vs) = any_secret vs
  contains_secret (record_of ms) = member_secret ms
  contains_secret (enum_of variant v) = maybe_secret v
  contains_secret (option v) = maybe_secret v
  contains_secret (result_ok v) = contains_secret v
  contains_secret (result_err v) = contains_secret v
  contains_secret (incoming v p) = contains_secret v
  contains_secret (untrusted v p) = contains_secret v
  contains_secret (candidate v p) = contains_secret v
  contains_secret (checked v p) = contains_secret v
  contains_secret (observation v p) = contains_secret v
  contains_secret (receipt a h v) = contains_secret v
  contains_secret (reconciled a h v) = contains_secret v
  contains_secret unit = false
  contains_secret (boolean b) = false
  contains_secret (int z) = false
  contains_secret (text s) = false
  contains_secret (intent i) = false
  contains_secret (proposal p) = false
  contains_secret (permit p) = false

  pub maybe_secret : MaybeValue → Bool
  maybe_secret absent = false
  maybe_secret (present v) = contains_secret v

  pub any_secret : Values → Bool
  any_secret nil = false
  any_secret (cons v vs) = contains_secret v || any_secret vs

  pub member_secret : Members → Bool
  member_secret end = false
  member_secret (member k v ms) = contains_secret v || member_secret ms

module _ (codec : Codec) (proposal_value : Proposal → Result String Json) where
  -- `RuntimeValue::validate_governance`
  unfoldable mutual
    pub validate_governance : RuntimeValue → Result CanonicalError (Unit {0})
    validate_governance (proposal p) = validate_proposal codec proposal_value p
    validate_governance (list vs) = validate_values vs
    validate_governance (record_of ms) = validate_members ms
    validate_governance (enum_of variant v) = validate_maybe v
    validate_governance (option v) = validate_maybe v
    validate_governance (result_ok v) = validate_governance v
    validate_governance (result_err v) = validate_governance v
    validate_governance (incoming v p) = validate_governance v
    validate_governance (untrusted v p) = validate_governance v
    validate_governance (candidate v p) = validate_governance v
    validate_governance (checked v p) = validate_governance v
    validate_governance (observation v p) = validate_governance v
    validate_governance (receipt a h v) = validate_governance v
    validate_governance (reconciled a h v) = validate_governance v
    validate_governance unit = ok tt
    validate_governance (boolean b) = ok tt
    validate_governance (int z) = ok tt
    validate_governance (text s) = ok tt
    validate_governance (intent i) = ok tt
    validate_governance (permit p) = ok tt
    validate_governance (secret s) = ok tt

    pub validate_maybe : MaybeValue → Result CanonicalError (Unit {0})
    validate_maybe absent = ok tt
    validate_maybe (present v) = validate_governance v

    pub validate_values : Values → Result CanonicalError (Unit {0})
    validate_values nil = ok tt
    validate_values (cons v vs) = and_then (validate_governance v) (λ _. validate_values vs)

    pub validate_members : Members → Result CanonicalError (Unit {0})
    validate_members end = ok tt
    validate_members (member k v ms) = and_then (validate_governance v) (λ _. validate_members ms)

-- `derive(PartialEq)` of the types that values are built from
abbrev pub same_json_map : BTreeMap String Json → BTreeMap String Json → Bool
same_json_map [] [] = true
same_json_map ((k, v) ∷ m) ((l, w) ∷ n) = str_eq k l && same_json v w && same_json_map m n
same_json_map _ _ = false

abbrev pub same_intent : Intent → Intent → Bool
same_intent a b =
    str_eq a.purpose b.purpose
    && same_json_map a.fields b.fields
    && str_eq a.expires_at b.expires_at

abbrev pub same_proposal : Proposal → Proposal → Bool
same_proposal a b =
    a.schema_version == b.schema_version
    && str_eq a.action b.action
    && same_json_map a.arguments b.arguments
    && same_intent a.intent b.intent
    && str_eq a.risk b.risk
    && str_eq a.sensitivity b.sensitivity
    && same_json a.capability_request b.capability_request
    && str_eq a.idempotency_key b.idempotency_key
    && str_eq a.program_hash b.program_hash
    && str_eq a.digest b.digest

abbrev pub same_bool : Bool → Bool → Bool
same_bool true b = b
same_bool false true = false
same_bool false false = true

unfoldable mutual
  pub same_value : RuntimeValue → RuntimeValue → Bool
  same_value unit unit = true
  same_value (boolean a) (boolean b) = same_bool a b
  same_value (int a) (int b) = same_int a b
  same_value (text a) (text b) = str_eq a b
  same_value (list a) (list b) = same_values a b
  same_value (record_of a) (record_of b) = same_members a b
  same_value (enum_of n a) (enum_of m b) = str_eq n m && same_maybe a b
  same_value (option a) (option b) = same_maybe a b
  same_value (result_ok a) (result_ok b) = same_value a b
  same_value (result_err a) (result_err b) = same_value a b
  same_value (incoming a p) (incoming b q) = same_value a b && str_eq p q
  same_value (untrusted a p) (untrusted b q) = same_value a b && str_eq p q
  same_value (candidate a p) (candidate b q) = same_value a b && str_eq p q
  same_value (checked a p) (checked b q) = same_value a b && str_eq p q
  same_value (observation a p) (observation b q) = same_value a b && str_eq p q
  same_value (intent a) (intent b) = same_intent a b
  same_value (proposal a) (proposal b) = same_proposal a b
  same_value (permit a) (permit b) = same_permit a b
  same_value (receipt a h v) (receipt b i w) = str_eq a b && str_eq h i && same_value v w
  same_value (reconciled a h v) (reconciled b i w) = str_eq a b && str_eq h i && same_value v w
  same_value (secret a) (secret b) = str_eq a b
  same_value _ _ = false

  pub same_maybe : MaybeValue → MaybeValue → Bool
  same_maybe absent absent = true
  same_maybe (present a) (present b) = same_value a b
  same_maybe _ _ = false

  pub same_values : Values → Values → Bool
  same_values nil nil = true
  same_values (cons a as') (cons b bs) = same_value a b && same_values as' bs
  same_values _ _ = false

  pub same_members : Members → Members → Bool
  same_members end end = true
  same_members (member k a ms) (member l b ns) = str_eq k l && same_value a b && same_members ms ns
  same_members _ _ = false

pub data SnapshotError : Type 0 where
  secret_present : SnapshotError
  snapshot_serialization : String → SnapshotError

-- `any` over the values of a map
unfoldable pub any_value {ℓ κ} : {K : Type ℓ} {V : Type κ} → (V → Bool) → BTreeMap K V → Bool
any_value test [] = false
any_value test ((k, v) ∷ m) = test v || any_value test m

-- `serde_json::to_string` of a map of values comes in as `values_text`.
unfoldable pub snapshot_values :
    (BTreeMap String RuntimeValue → Result String String)
    → BTreeMap String RuntimeValue
    → Result SnapshotError String
snapshot_values values_text values =
    if any_value contains_secret values
    then err secret_present
    else elim (values_text values) [ ok t ↦ ok t | err e ↦ err (snapshot_serialization e) ]
