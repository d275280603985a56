-- ===== src/Json.antt =====
-- JSON values, as `serde_json::Value` has them, and crates/aster-runtime/src/canonical.rs. An
-- object is the list of its fields in the order of iteration. A number is its text: the source
-- only compares numbers and reads them through `as_i64`, which is a parameter where it is used.
-- The proofs are in the module below.
pub mod Same
use aster_lang.Base.{
  ℕ, String, Bool, true, false, ◌&&◌, Option, none, some, List, [], ◌∷◌, str_eq, str_lt,
  if◌then◌else◌,
}
use aster_lang.Base.Maps.{string_ord, same_key}
use aster_lang.Base.Outcome.{Result, ok, and_then, map_err}

mutual
  pub data Json : Type 0 where
    null : Json
    boolean : Bool → Json
    number : String → Json
    string : String → Json
    array : Items → Json
    object : Fields → Json

  pub data Items : Type 0 where
    nil : Items
    cons : Json → Items → Items

  pub data Fields : Type 0 where
    end : Fields
    field : String → Json → Fields → Fields

-- `Map::get`
unfoldable pub get : String → Fields → Option Json
get k end = none
get k (field j v fs) = if same_key k j then some v else get k fs

-- `Map::insert` on a map that keeps its keys in order
unfoldable pub put : String → Json → Fields → Fields
put k v end = field k v end
put k v (field j w fs) =
    let rest = put k v fs in
    elim (Prim.Native.String.compare k j) [
      | Prim.Native.Nat.Ordering.lt ↦ field k v (field j w fs)
      | Prim.Native.Nat.Ordering.eq ↦ field k v fs
      | Prim.Native.Nat.Ordering.gt ↦ field j w rest
    ]

-- `Map::remove`
unfoldable pub take_out : String → Fields → Fields
take_out k end = end
take_out k (field j w fs) =
    let rest = take_out k fs in if same_key k j then rest else field j w rest

unfoldable pub count : Fields → ℕ
count end = 0
count (field j w fs) = ℕ.suc (count fs)

-- `collect` into a map: the entries are put in one after the other, and the last of a key stays.
unfoldable pub collect_onto : Fields → List (String × Json) → Fields
collect_onto fs [] = fs
collect_onto fs ((k, v) ∷ rest) = collect_onto (put k v fs) rest

unfoldable pub collect : List (String × Json) → Fields
unfolding collect_onto
collect = collect_onto end

unfoldable pub from_list : List Json → Items
from_list [] = nil
from_list (v ∷ vs) = cons v (from_list vs)

unfoldable pub to_list : Items → List Json
to_list nil = []
to_list (cons v vs) = v ∷ to_list vs

unfoldable pub entries : Fields → List (String × Json)
entries end = []
entries (field k v fs) = (k, v) ∷ entries fs

-- `derive(PartialEq)` of the values; two maps are equal if they have the same entries in order.
unfoldable mutual
  pub same_json : Json → Json → Bool
  same_json null null = true
  same_json (boolean true) (boolean true) = true
  same_json (boolean false) (boolean false) = true
  same_json (number a) (number b) = str_eq a b
  same_json (string a) (string b) = str_eq a b
  same_json (array a) (array b) = same_items a b
  same_json (object a) (object b) = same_fields a b
  same_json _ _ = false

  pub same_items : Items → Items → Bool
  same_items nil nil = true
  same_items (cons a as') (cons b bs) = same_json a b && same_items as' bs
  same_items _ _ = false

  pub same_fields : Fields → Fields → Bool
  same_fields end end = true
  same_fields (field k a fs) (field l b gs) = str_eq k l && same_json a b && same_fields fs gs
  same_fields _ _ = false

pub data CanonicalError : Type 0 where
  serialization : String → CanonicalError
  digest_mismatch : CanonicalError

-- `sort_by_key`, which is stable
unfoldable pub insert_entry : String × Json → List (String × Json) → List (String × Json)
insert_entry e [] = e ∷ []
insert_entry (k, v) ((j, w) ∷ es) =
    let rest = insert_entry (k, v) es in if str_lt j k then (j, w) ∷ rest else (k, v) ∷ (j, w) ∷ es

unfoldable pub sort_by_key : List (String × Json) → List (String × Json)
unfolding insert_entry
sort_by_key [] = []
sort_by_key (e ∷ es) = insert_entry e (sort_by_key es)

-- The values are canonicalised before the sort, which looks at the keys alone.
unfoldable mutual
  unfolding sort_by_key collect entries put

  pub canonicalize : Json → Json
  canonicalize (array vs) = array (canonicalize_items vs)
  canonicalize (object fs) = object (collect (sort_by_key (entries (canonicalize_fields fs))))
  canonicalize v = v

  pub canonicalize_items : Items → Items
  canonicalize_items nil = nil
  canonicalize_items (cons v vs) = cons (canonicalize v) (canonicalize_items vs)

  pub canonicalize_fields : Fields → Fields
  canonicalize_fields end = end
  canonicalize_fields (field k v fs) = field k (canonicalize v) (canonicalize_fields fs)

-- `serde_json::to_string`, and `hex::encode(Sha256::digest(..))` of a text.
pub record Codec : Type 0 where
  pub to_string : Json → Result String String
  pub sha256_hex : String → String

-- A `T: Serialize` comes in as the outcome of `serde_json::to_value`.
module _ (codec : Codec) where
  unfoldable pub canonical_json : Result String Json → Result CanonicalError String
  canonical_json value =
      and_then (map_err serialization value)
        λ v. map_err serialization (codec.to_string (canonicalize v))

  unfoldable pub canonical_sha256 : Result String Json → Result CanonicalError String
  unfolding canonical_json
  canonical_sha256 value = and_then (canonical_json value) (λ bytes. ok (codec.sha256_hex bytes))
