-- ===== src/Fixture.antt =====
-- crates/aster-runtime/src/fixture.rs: the driver that answers requests from fixtures. An index
-- into the fixtures is always in range there, so it stands with its fixture here. The proofs are
-- in the module below.
pub mod Within
pub mod Matching
use Prim.Native.Nat.{compare}
use aster_lang.Base.{
  ℕ, suc, ◌+◌, ◌%◌, ◌^◌, String, ◌≡◌, ◌↔◌, Bool, true, false, not, ◌&&◌, ◌||◌, Option, none, some,
  List, [], ◌∷◌, arith, str_eq, ◌==◌, ltb, if◌then◌else◌,
}
use aster_lang.Base.Maps.{
  Ord, BTreeMap, BTreeSet, nat_ord, string_ord, same_key, lookup, insert, contains,
}
use aster_lang.Base.Outcome.{Result, ok, err, Exec}
use aster_lang.Budget.{or_zero}
use aster_lang.Json.{Json, Items, Fields, array, object, nil, cons, end, field, get, same_json}
use aster_lang.Machine.State.{EffectKind, EffectRequest, EffectResolution}

pub record FixtureEntry : Type 0 where
  pub kind : EffectKind
  pub identity : String
  pub match_request : Json
  pub response : Json
  pub max_usage : BTreeMap String ℕ
  pub actual_usage : BTreeMap String ℕ

pub record FixtureSet : Type 0 where
  pub schema_version : ℕ
  pub entries : List FixtureEntry

pub record FixturePreview : Type 0 where
  pub index : ℕ
  pub max_usage : BTreeMap String ℕ

pub data DriverError : Type 0 where
  schema_mismatch loose_fixture no_matching_fixture ambiguous_fixture preview_mismatch
        actual_exceeds_maximum :
      DriverError

-- the order of the variants, which `derive(Ord)` uses
abbrev pub kind_index : EffectKind → ℕ
kind_index EffectKind.model = 0
kind_index EffectKind.read = 1
kind_index EffectKind.approval = 2
kind_index EffectKind.write = 3

pub kind_cmp_iff :
    (a b : EffectKind)
    → (compare (kind_index a) (kind_index b) ≡ Prim.Native.Nat.Ordering.eq) ↔ (a ≡ b)
kind_cmp_iff a b = ground arith

instance abbrev pub kind_ord : Ord EffectKind
kind_ord = record { cmp = λ a b. compare (kind_index a) (kind_index b); cmp_iff = kind_cmp_iff }

pub record FixtureDriver : Type 0 where
  pub fixtures : FixtureSet
  pub consumed : BTreeSet ℕ
  pub calls : BTreeMap EffectKind ℕ

unfoldable mutual
  pub is_json_subset : Json → Json → Bool
  is_json_subset (object expected) (object actual) = fields_subset expected actual
  is_json_subset (array expected) (array actual) = items_subset expected actual
  is_json_subset expected actual = same_json expected actual

  pub fields_subset : Fields → Fields → Bool
  fields_subset end actual = true
  fields_subset (field k v rest) actual =
      elim (get k actual) [ none ↦ false | some w ↦ is_json_subset v w ]
      && fields_subset rest actual

  -- two lists of one length, and each value in its counterpart
  pub items_subset : Items → Items → Bool
  items_subset nil nil = true
  items_subset (cons v vs) (cons w ws) = is_json_subset v w && items_subset vs ws
  items_subset _ _ = false

-- a match that is no object, or an empty one
abbrev pub is_loose : Json → Bool
is_loose (object end) = true
is_loose (object (field k v fs)) = false
is_loose _ = true

unfoldable pub any_loose : List FixtureEntry → Bool
any_loose [] = false
any_loose (e ∷ es) = is_loose e.match_request || any_loose es

-- `FixtureDriver::new`
unfoldable pub new_driver : FixtureSet → Result DriverError FixtureDriver
unfolding any_loose
new_driver fixtures =
    if not (fixtures.schema_version == 1)
    then err schema_mismatch
    else if any_loose fixtures.entries
    then err loose_fixture
    else ok (record { fixtures = fixtures; consumed = []; calls = [] })

-- `FixtureDriver::call_count`
unfoldable pub call_count : FixtureDriver → EffectKind → ℕ
call_count driver kind = or_zero (lookup kind driver.calls)

abbrev pub answers : BTreeSet ℕ → EffectRequest → ℕ → FixtureEntry → Bool
answers consumed request index entry =
    not (contains index consumed)
    && same_key entry.kind request.kind
    && str_eq entry.identity request.identity
    && is_json_subset entry.match_request request.payload

-- `matching_indices`, from an index on, each index with its fixture
unfoldable pub matching_from :
    BTreeSet ℕ → EffectRequest → ℕ → List FixtureEntry → List (ℕ × FixtureEntry)
matching_from consumed request index [] = []
matching_from consumed request index (entry ∷ entries) =
    let rest = matching_from consumed request (suc index) entries in
    if answers consumed request index entry then (index, entry) ∷ rest else rest

unfoldable pub matching : FixtureDriver → EffectRequest → List (ℕ × FixtureEntry)
unfolding matching_from
matching driver request = matching_from driver.consumed request 0 driver.fixtures.entries

unfoldable pub any_other : Json → List (ℕ × FixtureEntry) → Bool
any_other first [] = false
any_other first ((index, entry) ∷ rest) =
    not (same_json entry.match_request first) || any_other first rest

abbrev pub preview_of : List (ℕ × FixtureEntry) → Result DriverError FixturePreview
preview_of [] = err no_matching_fixture
preview_of ((index, entry) ∷ rest) =
    if any_other entry.match_request rest
    then err ambiguous_fixture
    else ok (record { index = index; max_usage = entry.max_usage })

-- `FixtureDriver::preview`
unfoldable pub preview : FixtureDriver → EffectRequest → Result DriverError FixturePreview
unfolding any_other
preview driver request = preview_of (matching driver request)

-- the fixture of an index among the matches
unfoldable pub find_index : ℕ → List (ℕ × FixtureEntry) → Option FixtureEntry
find_index index [] = none
find_index index ((i, entry) ∷ rest) = if i == index then some entry else find_index index rest

-- whether a use passes its declared maximum
unfoldable pub any_over : BTreeMap String ℕ → BTreeMap String ℕ → Bool
any_over max_usage [] = false
any_over max_usage ((name, actual) ∷ rest) =
    ltb (or_zero (lookup name max_usage)) actual || any_over max_usage rest

-- the fixture is used up and the call counted before its usage is compared
abbrev resolve_with :
    EffectRequest
    → ℕ
    → FixtureDriver
    → Option FixtureEntry
    → Result DriverError EffectResolution × FixtureDriver
resolve_with request index driver none = (err preview_mismatch, driver)
resolve_with request index driver (some entry) =
    let after : FixtureDriver = record driver {
      consumed = insert index tt driver.consumed;
      calls =
          insert request.kind ((or_zero (lookup request.kind driver.calls) + 1) % 2 ^ 64)
            driver.calls;
    } in
    if any_over entry.max_usage entry.actual_usage then (err actual_exceeds_maximum, after) else (
      ok (record {
        request_hash = request.request_hash;
        payload = entry.response;
        actual_usage = entry.actual_usage;
      }),
      after,
    )

-- `FixtureDriver::resolve`
unfoldable pub resolve :
    EffectRequest → FixturePreview → Exec FixtureDriver DriverError EffectResolution
unfolding any_over
resolve request preview driver =
    resolve_with request preview.index driver (find_index preview.index (matching driver request))
