-- ===== src/Capability.antt =====
-- crates/aster-runtime/src/capability.rs: exact capability grants, compiled to a set of request
-- hashes and a fingerprint. Hashing the grant file goes through `serde_json::to_value`, which
-- comes in as `grants_value`.
pub mod Exact
use aster_lang.Base.{ℕ, String, Bool, List, [], ◌∷◌, ◌==◌, length}
use aster_lang.Base.Maps.{BTreeSet, string_ord, insert, contains}
use aster_lang.Base.Outcome.{Result, ok, map_err, map_m, ◌>>=◌, ◌>>◌, ensure}
use aster_lang.Json.{
  Json, string, array, object, from_list, collect, CanonicalError, Codec, canonical_sha256,
}

pub record CapabilityGrant : Type 0 where
  pub capability : String
  pub arguments : List Json

pub record CapabilityGrants : Type 0 where
  pub schema_version : ℕ
  pub grants : List CapabilityGrant

pub data CapabilityError : Type 0 where
  schema_mismatch canonical duplicate_grant : CapabilityError

pub record CompiledGrants : Type 0 where
  pub fingerprint : String
  pub request_hashes : BTreeSet String

-- the request that a grant stands for
unfoldable pub grant_request : String → List Json → Json
grant_request capability arguments =
    object (
      collect (("capability", string capability) ∷ ("arguments", array (from_list arguments)) ∷ []))

-- `From<CanonicalError>`
abbrev pub from_canonical : CanonicalError → CapabilityError
from_canonical e = canonical

-- `collect` into a `BTreeSet`
unfoldable pub collect_set : BTreeSet String → List String → BTreeSet String
collect_set s [] = s
collect_set s (h ∷ hs) = collect_set (insert h tt s) hs

module _ (codec : Codec) (grants_value : CapabilityGrants → Result String Json) where
  abbrev pub grant_hash : CapabilityGrant → Result CapabilityError String
  grant_hash grant =
      map_err from_canonical
        (canonical_sha256 codec (ok (grant_request grant.capability grant.arguments)))

  unfoldable pub compile : CapabilityGrants → Result CapabilityError CompiledGrants
  unfolding collect_set map_m
  compile grants = do
    ensure (grants.schema_version == 1) schema_mismatch
    fingerprint ← map_err from_canonical (canonical_sha256 codec (grants_value grants))
    hashes ← map_m grant_hash grants.grants
    let request_hashes = collect_set [] hashes
    ensure (length request_hashes == length grants.grants) duplicate_grant
    ok (record { fingerprint = fingerprint; request_hashes = request_hashes })

module _ (codec : Codec) where
  unfoldable pub permits : CompiledGrants → Json → Result CapabilityError Bool
  permits compiled request = do
    hash ← map_err from_canonical (canonical_sha256 codec (ok request))
    ok (contains hash compiled.request_hashes)
