-- ===== src/Capability/Exact.antt =====
-- Compiled grants of capability.rs permit exactly the requests that were granted.
use aster_lang.Base.{
  String, ◌≡◌, ◌↔◌, ◌⊎◌, inl, inr, Bool, true, false, ◌||◌, List, [], ◌∷◌, arith, str_eq, eq_iff,
}
use aster_lang.Base.Maps.{
  BTreeSet, string_ord, lookup, contains, insert, lookup-insert, string_cmp_iff,
}
use aster_lang.Base.Outcome.{Result, ok, map_m, Result-cases}
use aster_lang.Json.{Json, Codec, canonical_sha256}
use aster_lang.Capability.{
  CapabilityGrant, CapabilityGrants, CompiledGrants, grant_hash, collect_set, compile, permits,
}

unfoldable listed : String → List String → Bool
listed h [] = false
listed h (k ∷ ks) = str_eq h k || listed h ks

contains-collect_set :
    (h : String) (s : BTreeSet String) (ks : List String)
    → contains h (collect_set s ks) ≡ contains h s || listed h ks
unfolding collect_set listed
contains-collect_set h s [] = ground arith
contains-collect_set h s (k ∷ ks) = ground (
  arith,
  contains-collect_set h (insert k tt s) ks,
  lookup-insert h k tt s,
  string_cmp_iff h k,
  eq_iff h k,
)

module _ (codec : Codec) (grants_value : CapabilityGrants → Result String Json) where
  -- One of the grants has the hash.
  abbrev pub IsGranted : String → List CapabilityGrant → Type 0
  IsGranted h [] = ⊥
  IsGranted h (g ∷ gs) = (grant_hash codec grants_value g ≡ ok h) ⊎ IsGranted h gs

  hashes_iff :
      (h : String) (gs : List CapabilityGrant) (hashes : List String)
      → map_m (grant_hash codec grants_value) gs ≡ ok hashes
      → (listed h hashes ≡ true) ↔ IsGranted h gs
  unfolding listed map_m
  hashes_iff h [] hashes e = ground arith
  hashes_iff h (g ∷ gs) hashes e = elim (Result-cases (grant_hash codec grants_value g)) [
    | inr (why, p) ↦ absurd (ground arith)
    | inl (k, p) ↦ elim (Result-cases (map_m (grant_hash codec grants_value) gs)) [
      | inr (why, q) ↦ absurd (ground arith)
      | inl (ks, q) ↦ ground (arith, hashes_iff h gs ks q, eq_iff h k)
    ]
  ]

  compiled_hashes :
      (grants : CapabilityGrants) (c : CompiledGrants)
      → compile codec grants_value grants ≡ ok c
      → (hashes : List String) × (map_m (grant_hash codec grants_value) grants.grants ≡ ok hashes)
        × (c.request_hashes ≡ collect_set [] hashes)
  unfolding compile
  compiled_hashes grants c h =
      elim (Result-cases (map_m (grant_hash codec grants_value) grants.grants)) [
        | inl (hashes, e) ↦ (hashes, e, ground arith)
        | inr (why, e) ↦ absurd (ground arith)
      ]

  -- Compiled grants permit a request exactly where one of the grants stands for a request of the
  -- same canonical hash.
  pub permits_iff :
      (grants : CapabilityGrants) (c : CompiledGrants) (request : Json) (hash : String)
      → compile codec grants_value grants ≡ ok c
      → canonical_sha256 codec (ok request) ≡ ok hash
      → (permits codec c request ≡ ok true) ↔ IsGranted hash grants.grants
  unfolding permits lookup
  permits_iff grants c request hash h k =
      let (hashes, e, at) = compiled_hashes grants c h in
      let both = contains-collect_set hash [] hashes in
      ground (arith, hashes_iff hash grants.grants hashes e, both, at, k)
