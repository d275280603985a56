-- ===== src/Fixture/Matching.antt =====
-- Which fixture answers a request in fixture.rs, and that a fixture answers once.
use aster_lang.Base.{
  ℕ, suc, ◌+◌, ◌≤◌, ◌<◌, ltb, eq_iff, String, ◌≡◌, ◌≢◌, refl, ap, sym, subst, true, false, none,
  some, List, [], ◌∷◌, ◌⊎◌, inl, inr, arith, get_elem?, ◌==◌, Option-cases, Bool-cases,
}
use aster_lang.Base.Maps.{
  BTreeMap, BTreeSet, nat_ord, string_ord, lookup, contains, lookup-insert, nat_cmp_iff,
  string_cmp_iff,
}
use aster_lang.Base.Outcome.{Result, ok, err}
use aster_lang.Budget.{or_zero}
use aster_lang.Machine.State.{EffectRequest, EffectResolution}
use aster_lang.Fixture.{
  FixtureEntry, FixturePreview, FixtureDriver, DriverError, preview_mismatch,
  actual_exceeds_maximum, answers, matching_from, matching, preview, preview_of, find_index,
  any_over, resolve, kind_cmp_iff,
}
use aster_lang.Fixture.Within.{IsWithin, is_json_subset-IsWithin}

-- What a request that is resolved has got.
pub record Resolved (driver : FixtureDriver) (request : EffectRequest) (index : ℕ)
    (resolution : EffectResolution) : Type 0 where
  pub entry : FixtureEntry
  pub stands : get_elem? driver.fixtures.entries index ≡ some entry
  pub unused : contains index driver.consumed ≡ false
  pub same_kind : entry.kind ≡ request.kind
  pub same_identity : entry.identity ≡ request.identity
  pub contained : IsWithin entry.match_request request.payload
  pub same_hash : resolution.request_hash ≡ request.request_hash
  pub response : resolution.payload ≡ entry.response
  pub within :
      (name : String)
      → or_zero (lookup name resolution.actual_usage) ≤ or_zero (lookup name entry.max_usage)

shifted :
    (consumed : BTreeSet ℕ) (request : EffectRequest) (start index : ℕ) (e : FixtureEntry)
    (es : List FixtureEntry) (entry : FixtureEntry)
    → ((k : ℕ) × (index ≡ suc start + k)
        × (get_elem? es k ≡ some entry)
        × (answers consumed request index entry ≡ true))
    → (k : ℕ) × (index ≡ start + k)
      × (get_elem? (e ∷ es) k ≡ some entry)
      × (answers consumed request index entry ≡ true)
shifted consumed request start index e es entry (k, p, q, r) = (suc k, omega arith, q, r)

find_index-matching_from :
    (consumed : BTreeSet ℕ) (request : EffectRequest) (start index : ℕ)
    (entries : List FixtureEntry) (entry : FixtureEntry)
    → find_index index (matching_from consumed request start entries) ≡ some entry
    → (k : ℕ) × (index ≡ start + k)
      × (get_elem? entries k ≡ some entry)
      × (answers consumed request index entry ≡ true)
unfolding find_index matching_from
find_index-matching_from consumed request start index [] entry h = cc
find_index-matching_from consumed request start index (e ∷ es) entry h =
    elim (Bool-cases (answers consumed request start e)) [
      | inl found ↦ elim (Bool-cases (start == index)) [
        | inl at ↦ (0, ground arith, ground arith, ground arith)
        | inr away ↦
            shifted consumed request start index e es entry
              (find_index-matching_from consumed request (suc start) index es entry (ground arith))
      ]
      | inr absent ↦
          shifted consumed request start index e es entry
            (find_index-matching_from consumed request (suc start) index es entry (ground arith))
    ]

any_over-within :
    (max_usage usage : BTreeMap String ℕ) (name : String)
    → any_over max_usage usage ≡ false
    → or_zero (lookup name usage) ≤ or_zero (lookup name max_usage)
unfolding any_over lookup
any_over-within max_usage [] name h = omega arith
any_over-within max_usage ((n, actual) ∷ rest) name h =
    ground (arith, any_over-within max_usage rest name, string_cmp_iff name n)

find_index-consumed :
    (consumed : BTreeSet ℕ) (request : EffectRequest) (start index : ℕ)
    (entries : List FixtureEntry)
    → contains index consumed ≡ true
    → find_index index (matching_from consumed request start entries) ≡ none
unfolding find_index matching_from
find_index-consumed consumed request start index [] h = refl
find_index-consumed consumed request start index (e ∷ es) h =
    ground (arith, find_index-consumed consumed request (suc start) index es)

-- The drivers that a sequence of calls of `resolve`, failing ones included, leads to.
pub data Uses (start : FixtureDriver) : FixtureDriver → Type 0 where
  here : Uses start start
  resolves :
      {d d' : FixtureDriver} {r : Result DriverError EffectResolution} (request : EffectRequest)
      (p : FixturePreview)
      → Uses start d
      → resolve request p d ≡ (r, d')
      → Uses start d'

Uses-consumed :
    {start d : FixtureDriver} (index : ℕ)
    → Uses start d
    → contains index start.consumed ≡ true
    → contains index d.consumed ≡ true
unfolding resolve
Uses-consumed index here h = h
Uses-consumed index (resolves {d = d} request p u e) h = ground (
  arith,
  ap (λ (s : Result DriverError EffectResolution × FixtureDriver). s.1) e,
  Uses-consumed index u h,
  lookup-insert index p.index tt d.consumed,
)

-- A request that is resolved gets the response of the fixture at the preview's index: one that
-- was not used before, of its kind and identity, and whose match its payload holds; the use that
-- is reported is within the maxima that the fixture declares.
pub resolve-Resolved :
    (request : EffectRequest) (p : FixturePreview) (driver : FixtureDriver)
    (resolution : EffectResolution)
    → (resolve request p driver).0 ≡ ok resolution
    → Resolved driver request p.index resolution
unfolding resolve matching
resolve-Resolved request p driver resolution h =
    elim (Option-cases (find_index p.index (matching driver request))) [
      | inl e ↦ absurd (ground arith)
      | inr (entry, e) ↦
          let (k, at, stands, fits) =
            find_index-matching_from driver.consumed request 0 p.index driver.fixtures.entries entry
              e in
          record {
            entry = entry;
            stands = ground arith;
            unused = ground arith;
            same_kind = ground (arith, kind_cmp_iff entry.kind request.kind);
            same_identity = ground (arith, eq_iff entry.identity request.identity);
            contained = is_json_subset-IsWithin entry.match_request request.payload (ground arith);
            same_hash = ground arith;
            response = ground arith;
            within =
                λ name. ground (arith, any_over-within entry.max_usage entry.actual_usage name);
          }
    ]

resolve-consumed :
    (request : EffectRequest) (p : FixturePreview) (driver : FixtureDriver)
    → (resolve request p driver).0 ≢ err preview_mismatch
    → contains p.index (resolve request p driver).1.consumed ≡ true
unfolding resolve
resolve-consumed request p driver h =
    ground (arith, h, lookup-insert p.index p.index tt driver.consumed, nat_cmp_iff p.index p.index)

-- Once a call of `resolve` has got past its preview, also where it then fails because the use is
-- over the maximum, every later call with a preview of the same fixture, for any request and
-- after any calls in between, is refused and leaves the driver as it is.
pub resolve_once :
    (request request' : EffectRequest) (p p' : FixturePreview) (d d'' : FixtureDriver)
    → (resolve request p d).0 ≢ err preview_mismatch
    → Uses (resolve request p d).1 d''
    → p'.index ≡ p.index
    → resolve request' p' d'' ≡ (err preview_mismatch, d'')
unfolding resolve matching
resolve_once request request' p p' d d'' h u same =
    let used = Uses-consumed p.index u (resolve-consumed request p d h) in
    ground (
      arith,
      find_index-consumed d''.consumed request' 0 p'.index d''.fixtures.entries (rw same used),
    )

-- One of the uses is over its maximum.
pub record IsOver (max_usage usage : BTreeMap String ℕ) : Type 0 where
  pub name : String
  pub actual : ℕ
  pub place : ℕ
  pub reported : get_elem? usage place ≡ some (name, actual)
  pub over : or_zero (lookup name max_usage) < actual

any_over-IsOver :
    (max_usage usage : BTreeMap String ℕ) → any_over max_usage usage ≡ true → IsOver max_usage usage
unfolding any_over
any_over-IsOver max_usage [] h = cc
any_over-IsOver max_usage ((n, used) ∷ rest) h =
    elim (Bool-cases (ltb (or_zero (lookup n max_usage)) used)) [
      | inl first ↦ record {
        name = n;
        actual = used;
        place = 0;
        reported = refl;
        over = ground arith;
      }
      | inr within ↦
          let later = any_over-IsOver max_usage rest (ground arith) in
          record {
            name = later.name;
            actual = later.actual;
            place = suc later.place;
            reported = later.reported;
            over = later.over;
          }
    ]

-- The fixture that a preview names, and whose use is over one of the previewed maxima.
pub record Exceeds (driver : FixtureDriver) (p : FixturePreview) : Type 0 where
  pub entry : FixtureEntry
  pub stands : get_elem? driver.fixtures.entries p.index ≡ some entry
  pub over : IsOver p.max_usage entry.actual_usage

find_index-preview_of :
    (ms : List (ℕ × FixtureEntry)) (p : FixturePreview)
    → preview_of ms ≡ ok p
    → (entry : FixtureEntry) × (find_index p.index ms ≡ some entry)
      × (p.max_usage ≡ entry.max_usage)
unfolding find_index
find_index-preview_of [] p h = cc
find_index-preview_of ((index, entry) ∷ rest) p h = (entry, ground arith, ground arith)

-- A preview names a fixture that `resolve` then takes: on the same driver the call succeeds, for
-- the request's own hash and with a use within the previewed maxima, or it fails as over the
-- maximum, and then a use that the fixture reports is over its previewed maximum.
pub resolve-preview :
    (request : EffectRequest) (p : FixturePreview) (driver : FixtureDriver)
    → preview driver request ≡ ok p
    → ((resolution : EffectResolution) × ((resolve request p driver).0 ≡ ok resolution)
        × (resolution.request_hash ≡ request.request_hash)
        × ((name : String)
            → or_zero (lookup name resolution.actual_usage) ≤ or_zero (lookup name p.max_usage)))
      ⊎ (((resolve request p driver).0 ≡ err actual_exceeds_maximum) × Exceeds driver p)
unfolding resolve preview matching
resolve-preview request p driver h =
    let (entry, at, maxima) = find_index-preview_of (matching driver request) p h in
    let (k, place, stands, fits) =
      find_index-matching_from driver.consumed request 0 p.index driver.fixtures.entries entry at in
    elim (Bool-cases (any_over entry.max_usage entry.actual_usage)) [
      | inl over ↦ inr (
        ground arith,
        record {
          entry = entry;
          stands = ground arith;
          over =
              subst (λ m. IsOver m entry.actual_usage) (sym maxima)
                (any_over-IsOver entry.max_usage entry.actual_usage over);
        },
      )
      | inr fits ↦ inl (
        record {
          request_hash = request.request_hash;
          payload = entry.response;
          actual_usage = entry.actual_usage;
        },
        ground arith,
        refl,
        λ name. rw maxima (any_over-within entry.max_usage entry.actual_usage name fits),
      )
    ]
