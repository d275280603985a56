-- ===== src/Checks/Fixtures.antt =====
-- Runs of the fixture driver of fixture.rs.
use aster_lang.Base.{String, ◌≡◌, ◌≢◌, ◌≤◌, ◌⊎◌, refl, true, [], ◌∷◌}
use aster_lang.Base.Maps.{string_ord, nat_ord, lookup, insert}
use aster_lang.Base.Outcome.{ok, err}
use aster_lang.Budget.{or_zero}
use aster_lang.Json.{string, boolean, object, field, end, get, same_json}
use aster_lang.Machine.State.{EffectKind, EffectRequest, EffectResolution}
use aster_lang.Fixture.{
  FixtureEntry, FixturePreview, FixtureDriver, kind_ord, new_driver, preview_mismatch,
  actual_exceeds_maximum, is_json_subset, matching, preview, find_index, resolve,
}
use aster_lang.Fixture.Matching.{
  Resolved, Exceeds, Uses, resolve-Resolved, resolve_once, resolve-preview,
}

abbrev look : EffectRequest
look = record {
  kind = EffectKind.read;
  identity = "Desk.look";
  payload = object (field "extra" (boolean true) (field "id" (string "7") end));
  request_hash = "h";
}

abbrev seven : FixtureEntry
seven = record {
  kind = EffectKind.read;
  identity = "Desk.look";
  match_request = object (field "id" (string "7") end);
  response = string "seen";
  max_usage = ("money_microunits", 5) ∷ [];
  actual_usage = ("money_microunits", 3) ∷ [];
}

abbrev eight : FixtureEntry
eight = record seven { match_request = object (field "id" (string "8") end) }

abbrev desk : FixtureDriver
desk = record {
  fixtures = record { schema_version = 1; entries = eight ∷ seven ∷ [] };
  consumed = [];
  calls = [];
}

abbrev desk_preview : FixturePreview
desk_preview = record { index = 1; max_usage = seven.max_usage }

abbrev seen : EffectResolution
seen = record { request_hash = "h"; payload = string "seen"; actual_usage = seven.actual_usage }

made : new_driver desk.fixtures ≡ ok desk
unfolding new_driver
made = refl

previews : preview desk look ≡ ok desk_preview
unfolding preview matching is_json_subset get same_json lookup
previews = refl

resolves_look : (resolve look desk_preview desk).0 ≡ ok seen
unfolding resolve find_index matching is_json_subset get same_json lookup insert
resolves_look = refl

resolve-Resolved_example : Resolved desk look 1 seen
resolve-Resolved_example = resolve-Resolved look desk_preview desk seen resolves_look

takes_look : (resolve look desk_preview desk).0 ≢ err preview_mismatch
takes_look h = cc resolves_look

resolve_once_example :
    resolve look desk_preview (resolve look desk_preview desk).1
    ≡ (err preview_mismatch, (resolve look desk_preview desk).1)
resolve_once_example =
    resolve_once look look desk_preview desk_preview desk (resolve look desk_preview desk).1
      takes_look Uses.here refl

resolve-preview_example :
    ((resolution : EffectResolution) × ((resolve look desk_preview desk).0 ≡ ok resolution)
      × (resolution.request_hash ≡ look.request_hash)
      × ((name : String)
          → or_zero (lookup name resolution.actual_usage)
            ≤ or_zero (lookup name desk_preview.max_usage)))
    ⊎ (((resolve look desk_preview desk).0 ≡ err actual_exceeds_maximum)
        × Exceeds desk desk_preview)
resolve-preview_example = resolve-preview look desk_preview desk previews
