-- ===== src/Location/Registry.antt =====
-- The global map of locations, `LOCATION_MAP` of pingap-location/src/location.rs. A location that
-- a reload keeps stays the same object, so that its counters go on; one that it replaces or drops
-- is not reachable by name any more.
pub mod Reload
use pingap.Common.{ℕ, Bool, true, false, Option, none, some, List, [], ◌∷◌, ◌++◌, map}
use pingap.Common.Tests.{if◌then◌else◌}
use pingap.Common.Text.{Str, str_eq, is_empty}
use pingap.Common.Map.{Map, get, insert}
use pingap.Common.Results.{Result, ok, err}
use pingap.Config.Conf.{LocationConf}
use pingap.External.{RegexLib, HttpLib}
use pingap.Http.Header.{HeaderError}
use pingap.Location.Selector.{Error}
use pingap.Location.Route
use pingap.Location.Route.{Location}

module _ (rx : RegexLib) where
  unfoldable pub get_location : Str → Map (Location rx) → Option (Location rx)
  unfolding get
  get_location name locations = if is_empty name then none else get name locations

  unfoldable pub get_locations_stats : Map (Location rx) → Map (ℕ × ℕ)
  get_locations_stats locations = map (λ (k, v). (k, (v.processing, v.accepted))) locations

module _ (rx : RegexLib) (http : HttpLib) (show : HeaderError → Str)
    (hash_key : LocationConf → Str) where
  -- Whether the location in use was built from the same configuration.
  abbrev unchanged : Option (Location rx) → LocationConf → Option (Location rx)
  unchanged none conf = none
  unchanged (some found) conf = if str_eq found.key (hash_key conf) then some found else none

  -- The loop over the configurations: the new map and the names that were updated.
  init_from :
      Map (Location rx)
      → Map LocationConf
      → Map (Location rx)
      → List Str
      → Result Error (Map (Location rx) × List Str)
  unfolding insert get_location Route.new
  init_from current [] locations updated = ok (locations, updated)
  init_from current ((name, conf) ∷ configs) locations updated =
      elim (unchanged (get_location rx name current) conf) [
        | some found ↦ init_from current configs (insert name found locations) updated
        | none ↦ elim (Route.new rx http show hash_key name conf) [
          | ok lo ↦ init_from current configs (insert name lo locations) (updated ++ name ∷ [])
          | err e ↦ err e
        ]
      ]

  abbrev stored :
      Map (Location rx)
      → Result Error (Map (Location rx) × List Str)
      → Map (Location rx) × Result Error (List Str)
  stored current (ok (locations, updated)) = (locations, ok updated)
  stored current (err e) = (current, err e)

  -- The map after the call, and its result.
  unfoldable pub try_init_locations :
      Map (Location rx) → Map LocationConf → Map (Location rx) × Result Error (List Str)
  unfolding init_from
  try_init_locations current configs = stored current (init_from current configs [] [])
