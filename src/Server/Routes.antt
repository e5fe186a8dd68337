-- ===== src/Server/Routes.antt =====
-- The locations of a server in their order of priority, and the choice of the location of a
-- request: `try_init_server_locations` and a part of `early_request_filter` of src/proxy/server.rs.
pub mod Choice
pub mod Heaviest
pub mod Order
use pingap.Common.{ℕ, ◌≤◌, Bool, true, false, not, Option, none, some, List, [], ◌∷◌, ◌++◌, map}
use pingap.Common.Tests.{leb, if◌then◌else◌}
use pingap.Common.Text.{Str, str, str_eq, join}
use pingap.Common.Map.{Map, get, insert}
use pingap.Config.Conf.{LocationConf, ServerConf}
use pingap.Config.Weight.{get_weight}
use pingap.Core.Ctx.{Ctx, add_variable}
use pingap.External.{RegexLib}
use pingap.Location.Route.{Location, match_host_path}
use pingap.Location.Registry.{get_location}

abbrev or_zero : Option ℕ → ℕ
or_zero none = 0
or_zero (some n) = n

unfoldable pub weight_of : Map LocationConf → Str → ℕ
unfolding get get_weight
weight_of locations item =
    or_zero (get item (map (λ (name, conf). (name, get_weight conf)) locations))

-- `sort_by_key` with the reversed weight: a stable sort, the largest weight first.
insert_sorted : (Str → ℕ) → Str → List Str → List Str
insert_sorted weight x [] = x ∷ []
insert_sorted weight x (y ∷ ys) =
    let rest = insert_sorted weight x ys in
    if leb (weight y) (weight x) then x ∷ y ∷ ys else y ∷ rest

unfoldable pub sort_by_weight : (Str → ℕ) → List Str → List Str
unfolding insert_sorted
sort_by_weight weight [] = []
sort_by_weight weight (x ∷ xs) = insert_sorted weight x (sort_by_weight weight xs)

-- Whether the list of a server is the one in use.
not_modified : Option (List Str) → List Str → Bool
unfolding str_eq join
not_modified none items = false
not_modified (some current) items = str_eq (join (str ",") current) (join (str ",") items)

init_servers :
    Map (List Str)
    → Map LocationConf
    → Map ServerConf
    → Map (List Str)
    → List Str
    → Map (List Str) × List Str
unfolding insert get sort_by_weight weight_of not_modified
init_servers current locations [] server_locations updated = (server_locations, updated)
init_servers current locations ((name, server) ∷ servers) server_locations updated =
    elim server.locations [
      | none ↦ init_servers current locations servers server_locations updated
      | some items ↦
          let sorted = sort_by_weight (weight_of locations) items in
          init_servers current locations servers (insert name sorted server_locations)
            (if not_modified (get name current) sorted then updated else updated ++ name ∷ [])
    ]

-- The new map of the servers' locations, and the names of the servers that were updated.
unfoldable pub try_init_server_locations :
    Map (List Str) → Map ServerConf → Map LocationConf → Map (List Str) × List Str
unfolding init_servers
try_init_server_locations current servers locations = init_servers current locations servers [] []

abbrev or_none {ℓ} : {A : Type ℓ} → Option (List A) → List A
or_none none = []
or_none (some xs) = xs

unfoldable pub add_variables : Ctx → List (Str × Str) → Ctx
unfolding add_variable
add_variables ctx [] = ctx
add_variables ctx ((key, value) ∷ variables) = add_variables (add_variable ctx key value) variables

module _ (rx : RegexLib) (locations : Map (Location rx)) (host path : Str) where
  -- The loop over the locations of the server: `current_location`, with the name under which it
  -- was found, and the context.
  unfoldable pub find_location :
      List Str → Option (Str × Location rx) → Ctx → Option (Str × Location rx) × Ctx
  find_location [] current ctx = (current, ctx)
  find_location (name ∷ names) current ctx = elim (get_location rx name locations) [
    | none ↦ find_location names current ctx
    | some location ↦
        let (matched, variables) = match_host_path rx location host path in
        let rest = find_location names (some (name, location)) ctx in
        if matched
        then (
          some (name, location),
          add_variables (record ctx { location = location.name }) (or_none variables),
        )
        else rest
  ]
