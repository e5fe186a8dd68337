-- ===== src/Tests/Routing.antt =====
-- Weights, matching, limits, reloads and the order of locations, on concrete configurations:
-- pingap-config/src/common.rs, pingap-location/src/location.rs and src/proxy/server.rs.
use pingap.Common.{
  ℕ, zero, suc, ◌≤◌, ◌<◌, ◌≡◌, ◌≢◌, refl, ◌⊎◌, ◌↔◌, true, Option, none, some, List, [], ◌∷◌, arith,
}
use pingap.Common.Text.{Str, str, unwrap_or_default, str_len, split, starts_with, trim}
use pingap.Common.Map.{Map, get, map_option}
use pingap.Common.Lists.{length}
use pingap.Location.Selector.{Error, too_many_request}
use pingap.Common.Results.{Result, ok, err}
use pingap.Core.Ctx.{Ctx, new_ctx}
use pingap.Core.Plugin.{request, default_response, no_response, Session}
use pingap.Config.Conf.{LocationConf}
use pingap.Config.Weight.{get_weight, path_weight, has_regex_host, host_weight}
use pingap.Http.Header.{parse_usize, HeaderError}
use mathlib.Core.List.{Memᴰ}
use pingap.Config.Weight.Priority.{IsPlain, kind, get_weight-rank}
use pingap.Location.Registry.{get_location, try_init_locations}
use pingap.Location.Registry.Reload.{Reloaded, try_init_locations-Reloaded}
use pingap.Location.Route.{Location, match_host_path, add_processing, get_content_length}
use pingap.Location.Route.Matching.{Accepts, match_host_path_iff}
use pingap.Location.Route.Limits.{add_processing-admits}
use pingap.Server.Plugins.{PluginEnv, run_plugins}
use pingap.Server.Routes.{find_location, sort_by_weight}
use pingap.Server.Plugins.Chain.{FirstEnds, run_plugins-FirstEnds}
use pingap.Server.Routes.Heaviest.{find_location-heaviest}
use pingap.Tests.Fixtures.{literals, plain_http, no_plugins, base_location, web, locations, ask}

abbrev conf : Option Str → Option Str → LocationConf
conf path host = record {
  upstream = none;
  path = path;
  host = host;
  proxy_set_headers = none;
  proxy_add_headers = none;
  rewrite = none;
  weight = none;
  plugins = none;
  client_max_body_size = none;
  max_processing = none;
  grpc_web = none;
  enable_reverse_proxy_headers = none;
}

code : Unit {0}
unfolding has_regex_host split starts_with str_len get_weight kind path_weight host_weight get
    parse_usize get_content_length match_host_path get_location try_init_locations trim
code = tt

abbrev pad : ℕ → Str
pad zero = []
pad (suc n) = b'a' ∷ pad n

abbrev exact_path : LocationConf
exact_path = conf (some (str "=/api")) none

abbrev prefix_host : LocationConf
prefix_host = conf (some (str "/api")) (some (str "a.com"))

abbrev long_host : LocationConf
long_host = conf none (some (b'~' ∷ pad 1300))

weights :
    (get_weight exact_path ≡ 1029)
    × (get_weight prefix_host ≡ 644)
    × (get_weight (conf (some (str "~/a")) (some (str "~b"))) ≡ 261)
    × (get_weight long_host ≡ 1301)
unfolding code
weights = (refl, refl, refl, refl)

exact-IsPlain : IsPlain exact_path
unfolding code
exact-IsPlain = record { computed = refl; named = refl }

prefix-IsPlain : IsPlain prefix_host
unfolding code
prefix-IsPlain = record { computed = refl; named = refl }

get_weight-rank_example : get_weight prefix_host < get_weight exact_path
unfolding code
get_weight-rank_example =
    get_weight-rank prefix_host exact_path prefix-IsPlain exact-IsPlain (omega arith)

match_host_path_iff_example :
    ((match_host_path literals base_location (str "a.com") (str "/api/x")).0 ≡ true)
    ↔ Accepts literals base_location (str "a.com") (str "/api/x")
match_host_path_iff_example =
    match_host_path_iff literals base_location (str "a.com") (str "/api/x")

abbrev limited : Location literals
limited = record base_location { processing = 3; max_processing = 3 }

add_processing-admits_example :
    ((limited.max_processing ≡ 0) ⊎ (limited.processing < limited.max_processing)
      → (add_processing literals limited).1 ≡ ok (1, 4))
    × (limited.max_processing ≢ 0
        → limited.max_processing ≤ limited.processing
        → (add_processing literals limited).1 ≡ err (too_many_request 3))
    × ((add_processing literals limited).0.processing ≡ 4)
    × ((add_processing literals limited).0.accepted ≡ 1)
add_processing-admits_example = add_processing-admits literals limited (omega arith) (omega arith)

abbrev sized : Session
sized = ask (str "/api") ((str "content-length", str "11") ∷ [])

abbrev routed : Option (Str × Location literals) × Ctx
routed =
    find_location literals locations [] (str "/api/x")
      (sort_by_weight (λ name. length name) (str "web" ∷ str "api" ∷ [])) none new_ctx

find_location-heaviest_example :
    (key : Str) × (l : Location literals) × (routed.0 ≡ some (key, l))
    × (routed.1.location ≡ l.name)
    × (get_location literals key locations ≡ some l)
    × ((match_host_path literals l [] (str "/api/x")).0 ≡ true)
    × (3 ≤ length key)
unfolding code
find_location-heaviest_example =
    find_location-heaviest literals locations [] (str "/api/x") (λ name. length name) (str "api")
      base_location refl refl (str "web" ∷ str "api" ∷ []) new_ctx (Memᴰ.tail (Memᴰ.head refl))

abbrev few : List Str
few = str "b" ∷ str "long" ∷ str "c" ∷ []

-- A plugin that answers, in front of one that is then not run.
abbrev teapot : PluginEnv
teapot = record no_plugins {
  get_plugin = λ name. some (record {
    handle_request = λ step session ctx.
        (session, ctx, ok (true, some (record default_response { status = 418 })));
    handle_response = no_response;
    handle_upstream_response = no_response;
  });
}

run_plugins-FirstEnds_example :
    FirstEnds teapot request
      (str "q" ∷ str "p" ∷ [])
      sized
      new_ctx
      (run_plugins teapot request (str "q" ∷ str "p" ∷ []) sized new_ctx)
run_plugins-FirstEnds_example =
    run_plugins-FirstEnds teapot request (str "q" ∷ str "p" ∷ []) sized new_ctx

abbrev shown : HeaderError → Str
shown e = []

abbrev hashed : LocationConf → Str
hashed c = unwrap_or_default c.path

abbrev configs : Map LocationConf
configs = (str "api", conf (some (str "/api")) none) ∷ (str "web", conf (some (str "k")) none) ∷ []

abbrev old : Map (Location literals)
old = (str "web", record web { key = str "k" }) ∷ []

abbrev reloaded : Map (Location literals) × Result Error (List Str)
reloaded = try_init_locations literals plain_http shown hashed old configs

try_init_locations-Reloaded_example :
    ((error : Error) × (reloaded.1 ≡ err error) × (reloaded.0 ≡ old))
    ⊎ ((updated : List Str) × (reloaded.1 ≡ ok updated)
        × ((name : Str)
            → Reloaded literals plain_http shown hashed old name
                (get name configs)
                none
                (get name reloaded.0)))
unfolding get
try_init_locations-Reloaded_example =
    try_init_locations-Reloaded literals plain_http shown hashed old configs (refl, (refl, tt))

-- The location with the hash in use keeps its counter, and only the other one was updated.
reload_keeps :
    (reloaded.1 ≡ ok (str "api" ∷ []))
    × (map_option (λ l. l.processing) (get (str "web") reloaded.0) ≡ some web.processing)
unfolding code
reload_keeps = (refl, refl)
