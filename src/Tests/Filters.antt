-- ===== src/Tests/Filters.antt =====
-- The handlers between routing and the end of a request on concrete requests:
-- src/proxy/server.rs and pingap-upstream/src/upstream.rs.
use pingap.Common.{◌+◌, ◌≤◌, ◌≡◌, ◌↔◌, ◌⊎◌, inr, refl, Option, none, some, [], ◌∷◌, false, arith}
use pingap.Common.Text.{Str, str, starts_with, split, trim}
use pingap.Common.Map.{get, update}
use pingap.Common.Results.{ok, err}
use pingap.Core.Ctx.{Ctx, new_ctx, get_variable}
use pingap.Core.Plugin.{Session}
use pingap.Http.Header.{get_host}
use pingap.Location.Registry.{get_location}
use pingap.Location.Route.{client_body_size_limit, rewrite}
use pingap.Server.Filters.{request_filter, route_request, request_body_filter, upstream_peer}
use pingap.Server.Filters.Admission.{receive, total, receive-total}
use pingap.Server.Filters.Peers.{attempts, processing_of_upstream, Resolves, logging-attempts}
use pingap.Server.Logging.{logging, resolved_name, get_upstream_with_variables, leave_location}
use pingap.Server.Plugins.{handle_request_plugin}
use pingap.Server.State.{State, end_request}
use pingap.Tests.Fixtures.{literals, env, base_location, locations, state, ask}
use pingap.Upstream.Peer.{
  Upstream, round_robin, new_http_peer, get_upstream, completed, get_client_ip,
}

code : Unit {0}
unfolding starts_with split trim get update get_host get_location client_body_size_limit rewrite
    request_filter route_request request_body_filter upstream_peer logging resolved_name
    get_upstream_with_variables leave_location handle_request_plugin end_request new_http_peer
    get_upstream completed get_variable get_client_ip
code = tt

abbrev at_api : Ctx
at_api = record new_ctx { location = str "api" }

receive-total_example : ((receive literals env locations (4 ∷ 6 ∷ []) at_api).1 ≡ ok tt) ↔ (
    (base_location.client_max_body_size ≡ 0)
    ⊎ (at_api.payload_size + total literals env locations (4 ∷ 6 ∷ [])
        ≤ base_location.client_max_body_size))
unfolding code
receive-total_example =
    receive-total literals env locations (4 ∷ 6 ∷ []) at_api base_location refl (omega arith)
      (inr (omega arith))

receive_tests :
    ((receive literals env locations (4 ∷ 6 ∷ []) at_api).1 ≡ ok tt)
    × ((receive literals env locations (4 ∷ 7 ∷ []) at_api).1
        ≡ err (record { status = 413; message = [] }))
unfolding code
receive_tests = (refl, refl)

abbrev visit : Session
visit = ask (str "/api/x") []

abbrev backend : Upstream
backend = record {
  name = str "backend";
  lb = round_robin;
  hash = [];
  hash_key = [];
  tls = false;
  sni = [];
  connected = none;
  processing = 5;
}

abbrev with_backend : State literals
with_backend = record state { upstreams = (str "backend", backend) ∷ [] }

abbrev select : Str → Str → Option Str
select name key = some (str "10.0.0.1:80")

abbrev twice : State literals × Ctx
twice = attempts literals env select 2 with_backend visit at_api

resolves : Resolves literals env select with_backend at_api base_location backend
unfolding code
resolves = record { located = refl; named = refl; known = refl }

logging-attempts_example :
    processing_of_upstream literals env select
      (str "backend")
      (logging literals twice.0 visit twice.1).0
    ≡ some 6
unfolding code
logging-attempts_example =
    logging-attempts literals env select 1 with_backend visit visit at_api twice.1 base_location
      backend resolves (omega arith) refl refl

-- The first address of the header counts.
client_ip_tests :
    (get_client_ip env.http (ask [] ((str "x-forwarded-for", str " 1.2.3.4, 5.6.7.8") ∷ []))
      ≡ str "1.2.3.4")
    × (get_client_ip env.http (ask [] ((str "x-real-ip", str "9.9.9.9") ∷ [])) ≡ str "9.9.9.9")
unfolding code
client_ip_tests = (refl, refl)
