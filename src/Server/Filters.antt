-- ===== src/Server/Filters.antt =====
-- The handlers of src/proxy/server.rs between the routing of a request and its end: the request
-- filter, the choice of the upstream's peer, and the filter of the request's body. The metrics and
-- the tracing of the feature `full` are left out. Each handler looks its location up again.
pub mod Admission
pub mod Peers
use pingap.Common.{ℕ, ◌+◌, ◌%◌, ◌^◌, Bool, true, false, Option, none, some, List, [], ◌∷◌, ◌++◌}
use pingap.Common.Tests.{if◌then◌else◌}
use pingap.Common.Text.{Str, str, unwrap_or_default}
use pingap.Common.Lists.{length}
use pingap.Common.Map.{Map, update}
use pingap.Common.Results.{Result, ok, err}
use pingap.Core.Ctx.{Ctx}
use pingap.Core.Plugin.{
  request, proxy_upstream, HttpResponse, default_response, Failure, new_internal_error, Session,
}
use pingap.External.{RegexLib}
use pingap.Http.Header.{get_host}
use pingap.Location.Selector.{Error}
use pingap.Location.Registry.{get_location}
use pingap.Location.Route.{Location, client_body_size_limit, rewrite}
use pingap.Server.Early.{Env}
use pingap.Server.Logging.{resolved_name, get_upstream_with_variables}
use pingap.Server.Plugins.{Ran, handle_request_plugin}
use pingap.Server.State.{State}
use pingap.Upstream.Peer.{Upstream, HttpPeer, new_http_peer}
use pingap.Util.Datetime.{get_latency}

-- The name of the admin plugin, if the server serves the admin interface, and the handler of the challenges of Let's
-- Encrypt, which is none where the storage of the configuration is missing, if that is on.
pub record Front : Type 0 where
  pub admin : Option Str
  pub lets_encrypt : Option (Option (Session → Ctx → Ran))

-- A handler that answers the request ends the filter.
abbrev pub unless_done : (Session → Ctx → Ran) → Ran → Ran
unless_done next (session, ctx, err e) = (session, ctx, err e)
unless_done next (session, ctx, ok true) = (session, ctx, ok true)
unless_done next (session, ctx, ok false) = next session ctx

abbrev pub unknown_error : Str → HttpResponse
unknown_error body = record default_response {
  status = 500;
  body = body;
  headers = some ((str "cache-control", str "private, no-store") ∷ []);
}

module _ (rx : RegexLib) (env : Env) where
  abbrev sent : Ctx → Session × Result Failure (Unit {0}) → Ran
  sent ctx (session, ok _) = (session, ctx, ok true)
  sent ctx (session, err e) = (session, ctx, err e)

  abbrev not_found_text : Session → Str
  not_found_text session =
      str "Location not found, host:"
      ++ unwrap_or_default (get_host env.http session.req_header)
      ++ str " path:"
      ++ session.req_header.uri.path

  -- The location's part of the filter: the path is rewritten, then the plugins run.
  unfoldable pub route_request : Map (Location rx) → Session → Ctx → Ran
  route_request locations session ctx = elim (get_location rx ctx.location locations) [
    | none ↦ sent ctx (env.plugins.send (unknown_error (not_found_text session)) session)
    | some location ↦
        let (header, rewritten) = rewrite rx env.http location session.req_header ctx.variables in
        handle_request_plugin env.plugins request location.plugins
          (record session { req_header = header }) ctx
  ]

  abbrev served : Session × Ctx × Result Failure (Bool × Option HttpResponse) → Ran
  served (session, ctx, err e) = (session, ctx, err e)
  served (session, ctx, ok (executed, none)) = (session, ctx, ok false)
  served (session, ctx, ok (executed, some resp)) =
      sent (record ctx { status = some resp.status }) (env.plugins.send resp session)

  unfoldable pub serve_admin : Str → Session → Ctx → Ran
  serve_admin name session ctx = elim (env.plugins.get_plugin name) [
    | none ↦ (session, ctx, ok false)
    | some plugin ↦ served (plugin.handle_request request session ctx)
  ]

  abbrev try_admin : Option Str → Session → Ctx → Ran
  try_admin none session ctx = (session, ctx, ok false)
  try_admin (some name) session ctx = serve_admin name session ctx

  abbrev answer_challenge : Option (Option (Session → Ctx → Ran)) → Session → Ctx → Ran
  answer_challenge none session ctx = (session, ctx, ok false)
  answer_challenge (some none) session ctx =
      (session, ctx, err (new_internal_error 500 (str "get config storage fail")))
  answer_challenge (some (some handler)) session ctx = handler session ctx

  unfoldable pub request_filter : Front → Map (Location rx) → Session → Ctx → Ran
  request_filter front locations session ctx =
      unless_done
        (λ session ctx.
          unless_done (route_request locations) (answer_challenge front.lets_encrypt session ctx))
        (try_admin front.admin session ctx)

  abbrev go_upstream : Ran → Ran
  go_upstream (session, ctx, err e) = (session, ctx, err e)
  go_upstream (session, ctx, ok true) = (session, ctx, ok false)
  go_upstream (session, ctx, ok false) = (session, ctx, ok true)

  -- Whether the request goes on to the upstream.
  unfoldable pub proxy_upstream_filter : Map (Location rx) → Session → Ctx → Ran
  proxy_upstream_filter locations session ctx = elim (get_location rx ctx.location locations) [
    | none ↦ (session, ctx, ok true)
    | some location ↦
        go_upstream (handle_request_plugin env.plugins proxy_upstream location.plugins session ctx)
  ]

  abbrev no_upstream : Str → Result Failure HttpPeer
  no_upstream name = err (new_internal_error 503 (str "No available upstream for " ++ name))

  abbrev or_no_upstream : Str → Option HttpPeer → Result Failure HttpPeer
  or_no_upstream name none = no_upstream name
  or_no_upstream name (some peer) = ok peer

  abbrev with_address : Ctx → Option HttpPeer → Ctx
  with_address ctx none = ctx
  with_address ctx (some peer) = record ctx {
    upstream_address = peer.address;
    upstream_connect_time = get_latency env.now_ms ctx.upstream_connect_time;
  }

  -- `select` is the load balancer of each upstream.
  unfoldable pub upstream_peer :
      (Str → Str → Option Str) → State rx → Session → Ctx → State rx × Ctx × Result Failure HttpPeer
  upstream_peer select state session ctx = elim (get_location rx ctx.location state.locations) [
    | none ↦ (state, ctx, no_upstream (str "unknown"))
    | some location ↦ elim (get_upstream_with_variables location.upstream ctx state.upstreams) [
      | none ↦ (state, ctx, no_upstream location.name)
      | some up ↦
          let peer = (new_http_peer env.http (select up.name) up session ctx.client_ip).1 in
          (
            record state {
              upstreams =
                  update (resolved_name location.upstream ctx)
                    (λ u. (new_http_peer env.http (select up.name) u session ctx.client_ip).0)
                    state.upstreams;
            },
            record (with_address (record ctx { upstream_connected = up.connected }) peer) {
              upstream = up.name;
            },
            or_no_upstream location.name peer,
          )
    ]
  ]

  abbrev limited : Ctx → Result Error (Unit {0}) → Ctx × Result Failure (Unit {0})
  limited ctx (ok _) = (ctx, ok tt)
  limited ctx (err e) = (ctx, err (new_internal_error 413 (env.show e)))

  abbrev count_body : Map (Location rx) → Ctx → Ctx × Result Failure (Unit {0})
  count_body locations ctx = elim (get_location rx ctx.location locations) [
    | none ↦ (ctx, ok tt)
    | some location ↦ limited ctx (client_body_size_limit rx location ctx.payload_size)
  ]

  -- A part of the body, by its size; the sum is one of 64 bits.
  unfoldable pub request_body_filter :
      Map (Location rx) → Option ℕ → Ctx → Ctx × Result Failure (Unit {0})
  request_body_filter locations none ctx = (ctx, ok tt)
  request_body_filter locations (some size) ctx =
      count_body locations (record ctx { payload_size = (ctx.payload_size + size) % 2 ^ 64 })
