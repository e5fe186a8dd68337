-- ===== src/Server/Logging.antt =====
-- `Server::logging` of src/proxy/server.rs, the last handler of every request: the counters. The
-- access log, the metrics and the tracing of the feature `full` are left out.
use pingap.Common.{ℕ, Option, none, some}
use pingap.Common.Tests.{if◌then◌else◌}
use pingap.Common.Text.{Str, str, starts_with}
use pingap.Common.Map.{Map, update}
use pingap.Common.Words.{dec32}
use pingap.Core.Ctx.{Ctx, get_variable}
use pingap.Core.Plugin.{Session}
use pingap.External.{RegexLib}
use pingap.Location.Registry.{get_location}
use pingap.Location.Route.{Location, sub_processing}
use pingap.Server.State.{State, end_request}
use pingap.Upstream.Peer.{Upstream, completed, get_upstream}

-- A name with a dollar sign is a variable of the request, if there is one.
unfoldable pub resolved_name : Str → Ctx → Str
resolved_name upstream ctx =
    if starts_with upstream (str "$")
    then elim (get_variable ctx upstream) [ none ↦ upstream | some value ↦ value ]
    else upstream

unfoldable pub get_upstream_with_variables : Str → Ctx → Map Upstream → Option Upstream
get_upstream_with_variables upstream ctx upstreams =
    get_upstream (resolved_name upstream ctx) upstreams

module _ (rx : RegexLib) where
  unfoldable pub leave_location : Ctx → Map (Location rx) → Map (Location rx)
  leave_location ctx locations = elim (get_location rx ctx.location locations) [
    | none ↦ locations
    | some _ ↦ update ctx.location (sub_processing rx) locations
  ]

  -- The state and the context after the last handler.
  unfoldable pub logging : State rx → Session → Ctx → State rx × Ctx
  logging state session ctx =
      let left = record (end_request rx state) {
        server = record (state.server) { processing = dec32 state.server.processing };
        locations = leave_location ctx state.locations;
      } in
      let status : Option ℕ = elim ctx.status [
        | some s ↦ some s
        | none ↦ session.response_written
      ] in
      elim (get_upstream_with_variables ctx.upstream ctx state.upstreams) [
        | none ↦ (left, record ctx { status = status })
        | some upstream ↦ (
          record left {
            upstreams = update (resolved_name ctx.upstream ctx) completed state.upstreams;
          },
          record ctx { upstream_processing = some upstream.processing; status = status },
        )
      ]
