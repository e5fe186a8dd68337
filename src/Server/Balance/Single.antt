-- ===== src/Server/Balance/Single.antt =====
-- One request: the counter of its location before its start, in `early_request_filter`, and after
-- its end, in `logging`, of src/proxy/server.rs.
use pingap.Common.{◌≡◌, ◌≢◌, ◌∙◌, inl, inr, none, some, List, [], arith}
use pingap.Common.Tests.{Option-cases}
use pingap.Common.Text.{Str, str_eq_iff}
use pingap.Common.Map.{Map, get}
use pingap.Common.Results.{ok, err}
use pingap.Common.Words.{inc32, dec32, dec32-inc32}
use pingap.Core.Ctx.{Ctx}
use pingap.Core.Plugin.{Session}
use pingap.External.{RegexLib}
use pingap.Location.Route.{Location, validate_content_length}
use pingap.Location.Selector.{Error}
use pingap.Server.Balance.{
  IsSound, processing_of, processing_of-counted, get_location-eq-some, processing_of-leave_location,
  leave_location_of_no_location, logging-locations,
}
use pingap.Server.Early.{Env, early_request_filter}
use pingap.Server.Early.Effects.{
  counted, host_of, path_of, early_of_match, early_of_too_large, early_of_no_match,
}
use pingap.Server.Logging.{leave_location, logging}
use pingap.Server.Plugins.Chain.{KeepsLocation}
use pingap.Server.Routes.Choice.{first_match, last_known, find_location_of_match, last_known-known}
use pingap.Server.State.{State}

module _ (rx : RegexLib) where
  -- Entering and leaving a location gives its counter back.
  counted-leave :
      (locations : Map (Location rx)) (key : Str) (ctx : Ctx)
      → IsSound rx locations
      → key ≢ []
      → ctx.location ≡ key
      → (j : Str)
      → processing_of rx j (leave_location rx ctx (counted rx key locations))
        ≡ processing_of rx j locations
  counted-leave locations key ctx sound nonempty at_key j =
      let left =
        processing_of-leave_location rx j ctx (counted rx key locations) (λ e. nonempty cc) in
      let entered = processing_of-counted rx j key locations in
      elim (Option-cases (get j locations)) [
        | inl missing ↦ ground arith
        | inr (l, known) ↦
            let restored = dec32-inc32 l.processing (sound.bounded j l known) in ground arith
      ]

module _ (rx : RegexLib) (env : Env) (state : State rx) (session : Session) (ctx : Ctx)
    (names : List Str) (key : Str) (l : Location rx)
    (listed : get state.server.name state.server_locations ≡ some names) where
  pub known_as :
      first_match rx state.locations (host_of rx env session) (path_of rx env session) names
        ≡ some (key, l)
      → (get key state.locations ≡ some l) × (key ≢ [])
  known_as found =
      let (_, _, known) =
        find_location_of_match rx state.locations (host_of rx env session) (path_of rx env session)
          names none ctx key l found in
      get_location-eq-some rx key l state.locations known

  -- A request that a location matches and whose declared body is not too large leaves the counter
  -- of every location as it found it: what `early_request_filter` adds, `logging` takes back, also
  -- where the location or a plugin refuses the request; the handlers between keep the location of
  -- the context, as the plugins do.
  pub logging-early_request_filter :
      (session' : Session) (ctx' : Ctx)
      → KeepsLocation env.plugins
      → IsSound rx state.locations
      → first_match rx state.locations (host_of rx env session) (path_of rx env session) names
        ≡ some (key, l)
      → validate_content_length rx env.http l session.req_header ≡ ok tt
      → ctx'.location ≡ (early_request_filter rx env state session ctx).ctx.location
      → (j : Str)
      → processing_of rx j
          (logging rx
            (early_request_filter rx env state session ctx).state
            session'
            ctx').0.locations
        ≡ processing_of rx j state.locations
  logging-early_request_filter session' ctx' keeps sound found fits kept j =
      let (known, nonempty) = known_as found in
      let (counts, at) =
        early_of_match rx env state session ctx names key l listed keeps found fits in
      rw (logging-locations rx _ session' ctx', counts)
        (counted-leave rx state.locations key ctx' sound nonempty
          (kept ∙ at ∙ sound.named key l known) j)

  -- A request that is refused for its declared size was not counted, and `logging` takes one off
  -- the counter of its location all the same: from zero it wraps around to minus one.
  pub logging-early_request_filter_of_too_large :
      (session' : Session) (ctx' : Ctx) (error : Error)
      → IsSound rx state.locations
      → first_match rx state.locations (host_of rx env session) (path_of rx env session) names
        ≡ some (key, l)
      → validate_content_length rx env.http l session.req_header ≡ err error
      → ctx'.location ≡ (early_request_filter rx env state session ctx).ctx.location
      → processing_of rx key
          (logging rx
            (early_request_filter rx env state session ctx).state
            session'
            ctx').0.locations
        ≡ some (dec32 l.processing)
  logging-early_request_filter_of_too_large session' ctx' error sound found large kept =
      let (known, nonempty) = known_as found in
      let (counts, at) =
        early_of_too_large rx env state session ctx names key l listed error found large in
      let at_key = kept ∙ at ∙ sound.named key l known in
      let left = processing_of-leave_location rx key ctx' state.locations (λ e. nonempty cc) in
      rw (logging-locations rx _ session' ctx', counts)
        (ground (arith, str_eq_iff ctx'.location key))

  -- A request that no location of its server matches, and whose declared body is not too large for
  -- the last location of the list that exists, is counted at that location, and `logging`, which
  -- has no location to look up, does not take it back: the location's count of requests under way
  -- stays one too high for good. The context has no location before, and no plugin changes it.
  pub logging-early_request_filter_of_no_match :
      (session' : Session) (ctx' : Ctx)
      → KeepsLocation env.plugins
      → first_match rx state.locations (host_of rx env session) (path_of rx env session) names
        ≡ none
      → last_known rx state.locations names none ≡ some (key, l)
      → validate_content_length rx env.http l session.req_header ≡ ok tt
      → ctx.location ≡ []
      → ctx'.location ≡ (early_request_filter rx env state session ctx).ctx.location
      → processing_of rx key
          (logging rx
            (early_request_filter rx env state session ctx).state
            session'
            ctx').0.locations
        ≡ some (inc32 l.processing)
  logging-early_request_filter_of_no_match session' ctx' keeps missed last fits fresh kept =
      let (counts, at) =
        early_of_no_match rx env state session ctx names key l listed keeps missed last fits in
      let (known, nonempty) =
        get_location-eq-some rx key l state.locations
          (last_known-known rx state.locations key l names last) in
      let entered = processing_of-counted rx key key state.locations in
      rw
        (
          logging-locations rx _ session' ctx',
          counts,
          leave_location_of_no_location rx ctx' (counted rx key state.locations)
              (kept ∙ at ∙ fresh),
        )
        (ground (arith, str_eq_iff key key))
