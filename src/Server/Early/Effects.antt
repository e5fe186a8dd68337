-- ===== src/Server/Early/Effects.antt =====
-- What `early_request_filter` of src/proxy/server.rs does to the map of locations and to the
-- location of the request.
use pingap.Common.{◌≡◌, refl, ap, ◌∙◌, inl, inr, true, Option, none, some, List, arith}
use pingap.Common.Text.{Str, unwrap_or_default}
use pingap.Common.Map.{Map, get, update}
use pingap.Common.Results.{ok, err, Result-cases}
use pingap.Core.Ctx.{Ctx}
use pingap.Core.Plugin.{Session, early_request}
use pingap.External.{RegexLib}
use pingap.Http.Header.{get_host}
use pingap.Location.Selector.{Error}
use pingap.Location.Route.{Location, validate_content_length, add_processing}
use pingap.Server.Plugins.Chain.{KeepsLocation, handle_request_plugin-location}
use pingap.Server.Routes.{find_location}
use pingap.Server.Routes.Choice.{
  first_match, last_known, find_location_of_match, find_location_of_no_match,
}
use pingap.Server.State.{State, accept_request}
use pingap.Server.Early.{
  Env, count_request, prepared, with_addresses, with_connection, with_digest, start_location,
  enter_location, early_request_filter,
}

module _ (rx : RegexLib) where
  -- The counters of the location that is entered.
  abbrev pub counted : Str → Map (Location rx) → Map (Location rx)
  counted key locations = update key (λ l. (add_processing rx l).0) locations

module _ (rx : RegexLib) (env : Env) where
  start_location-locations :
      (state : State rx) (l : Location rx) (session : Session) (ctx : Ctx)
      → (start_location rx env state l session ctx).state.locations ≡ state.locations
  start_location-locations state l session ctx = ground arith

  start_location-location :
      KeepsLocation env.plugins
      → (state : State rx) (l : Location rx) (session : Session) (ctx : Ctx)
      → (start_location rx env state l session ctx).ctx.location ≡ ctx.location
  start_location-location keeps state l session ctx = ground (
    arith,
    handle_request_plugin-location env.plugins early_request keeps l.plugins
        (record session { grpc_web = some true }) ctx,
    handle_request_plugin-location env.plugins early_request keeps l.plugins session ctx,
  )

  enter_location_of_ok :
      KeepsLocation env.plugins
      → (state : State rx) (session : Session) (key : Str) (l : Location rx) (ctx : Ctx)
      → validate_content_length rx env.http l session.req_header ≡ ok tt
      → let r = enter_location rx env state session (some (key, l), ctx) in
        (r.state.locations ≡ counted rx key state.locations) × (r.ctx.location ≡ ctx.location)
  unfolding enter_location
  enter_location_of_ok keeps state session key l ctx e =
      elim (Result-cases (add_processing rx l).1) [
        | inl (numbers, admitted) ↦
            rw (e, enter_location)
              (rw admitted (
                start_location-locations _ l session _,
                start_location-location keeps _ l session _,
              ))
        | inr (error, refused) ↦ rw (e, enter_location) (rw refused (refl, refl))
      ]

  enter_location_of_err :
      (state : State rx) (session : Session) (key : Str) (l : Location rx) (ctx : Ctx)
      (error : Error)
      → validate_content_length rx env.http l session.req_header ≡ err error
      → let r = enter_location rx env state session (some (key, l), ctx) in
        (r.state.locations ≡ state.locations) × (r.ctx.location ≡ ctx.location)
  unfolding enter_location
  enter_location_of_err state session key l ctx error e = ground arith

  prepared-location :
      (counted : State rx) (session : Session) (ctx : Ctx)
      → (prepared rx env counted session ctx).location ≡ ctx.location
  unfolding prepared with_addresses with_connection with_digest
  prepared-location counted session ctx = ground arith

  -- The host that the routing reads.
  abbrev pub host_of : Session → Str
  host_of session = unwrap_or_default (get_host env.http session.req_header)

  abbrev pub path_of : Session → Str
  path_of session = session.req_header.uri.path

  -- A server without locations leaves the map and the location of the context alone.
  pub early_of_unlisted :
      (state : State rx) (session : Session) (ctx : Ctx)
      → get state.server.name state.server_locations ≡ none
      → let r = early_request_filter rx env state session ctx in
        (r.state.locations ≡ state.locations) × (r.ctx.location ≡ ctx.location)
  unfolding early_request_filter count_request accept_request
  early_of_unlisted state session ctx e =
      rw (e, early_request_filter) (refl, prepared-location _ session ctx)

  module _ (state : State rx) (session : Session) (ctx : Ctx) (names : List Str) (key : Str)
      (l : Location rx) (listed : get state.server.name state.server_locations ≡ some names) where
    abbrev search : Option (Str × Location rx) × Ctx
    search =
        find_location rx state.locations (host_of session) (path_of session) names none
          (prepared rx env (count_request rx env state) session ctx)

    early_of_found :
        search.0 ≡ some (key, l)
        → early_request_filter rx env state session ctx
          ≡ enter_location rx env (count_request rx env state) session (some (key, l), search.1)
    unfolding early_request_filter
    early_of_found e =
        rw (listed, early_request_filter)
          (ap (λ o. enter_location rx env (count_request rx env state) session (o, search.1)) e)

    -- A request that matches and is not too large is counted at the location that it gets.
    pub early_of_match :
        KeepsLocation env.plugins
        → first_match rx state.locations (host_of session) (path_of session) names ≡ some (key, l)
        → validate_content_length rx env.http l session.req_header ≡ ok tt
        → let r = early_request_filter rx env state session ctx in
          (r.state.locations ≡ counted rx key state.locations) × (r.ctx.location ≡ l.name)
    unfolding count_request accept_request
    early_of_match keeps found fits =
        let (e, named, _) =
          find_location_of_match rx state.locations (host_of session) (path_of session) names none
            (prepared rx env (count_request rx env state) session ctx) key l found in
        let (counts, kept) =
          enter_location_of_ok keeps (count_request rx env state) session key l search.1 fits in
        rw (early_of_found e) (counts, kept ∙ named)

    -- One that matches and is too large gets its location and is not counted there.
    pub early_of_too_large :
        (error : Error)
        → first_match rx state.locations (host_of session) (path_of session) names ≡ some (key, l)
        → validate_content_length rx env.http l session.req_header ≡ err error
        → let r = early_request_filter rx env state session ctx in
          (r.state.locations ≡ state.locations) × (r.ctx.location ≡ l.name)
    unfolding count_request accept_request
    early_of_too_large error found large =
        let (e, named, _) =
          find_location_of_match rx state.locations (host_of session) (path_of session) names none
            (prepared rx env (count_request rx env state) session ctx) key l found in
        let (counts, kept) =
          enter_location_of_err (count_request rx env state) session key l search.1 error large in
        rw (early_of_found e) (counts, kept ∙ named)

    -- One that matches nothing gets no location and is counted at the last one of the list.
    pub early_of_no_match :
        KeepsLocation env.plugins
        → first_match rx state.locations (host_of session) (path_of session) names ≡ none
        → last_known rx state.locations names none ≡ some (key, l)
        → validate_content_length rx env.http l session.req_header ≡ ok tt
        → let r = early_request_filter rx env state session ctx in
          (r.state.locations ≡ counted rx key state.locations) × (r.ctx.location ≡ ctx.location)
    unfolding count_request accept_request
    early_of_no_match keeps missed last fits =
        let e =
          find_location_of_no_match rx state.locations (host_of session) (path_of session) names
            none (prepared rx env (count_request rx env state) session ctx) missed in
        let (counts, kept) =
          enter_location_of_ok keeps (count_request rx env state) session key l search.1 fits in
        rw (early_of_found (ap (λ r. r.0) e ∙ last))
          (counts, kept ∙ ap (λ r. r.1.location) e ∙ prepared-location _ session ctx)
