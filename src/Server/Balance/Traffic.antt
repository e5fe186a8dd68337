-- ===== src/Server/Balance/Traffic.antt =====
-- Many requests, in any interleaving of their starts and ends: `early_request_filter` and
-- `logging` of src/proxy/server.rs as the steps of a server, between two reloads.
use pingap.Common.{
  ◌^◌, ◌%◌, ◌≡◌, refl, ◌∙◌, inl, inr, Option, none, some, List, [], ◌∷◌, ◌++◌, arith,
}
use pingap.Common.Tests.{Option-cases}
use pingap.Common.Text.{Str, str_eq_iff}
use pingap.Common.Lists.{length}
use pingap.Common.Map.{get}
use pingap.Common.Results.{ok}
use pingap.Core.Ctx.{Ctx}
use pingap.Core.Plugin.{Session}
use pingap.External.{RegexLib}
use pingap.Location.Route.{Location, validate_content_length}
use pingap.Server.Balance.{logging-locations}
use pingap.Server.Balance.Single.{known_as}
use pingap.Server.Early.{Env, count_request, enter_location, early_request_filter}
use pingap.Server.Early.Effects.{host_of, path_of, early_of_match, early_of_unlisted}
use pingap.Server.Logging.{logging}
use pingap.Server.Plugins.Chain.{KeepsLocation}
use pingap.Server.Routes.Choice.{first_match}
use pingap.Server.State.{State, accept_request, end_request}
use pingap.Server.Balance.Counts.{length-append, Counts, counted-Counts, leave_location-Counts}

module _ (rx : RegexLib) where
  -- The number of requests under way, of the server and of the process.
  abbrev CountsAll : State rx → List Str → Type 0
  CountsAll state flying =
      (state.server.processing ≡ length flying % 2 ^ 32)
      × (state.processing ≡ length flying % 2 ^ 32)

  pub record IsBalanced (state : State rx) (flying : List Str) : Type 0 where
    pub counts : Counts rx state.locations flying
    pub counts_all : CountsAll state flying

module _ (rx : RegexLib) (env : Env) where
  -- One handler of one request; `flying` has the location of each request under way.
  pub data Step : State rx → List Str → State rx → List Str → Type 0 where
    -- A request that a location matches and whose declared body is not too large starts.
    arrives :
        (state : State rx) (flying : List Str) (session : Session) (ctx : Ctx) (names : List Str)
        (key : Str) (l : Location rx)
        → get state.server.name state.server_locations ≡ some names
        → first_match rx state.locations (host_of rx env session) (path_of rx env session) names
          ≡ some (key, l)
        → validate_content_length rx env.http l session.req_header ≡ ok tt
        → Step state flying
            (early_request_filter rx env state session ctx).state
            ((early_request_filter rx env state session ctx).ctx.location ∷ flying)
    -- One of a server without locations starts.
    passes :
        (state : State rx) (flying : List Str) (session : Session) (ctx : Ctx)
        → get state.server.name state.server_locations ≡ none
        → ctx.location ≡ []
        → Step state flying
            (early_request_filter rx env state session ctx).state
            ((early_request_filter rx env state session ctx).ctx.location ∷ flying)
    -- Any of those under way ends.
    ends :
        (state : State rx) (pre post : List Str) (session : Session) (ctx : Ctx)
        → Step state (pre ++ ctx.location ∷ post) (logging rx state session ctx).0 (pre ++ post)

  pub data Reach (state : State rx) (flying : List Str) : State rx → List Str → Type 0 where
    start : Reach state flying state flying
    next :
        {mid after : State rx} {up up' : List Str}
        → Reach state flying mid up
        → Step mid up after up'
        → Reach state flying after up'

  enter_location-all :
      (state : State rx) (session : Session) (current : Option (Str × Location rx) × Ctx)
      → ((enter_location rx env state session current).state.server ≡ state.server)
        × ((enter_location rx env state session current).state.processing ≡ state.processing)
  unfolding enter_location
  enter_location-all state session (none, ctx) = (refl, refl)
  enter_location-all state session (some (key, l), ctx) = ground arith

  early_request_filter-all :
      (state : State rx) (session : Session) (ctx : Ctx)
      → let after = (early_request_filter rx env state session ctx).state in
        (after.server ≡ (count_request rx env state).server)
        × (after.processing ≡ (count_request rx env state).processing)
  unfolding early_request_filter
  early_request_filter-all state session ctx =
      elim (Option-cases (get state.server.name state.server_locations)) [
        | inl unlisted ↦ rw (unlisted, early_request_filter) (refl, refl)
        | inr (names, listed) ↦
            rw (listed, early_request_filter)
              (enter_location-all (count_request rx env state) session _)
      ]

  arrives-all :
      (state : State rx) (flying : List Str) (session : Session) (ctx : Ctx) (at : Str)
      → CountsAll rx state flying
      → CountsAll rx (early_request_filter rx env state session ctx).state (at ∷ flying)
  unfolding count_request accept_request
  arrives-all state flying session ctx at h =
      ground (arith, early_request_filter-all state session ctx)

  ends-all :
      (state : State rx) (pre post : List Str) (session : Session) (ctx : Ctx)
      → CountsAll rx state (pre ++ ctx.location ∷ post)
      → CountsAll rx (logging rx state session ctx).0 (pre ++ post)
  unfolding logging end_request
  ends-all state pre post session ctx h =
      let longer = length-append pre post ctx.location in ground arith

  -- With a sound map, a step keeps the counters right.
  Step-IsBalanced :
      KeepsLocation env.plugins
      → (state : State rx) (flying : List Str) (after : State rx) (flying' : List Str)
      → Step state flying after flying'
      → IsBalanced rx state flying
      → IsBalanced rx after flying'
  Step-IsBalanced keeps s f a f' (arrives state flying session ctx names key l listed found fits)
        h =
      let (known, nonempty) = known_as rx env s session ctx names key l listed found in
      let (counts, at) = early_of_match rx env s session ctx names key l listed keeps found fits in
      record {
        counts =
            rw (counts, at ∙ (h.counts key l nonempty known).0)
              (counted-Counts rx key s.locations f h.counts);
        counts_all = arrives-all s f session ctx [] h.counts_all;
      }
  Step-IsBalanced keeps s f a f' (passes state flying session ctx unlisted fresh) h =
      let (same, at) = early_of_unlisted rx env s session ctx unlisted in
      record {
        counts =
            rw (same, at ∙ fresh)
              (λ j l named known. ground (arith, h.counts j l named known, str_eq_iff [] j));
        counts_all = arrives-all s f session ctx [] h.counts_all;
      }
  Step-IsBalanced keeps s f a f' (ends state pre post session ctx) h = record {
    counts =
        rw (logging-locations rx s session ctx)
          (leave_location-Counts rx ctx s.locations pre post h.counts);
    counts_all = ends-all s pre post session ctx h.counts_all;
  }

  -- Requests start and end in any order: those of a server with locations that a location matches
  -- and whose declared body is not too large for it, or those of a server without locations, where the
  -- context has no location yet. Then the counter of every location stays the number of the requests
  -- under way there, and the counters of the server and of the process the number of all requests
  -- under way, modulo 2 ^ 32. Requests that no location matches or that are too large are not among
  -- them, and the plugins keep the location of the context.
  pub Reach-IsBalanced :
      (state : State rx) (flying : List Str) (after : State rx) (flying' : List Str)
      → KeepsLocation env.plugins
      → IsBalanced rx state flying
      → Reach state flying after flying'
      → IsBalanced rx after flying'
  Reach-IsBalanced state flying a f' keeps h start = h
  Reach-IsBalanced state flying a f' keeps h (next {mid} {up = up} reach step) =
      Step-IsBalanced keeps mid up a f' step (Reach-IsBalanced state flying mid up keeps h reach)
