-- ===== src/Server/Balance.antt =====
-- The request counters over the life of a request, from `early_request_filter` to `logging` of
-- src/proxy/server.rs, for the counter of requests under way of each location.
pub mod Counts
pub mod Single
pub mod Traffic
use pingap.Common.{
  ℕ, ◌^◌, ◌<◌, ◌≡◌, ◌≢◌, refl, inl, inr, Bool, true, false, Option, none, some, List, [], ◌∷◌,
  arith,
}
use pingap.Common.Tests.{Bool-cases, Option-cases, if◌then◌else◌}
use pingap.Common.Text.{Str, str_eq, str_eq_iff}
use pingap.Common.Map.{Map, get, update, map_option, get-update}
use pingap.Common.Words.{inc32, dec32}
use pingap.Core.Ctx.{Ctx}
use pingap.Core.Plugin.{Session}
use pingap.External.{RegexLib}
use pingap.Location.Registry.{get_location}
use pingap.Location.Route.{Location, add_processing, sub_processing}
use pingap.Server.Early.Effects.{counted}
use pingap.Server.Logging.{leave_location, logging}
use pingap.Server.State.{State, end_request}

module _ (rx : RegexLib) where
  -- The map keeps each location under its own name, and its counters are bit patterns.
  pub record IsSound (locations : Map (Location rx)) : Type 0 where
    pub named : (k : Str) (l : Location rx) → get k locations ≡ some l → l.name ≡ k
    pub bounded : (k : Str) (l : Location rx) → get k locations ≡ some l → l.processing < 2 ^ 32

  abbrev pub processing_of : Str → Map (Location rx) → Option ℕ
  processing_of k locations = map_option (λ l. l.processing) (get k locations)

  pub processing_of-counted :
      (j key : Str) (locations : Map (Location rx))
      → processing_of j (counted rx key locations) ≡ (
          if str_eq key j
          then map_option inc32 (processing_of j locations)
          else processing_of j locations)
  unfolding add_processing
  processing_of-counted j key locations =
      ground (arith, get-update key j (λ l. (add_processing rx l).0) locations)

  pub get_location-eq-some :
      (k : Str) (l : Location rx) (locations : Map (Location rx))
      → get_location rx k locations ≡ some l
      → (get k locations ≡ some l) × (k ≢ [])
  unfolding get_location
  get_location-eq-some [] l locations e = absurd (ground arith)
  get_location-eq-some (c ∷ k) l locations e = (e, λ h. cc)

  pub processing_of-leave_location :
      (j : Str) (ctx : Ctx) (locations : Map (Location rx))
      → ctx.location ≢ []
      → processing_of j (leave_location rx ctx locations) ≡ (
          if str_eq ctx.location j
          then map_option dec32 (processing_of j locations)
          else processing_of j locations)
  unfolding leave_location get_location sub_processing
  processing_of-leave_location j ctx locations h =
      ground
        (arith, get-update ctx.location j (sub_processing rx) locations, str_eq_iff ctx.location j)

  pub leave_location_of_no_location :
      (ctx : Ctx) (locations : Map (Location rx))
      → ctx.location ≡ []
      → leave_location rx ctx locations ≡ locations
  unfolding leave_location get_location
  leave_location_of_no_location ctx locations e = rw (e, leave_location)

  pub logging-locations :
      (state : State rx) (session : Session) (ctx : Ctx)
      → (logging rx state session ctx).0.locations ≡ leave_location rx ctx state.locations
  unfolding logging end_request
  logging-locations state session ctx = ground arith
