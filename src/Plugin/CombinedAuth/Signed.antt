-- ===== src/Plugin/CombinedAuth/Signed.antt =====
-- Whom the plugin combined_auth lets through: pingap-plugin/src/combined_auth.rs.
use pingap.Common.{
  ℕ, ◌+◌, ◌-◌, ◌%◌, ◌^◌, ◌<◌, ◌≤◌, ◌≡◌, ◌⊎◌, true, Option, none, some, List, [], ◌∷◌,
}
use pingap.Common.Text.{Str, str}
use pingap.Common.Map.{Map}
use pingap.Core.Ctx.{Ctx}
use pingap.Core.Plugin.{Session}
use pingap.External.{HttpLib}
use pingap.Plugin.CombinedAuth.{
  DigestLib, AuthParam, CombinedAuth, Authorization, param_of, query, ip_allowed, signature,
  parse_i64,
}
use pingap.Plugin.IpRestriction.{IpLib}

-- A time, an i64, is near now if they are at most the deviation apart. The distance is an i64 too: one
-- of 2 ^ 63 seconds counts as near, and one of more counts as what it lacks to 2 ^ 64 seconds.
abbrev pub IsNear : ℕ → ℕ → ℕ → Type 0
IsNear now time number =
    let deviation = number % 2 ^ 64 in
    ((time < 2 ^ 63) × (now ≤ time + deviation) × (time ≤ now + deviation))
    ⊎ ((2 ^ 63 ≤ time) × (now + (2 ^ 64 - time) ≤ deviation))
    ⊎ ((2 ^ 63 ≤ time)
        × ((now + (2 ^ 64 - time) ≡ 2 ^ 63)
            ⊎ ((2 ^ 63 < now + (2 ^ 64 - time)) × (2 ^ 64 ≤ now + (2 ^ 64 - time) + deviation))))

module _ (ip : IpLib) (digest : DigestLib) where
  -- One of the tables of the configuration has the name and the parameters.
  abbrev pub Configured :
      List (Option (Authorization ip digest)) → Str → AuthParam ip digest → Type 0
  Configured [] app_id param = ⊥
  Configured (none ∷ items) app_id param = Configured items app_id param
  Configured (some value ∷ items) app_id param =
      ((value.app_id ≡ app_id) × (param_of ip digest value ≡ param)) ⊎ Configured items app_id param

  module _ (http : HttpLib) (now : ℕ) (session : Session) where
    -- The request brings the digest of a time within the window, from an allowed address.
    pub record IsSigned (param : AuthParam ip digest) : Type 0 where
      pub allowed : ip_allowed ip digest http param.ip_rules session ≡ true
      pub time : ℕ
      pub read : parse_i64 (query ip digest session (str "ts")) ≡ some time
      pub near : IsNear now time param.deviation
      pub signed :
          digest.to_lowercase (query ip digest session (str "digest"))
          ≡ signature ip digest param (query ip digest session (str "ts"))
