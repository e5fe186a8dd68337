-- ===== src/Server/Responses/Caching.antt =====
-- How long a response is kept: `response_cache_filter` of src/proxy/server.rs.
use pingap.Common.{
  ℕ, ◌/◌, ◌%◌, ◌^◌, ◌≤◌, ◌<◌, ◌≡◌, refl, inl, inr, ◌⊎◌, false, ◌&&◌, none, some, arith,
}
use pingap.Common.Tests.{ltb, Bool-cases, Option-cases}
use pingap.Common.Text.{str}
use pingap.Common.Map.{get}
use pingap.Core.Ctx.{Ctx}
use pingap.Core.Plugin.{ResponseHeader}
use pingap.Server.Responses.{CacheLib, or_zero, is_missing, forbids, limited, response_cache_filter}

-- What the crate pingora-cache does with the directive s-maxage, a u32: it is the time for which a
-- response is fresh, unless the cache control has no-cache.
pub record IsCacheLib (lib : CacheLib) : Type 0 where
  pub fresh :
      (seconds : ℕ) (c : lib.CacheControl)
      → lib.no_cache c ≡ false
      → seconds < 2 ^ 32
      → lib.fresh_sec (lib.set_s_maxage seconds c) ≡ some seconds

module _ (lib : CacheLib) (laws : IsCacheLib lib) (resp : ResponseHeader) (ctx : Ctx) where
  limited-fresh :
      (ttl : ℕ) (c : lib.CacheControl)
      → forbids lib c ≡ false
      → ttl / 1000 < 2 ^ 32
      → or_zero (lib.fresh_sec (limited lib (some ttl) c)) ≤ ttl / 1000
  limited-fresh ttl c allowed small =
      let cached : lib.no_cache c ≡ false = ground arith in
      elim (Bool-cases (ltb (ttl / 1000 % 2 ^ 32) (or_zero (lib.fresh_sec c)))) [
        | inl long ↦ rw (long, laws.fresh (ttl / 1000) c cached small) (omega arith)
        | inr short ↦ rw short (ground (arith, short))
      ]

  -- A response is not kept, or it is kept by a cache control that allows it and is fresh no longer
  -- than the longest time that is configured, if that is less than 2 ^ 32 seconds; without a cache
  -- control pingora decides.
  pub response_cache_filter-fresh :
      (ttl : ℕ)
      → ctx.cache_max_ttl ≡ some ttl
      → ttl / 1000 < 2 ^ 32
      → (response_cache_filter lib resp ctx ≡ lib.origin_not_cache)
        ⊎ ((response_cache_filter lib resp ctx ≡ lib.resp_cacheable none resp)
            × (lib.from_resp_headers resp ≡ none))
        ⊎ ((c kept : lib.CacheControl) × (lib.from_resp_headers resp ≡ some c)
            × (forbids lib c ≡ false)
            × (response_cache_filter lib resp ctx ≡ lib.resp_cacheable (some kept) resp)
            × (or_zero (lib.fresh_sec kept) ≤ ttl / 1000))
  unfolding response_cache_filter
  response_cache_filter-fresh ttl configured small =
      elim (Bool-cases
        (ctx.check_cache_control && is_missing (get (str "cache-control") resp.headers))) [
          | inl unnamed ↦ inl (rw (response_cache_filter, unnamed) refl)
          | inr checked ↦ elim (Option-cases (lib.from_resp_headers resp)) [
            | inl silent ↦ inr (inl (rw (response_cache_filter, checked, silent) refl, silent))
            | inr (c, read) ↦ elim (Bool-cases (forbids lib c)) [
              | inl forbidden ↦ inl (rw (response_cache_filter, checked, read, forbidden) refl)
              | inr allowed ↦ inr (
                  inr (
                    c,
                    limited lib (some ttl) c,
                    read,
                    allowed,
                    rw (response_cache_filter, checked, read, allowed, configured) refl,
                    limited-fresh ttl c allowed small,
                  ))
            ]
          ]
        ]
