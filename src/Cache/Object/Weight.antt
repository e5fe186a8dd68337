-- ===== src/Cache/Object/Weight.antt =====
-- The weight of a cached object in a memory cache: pingap-cache/src/http_cache.rs.
use pingap.Common.{ℕ, ◌+◌, ◌*◌, ◌/◌, ◌^◌, ◌<◌, ◌≤◌, ◌≡◌, arith}
use pingap.Common.Lists.{length}
use pingap.Cache.Object.{CacheObject, get_weight}

-- The number of bytes that an object holds.
abbrev pub size : CacheObject → ℕ
size o = length o.body + length o.meta.0 + length o.meta.1

-- A weight is at least one and fits in 16 bits, it counts the whole pages of an object of one page
-- to 40 MiB, without loss in the cast, and a larger object never has a smaller weight.
pub get_weight_mono :
    (o p : CacheObject)
    → size o ≤ size p
    → (get_weight o ≤ get_weight p)
      × (1 ≤ get_weight o)
      × (get_weight o < 2 ^ 16)
      × (4096 < size o → size o < 10 * 1024 * 4096 → get_weight o ≡ size o / 4096)
unfolding get_weight
get_weight_mono o p h = (ground arith, ground arith, ground arith, ground arith)
