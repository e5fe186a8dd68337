-- ===== src/Logger/Entry/Time.antt =====
-- The time of a line of the access log: pingap-logger/src/access.rs.
use pingap.Common.{◌≡◌, ◌⊎◌, List, [], ◌∷◌}
use pingap.Core.Ctx.{Ctx}
use pingap.Logger.Format.{when, when_utc_iso, when_unix, latency, latency_human, Tag}

-- One of the tags prints the time of the line, or the time since the request came.
abbrev pub PrintsTime : List Tag → Type 0
PrintsTime [] = ⊥
PrintsTime (tag ∷ tags) =
    (tag.category ≡ when)
    ⊎ (tag.category ≡ when_utc_iso)
    ⊎ (tag.category ≡ when_unix)
    ⊎ (tag.category ≡ latency)
    ⊎ (tag.category ≡ latency_human)
    ⊎ PrintsTime tags
