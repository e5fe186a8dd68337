-- ===== src/Cache/Hit.antt =====
-- `CompleteHit` of pingap-cache/src/http_cache.rs: the reading of a cached body, in ranges.
pub mod Range
use pingap.Common.{
  ℕ, ◌-◌, ◌<◌, ◌≤◌, ◌≡◌, refl, min, Bool, true, false, Option, none, some, List, [], ◌∷◌, arith,
}
use pingap.Common.Tests.{leb, if◌then◌else◌}
use pingap.Common.Text.{Str, str}
use pingap.Common.Lists.{length, take, drop}
use pingap.Cache.Object.{Bytes, BytesLib}
use pingap.Cache.Storage.{CacheError, invalid_cache, Outcome, done, failed, panicked}

pub record CompleteHit : Type 0 where
  pub body : Bytes
  pub done : Bool
  pub range_start : ℕ
  pub range_end : ℕ

-- The range of the body; a range that is none panics.
abbrev sliced : Option Bytes → Outcome (Option Bytes)
sliced (some body) = Outcome.done (some body)
sliced none = panicked

unfoldable pub get : BytesLib → CompleteHit → CompleteHit × Outcome (Option Bytes)
get lib self =
    if self.done
    then (self, Outcome.done none)
    else (record self { done = true }, sliced (lib.slice self.body self.range_start self.range_end))

abbrev end_of : Option ℕ → Bytes → ℕ → ℕ
end_of none body range_end = range_end
end_of (some end) body range_end = min (length body) end

-- The text of the error has the numbers.
unfoldable pub seek : CompleteHit → ℕ → Option ℕ → CompleteHit × Outcome (Unit {0})
seek self start end =
    if leb (length self.body) start
    then (self, failed (invalid_cache (str "seek start out of range")))
    else (
      record self {
        range_start = start;
        range_end = end_of end self.body self.range_end;
        done = false;
      },
      Outcome.done tt,
    )
