-- ===== src/Plugin/CombinedAuth/Window.antt =====
-- The window of time in which combined_auth takes a signature: pingap-plugin/src/combined_auth.rs.
use pingap.Common.{ℕ, ◌+◌, ◌^◌, ◌<◌, ◌≤◌, ◌≡◌, ◌↔◌, false, arith}
use pingap.Plugin.CombinedAuth.{deviates}

-- A time that is not negative is taken if its distance from now is at most the deviation, and not
-- otherwise; now and the deviation are not negative either.
pub deviates-window :
    (now value deviation : ℕ)
    → now < 2 ^ 63
    → value < 2 ^ 63
    → deviation < 2 ^ 63
    → (deviates now value deviation ≡ false)
      ↔ ((now ≤ value + deviation) × (value ≤ now + deviation))
unfolding deviates
deviates-window now value deviation a b c = ground arith
