-- ===== src/Util/Datetime.antt =====
-- Latencies: pingap-util/src/datetime.rs.
use pingap.Common.{ℕ, Option, none, some}
use pingap.Common.Words.{sub64}

-- The time of the call where there is no time yet, and otherwise how long that time is past.
abbrev pub get_latency : ℕ → Option ℕ → Option ℕ
get_latency current none = some current
get_latency current (some value) = some (sub64 current value)
