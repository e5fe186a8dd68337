-- ===== src/Core/Ctx/Durations.antt =====
-- Durations in the values of a context: `format_duration` of pingap-core/src/ctx.rs.
use pingap.Common.{ℕ, ◌*◌, ◌/◌, ◌%◌, ◌++◌}
use pingap.Common.Tests.{leb, if◌then◌else◌}
use pingap.Common.Text.{Str, str}
use pingap.Common.Digits.{show}
use pingap.Util.Format.{decimal}

unfoldable pub format_duration : ℕ → Str
unfolding show
format_duration ms =
    if leb 3_600_000 ms
    then decimal (ms / 3_600_000) (ms % 3_600_000 * 10 / 3_600_000) (str "h")
    else if leb 60_000 ms
    then decimal (ms / 60_000) (ms % 60_000 * 10 / 60_000) (str "m")
    else if leb 1000 ms
    then decimal (ms / 1000) (ms % 1000 / 100) (str "s")
    else show 10 ms ++ str "ms"
