-- ===== src/Util/Format.antt =====
-- Durations and sizes for people: pingap-util/src/format.rs. What a function appends to its buffer is
-- its result here.
use pingap.Common.{ℕ, ◌/◌, ◌%◌, [], ◌∷◌, ◌++◌}
use pingap.Common.Tests.{ltb, ◌==◌, if◌then◌else◌}
use pingap.Common.Text.{Str, str}
use pingap.Common.Digits.{show}

-- A number in a unit, with one digit behind the point unless it is zero.
abbrev pub decimal : ℕ → ℕ → Str → Str
decimal whole tenth unit =
    show 10 whole ++ ((if tenth == 0 then [] else b'.' ∷ show 10 tenth) ++ unit)

unfoldable pub format_duration : ℕ → Str
unfolding show
format_duration ms =
    if ltb ms 1000 then show 10 ms ++ str "ms" else decimal (ms / 1000) (ms % 1000 / 100) (str "s")

unfoldable pub format_byte_size : ℕ → Str
unfolding show
format_byte_size size =
    if ltb size 1000
    then show 10 size ++ str "B"
    else if ltb size 1_000_000
    then decimal (size / 1000) (size % 1000 / 100) (str "KB")
    else if ltb size 1_000_000_000
    then decimal (size / 1_000_000) (size % 1_000_000 / 100_000) (str "MB")
    else decimal (size / 1_000_000_000) (size % 1_000_000_000 / 100_000_000) (str "GB")
