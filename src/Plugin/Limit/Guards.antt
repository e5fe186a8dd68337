-- ===== src/Plugin/Limit/Guards.antt =====
-- Counts of guards: pingap-plugin/src/limit.rs.
use pingap.Common.{ℕ, ◌+◌, ◌≤◌, ◌≡◌, Bool, true, false, List, [], ◌∷◌, ◌++◌, arith}
use pingap.Common.Tests.{if◌then◌else◌}
use pingap.Common.Text.{Str, str_eq}

-- The guards of requests under way, each with whether its request was let through.
abbrev pub Flights : Type 0
Flights = List (Str × Bool)

abbrev pub one_if : Bool → ℕ
one_if true = 1
one_if false = 0

abbrev pub held : Str → Flights → ℕ
held k [] = 0
held k ((key, through) ∷ flights) = one_if (str_eq key k) + held k flights

abbrev pub let_through : Str → Flights → ℕ
let_through k [] = 0
let_through k ((key, through) ∷ flights) =
    (if through then one_if (str_eq key k) else 0) + let_through k flights

pub let_through-held : (k : Str) (flights : Flights) → let_through k flights ≤ held k flights
let_through-held k [] = omega arith
let_through-held k ((key, through) ∷ flights) = ground (arith, let_through-held k flights)

pub held-append : (k : Str) (xs ys : Flights) → held k (xs ++ ys) ≡ held k xs + held k ys
held-append k [] ys = omega arith
held-append k ((key, through) ∷ xs) ys = let rest = held-append k xs ys in omega arith

pub let_through-append :
    (k : Str) (xs ys : Flights) → let_through k (xs ++ ys) ≡ let_through k xs + let_through k ys
let_through-append k [] ys = omega arith
let_through-append k ((key, through) ∷ xs) ys = let rest = let_through-append k xs ys in omega arith
