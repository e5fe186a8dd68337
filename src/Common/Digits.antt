-- ===== src/Common/Digits.antt =====
-- Numbers as text: `{}` and `{:x}` of Rust's format, the crate itoa, which prints the same, and
-- `from_str_radix`.
use Prim.Native.Nat.{ℕ, zero, suc, ◌+◌, ◌-◌, ◌*◌, ◌/◌, ◌%◌, ◌^◌, ◌≤◌, ◌<◌}
use mathlib.Core.Path.{◌≡◌, refl, sym, ap, ◌∙◌}
use mathlib.Core.Logic.{inl, inr}
use mathlib.Core.Bool.{false, ◌&&◌}
use mathlib.Core.Option.{Option, none, some}
use mathlib.Core.List.{[], ◌∷◌}
use native.Mathlib.Omega.{arith}
use native.Mathlib.Nat.{div-add-mod', div-lt_self}
use pingap.Common.Tests.{ltb, leb, ◌==◌, if◌then◌else◌, Bool-cases, ltb→lt, lt→ltb}
use pingap.Common.Text.{Str, is_empty}
use pingap.Common.Lists.{All}

abbrev pub digit : ℕ → ℕ
digit d = if ltb d 10 then b'0' + d else b'a' + (d - 10)

-- `char::to_digit`, whose result must be below the base.
abbrev pub digit_value : ℕ → ℕ
digit_value c =
    if leb b'0' c && leb c b'9'
    then c - b'0'
    else if leb b'a' c && leb c b'z'
    then c - b'a' + 10
    else if leb b'A' c && leb c b'Z'
    then c - b'A' + 10
    else 36

show_onto : ℕ → ℕ → ℕ → Str → Str
show_onto base zero n acc = acc
show_onto base (suc fuel) n acc =
    let rest = show_onto base fuel (n / base) (digit (n % base) ∷ acc) in
    if ltb n base then digit n ∷ acc else rest

-- A number has fewer digits than its successor.
unfoldable pub show : ℕ → ℕ → Str
unfolding show_onto
show base n = show_onto base (n + 1) n []

read_digits : ℕ → ℕ → Str → Option ℕ
read_digits base n [] = some n
read_digits base n (c ∷ s) =
    let next = n * base + digit_value c in
    let rest = read_digits base next s in
    if ltb (digit_value c) base && ltb next (2 ^ 64) then rest else none

-- `u64::from_str_radix`, its error left out: an optional plus, then digits.
unfoldable pub from_str_radix : ℕ → Str → Option ℕ
unfolding read_digits
from_str_radix base [] = none
from_str_radix base (c ∷ s) =
    if c == b'+'
    then (if is_empty s then none else read_digits base 0 s)
    else read_digits base 0 (c ∷ s)

digit_value-digit : (d : ℕ) → d < 36 → digit_value (digit d) ≡ d
digit_value-digit d h = ground arith

module _ (base : ℕ) (low : 2 ≤ base) (high : base ≤ 36) where
  read_digits-digit :
      (n d : ℕ) (acc : Str)
      → d < base
      → n * base + d < 2 ^ 64
      → read_digits base n (digit d ∷ acc) ≡ read_digits base (n * base + d) acc
  unfolding read_digits
  read_digits-digit n d acc h small =
      let value = digit_value-digit d (omega arith) in
      let inside = lt→ltb d base h in
      let fits = lt→ltb (n * base + d) (2 ^ 64) small in rw (read_digits, value, inside, fits) refl

  read_digits-show_onto :
      (fuel n : ℕ) (acc : Str)
      → n < fuel
      → n < 2 ^ 64
      → read_digits base 0 (show_onto base fuel n acc) ≡ read_digits base n acc
  unfolding show_onto
  read_digits-show_onto zero n acc h small = absurd (omega arith)
  read_digits-show_onto (suc fuel) n acc h small = elim (Bool-cases (ltb n base)) [
    | inl last ↦
        let zero_mul : 0 * base + n ≡ n = omega arith in
        rw (show_onto, last)
          (read_digits-digit 0 n acc (ltb→lt n base last) (omega arith)
            ∙ ap (λ m. read_digits base m acc) zero_mul)
    | inr more ↦
        let split = div-add-mod' n base in
        let large : base ≤ n = ground (arith, more) in
        let smaller : n / base < n = div-lt_self (omega arith) (omega arith) in
        let below : n % base < base = omega arith in
        rw (show_onto, more)
          (read_digits-show_onto fuel (n / base) (digit (n % base) ∷ acc) (omega arith)
              (omega arith)
            ∙ read_digits-digit (n / base) (n % base) acc below (omega (arith, split))
            ∙ ap (λ m. read_digits base m acc) split)
  ]

  -- What show prints, with no sign in front.
  show_onto-first :
      (fuel n : ℕ) (acc : Str)
      → n < fuel
      → (d : ℕ) × (rest : Str) × (d < base) × (show_onto base fuel n acc ≡ digit d ∷ rest)
  unfolding show_onto
  show_onto-first zero n acc h = absurd (omega arith)
  show_onto-first (suc fuel) n acc h = elim (Bool-cases (ltb n base)) [
    | inl last ↦ (n, acc, ltb→lt n base last, rw (show_onto, last) refl)
    | inr more ↦
        let large : base ≤ n = ground (arith, more) in
        let smaller : n / base < n = div-lt_self (omega arith) (omega arith) in
        rw (show_onto, more)
          (show_onto-first fuel (n / base) (digit (n % base) ∷ acc) (omega arith))
  ]

  pub from_str_radix-show : (n : ℕ) → n < 2 ^ 64 → from_str_radix base (show base n) ≡ some n
  unfolding from_str_radix show
  from_str_radix-show n small =
      let (d, rest, below, first) = show_onto-first (n + 1) n [] (omega arith) in
      let unsigned : (digit d == b'+') ≡ false = ground arith in
      let value = read_digits-show_onto (n + 1) n [] (omega arith) small in
      rw (from_str_radix, first, unsigned) (ap (read_digits base 0) (sym first) ∙ value)

  -- A digit of show.
  abbrev pub IsDigit : ℕ → Type 0
  IsDigit c = (d : ℕ) × (d < base) × (c ≡ digit d)

  show_onto-IsDigit :
      (fuel n : ℕ) (acc : Str)
      → n < fuel
      → All IsDigit acc
      → All IsDigit (show_onto base fuel n acc)
  unfolding show_onto
  show_onto-IsDigit zero n acc h all = all
  show_onto-IsDigit (suc fuel) n acc h all = elim (Bool-cases (ltb n base)) [
    | inl last ↦ rw (show_onto, last) ((n, ltb→lt n base last, refl), all)
    | inr more ↦
        let large : base ≤ n = ground (arith, more) in
        let smaller : n / base < n = div-lt_self (omega arith) (omega arith) in
        rw (show_onto, more)
          (show_onto-IsDigit fuel (n / base) (digit (n % base) ∷ acc) (omega arith)
            ((n % base, omega arith, refl), all))
  ]

  pub show-IsDigit : (n : ℕ) → All IsDigit (show base n)
  unfolding show
  show-IsDigit n = show_onto-IsDigit (n + 1) n [] (omega arith) tt
