-- ===== src/Tests/Bytes.antt =====
-- The crate bytes as concrete functions, which keep its promises.
use pingap.Common.{
  ℕ, ◌+◌, ◌*◌, ◌/◌, ◌%◌, ◌^◌, ◌<◌, ◌≡◌, refl, ap, subst, Option, none, some, [], ◌∷◌, ◌++◌, arith,
}
use pingap.Common.Tests.{leb, some_inj, if◌then◌else◌}
use pingap.Common.Lists.{length, take, drop, All}
use pingap.Cache.Object.{Bytes, BytesLib, IsBytes}

unfoldable pub put_u32 : ℕ → Bytes
put_u32 n = (n / 2 ^ 24) % 2 ^ 8 ∷ (n / 2 ^ 16) % 2 ^ 8 ∷ (n / 2 ^ 8) % 2 ^ 8 ∷ n % 2 ^ 8 ∷ []

unfoldable pub get_u32 : Bytes → Option (ℕ × Bytes)
get_u32 (a ∷ b ∷ c ∷ d ∷ buf) = some (((a * 2 ^ 8 + b) * 2 ^ 8 + c) * 2 ^ 8 + d, buf)
get_u32 _ = none

unfoldable pub split_to : ℕ → Bytes → Option (Bytes × Bytes)
split_to at buf = if leb at (length buf) then some (take at buf, drop at buf) else none

unfoldable pub slice : Bytes → ℕ → ℕ → Option Bytes
slice buf start end =
    if leb start end
    then (if leb end (length buf) then some (drop start (take end buf)) else none)
    else none

abbrev pub big_endian : BytesLib
big_endian = record { put_u32 = put_u32; get_u32 = get_u32; split_to = split_to; slice = slice }

get_u32-put_u32 : (n : ℕ) (rest : Bytes) → n < 2 ^ 32 → get_u32 (put_u32 n ++ rest) ≡ some (n, rest)
unfolding get_u32 put_u32
get_u32-put_u32 n rest h = ap (λ m. some (m, rest)) (omega arith)

put_u32-digits :
    (a b c d : ℕ)
    → a < 2 ^ 8
    → b < 2 ^ 8
    → c < 2 ^ 8
    → d < 2 ^ 8
    → put_u32 (((a * 2 ^ 8 + b) * 2 ^ 8 + c) * 2 ^ 8 + d) ≡ a ∷ b ∷ c ∷ d ∷ []
unfolding put_u32
put_u32-digits a b c d ha hb hc hd =
    let n = ((a * 2 ^ 8 + b) * 2 ^ 8 + c) * 2 ^ 8 + d in
    let ea : (n / 2 ^ 24) % 2 ^ 8 ≡ a = omega arith in
    let eb : (n / 2 ^ 16) % 2 ^ 8 ≡ b = omega arith in
    let ec : (n / 2 ^ 8) % 2 ^ 8 ≡ c = omega arith in
    let ed : n % 2 ^ 8 ≡ d = omega arith in rw (ea, eb, ec, ed) refl

put_u32-get_u32 :
    (buf rest : Bytes) (n : ℕ)
    → All (λ b. b < 2 ^ 8) buf
    → get_u32 buf ≡ some (n, rest)
    → (n < 2 ^ 32) × (put_u32 n ++ rest ≡ buf)
unfolding get_u32
put_u32-get_u32 [] rest n all e = absurd (ground arith)
put_u32-get_u32 (a ∷ []) rest n all e = absurd (ground arith)
put_u32-get_u32 (a ∷ b ∷ []) rest n all e = absurd (ground arith)
put_u32-get_u32 (a ∷ b ∷ c ∷ []) rest n all e = absurd (ground arith)
put_u32-get_u32 (a ∷ b ∷ c ∷ d ∷ buf) rest n all e =
    let same : ◌≡◌ {A = ℕ × Bytes} (((a * 2 ^ 8 + b) * 2 ^ 8 + c) * 2 ^ 8 + d, buf) (n, rest) =
      some_inj e in
    let (ha, (hb, (hc, (hd, rest_all)))) = all in
    subst (λ (t : ℕ × Bytes). (t.0 < 2 ^ 32) × (put_u32 t.0 ++ t.1 ≡ a ∷ b ∷ c ∷ d ∷ buf)) same
      (omega arith, ap (λ t. t ++ buf) (put_u32-digits a b c d ha hb hc hd))

pub big_endian-IsBytes : IsBytes big_endian
unfolding put_u32 split_to slice
big_endian-IsBytes = record {
  length_put = λ n. refl;
  get_put = get_u32-put_u32;
  put_get = put_u32-get_u32;
  split_within = λ at buf h. ground arith;
  split_beyond = λ at buf h. ground arith;
  slice_within = λ buf start end h k. ground arith;
  slice_reversed = λ buf start end h. ground arith;
}
