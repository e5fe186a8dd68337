-- ===== src/Common/Splits.antt =====
-- Texts that are split at a code point and joined again.
use Prim.Native.Nat.{ℕ}
use mathlib.Core.Path.{◌≡◌, refl, sym, ap, ◌∙◌}
use mathlib.Core.Logic.{inl, inr}
use mathlib.Core.Bool.{true, false}
use mathlib.Core.List.{List, [], ◌∷◌, ◌++◌}
use native.Mathlib.Omega.{arith}
use pingap.Common.Tests.{◌==◌, Bool-cases}
use pingap.Common.Text.{Str, split, join, push_first}
use pingap.Common.Lists.{All}

-- A text without a code point.
abbrev pub IsFree : ℕ → Str → Type 0
IsFree d s = All (λ c. (c == d) ≡ false) s

push_first-IsFree :
    (d c : ℕ) (parts : List Str)
    → (c == d) ≡ false
    → All (IsFree d) parts
    → All (IsFree d) (push_first c parts)
push_first-IsFree d c [] h a = ((h, tt), tt)
push_first-IsFree d c (p ∷ ps) h a = ((h, a.0), a.1)

pub split-IsFree : (d : ℕ) (s : Str) → All (IsFree d) (split d s)
unfolding split
split-IsFree d [] = (tt, tt)
split-IsFree d (c ∷ s) = elim (Bool-cases (c == d)) [
  | inl hit ↦ rw (split, hit) (tt, split-IsFree d s)
  | inr miss ↦ rw (split, miss) (push_first-IsFree d c (split d s) miss (split-IsFree d s))
]

pub split_of_free : (d : ℕ) (p : Str) → IsFree d p → split d p ≡ p ∷ []
unfolding split
split_of_free d [] free = refl
split_of_free d (c ∷ p) free = rw (split, free.0, split_of_free d p free.1) refl

pub split-append :
    (d : ℕ) (p rest : Str) → IsFree d p → split d (p ++ (d ∷ rest)) ≡ p ∷ split d rest
unfolding split
split-append d [] rest free = let same : (d == d) ≡ true = ground arith in rw (split, same) refl
split-append d (c ∷ p) rest free = rw (split, free.0, split-append d p rest free.1) refl

pub split-join :
    (d : ℕ) (p : Str) (ps : List Str)
    → All (IsFree d) (p ∷ ps)
    → split d (join (d ∷ []) (p ∷ ps)) ≡ p ∷ ps
unfolding join
split-join d p [] free = split_of_free d p free.0
split-join d p (q ∷ ps) free =
    split-append d p (join (d ∷ []) (q ∷ ps)) free.0 ∙ ap (λ t. p ∷ t) (split-join d q ps free.1)

join-push_first :
    (d c : ℕ) (p : Str) (ps : List Str)
    → join (d ∷ []) (push_first c (p ∷ ps)) ≡ c ∷ join (d ∷ []) (p ∷ ps)
unfolding join
join-push_first d c p [] = refl
join-push_first d c p (q ∷ ps) = refl

-- There is always a first part.
pub split-parts : (d : ℕ) (s : Str) → (p : Str) × (ps : List Str) × (split d s ≡ p ∷ ps)
unfolding split
split-parts d [] = ([], [], refl)
split-parts d (c ∷ s) =
    let (p, ps, parts) = split-parts d s in
    elim (Bool-cases (c == d)) [
      | inl hit ↦ ([], split d s, rw (split, hit) refl)
      | inr miss ↦ (c ∷ p, ps, rw (split, miss, parts) refl)
    ]

pub join-split : (d : ℕ) (s : Str) → join (d ∷ []) (split d s) ≡ s
unfolding split join
join-split d [] = refl
join-split d (c ∷ s) =
    let (p, ps, parts) = split-parts d s in
    let rest = join-split d s in
    elim (Bool-cases (c == d)) [
      | inl hit ↦
          let same : c ≡ d = ground (arith, hit) in
          rw (split, hit, parts) (ap (λ t. d ∷ t) (rw parts at rest) ∙ ap (λ x. x ∷ s) (sym same))
      | inr miss ↦
          rw (split, miss, parts) (join-push_first d c p ps ∙ ap (λ t. c ∷ t) (rw parts at rest))
    ]
