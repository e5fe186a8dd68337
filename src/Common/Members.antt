-- ===== src/Common/Members.antt =====
-- Membership in lists of texts.
use mathlib.Core.Path.{◌≡◌, refl, sym}
use mathlib.Core.Logic.{◌↔◌, inl, inr}
use mathlib.Core.Bool.{true}
use mathlib.Core.List.{List, [], ◌∷◌, Memᴰ}
use mathlib.Core.List.Memᴰ
use native.Mathlib.Omega.{arith}
use pingap.Common.Tests.{Bool-cases}
use pingap.Common.Text.{Str, str_eq, str_eq_iff, includes}

pub includes_iff : (keys : List Str) (k : Str) → (includes keys k ≡ true) ↔ Memᴰ k keys
unfolding includes
includes_iff [] k = ((λ e. absurd (ground arith)), λ m. elim m [ ])
includes_iff (x ∷ keys) k =
    let rest = includes_iff keys k in
    let same = str_eq_iff x k in
    (
      λ found. elim (Bool-cases (str_eq x k)) [
        | inl hit ↦ Memᴰ.head (sym (same.0 hit))
        | inr miss ↦ Memᴰ.tail (rest.0 (rw miss at found))
      ],
      λ m. elim (Memᴰ.cases_cons m) [
        | inl e ↦ rw (same.1 (sym e)) refl
        | inr below ↦ ground (arith, rest.1 below)
      ],
    )
