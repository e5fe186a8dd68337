-- ===== src/Common/Map.antt =====
-- A hash map from texts, as an association list in the order of its iteration.
use mathlib.Core.Path.{◌≡◌, refl}
use mathlib.Core.Option.{Option, none, some}
use mathlib.Core.List.{List, [], ◌∷◌}
use native.Mathlib.Omega.{arith}
use mathlib.Core.Path.{sym, ◌∙◌}
use mathlib.Core.Logic.{◌⊎◌, inl, inr}
use mathlib.Core.Bool.{false}
use pingap.Common.Tests.{Bool-cases, Option-cases, some_inj, if◌then◌else◌}
use pingap.Common.Text.{Str, str_eq, str_eq_iff}

abbrev pub Map {ℓ} : Type ℓ → Type ℓ
Map V = List (Str × V)

module _ {ℓ} {V : Type ℓ} where
  unfoldable pub get : Str → List (Str × V) → Option V
  unfolding str_eq
  get k [] = none
  get k ((j, v) ∷ m) = if str_eq j k then some v else get k m

  unfoldable pub insert : Str → V → List (Str × V) → List (Str × V)
  unfolding str_eq
  insert k v [] = (k, v) ∷ []
  insert k v ((j, w) ∷ m) = if str_eq j k then (k, v) ∷ m else (j, w) ∷ insert k v m

  unfoldable pub remove : Str → List (Str × V) → List (Str × V)
  unfolding str_eq
  remove k [] = []
  remove k ((j, w) ∷ m) = if str_eq j k then remove k m else (j, w) ∷ remove k m

  -- Changes the value of a key in place, through a shared reference to it.
  unfoldable pub update : Str → (V → V) → List (Str × V) → List (Str × V)
  unfolding str_eq
  update k f [] = []
  update k f ((j, w) ∷ m) = if str_eq j k then (j, f w) ∷ m else (j, w) ∷ update k f m

module _ {ℓ} {V : Type ℓ} where
  pub get-insert :
      (k j : Str) (v : V) (m : List (Str × V))
      → get j (insert k v m) ≡ (if str_eq k j then some v else get j m)
  unfolding get insert
  get-insert k j v [] = refl
  get-insert k j v ((i, w) ∷ m) =
      ground (arith, str_eq_iff k j, str_eq_iff i k, str_eq_iff i j, get-insert k j v m)

  pub get-remove :
      (k j : Str) (m : List (Str × V)) → get j (remove k m) ≡ (if str_eq k j then none else get j m)
  unfolding get remove
  get-remove k j [] = ground arith
  get-remove k j ((i, w) ∷ m) =
      ground (arith, str_eq_iff k j, str_eq_iff i k, str_eq_iff i j, get-remove k j m)

  abbrev pub map_option {κ} : {W : Type κ} → (V → W) → Option V → Option W
  map_option f none = none
  map_option f (some v) = some (f v)

  pub get-update :
      (k j : Str) (f : V → V) (m : List (Str × V))
      → get j (update k f m) ≡ (if str_eq k j then map_option f (get j m) else get j m)
  unfolding get update
  get-update k j f [] = ground arith
  get-update k j f ((i, w) ∷ m) =
      ground (arith, str_eq_iff k j, str_eq_iff i k, str_eq_iff i j, get-update k j f m)

  -- Where a value of an updated map comes from.
  pub get-update-cases :
      (k j : Str) (f : V → V) (m : List (Str × V)) (v : V)
      → get j (update k f m) ≡ some v
      → ((str_eq k j ≡ false) × (get j m ≡ some v))
        ⊎ ((w : V) × (k ≡ j) × (get j m ≡ some w) × (f w ≡ v))
  get-update-cases k j f m v e =
      let by_key = get-update k j f m in
      elim (Bool-cases (str_eq k j)) [
        | inr other ↦ inl (other, sym (rw other at by_key) ∙ e)
        | inl same ↦
            let mapped : map_option f (get j m) ≡ some v = sym (rw same at by_key) ∙ e in
            elim (Option-cases (get j m)) [
              | inl missing ↦ absurd (ground arith)
              | inr (w, known) ↦
                  inr (w, (str_eq_iff k j).0 same, known, some_inj (rw known at mapped))
            ]
      ]

  abbrev pub HasDistinctKeys : List (Str × V) → Type ℓ
  HasDistinctKeys [] = Unit
  HasDistinctKeys ((k, v) ∷ m) = (get k m ≡ none) × HasDistinctKeys m
