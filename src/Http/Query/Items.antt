-- ===== src/Http/Query/Items.antt =====
-- The items of a query that stay when a name is removed: pingap-core/src/http_header.rs.
use pingap.Common.{
  ℕ, ◌≡◌, ◌≢◌, refl, sym, ap, subst, inl, inr, false, none, some, List, [], ◌∷◌, ◌++◌, arith,
}
use pingap.Common.Tests.{◌==◌, Bool-cases, Option-cases, some_inj, some≢none, if◌then◌else◌}
use pingap.Common.Text.{Str, str_eq, str_eq_iff, split_once, trim}
use pingap.Http.Header.{find_pair}
use pingap.Http.Query.{kept_items}

split_once-append : (d : ℕ) (s k v : Str) → split_once d s ≡ some (k, v) → k ++ (d ∷ v) ≡ s
unfolding split_once
split_once-append d [] k v e = absurd (ground arith)
split_once-append d (c ∷ s) k v e = elim (Bool-cases (c == d)) [
  | inl hit ↦
      let same : ◌≡◌ {A = Str × Str} ([], s) (k, v) = some_inj (rw (hit, split_once) at e) in
      let is : d ≡ c = ground arith in
      subst (λ (t : Str × Str). t.0 ++ (d ∷ t.1) ≡ c ∷ s) same (ap (λ x. x ∷ s) is)
  | inr miss ↦ elim (Option-cases (split_once d s)) [
    | inl nothing ↦ absurd (some≢none (sym (rw (miss, nothing, split_once) at e)))
    | inr ((k', v'), later) ↦
        let same : ◌≡◌ {A = Str × Str} (c ∷ k', v') (k, v) =
          some_inj (rw (miss, later, split_once) at e) in
        subst (λ (t : Str × Str). t.0 ++ (d ∷ t.1) ≡ c ∷ s) same
          (ap (λ t. c ∷ t) (split_once-append d s k' v' later))
  ]
]

-- The items that do not have the name.
abbrev pub others : Str → List Str → List Str
others name [] = []
others name (item ∷ items) =
    let rest = others name items in
    elim (split_once b'=' item) [
      | some (k, v) ↦ if str_eq k name then rest else item ∷ rest
      | none ↦ if str_eq item name then rest else item ∷ rest
    ]

pub kept_items-others : (name : Str) (items : List Str) → kept_items name items ≡ others name items
unfolding kept_items
kept_items-others name [] = refl
kept_items-others name (item ∷ items) =
    let rest = kept_items-others name items in
    elim (Option-cases (split_once b'=' item)) [
      | inl single ↦ elim (Bool-cases (str_eq item name)) [
        | inl same ↦ rw (kept_items, others, single, same) rest
        | inr other ↦ rw (kept_items, others, single, other) (ap (λ t. item ∷ t) rest)
      ]
      | inr ((k, v), pair) ↦ elim (Bool-cases (str_eq k name)) [
        | inl same ↦ rw (kept_items, others, pair, same) rest
        | inr other ↦
            rw (kept_items, others, pair, other, split_once-append b'=' item k v pair)
              (ap (λ t. item ∷ t) rest)
      ]
    ]

pub find_pair-others : (name : Str) (items : List Str) → find_pair name (others name items) ≡ none
unfolding find_pair
find_pair-others name [] = refl
find_pair-others name (item ∷ items) =
    let rest = find_pair-others name items in
    elim (Option-cases (split_once b'=' item)) [
      | inl single ↦ elim (Bool-cases (str_eq item name)) [
        | inl same ↦ rw (others, single, same) rest
        | inr other ↦ rw (others, single, other, find_pair, single) rest
      ]
      | inr ((k, v), pair) ↦ elim (Bool-cases (str_eq k name)) [
        | inl same ↦ rw (others, pair, same) rest
        | inr other ↦ rw (others, pair, other, find_pair, pair, other) rest
      ]
    ]

pub find_pair-others_of_other :
    (name other : Str) (items : List Str)
    → name ≢ other
    → find_pair other (others name items) ≡ find_pair other items
unfolding find_pair
find_pair-others_of_other name other [] h = refl
find_pair-others_of_other name other (item ∷ items) h =
    let rest = find_pair-others_of_other name other items h in
    elim (Option-cases (split_once b'=' item)) [
      | inl single ↦ elim (Bool-cases (str_eq item name)) [
        | inl same ↦ rw (others, find_pair, single, same) rest
        | inr kept ↦ rw (others, find_pair, single, kept, find_pair, single) rest
      ]
      | inr ((k, v), pair) ↦ elim (Bool-cases (str_eq k name)) [
        | inl same ↦
            let differs : str_eq k other ≡ false =
              ground (arith, str_eq_iff k name, str_eq_iff k other) in
            rw (others, find_pair, pair, same, differs) rest
        | inr kept ↦
            rw (others, find_pair, pair, kept, find_pair, pair)
              (ap (λ t. if str_eq k other then some (trim v) else t) rest)
      ]
    ]
