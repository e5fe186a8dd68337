-- ===== src/Server/Routes/Order.antt =====
-- The order of the locations of a server, and what it means for the choice of a request's
-- location: `try_init_server_locations` and `early_request_filter` of src/proxy/server.rs.
use pingap.Common.{ℕ, ◌≤◌, ◌≡◌, refl, inl, inr, List, [], ◌∷◌, arith}
use pingap.Common.Tests.{leb, ◌==◌, Bool-cases, if◌then◌else◌}
use pingap.Common.Text.{Str}
use pingap.Common.Lists.{All}
use pingap.Server.Routes.{insert_sorted, sort_by_weight}
use mathlib.Core.List.{Perm}
use mathlib.Core.List.Perm
use mathlib.Core.List.{Memᴰ}
use mathlib.Core.List.Memᴰ

module _ (weight : Str → ℕ) where
  -- Each element weighs at least as much as all behind it.
  abbrev pub IsDescending : List Str → Type 0
  IsDescending [] = Unit
  IsDescending (x ∷ xs) = All (λ y. weight y ≤ weight x) xs × IsDescending xs

  -- The elements of one weight, in their order.
  abbrev pub of_weight : ℕ → List Str → List Str
  of_weight n [] = []
  of_weight n (x ∷ xs) = let rest = of_weight n xs in if weight x == n then x ∷ rest else rest

  All-weaken :
      (m n : ℕ) (xs : List Str) → m ≤ n → All (λ y. weight y ≤ m) xs → All (λ y. weight y ≤ n) xs
  All-weaken m n [] h a = tt
  All-weaken m n (x ∷ xs) h a = (omega arith, All-weaken m n xs h (a.1))

  insert_sorted-All :
      (n : ℕ) (x : Str) (xs : List Str)
      → weight x ≤ n
      → All (λ y. weight y ≤ n) xs
      → All (λ y. weight y ≤ n) (insert_sorted weight x xs)
  unfolding insert_sorted
  insert_sorted-All n x [] h a = (h, tt)
  insert_sorted-All n x (y ∷ ys) h a = ground (arith, insert_sorted-All n x ys h)

  insert_sorted-IsDescending :
      (x : Str) (xs : List Str) → IsDescending xs → IsDescending (insert_sorted weight x xs)
  unfolding insert_sorted
  insert_sorted-IsDescending x [] d = (tt, tt)
  insert_sorted-IsDescending x (y ∷ ys) d = elim (Bool-cases (leb (weight y) (weight x))) [
    | inl before ↦
        rw before ((ground arith, All-weaken (weight y) (weight x) ys (ground arith) d.0), d)
    | inr behind ↦
        rw behind (
          insert_sorted-All (weight y) x ys (ground arith) d.0,
          insert_sorted-IsDescending x ys d.1,
        )
  ]

  insert_sorted-of_weight :
      (n : ℕ) (x : Str) (xs : List Str)
      → of_weight n (insert_sorted weight x xs) ≡ of_weight n (x ∷ xs)
  unfolding insert_sorted
  insert_sorted-of_weight n x [] = refl
  insert_sorted-of_weight n x (y ∷ ys) = ground (arith, insert_sorted-of_weight n x ys)

  insert_sorted-Perm : (x : Str) (xs : List Str) → Perm (insert_sorted weight x xs) (x ∷ xs)
  unfolding insert_sorted
  insert_sorted-Perm x [] = Perm.refl (x ∷ [])
  insert_sorted-Perm x (y ∷ ys) = elim (Bool-cases (leb (weight y) (weight x))) [
    | inl before ↦ rw before (Perm.refl (x ∷ y ∷ ys))
    | inr behind ↦ rw behind (Perm.trans (Perm.cons y (insert_sorted-Perm x ys)) (Perm.swap x y ys))
  ]

  -- The sorted list has the same locations as the configured one, the heaviest first, and those of
  -- one weight stand in it in the order in which they are configured.
  pub sort_by_weight-IsDescending :
      (xs : List Str)
      → IsDescending (sort_by_weight weight xs)
        × Perm (sort_by_weight weight xs) xs
        × ((n : ℕ) → of_weight n (sort_by_weight weight xs) ≡ of_weight n xs)
  unfolding sort_by_weight
  sort_by_weight-IsDescending [] = (tt, Perm.refl [], λ n. refl)
  sort_by_weight-IsDescending (x ∷ xs) =
      let (descending, perm, stable) = sort_by_weight-IsDescending xs in
      (
        insert_sorted-IsDescending x (sort_by_weight weight xs) descending,
        Perm.trans (insert_sorted-Perm x (sort_by_weight weight xs)) (Perm.cons x perm),
        λ n. ground (arith, insert_sorted-of_weight n x (sort_by_weight weight xs), stable n),
      )

  insert_sorted-Memᴰ :
      (y x : Str) (xs : List Str) → Memᴰ y (x ∷ xs) → Memᴰ y (insert_sorted weight x xs)
  unfolding insert_sorted
  insert_sorted-Memᴰ y x [] m = m
  insert_sorted-Memᴰ y x (z ∷ zs) m = elim (Bool-cases (leb (weight z) (weight x))) [
    | inl before ↦ rw before m
    | inr behind ↦ rw behind (elim (Memᴰ.cases_cons m) [
      | inl same ↦ Memᴰ.tail (insert_sorted-Memᴰ y x zs (Memᴰ.head same))
      | inr rest ↦ elim (Memᴰ.cases_cons rest) [
        | inl same ↦ Memᴰ.head same
        | inr later ↦ Memᴰ.tail (insert_sorted-Memᴰ y x zs (Memᴰ.tail later))
      ]
    ])
  ]

  pub sort_by_weight-Memᴰ :
      (y : Str) (xs : List Str) → Memᴰ y xs → Memᴰ y (sort_by_weight weight xs)
  unfolding sort_by_weight
  sort_by_weight-Memᴰ y [] m = m
  sort_by_weight-Memᴰ y (x ∷ xs) (Memᴰ.head same) =
      insert_sorted-Memᴰ y x (sort_by_weight weight xs) (Memᴰ.head same)
  sort_by_weight-Memᴰ y (x ∷ xs) (Memᴰ.tail m) =
      insert_sorted-Memᴰ y x (sort_by_weight weight xs) (Memᴰ.tail (sort_by_weight-Memᴰ y xs m))
