-- ===== src/Cache/Object/Codec.antt =====
-- The layout of a cached object in bytes, read back: pingap-cache/src/http_cache.rs.
use pingap.Common.{
  ℕ, zero, suc, ◌+◌, ◌%◌, ◌^◌, ◌<◌, ◌≤◌, ◌≡◌, inl, inr, refl, sym, ap, subst, ◌∙◌, false, none,
  some, [], ◌∷◌, ◌++◌, arith,
}
use pingap.Common.Tests.{ltb, leb, some_inj, some≢none, Option-cases, Bool-cases}
use pingap.Common.Lists.{
  length, take, drop, length-append, length-take, length-drop, take-append, take-longer,
  drop-append, All,
}
use pingap.Cache.Object.{Bytes, CacheObject, BytesLib, IsBytes, split_parts, from_bytes, to_bytes}

append-take-drop : (n : ℕ) (xs : Bytes) → take n xs ++ drop n xs ≡ xs
append-take-drop zero xs = refl
append-take-drop (suc n) [] = refl
append-take-drop (suc n) (x ∷ xs) = ap (λ t. x ∷ t) (append-take-drop n xs)

All-tail : (xs ys : Bytes) → All (λ b. b < 2 ^ 8) (xs ++ ys) → All (λ b. b < 2 ^ 8) ys
All-tail [] ys a = a
All-tail (x ∷ xs) ys a = All-tail xs ys a.1

module _ (lib : BytesLib) (laws : IsBytes lib) where
  split_to-append : (xs ys : Bytes) → lib.split_to (length xs) (xs ++ ys) ≡ some (xs, ys)
  split_to-append xs ys =
      laws.split_within (length xs) (xs ++ ys) (omega (arith, length-append xs ys))
      ∙ rw (take-append xs ys, drop-append xs ys) refl

  pub length-to_bytes :
      (o : CacheObject)
      → length (to_bytes lib o) ≡ 8 + length o.meta.0 + length o.meta.1 + length o.body
  unfolding to_bytes
  length-to_bytes o =
      let put0 = lib.put_u32 (length o.meta.0 % 2 ^ 32) in
      let put1 = lib.put_u32 (length o.meta.1 % 2 ^ 32) in
      omega (
        arith,
        length-append put0 (put1 ++ (o.meta.0 ++ (o.meta.1 ++ o.body))),
        length-append put1 (o.meta.0 ++ (o.meta.1 ++ o.body)),
        length-append o.meta.0 (o.meta.1 ++ o.body),
        length-append o.meta.1 o.body,
        laws.length_put (length o.meta.0 % 2 ^ 32),
        laws.length_put (length o.meta.1 % 2 ^ 32),
      )

  to_bytes-small :
      (o : CacheObject)
      → length o.meta.0 < 2 ^ 32
      → length o.meta.1 < 2 ^ 32
      → to_bytes lib o
        ≡ lib.put_u32 (length o.meta.0)
          ++ (lib.put_u32 (length o.meta.1) ++ (o.meta.0 ++ (o.meta.1 ++ o.body)))
  unfolding to_bytes
  to_bytes-small o h k =
      let first : length o.meta.0 % 2 ^ 32 ≡ length o.meta.0 = omega arith in
      let second : length o.meta.1 % 2 ^ 32 ≡ length o.meta.1 = omega arith in
      let rest = o.meta.0 ++ (o.meta.1 ++ o.body) in
      ap (λ m. lib.put_u32 m ++ (lib.put_u32 (length o.meta.1 % 2 ^ 32) ++ rest)) first
      ∙ ap (λ n. lib.put_u32 (length o.meta.0) ++ (lib.put_u32 n ++ rest)) second

  -- The bytes of an object whose metadata are each shorter than 4 GiB are read as that object.
  pub from_bytes-to_bytes :
      (o : CacheObject)
      → length o.meta.0 < 2 ^ 32
      → length o.meta.1 < 2 ^ 32
      → from_bytes lib (to_bytes lib o) ≡ some o
  unfolding from_bytes split_parts
  from_bytes-to_bytes o h k =
      let long : ltb (length (to_bytes lib o)) 8 ≡ false = ground (arith, length-to_bytes o) in
      let rest = o.meta.0 ++ (o.meta.1 ++ o.body) in
      rw (
        long,
        to_bytes-small o h k,
        laws.get_put (length o.meta.0) (lib.put_u32 (length o.meta.1) ++ rest) h,
        laws.get_put (length o.meta.1) rest k,
        split_parts,
        split_to-append o.meta.0 (o.meta.1 ++ o.body),
        split_to-append o.meta.1 o.body,
      )

  split_to-eq-some :
      (n : ℕ) (buf xs ys : Bytes)
      → lib.split_to n buf ≡ some (xs, ys)
      → (length xs ≡ n) × (xs ++ ys ≡ buf)
  split_to-eq-some n buf xs ys e = elim (Bool-cases (leb n (length buf))) [
    | inl within ↦
        let same : ◌≡◌ {A = Bytes × Bytes} (take n buf, drop n buf) (xs, ys) =
          some_inj (sym (laws.split_within n buf (ground arith)) ∙ e) in
        subst (λ (t : Bytes × Bytes). (length t.0 ≡ n) × (t.0 ++ t.1 ≡ buf)) same
          (ground (arith, length-take n buf), append-take-drop n buf)
    | inr beyond ↦ absurd (some≢none (sym e ∙ laws.split_beyond n buf (ground arith)))
  ]

  split_parts-eq-some :
      (m n : ℕ) (buf : Bytes) (o : CacheObject)
      → split_parts lib m n buf ≡ some o
      → (length o.meta.0 ≡ m) × (length o.meta.1 ≡ n) × (o.meta.0 ++ (o.meta.1 ++ o.body) ≡ buf)
  unfolding split_parts
  split_parts-eq-some m n buf o e = elim (Option-cases (lib.split_to m buf)) [
    | inl missing ↦ absurd (some≢none (sym (rw (missing, split_parts) at e)))
    | inr ((meta0, rest), first) ↦ elim (Option-cases (lib.split_to n rest)) [
      | inl missing ↦ absurd (some≢none (sym (rw (first, missing, split_parts) at e)))
      | inr ((meta1, body), second) ↦
          let (size0, whole) = split_to-eq-some m buf meta0 rest first in
          let (size1, tail) = split_to-eq-some n rest meta1 body second in
          subst
            (λ (o : CacheObject).
              (length o.meta.0 ≡ m)
              × (length o.meta.1 ≡ n)
              × (o.meta.0 ++ (o.meta.1 ++ o.body) ≡ buf))
            (some_inj (rw (first, second, split_parts) at e))
            (size0, size1, ap (λ t. meta0 ++ t) tail ∙ whole)
    ]
  ]

  -- Bytes that are read as an object and are long enough to hold the two sizes are the bytes of
  -- that object.
  pub to_bytes-from_bytes :
      (value : Bytes) (o : CacheObject)
      → All (λ b. b < 2 ^ 8) value
      → 8 ≤ length value
      → from_bytes lib value ≡ some o
      → to_bytes lib o ≡ value
  unfolding from_bytes split_parts
  to_bytes-from_bytes value o bytes long e =
      let short : ltb (length value) 8 ≡ false = ground arith in
      elim (Option-cases (lib.get_u32 value)) [
        | inl missing ↦ absurd (some≢none (sym (rw (short, missing, from_bytes) at e)))
        | inr ((meta0_size, after0), first) ↦ elim (Option-cases (lib.get_u32 after0)) [
          | inl missing ↦ absurd (some≢none (sym (rw (short, first, missing, from_bytes) at e)))
          | inr ((meta1_size, after1), second) ↦
              let (small0, v0) = laws.put_get value after0 meta0_size bytes first in
              let all0 =
                All-tail (lib.put_u32 meta0_size) after0
                  (subst (λ v. All (λ b. b < 2 ^ 8) v) (sym v0) bytes) in
              let (small1, v1) = laws.put_get after0 after1 meta1_size all0 second in
              let (size0, size1, parts) =
                split_parts-eq-some meta0_size meta1_size after1 o
                  (rw (short, first, second, from_bytes) at e) in
              to_bytes-small o (omega arith) (omega arith) ∙ rw (size0, size1, parts, v1, v0) refl
        ]
      ]

  split_parts-short : (m n : ℕ) (buf : Bytes) → length buf < m + n → split_parts lib m n buf ≡ none
  unfolding split_parts
  split_parts-short m n buf h = elim (Bool-cases (leb m (length buf))) [
    | inl within ↦
        let first = laws.split_within m buf (ground arith) in
        let second = laws.split_beyond n (drop m buf) (ground (arith, length-drop m buf)) in
        rw (split_parts, first, second) refl
    | inr beyond ↦
        let first = laws.split_beyond m buf (ground arith) in rw (split_parts, first) refl
  ]

  -- A file that was cut off within the metadata, behind the two sizes, is not read as a miss: its
  -- reading panics.
  pub from_bytes-take :
      (o : CacheObject) (k : ℕ)
      → length o.meta.0 < 2 ^ 32
      → length o.meta.1 < 2 ^ 32
      → k < length o.meta.0 + length o.meta.1
      → from_bytes lib (take (8 + k) (to_bytes lib o)) ≡ none
  unfolding from_bytes
  from_bytes-take o k h0 h1 h =
      let rest = o.meta.0 ++ (o.meta.1 ++ o.body) in
      let put0 = lib.put_u32 (length o.meta.0) in
      let put1 = lib.put_u32 (length o.meta.1) in
      let cut : take (8 + k) (to_bytes lib o) ≡ put0 ++ (put1 ++ take k rest) =
        ap (λ t. take (8 + k) t) (to_bytes-small o h0 h1)
        ∙ take-longer (8 + k) (4 + k) put0 (put1 ++ rest)
            (omega (arith, laws.length_put (length o.meta.0)))
        ∙ ap (λ t. put0 ++ t)
            (take-longer (4 + k) k put1 rest (omega (arith, laws.length_put (length o.meta.1)))) in
      let enough : ltb (length (take (8 + k) (to_bytes lib o))) 8 ≡ false =
        ground (arith, length-take (8 + k) (to_bytes lib o), length-to_bytes o) in
      let short =
        split_parts-short (length o.meta.0) (length o.meta.1) (take k rest)
          (ground (arith, length-take k rest)) in
      rw
        (
          enough,
          cut,
          laws.get_put (length o.meta.0) (put1 ++ take k rest) h0,
          laws.get_put (length o.meta.1) (take k rest) h1,
          short,
        )
        refl
