-- ===== src/Cache/Hit/Range.antt =====
-- What a cached body gives to a reader that asks for a range: pingap-cache/src/http_cache.rs.
use pingap.Common.{
  ℕ, zero, suc, ◌<◌, ◌≤◌, ◌≡◌, refl, ap, ◌∙◌, min, false, none, some, [], ◌∷◌, arith,
}
use pingap.Common.Tests.{leb}
use pingap.Common.Lists.{length, take, drop}
use pingap.Cache.Object.{Bytes, BytesLib, IsBytes}
use pingap.Cache.Storage.{done, panicked}
use pingap.Cache.Hit.{CompleteHit, sliced, get, seek}

take-min : (n : ℕ) (xs : Bytes) → take (min (length xs) n) xs ≡ take n xs
take-min zero [] = refl
take-min (suc n) [] =
    let none_left : min 0 (suc n) ≡ 0 = omega arith in ap (λ m. take m []) none_left
take-min zero (x ∷ xs) =
    let none_asked : min (suc (length xs)) 0 ≡ 0 = omega arith in
    ap (λ m. take m (x ∷ xs)) none_asked
take-min (suc n) (x ∷ xs) =
    let shorter : min (suc (length xs)) (suc n) ≡ suc (min (length xs) n) = omega arith in
    ap (λ m. take m (x ∷ xs)) shorter ∙ ap (λ t. x ∷ t) (take-min n xs)

module _ (lib : BytesLib) (laws : IsBytes lib) where
  -- After a seek within the body, the next read gives the bytes from the start to the end, or to the
  -- end of the body if that comes first, and the read behind it gives nothing.
  pub get-seek :
      (self : CompleteHit) (start end : ℕ)
      → start < length self.body
      → start ≤ end
      → let sought = seek self start (some end) in
        (sought.1 ≡ done tt)
        × ((get lib sought.0).1 ≡ done (some (drop start (take end self.body))))
        × ((get lib (get lib sought.0).0).1 ≡ done none)
  unfolding seek get
  get-seek self start end h k =
      let inside : leb (length self.body) start ≡ false = ground arith in
      let range =
        laws.slice_within self.body start (min (length self.body) end) (omega arith)
          (omega arith) in
      rw (inside, get, sliced, range, take-min end self.body) (refl, refl, refl)

  -- A seek without an end keeps the end of the range before it: from a start behind that end the
  -- next read panics.
  pub get-seek_without_end :
      (self : CompleteHit) (start : ℕ)
      → start < length self.body
      → self.range_end < start
      → ((seek self start none).1 ≡ done tt) × ((get lib (seek self start none).0).1 ≡ panicked)
  unfolding seek get
  get-seek_without_end self start h k =
      let inside : leb (length self.body) start ≡ false = ground arith in
      rw (inside, get, sliced, laws.slice_reversed self.body start self.range_end k) (refl, refl)
