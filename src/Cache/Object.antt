-- ===== src/Cache/Object.antt =====
-- `CacheObject` of pingap-cache/src/http_cache.rs and its layout in bytes. Where the code panics there is no
-- result.
pub mod Codec
pub mod Weight
use pingap.Common.{
  ℕ, ◌+◌, ◌-◌, ◌*◌, ◌/◌, ◌%◌, ◌^◌, ◌<◌, ◌≤◌, ◌≡◌, Bool, true, false, Option, none, some, List, [],
  ◌∷◌, ◌++◌,
}
use pingap.Common.Tests.{ltb, leb, if◌then◌else◌}
use pingap.Common.Lists.{length, take, drop, All}

abbrev pub Bytes : Type 0
Bytes = List ℕ

pub record CacheObject : Type 0 where
  pub meta : Bytes × Bytes
  pub body : Bytes

abbrev page_size : ℕ
page_size = 4096

abbrev max_object_cache_size : ℕ
max_object_cache_size = 10 * 1024 * page_size

-- The quotient is cast to 16 bits.
unfoldable pub get_weight : CacheObject → ℕ
get_weight self =
    let size = length self.body + length self.meta.0 + length self.meta.1 in
    if leb size page_size
    then 1
    else if leb max_object_cache_size size
    then 2 ^ 16 - 1
    else (size / page_size) % 2 ^ 16

abbrev meta_size_length : ℕ
meta_size_length = 8

-- The crate bytes: a number as four bytes and back, with what is left; the first bytes and the
-- rest; and a range. Where the crate panics there is no result.
pub record BytesLib : Type 0 where
  pub put_u32 : ℕ → Bytes
  pub get_u32 : Bytes → Option (ℕ × Bytes)
  pub split_to : ℕ → Bytes → Option (Bytes × Bytes)
  pub slice : Bytes → ℕ → ℕ → Option Bytes

-- What the crate promises: the highest byte of a number comes first, and a split and a range within
-- the bytes give those parts, where others panic.
pub record IsBytes (lib : BytesLib) : Type 0 where
  pub length_put : (n : ℕ) → length (lib.put_u32 n) ≡ 4
  pub get_put :
      (n : ℕ) (rest : Bytes) → n < 2 ^ 32 → lib.get_u32 (lib.put_u32 n ++ rest) ≡ some (n, rest)
  pub put_get :
      (buf rest : Bytes) (n : ℕ)
      → All (λ b. b < 2 ^ 8) buf
      → lib.get_u32 buf ≡ some (n, rest)
      → (n < 2 ^ 32) × (lib.put_u32 n ++ rest ≡ buf)
  pub split_within :
      (at : ℕ) (buf : Bytes)
      → at ≤ length buf
      → lib.split_to at buf ≡ some (take at buf, drop at buf)
  pub split_beyond : (at : ℕ) (buf : Bytes) → length buf < at → lib.split_to at buf ≡ none
  pub slice_within :
      (buf : Bytes) (start end : ℕ)
      → start ≤ end
      → end ≤ length buf
      → lib.slice buf start end ≡ some (drop start (take end buf))
  pub slice_reversed : (buf : Bytes) (start end : ℕ) → end < start → lib.slice buf start end ≡ none

abbrev default_object : CacheObject
default_object = record { meta = ([], []); body = [] }

module _ (lib : BytesLib) where
  -- What follows the two sizes.
  unfoldable pub split_parts : ℕ → ℕ → Bytes → Option CacheObject
  split_parts meta0_size meta1_size buf = elim (lib.split_to meta0_size buf) [
    | none ↦ none
    | some (meta0, buf) ↦ elim (lib.split_to meta1_size buf) [
      | none ↦ none
      | some (meta1, buf) ↦ some (record { meta = (meta0, meta1); body = buf })
    ]
  ]

  -- `From<Bytes>`.
  unfoldable pub from_bytes : Bytes → Option CacheObject
  from_bytes value =
      if ltb (length value) meta_size_length
      then some default_object
      else elim (lib.get_u32 value) [
        | none ↦ none
        | some (meta0_size, buf) ↦ elim (lib.get_u32 buf) [
          | none ↦ none
          | some (meta1_size, buf) ↦ split_parts meta0_size meta1_size buf
        ]
      ]

  -- `From<CacheObject> for Bytes`; a length is cast to 32 bits.
  unfoldable pub to_bytes : CacheObject → Bytes
  to_bytes value =
      lib.put_u32 (length value.meta.0 % 2 ^ 32)
      ++ (lib.put_u32 (length value.meta.1 % 2 ^ 32)
          ++ (value.meta.0 ++ (value.meta.1 ++ value.body)))
