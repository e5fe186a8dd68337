-- ===== src/Cache/Storage.antt =====
-- The trait `HttpCacheStorage` of pingap-cache/src/http_cache.rs and the errors of
-- pingap-cache/src/lib.rs.
use pingap.Common.{ℕ, ◌≡◌, ◌⊎◌, Option, none, some, arith}
use pingap.Common.Text.{Str}
use pingap.Cache.Object.{CacheObject}

pub data CacheError : Type 0 where
  io : Str → CacheError
  invalid_cache : Str → CacheError
  over_quota : ℕ → Str → CacheError

-- What a call ends with: a value, an error, or a panic.
pub data Outcome {ℓ} (A : Type ℓ) : Type ℓ where
  done : A → Outcome A
  failed : CacheError → Outcome A
  panicked : Outcome A

module _ {ℓ} {A : Type ℓ} where
  pub done_inj : {a b : A} → done a ≡ done b → a ≡ b
  done_inj e = ground arith

  pub failed≢done : {e : CacheError} {a : A} → failed e ≡ done a → ⊥
  failed≢done e = cc

  pub panicked≢done : {a : A} → panicked ≡ done a → ⊥
  panicked≢done e = cc

-- A storage with its state; a call gives the state after it.
pub record HttpCacheStorage : Type 1 where
  pub State : Type 0
  pub get : State → Str → Str → State × Outcome (Option CacheObject)
  pub put : State → Str → Str → CacheObject → State × Outcome (Unit {0})
  pub remove : State → Str → Str → State × Outcome (Option CacheObject)

-- A put that ends well is seen by the next get of the same key and namespace, or was evicted.
pub record IsFresh (storage : HttpCacheStorage) (o : CacheObject) : Type 0 where
  pub seen :
      (state : storage.State) (key namespace : Str)
      → (storage.put state key namespace o).1 ≡ done tt
      → let state' = (storage.put state key namespace o).0 in
        ((storage.get state' key namespace).1 ≡ done (some o))
        ⊎ ((storage.get state' key namespace).1 ≡ done none)
