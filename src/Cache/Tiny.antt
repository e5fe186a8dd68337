-- ===== src/Cache/Tiny.antt =====
-- `TinyUfoCache` of pingap-cache/src/tiny.rs, a storage in memory, and the crate tinyufo below it.
use pingap.Common.{ℕ, ◌≡◌, ◌⊎◌, inl, inr, Option, none, some}
use pingap.Common.Text.{Str}
use pingap.Cache.Object.{CacheObject, get_weight}
use pingap.Cache.Storage.{Outcome, done, HttpCacheStorage, IsFresh}

-- The crate tinyufo: a map that may drop any entry at a put. A get counts the use of its key.
pub record TinyUfo : Type 1 where
  pub Cache : Type 0
  pub get : Cache → Str → Cache × Option CacheObject
  pub put : Cache → Str → CacheObject → ℕ → Cache
  pub remove : Cache → Str → Cache × Option CacheObject

-- What the crate promises of a put and of a remove.
pub record IsCache (lib : TinyUfo) : Type 0 where
  pub put_get :
      (c : lib.Cache) (k : Str) (o : CacheObject) (weight : ℕ)
      → ((lib.get (lib.put c k o weight) k).1 ≡ some o)
        ⊎ ((lib.get (lib.put c k o weight) k).1 ≡ none)
  pub remove_get : (c : lib.Cache) (k : Str) → (lib.get (lib.remove c k).0 k).1 ≡ none

module _ (lib : TinyUfo) where
  -- The namespace is not used.
  unfoldable pub get : lib.Cache → Str → Str → lib.Cache × Outcome (Option CacheObject)
  get self key namespace = let (self', found) = lib.get self key in (self', done found)

  unfoldable pub put : lib.Cache → Str → Str → CacheObject → lib.Cache × Outcome (Unit {0})
  put self key namespace o = (lib.put self key o (get_weight o), done tt)

  unfoldable pub remove : lib.Cache → Str → Str → lib.Cache × Outcome (Option CacheObject)
  remove self key namespace = let (self', found) = lib.remove self key in (self', done found)

  abbrev pub tiny_storage : HttpCacheStorage
  tiny_storage = record { State = lib.Cache; get = get; put = put; remove = remove }

  -- The storage in memory is fresh for every object: it gives back what was put last or nothing.
  pub tiny_storage-IsFresh : IsCache lib → (o : CacheObject) → IsFresh tiny_storage o
  unfolding get put
  tiny_storage-IsFresh cache o = record {
    seen = λ state key namespace ended. elim (cache.put_get state key o (get_weight o)) [
      | inl kept ↦ inl (rw kept)
      | inr dropped ↦ inr (rw dropped)
    ];
  }
