-- ===== src/Cache/Http.antt =====
-- `HttpCache` of pingap-cache/src/http_cache.rs, the cache that pingora asks: lookup, the handler of
-- a miss, purge and the update of the metadata, over a storage. The capacity that a miss handler
-- reserves is left out.
pub mod Lookup
use pingap.Common.{ℕ, Bool, true, false, Option, none, some, List, [], ◌∷◌, ◌++◌}
use pingap.Common.Tests.{if◌then◌else◌}
use pingap.Common.Text.{Str, str}
use pingap.Common.Lists.{length}
use pingap.Common.Results.{Result, ok, err}
use pingap.Cache.Object.{Bytes, CacheObject}
use pingap.Cache.Storage.{
  CacheError, invalid_cache, Outcome, done, failed, panicked, HttpCacheStorage,
}
use pingap.Cache.Hit.{CompleteHit}

-- `CacheMeta` of pingora and its layout in two byte strings; errors are their texts.
pub record MetaLib : Type 1 where
  pub CacheMeta : Type 0
  pub serialize : CacheMeta → Result Str (Bytes × Bytes)
  pub deserialize : Bytes → Bytes → Result Str CacheMeta

-- The parts of pingora's `CacheKey` that are read.
pub record CacheKey : Type 0 where
  pub namespace : Str
  pub combined : Str

pub record ObjectMissHandler : Type 0 where
  pub meta : Bytes × Bytes
  pub body : Bytes
  pub key : Str
  pub namespace : Str

abbrev pub write_body : ObjectMissHandler → Bytes → ObjectMissHandler
write_body self chunk = record self { body = self.body ++ chunk }

-- The chunks of a response, in their order.
abbrev pub write_all : ObjectMissHandler → List Bytes → ObjectMissHandler
write_all self [] = self
write_all self (chunk ∷ chunks) = write_all (write_body self chunk) chunks

abbrev pub outcome_of {ℓ} : {A : Type ℓ} → Result Str A → Outcome A
outcome_of (ok a) = done a
outcome_of (err e) = failed (invalid_cache e)

module _ (lib : MetaLib) (storage : HttpCacheStorage) where
  abbrev pub hit_of : CacheObject → Outcome (Option (lib.CacheMeta × CompleteHit))
  hit_of obj = elim (lib.deserialize obj.meta.0 obj.meta.1) [
    | err e ↦ failed (invalid_cache e)
    | ok meta ↦ done (
        some (
          meta,
          record { body = obj.body; done = false; range_start = 0; range_end = length obj.body },
        ))
  ]

  abbrev looked_up : Outcome (Option CacheObject) → Outcome (Option (lib.CacheMeta × CompleteHit))
  looked_up (done none) = done none
  looked_up (done (some obj)) = hit_of obj
  looked_up (failed e) = failed e
  looked_up panicked = panicked

  unfoldable pub lookup :
      storage.State → CacheKey → storage.State × Outcome (Option (lib.CacheMeta × CompleteHit))
  lookup state key =
      let (state', found) = storage.get state key.combined key.namespace in
      (state', looked_up found)

  unfoldable pub get_miss_handler : CacheKey → lib.CacheMeta → Outcome ObjectMissHandler
  get_miss_handler key meta = elim (lib.serialize meta) [
    | err e ↦ failed (invalid_cache e)
    | ok meta ↦
        done (record { meta = meta; body = []; key = key.combined; namespace = key.namespace })
  ]

  abbrev created : ℕ → Outcome (Unit {0}) → Outcome ℕ
  created size (done _) = done size
  created size (failed e) = failed e
  created size panicked = panicked

  -- The size that is reported is that of the body.
  unfoldable pub finish : storage.State → ObjectMissHandler → storage.State × Outcome ℕ
  finish state self =
      let (state', put) =
        storage.put state self.key self.namespace (record { meta = self.meta; body = self.body }) in
      (state', created (length self.body) put)

  abbrev was_removed : Outcome (Option CacheObject) → Outcome Bool
  was_removed (done none) = done false
  was_removed (done (some _)) = done true
  was_removed (failed _) = done false
  was_removed panicked = panicked

  -- The namespace of the key is not used.
  unfoldable pub purge : storage.State → CacheKey → storage.State × Outcome Bool
  purge state key =
      let (state', removed) = storage.remove state key.combined [] in (state', was_removed removed)

  abbrev updated : Outcome (Unit {0}) → Outcome Bool
  updated (done _) = done true
  updated (failed e) = failed e
  updated panicked = panicked

  abbrev put_meta :
      CacheKey
      → lib.CacheMeta
      → storage.State × Outcome (Option CacheObject)
      → storage.State × Outcome Bool
  put_meta key meta (state, done none) = (state, failed (invalid_cache (str "no meta found")))
  put_meta key meta (state, failed e) = (state, failed e)
  put_meta key meta (state, panicked) = (state, panicked)
  put_meta key meta (state, done (some obj)) = elim (lib.serialize meta) [
    | err e ↦ (state, failed (invalid_cache e))
    | ok meta ↦
        let (state', put) =
          storage.put state key.combined key.namespace (record obj { meta = meta }) in
        (state', updated put)
  ]

  unfoldable pub update_meta :
      storage.State → CacheKey → lib.CacheMeta → storage.State × Outcome Bool
  update_meta state key meta = put_meta key meta (storage.get state key.combined key.namespace)
