-- ===== src/Cache/Http/Lookup.antt =====
-- What a lookup of the HTTP cache finds after a miss was stored and after the metadata were
-- updated: pingap-cache/src/http_cache.rs.
use pingap.Common.{
  ℕ, ◌≡◌, ◌⊎◌, inl, inr, refl, sym, ap, ◌∙◌, subst, true, false, Option, none, some, List, [], ◌∷◌,
  ◌++◌,
}
use mathlib.Core.List.{append-nil, append_assoc}
use pingap.Common.Lists.{length}
use pingap.Common.Results.{ok, Result-cases}
use pingap.Cache.Object.{Bytes, CacheObject}
use pingap.Cache.Storage.{
  Outcome, done, failed, panicked, done_inj, failed≢done, panicked≢done, HttpCacheStorage, IsFresh,
}
use pingap.Cache.Hit.{CompleteHit}
use pingap.Cache.Http.{
  MetaLib, CacheKey, ObjectMissHandler, write_all, hit_of, lookup, get_miss_handler, finish,
  update_meta, looked_up, created, put_meta, updated,
}

-- The chunks of a body, put together.
abbrev pub concat : List Bytes → Bytes
concat [] = []
concat (chunk ∷ chunks) = chunk ++ concat chunks

write_all-body :
    (self : ObjectMissHandler) (chunks : List Bytes)
    → write_all self chunks ≡ record self { body = self.body ++ concat chunks }
write_all-body self [] = ap (λ b. record self { body = b }) (sym (append-nil self.body))
write_all-body self (chunk ∷ chunks) =
    write_all-body (record self { body = self.body ++ chunk }) chunks
    ∙ ap (λ b. record self { body = b }) (append_assoc self.body chunk (concat chunks))

-- Reading the whole of a body.
abbrev pub whole : Bytes → CompleteHit
whole body = record { body = body; done = false; range_start = 0; range_end = length body }

module _ (lib : MetaLib) (storage : HttpCacheStorage) where
  -- The metadata are read as they were written.
  abbrev pub IsReadable : lib.CacheMeta → Type 0
  IsReadable meta =
      (parts : Bytes × Bytes)
      → lib.serialize meta ≡ ok parts
      → lib.deserialize parts.0 parts.1 ≡ ok meta

  abbrev started_with : CacheKey → Bytes × Bytes → Bytes → ObjectMissHandler
  started_with key parts body = record {
    meta = parts;
    body = body;
    key = key.combined;
    namespace = key.namespace;
  }

  get_miss_handler-eq-done :
      (key : CacheKey) (meta : lib.CacheMeta) (handler : ObjectMissHandler)
      → get_miss_handler lib storage key meta ≡ done handler
      → (parts : Bytes × Bytes) × (lib.serialize meta ≡ ok parts)
        × (started_with key parts [] ≡ handler)
  unfolding get_miss_handler
  get_miss_handler-eq-done key meta handler e = elim (Result-cases (lib.serialize meta)) [
    | inl (parts, made) ↦ (parts, made, done_inj (rw (made, get_miss_handler) at e))
    | inr (error, refused) ↦ absurd (failed≢done (rw (refused, get_miss_handler) at e))
  ]

  created-eq-done :
      (n size : ℕ) (put : Outcome (Unit {0}))
      → created lib storage n put ≡ done size
      → (put ≡ done tt) × (n ≡ size)
  created-eq-done n size (done _) e = (refl, done_inj e)
  created-eq-done n size (failed error) e = absurd (failed≢done e)
  created-eq-done n size panicked e = absurd (panicked≢done e)

  -- What a lookup makes of the two answers that a fresh storage can give.
  looked_up_of_fresh :
      (meta : lib.CacheMeta) (parts : Bytes × Bytes) (body : Bytes)
      (found : Outcome (Option CacheObject))
      → lib.deserialize parts.0 parts.1 ≡ ok meta
      → (found ≡ done (some (record { meta = parts; body = body }))) ⊎ (found ≡ done none)
      → (looked_up lib storage found ≡ done (some (meta, whole body)))
        ⊎ (looked_up lib storage found ≡ done none)
  looked_up_of_fresh meta parts body found read (inl stored) =
      inl (rw (stored, looked_up, hit_of, read) refl)
  looked_up_of_fresh meta parts body found read (inr dropped) = inr (rw dropped refl)

  finish-started :
      (state : storage.State) (key : CacheKey) (parts : Bytes × Bytes) (chunks : List Bytes)
      → let put =
          storage.put state key.combined key.namespace
            (record { meta = parts; body = concat chunks }) in
        finish lib storage state (write_all (started_with key parts []) chunks)
        ≡ (put.0, created lib storage (length (concat chunks)) put.1)
  unfolding finish
  finish-started state key parts chunks =
      ap (finish lib storage state) (write_all-body (started_with key parts []) chunks)

  -- A lookup finds these metadata and this body, or nothing.
  abbrev pub Finds : storage.State → CacheKey → lib.CacheMeta → Bytes → Type 0
  Finds state key meta body =
      ((lookup lib storage state key).1 ≡ done (some (meta, whole body)))
      ⊎ ((lookup lib storage state key).1 ≡ done none)

  -- After a response was stored chunk by chunk, a lookup of its key finds its metadata and a hit on
  -- its whole body, or nothing if the storage has dropped it; the size that the writer was told is
  -- that of the body. The storage is fresh for that object.
  pub lookup-finish :
      (state : storage.State) (key : CacheKey) (meta : lib.CacheMeta) (chunks : List Bytes)
      (handler : ObjectMissHandler) (size : ℕ)
      → IsReadable meta
      → get_miss_handler lib storage key meta ≡ done handler
      → IsFresh storage (record { meta = handler.meta; body = concat chunks })
      → (finish lib storage state (write_all handler chunks)).1 ≡ done size
      → let state' = (finish lib storage state (write_all handler chunks)).0 in
        (size ≡ length (concat chunks)) × Finds state' key meta (concat chunks)
  unfolding lookup get_miss_handler finish
  lookup-finish state key meta chunks handler size readable started fresh ended =
      let (parts, made, is) = get_miss_handler-eq-done key meta handler started in
      let ended' : (finish lib storage state (write_all (started_with key parts []) chunks)).1
          ≡ done size =
        subst (λ h. (finish lib storage state (write_all h chunks)).1 ≡ done size) (sym is) ended in
      let (stored, sized) =
        created-eq-done (length (concat chunks)) size _
          (ap (λ r. r.1) (sym (finish-started state key parts chunks)) ∙ ended') in
      let fresh' : IsFresh storage (record { meta = parts; body = concat chunks }) =
        subst (λ h. IsFresh storage (record { meta = h.meta; body = concat chunks })) (sym is)
          fresh in
      let found =
        looked_up_of_fresh meta parts (concat chunks) _ (readable parts made)
          (fresh'.seen state key.combined key.namespace stored) in
      let at_put = ap (λ r. r.0) (sym (finish-started state key parts chunks)) in
      (
        sym sized,
        subst
            (λ h. Finds (finish lib storage state (write_all h chunks)).0 key meta (concat chunks))
            is (subst (λ s. Finds s key meta (concat chunks)) at_put found),
      )

  updated-eq-done : (put : Outcome (Unit {0})) → updated lib storage put ≡ done true → put ≡ done tt
  updated-eq-done (done _) e = refl
  updated-eq-done (failed error) e = absurd (failed≢done e)
  updated-eq-done panicked e = absurd (panicked≢done e)

  -- After an update of the metadata that reports success, a lookup finds the new metadata with the
  -- body that was there before, or nothing if the storage has dropped it. The storage is fresh for
  -- the objects of that body.
  pub lookup-update_meta :
      (state : storage.State) (key : CacheKey) (meta : lib.CacheMeta) (obj : CacheObject)
      → IsReadable meta
      → ((parts : Bytes × Bytes) → IsFresh storage (record { meta = parts; body = obj.body }))
      → (storage.get state key.combined key.namespace).1 ≡ done (some obj)
      → (update_meta lib storage state key meta).1 ≡ done true
      → Finds (update_meta lib storage state key meta).0 key meta obj.body
  unfolding update_meta lookup
  lookup-update_meta state key meta obj readable fresh found ended =
      let read = storage.get state key.combined key.namespace in
      let got : update_meta lib storage state key meta
          ≡ put_meta lib storage key meta (read.0, done (some obj)) =
        ap (λ f. put_meta lib storage key meta (read.0, f)) found in
      let ended' = ap (λ r. r.1) (sym got) ∙ ended in
      elim (Result-cases (lib.serialize meta)) [
        | inl (parts, made) ↦
            let stored = updated-eq-done _ (rw (put_meta, made) at ended') in
            subst (λ s. Finds s key meta obj.body) (ap (λ r. r.0) (sym got))
              (rw (put_meta, made)
                (looked_up_of_fresh meta parts obj.body _ (readable parts made)
                  ((fresh parts).seen read.0 key.combined key.namespace stored)))
        | inr (error, refused) ↦ absurd (failed≢done (rw (put_meta, refused) at ended'))
      ]
