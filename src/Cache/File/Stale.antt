-- ===== src/Cache/File/Stale.antt =====
-- Where the cache in memory and the files of pingap-cache/src/file.rs tell different things.
use pingap.Common.{◌≤◌, ◌≡◌, inl, inr, refl, sym, ◌∙◌, false, some, [], arith}
use pingap.Common.Tests.{ltb}
use pingap.Common.Text.{Str}
use pingap.Common.Results.{Result-cases}
use pingap.Common.Words.{inc32, dec32}
use pingap.Cache.Object.{BytesLib, CacheObject, get_weight, to_bytes}
use pingap.Cache.Storage.{done}
use pingap.Cache.Tiny.{TinyUfo}
use pingap.Cache.Http.{MetaLib, CacheKey, purge}
use pingap.Cache.File.{
  FileSystem, FileCache, get_file_path, get_memory, removed, get_from, get, put_light, put, remove,
  file_storage,
}
use pingap.Cache.File.Memory.{put-eq-done}

module _ (bl : BytesLib) (fs : FileSystem) (lib : TinyUfo) (self : FileCache bl fs lib)
    (key namespace : Str) where
  get-in_memory :
      (c : lib.Cache) (o : CacheObject)
      → self.cache ≡ some c
      → (lib.get c key).1 ≡ some o
      → (get bl fs lib self key namespace).1 ≡ done (some o)
  unfolding get get_memory
  get-in_memory c o on there = rw (on, get_memory, get_from, there) refl

module _ (bl : BytesLib) (fs : FileSystem) (lib : TinyUfo) (self : FileCache bl fs lib) (key : Str)
    (c : lib.Cache) (o : CacheObject) (on : self.cache ≡ some c)
    (there : (lib.get c key).1 ≡ some o) where
  -- A get takes what memory has under the key, whatever the namespace: an object that was stored in
  -- one namespace answers for the same key in every other.
  pub get-namespaces :
      (namespace other : Str)
      → ((get bl fs lib self key namespace).1 ≡ done (some o))
        × ((get bl fs lib self key other).1 ≡ (get bl fs lib self key namespace).1)
  get-namespaces namespace other =
      let here = get-in_memory bl fs lib self key namespace c o on there in
      (here, get-in_memory bl fs lib self key other c o on there ∙ sym here)

  -- A put of an object that is too heavy for memory, if the write of the file succeeds, leaves the
  -- file with the new object, and the next get still gives the object that memory had before.
  pub get-put_of_heavy :
      (namespace : Str) (obj : CacheObject)
      → self.cache_file_max_weight ≤ get_weight obj
      → (put bl fs lib self key namespace obj).1 ≡ done tt
      → ((put bl fs lib self key namespace obj).0.files
          ≡ (fs.write self.files (get_file_path bl fs lib self key namespace) (to_bytes bl obj)).0)
        × ((get bl fs lib (put bl fs lib self key namespace obj).0 key namespace).1 ≡ done (some o))
  unfolding put_light
  get-put_of_heavy namespace obj heavy ended =
      let (_, is) = put-eq-done bl fs lib self key namespace obj ended in
      let kept : ltb (get_weight obj) self.cache_file_max_weight ≡ false = ground arith in
      rw is (
        refl,
        get-in_memory bl fs lib
            (record self {
              cache = put_light bl fs lib self key obj;
              writing = dec32 (inc32 self.writing);
              files =
                  (fs.write self.files (get_file_path bl fs lib self key namespace)
                    (to_bytes bl obj)).0;
            })
            key namespace c o (rw (put_light, kept) on) there,
      )

module _ (meta : MetaLib) (bl : BytesLib) (fs : FileSystem) (lib : TinyUfo) where
  -- A purge of a cache in files always reports that nothing was removed, also when it removed the
  -- file: `remove` does not give the object back.
  pub purge-file_storage :
      (self : FileCache bl fs lib) (key : CacheKey)
      → (purge meta (file_storage bl fs lib) self key).1 ≡ done false
  unfolding purge remove get_file_path
  purge-file_storage self key =
      elim (Result-cases
        (fs.remove_file self.files (get_file_path bl fs lib self key.combined [])).1) [
          | inl (gone, e) ↦ rw (removed, e) refl
          | inr (error, e) ↦ rw (removed, e) refl
        ]
