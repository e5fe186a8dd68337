-- ===== src/Cache/File/Memory.antt =====
-- What a get of the file cache gives after a put, with and without the cache in memory:
-- pingap-cache/src/file.rs.
use pingap.Common.{◌^◌, ◌<◌, ◌≡◌, ◌⊎◌, inl, inr, refl, ap, true, false, Option, none, some, arith}
use pingap.Common.Tests.{ltb, leb, Bool-cases, Option-cases}
use pingap.Common.Text.{Str}
use pingap.Common.Lists.{length}
use pingap.Common.Results.{ok, Result-cases}
use pingap.Common.Words.{inc32, dec32}
use pingap.Cache.Object.{Bytes, BytesLib, IsBytes, CacheObject, get_weight, to_bytes}
use pingap.Cache.Object.Codec.{from_bytes-to_bytes, length-to_bytes}
use pingap.Cache.Storage.{done, failed≢done}
use pingap.Cache.Tiny.{TinyUfo, IsCache}
use pingap.Cache.File.{
  FileSystem, FileCache, is_over, get_file_path, get_memory, object_of, remembered, read_file,
  get_from, get, put_light, put_memory, written, put,
}

-- What the file system promises: a file reads as it was last written.
pub record IsFileSystem (fs : FileSystem) : Type 0 where
  pub write_read :
      (files : fs.Fs) (path : Str) (buf : Bytes)
      → (fs.write files path buf).1 ≡ ok tt
      → fs.read (fs.write files path buf).0 path ≡ ok buf

module _ (bl : BytesLib) (fs : FileSystem) (lib : TinyUfo) (self : FileCache bl fs lib)
    (key namespace : Str) (obj : CacheObject) where
  object_of-to_bytes :
      IsBytes bl
      → length obj.meta.0 < 2 ^ 32
      → length obj.meta.1 < 2 ^ 32
      → object_of bl fs lib (ok (to_bytes bl obj)) ≡ done (some obj)
  object_of-to_bytes laws h k =
      let long : leb 8 (length (to_bytes bl obj)) ≡ true =
        ground (arith, length-to_bytes bl laws obj) in
      rw (object_of, long, from_bytes-to_bytes bl laws obj h k) refl

  -- A put that ends well: its quota was free, and the file was written.
  pub put-eq-done :
      (put bl fs lib self key namespace obj).1 ≡ done tt
      → let w =
          fs.write self.files (get_file_path bl fs lib self key namespace) (to_bytes bl obj) in
        (w.1 ≡ ok tt)
        × (put bl fs lib self key namespace obj ≡ (
          record self {
            cache = put_light bl fs lib self key obj;
            writing = dec32 (inc32 self.writing);
            files = w.0;
          },
          done tt,
        ))
  unfolding put
  put-eq-done e = elim (Bool-cases (is_over bl fs lib self.writing_max self.writing)) [
    | inl over ↦ absurd (failed≢done (rw over at e))
    | inr free ↦
        elim (Result-cases
          (fs.write self.files (get_file_path bl fs lib self key namespace) (to_bytes bl obj)).1) [
            | inl (done_it, wrote) ↦ (wrote, rw (free, written, wrote) refl)
            | inr (error, refused) ↦ absurd (failed≢done (rw (free, written, refused) at e))
          ]
  ]

  read_file-done :
      (s : FileCache bl fs lib)
      → IsBytes bl
      → length obj.meta.0 < 2 ^ 32
      → length obj.meta.1 < 2 ^ 32
      → is_over bl fs lib s.reading_max s.reading ≡ false
      → fs.read s.files (get_file_path bl fs lib s key namespace) ≡ ok (to_bytes bl obj)
      → (read_file bl fs lib s key namespace).1 ≡ done (some obj)
  unfolding read_file
  read_file-done s laws h k free found =
      let same = object_of-to_bytes laws h k in rw (free, found, remembered, same) refl

  -- The memory either has the object or is asked in vain, and then the file has it.
  get_from-done :
      (s : FileCache bl fs lib) (memory : Option lib.Cache × Option CacheObject)
      → IsBytes bl
      → length obj.meta.0 < 2 ^ 32
      → length obj.meta.1 < 2 ^ 32
      → is_over bl fs lib s.reading_max s.reading ≡ false
      → fs.read s.files (get_file_path bl fs lib s key namespace) ≡ ok (to_bytes bl obj)
      → (memory.1 ≡ some obj) ⊎ (memory.1 ≡ none)
      → (get_from bl fs lib s key namespace memory).1 ≡ done (some obj)
  unfolding get_file_path
  get_from-done s (cache, some o) laws h k free found (inl same) = ap done same
  get_from-done s (cache, some o) laws h k free found (inr none_there) = absurd (ground arith)
  get_from-done s (cache, none) laws h k free found there =
      read_file-done (record s { cache = cache }) laws h k free found

  get_memory-put_light :
      (self.cache ≡ none) ⊎ (get_weight obj < self.cache_file_max_weight)
      → IsCache lib
      → let found = (get_memory bl fs lib (put_light bl fs lib self key obj) key).1 in
        (found ≡ some obj) ⊎ (found ≡ none)
  unfolding get_memory put_light
  get_memory-put_light (inl off) cache =
      elim (Bool-cases (ltb (get_weight obj) self.cache_file_max_weight)) [
        | inl fits ↦ rw (put_light, fits, off, put_memory, get_memory) (inr refl)
        | inr heavy ↦ rw (put_light, heavy, off, get_memory) (inr refl)
      ]
  get_memory-put_light (inr light) cache =
      let fits : ltb (get_weight obj) self.cache_file_max_weight ≡ true = ground arith in
      elim (Option-cases self.cache) [
        | inl off ↦ rw (put_light, fits, off, put_memory, get_memory) (inr refl)
        | inr (c, on) ↦
            rw (put_light, fits, on, put_memory, get_memory)
              (cache.put_get c key obj (get_weight obj))
      ]

  -- A put that ends well is seen by the next get of that key and namespace, from memory or from the
  -- file, when there is no cache in memory or the object is light enough for it. The metadata are
  -- shorter than 4 GiB, and the quota of readings is not used up.
  pub get-put :
      IsBytes bl
      → IsFileSystem fs
      → IsCache lib
      → (self.cache ≡ none) ⊎ (get_weight obj < self.cache_file_max_weight)
      → length obj.meta.0 < 2 ^ 32
      → length obj.meta.1 < 2 ^ 32
      → is_over bl fs lib self.reading_max self.reading ≡ false
      → (put bl fs lib self key namespace obj).1 ≡ done tt
      → (get bl fs lib (put bl fs lib self key namespace obj).0 key namespace).1 ≡ done (some obj)
  unfolding get get_file_path
  get-put laws files cache light h k free ended =
      let (wrote, is) = put-eq-done ended in
      rw is (
        get_from-done
          (record self {
            cache = put_light bl fs lib self key obj;
            writing = dec32 (inc32 self.writing);
            files =
                (fs.write self.files (get_file_path bl fs lib self key namespace)
                  (to_bytes bl obj)).0;
          })
          (get_memory bl fs lib (put_light bl fs lib self key obj) key) laws h k free
          (files.write_read self.files (get_file_path bl fs lib self key namespace)
            (to_bytes bl obj) wrote)
          (get_memory-put_light light cache))
