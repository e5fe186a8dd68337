-- ===== src/Cache/File/Quota.antt =====
-- The quotas of pingap-cache/src/file.rs: how many calls may read and write at the same time.
use pingap.Common.{◌^◌, ◌<◌, ◌≤◌, ◌≡◌, inl, inr, refl, ◌∙◌, true, Option, none, some, arith}
use pingap.Common.Tests.{Bool-cases, Option-cases}
use pingap.Common.Text.{Str, str}
use pingap.Common.Words.{inc32, dec32, dec32-inc32}
use pingap.Cache.Object.{BytesLib, CacheObject}
use pingap.Cache.Storage.{Outcome, done, failed, panicked, over_quota}
use pingap.Cache.Tiny.{TinyUfo}
use pingap.Cache.File.{
  FileSystem, FileCache, is_over, get_file_path, get_memory, remembered, object_of, read_file,
  get_from, get, put_light, put,
}

module _ (bl : BytesLib) (fs : FileSystem) (lib : TinyUfo) (self : FileCache bl fs lib)
    (key namespace : Str) where
  remembered-counters :
      (s : FileCache bl fs lib) (found : Outcome (Option CacheObject))
      → let s' = (remembered bl fs lib s key found).0 in
        (s'.reading ≡ s.reading) × (s'.writing ≡ s.writing) × (s'.files ≡ s.files)
  remembered-counters s (done (some obj)) = (refl, refl, refl)
  remembered-counters s (done none) = (refl, refl, refl)
  remembered-counters s (failed e) = (refl, refl, refl)
  remembered-counters s panicked = (refl, refl, refl)

  read_file-counters :
      (s : FileCache bl fs lib)
      → s.reading < 2 ^ 32
      → let s' = (read_file bl fs lib s key namespace).0 in
        (s'.reading ≡ s.reading) × (s'.writing ≡ s.writing) × (s'.files ≡ s.files)
  unfolding read_file
  read_file-counters s h =
      let restored = dec32-inc32 s.reading h in
      elim (Bool-cases (is_over bl fs lib s.reading_max s.reading)) [
        | inl over ↦ rw over (restored, refl, refl)
        | inr free ↦ rw free (
            let (counted, same_writing, same_files) =
              remembered-counters (record s { reading = dec32 (inc32 s.reading) })
                (object_of bl fs lib (fs.read s.files (get_file_path bl fs lib s key namespace))) in
            (counted ∙ restored, same_writing, same_files))
      ]

  -- However a get ends, it takes its own count back, and it changes no file.
  pub get-counters :
      self.reading < 2 ^ 32
      → let s' = (get bl fs lib self key namespace).0 in
        (s'.reading ≡ self.reading) × (s'.writing ≡ self.writing) × (s'.files ≡ self.files)
  unfolding get
  get-counters h =
      let memory = get_memory bl fs lib self.cache key in
      elim (Option-cases memory.1) [
        | inl missing ↦
            rw (get_from, missing) (read_file-counters (record self { cache = memory.0 }) h)
        | inr (o, there) ↦ rw (get_from, there) (refl, refl, refl)
      ]

  -- Above the quota a get that memory cannot answer fails with the maximum, and so does every put,
  -- which then leaves the files alone but has put a light object into memory already.
  pub get_put_of_over_quota :
      (obj : CacheObject)
      → (0 < self.reading_max
          → self.reading_max ≤ self.reading
          → (get_memory bl fs lib self.cache key).1 ≡ none
          → (get bl fs lib self key namespace).1
            ≡ failed (over_quota self.reading_max (str "too many reading")))
        × (0 < self.writing_max
            → self.writing_max ≤ self.writing
            → let r = put bl fs lib self key namespace obj in
              (r.1 ≡ failed (over_quota self.writing_max (str "too many writing")))
              × (r.0.files ≡ self.files)
              × (r.0.cache ≡ put_light bl fs lib self key obj))
  unfolding get put read_file
  get_put_of_over_quota obj = (
    λ some_max reached missing.
        let over : is_over bl fs lib self.reading_max self.reading ≡ true = ground arith in
        rw (get_from, missing, read_file, over) refl,
    λ some_max reached.
        let over : is_over bl fs lib self.writing_max self.writing ≡ true = ground arith in
        rw over (refl, refl, refl),
  )
