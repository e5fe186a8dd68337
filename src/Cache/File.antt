-- ===== src/Cache/File.antt =====
-- `FileCache` of pingap-cache/src/file.rs, a storage in files with an optional cache in memory in
-- front of it. The reading and writing counters are bit patterns of 32 bits; what they hold when a
-- call starts stands for the calls that run at the same time. The histograms of the feature
-- `tracing`, the reading of the parameters and the clearing by age are left out.
pub mod Memory
pub mod Quota
pub mod Stale
use pingap.Common.{ℕ, Bool, true, false, ◌&&◌, ◌||◌, Option, none, some, List, [], ◌∷◌, ◌++◌}
use pingap.Common.Tests.{ltb, leb, if◌then◌else◌}
use pingap.Common.Text.{Str, str, is_empty, starts_with, ends_with}
use pingap.Common.Lists.{length}
use pingap.Common.Results.{Result, ok, err}
use pingap.Common.Words.{inc32, dec32}
use pingap.Cache.Object.{Bytes, CacheObject, get_weight, BytesLib, from_bytes, to_bytes}
use pingap.Cache.Storage.{
  CacheError, io, over_quota, Outcome, done, failed, panicked, HttpCacheStorage,
}
use pingap.Cache.Tiny.{TinyUfo}

pub data IoError : Type 0 where
  not_found : IoError
  other_error : Str → IoError

abbrev show_io : IoError → Str
show_io not_found = str "not found"
show_io (other_error e) = e

-- The file system, by the functions of tokio::fs.
pub record FileSystem : Type 1 where
  pub Fs : Type 0
  pub read : Fs → Str → Result IoError Bytes
  pub write : Fs → Str → Bytes → Fs × Result IoError (Unit {0})
  pub remove_file : Fs → Str → Fs × Result IoError (Unit {0})

-- `Path::join`: an absolute path replaces the first one.
unfoldable pub path_join : Str → Str → Str
path_join base path =
    if starts_with path (str "/") || is_empty base
    then path
    else if ends_with base (str "/")
    then base ++ path
    else base ++ (str "/" ++ path)

module _ (bl : BytesLib) (fs : FileSystem) (lib : TinyUfo) where
  pub record FileCache : Type 0 where
    pub files : fs.Fs
    pub directory : Str
    pub reading : ℕ
    pub reading_max : ℕ
    pub writing : ℕ
    pub writing_max : ℕ
    pub cache : Option lib.Cache
    pub cache_file_max_weight : ℕ

  unfoldable pub get_file_path : FileCache → Str → Str → Str
  get_file_path self key namespace =
      if is_empty namespace
      then path_join self.directory key
      else path_join self.directory (namespace ++ (str "/" ++ key))

  -- The number of calls under way is at its maximum, which zero switches off.
  abbrev pub is_over : ℕ → ℕ → Bool
  is_over maximum count = ltb 0 maximum && leb maximum count

  -- The cache in memory is asked first.
  unfoldable pub get_memory : Option lib.Cache → Str → Option lib.Cache × Option CacheObject
  get_memory none key = (none, none)
  get_memory (some cache) key = let (cache', found) = lib.get cache key in (some cache', found)

  abbrev object_of : Result IoError Bytes → Outcome (Option CacheObject)
  object_of (ok buf) =
      if leb 8 (length buf)
      then elim (from_bytes bl buf) [ none ↦ panicked | some obj ↦ done (some obj) ]
      else done none
  object_of (err not_found) = done none
  object_of (err (other_error e)) = failed (io e)

  abbrev put_memory : Str → CacheObject → Option lib.Cache → Option lib.Cache
  put_memory key obj none = none
  put_memory key obj (some cache) = some (lib.put cache key obj (get_weight obj))

  -- An object that was read from its file is put into memory.
  abbrev remembered :
      FileCache → Str → Outcome (Option CacheObject) → FileCache × Outcome (Option CacheObject)
  remembered self key (done (some obj)) =
      (record self { cache = put_memory key obj self.cache }, done (some obj))
  remembered self key (done none) = (self, done none)
  remembered self key (failed e) = (self, failed e)
  remembered self key panicked = (self, panicked)

  -- The part of a call that counts as a reading one.
  unfoldable pub read_file : FileCache → Str → Str → FileCache × Outcome (Option CacheObject)
  read_file self key namespace =
      let count = self.reading in
      let left = record self { reading = dec32 (inc32 count) } in
      if is_over self.reading_max count
      then (left, failed (over_quota self.reading_max (str "too many reading")))
      else remembered left key (object_of (fs.read self.files (get_file_path self key namespace)))

  abbrev get_from :
      FileCache
      → Str
      → Str
      → Option lib.Cache × Option CacheObject
      → FileCache × Outcome (Option CacheObject)
  get_from self key namespace (cache, some obj) = (record self { cache = cache }, done (some obj))
  get_from self key namespace (cache, none) =
      read_file (record self { cache = cache }) key namespace

  unfoldable pub get : FileCache → Str → Str → FileCache × Outcome (Option CacheObject)
  get self key namespace = get_from self key namespace (get_memory self.cache key)

  abbrev written : FileCache → fs.Fs × Result IoError (Unit {0}) → FileCache × Outcome (Unit {0})
  written self (files, ok _) = (record self { files = files }, done tt)
  written self (files, err e) = (record self { files = files }, failed (io (show_io e)))

  -- Only a light object goes into memory; a heavy one leaves there what was there.
  unfoldable pub put_light : FileCache → Str → CacheObject → Option lib.Cache
  put_light self key obj =
      if ltb (get_weight obj) self.cache_file_max_weight
      then put_memory key obj self.cache
      else self.cache

  unfoldable pub put : FileCache → Str → Str → CacheObject → FileCache × Outcome (Unit {0})
  put self key namespace obj =
      let count = self.writing in
      let left = record self { cache = put_light self key obj; writing = dec32 (inc32 count) } in
      if is_over self.writing_max count
      then (left, failed (over_quota self.writing_max (str "too many writing")))
      else written left (fs.write self.files (get_file_path self key namespace) (to_bytes bl obj))

  abbrev remove_memory : Str → Option lib.Cache → Option lib.Cache
  remove_memory key none = none
  remove_memory key (some cache) = some (lib.remove cache key).0

  abbrev removed :
      FileCache → fs.Fs × Result IoError (Unit {0}) → FileCache × Outcome (Option CacheObject)
  removed self (files, ok _) = (record self { files = files }, done none)
  removed self (files, err e) = (record self { files = files }, failed (io (show_io e)))

  unfoldable pub remove : FileCache → Str → Str → FileCache × Outcome (Option CacheObject)
  remove self key namespace =
      removed (record self { cache = remove_memory key self.cache })
        (fs.remove_file self.files (get_file_path self key namespace))

  abbrev pub file_storage : HttpCacheStorage
  file_storage = record { State = FileCache; get = get; put = put; remove = remove }
