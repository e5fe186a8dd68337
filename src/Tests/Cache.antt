-- ===== src/Tests/Cache.antt =====
-- The storages of the HTTP cache on concrete objects: pingap-cache.
use pingap.Common.{◌≡◌, inl, refl, sym, ap, true, Option, none, some, List, [], ◌∷◌, arith}
use pingap.Common.Text.{Str, str, str_eq, str_eq_refl, starts_with, ends_with}
use pingap.Common.Map.{Map, get, insert, remove, get-insert, get-remove}
use pingap.Common.Lists.{length, take}
use pingap.Common.Results.{Result, ok, err}
use pingap.Cache.Object.{Bytes, CacheObject, get_weight, split_parts, from_bytes, to_bytes}
use pingap.Cache.Object.Codec.{from_bytes-to_bytes, to_bytes-from_bytes}
use pingap.Cache.Storage.{done, HttpCacheStorage, IsFresh}
use pingap.Cache.Hit
use pingap.Cache.Hit.{CompleteHit, seek}
use pingap.Cache.Http.{
  MetaLib, CacheKey, ObjectMissHandler, write_all, lookup, finish, get_miss_handler, update_meta,
  purge,
}
use pingap.Cache.Http.Lookup.{concat, Finds, lookup-finish}
use pingap.Cache.Tiny
use pingap.Cache.Tiny.{TinyUfo, IsCache, tiny_storage, tiny_storage-IsFresh}
use pingap.Cache.File
use pingap.Cache.File.{
  FileSystem, FileCache, IoError, not_found, path_join, get_file_path, get_memory, read_file,
  put_light, file_storage,
}
use pingap.Cache.File.Memory.{IsFileSystem, get-put}
use pingap.Cache.File.Stale.{get-put_of_heavy}
use pingap.Tests.Bytes.{put_u32, get_u32, split_to, slice, big_endian, big_endian-IsBytes}

code : Unit {0}
unfolding str_eq starts_with ends_with get insert remove get_weight put_u32 get_u32 split_to slice
    split_parts from_bytes to_bytes seek Hit.get lookup finish get_miss_handler update_meta purge
    Tiny.get Tiny.put Tiny.remove path_join get_file_path get_memory read_file put_light File.get
    File.put File.remove
code = tt

abbrev object : CacheObject
object = record { meta = (1 ∷ 2 ∷ [], 3 ∷ []); body = 7 ∷ 8 ∷ 9 ∷ [] }

abbrev bytes : Bytes
bytes = 0 ∷ 0 ∷ 0 ∷ 2 ∷ 0 ∷ 0 ∷ 0 ∷ 1 ∷ 1 ∷ 2 ∷ 3 ∷ 7 ∷ 8 ∷ 9 ∷ []

codec_tests :
    (to_bytes big_endian object ≡ bytes)
    × (from_bytes big_endian bytes ≡ some object)
    × (from_bytes big_endian (take 10 bytes) ≡ none)
    × (from_bytes big_endian (take 7 bytes) ≡ some (record { meta = ([], []); body = [] }))
unfolding code
codec_tests = (refl, refl, refl, refl)

from_bytes-to_bytes_example : from_bytes big_endian (to_bytes big_endian object) ≡ some object
from_bytes-to_bytes_example =
    from_bytes-to_bytes big_endian big_endian-IsBytes object (omega arith) (omega arith)

to_bytes-from_bytes_example : to_bytes big_endian object ≡ bytes
to_bytes-from_bytes_example =
    to_bytes-from_bytes big_endian big_endian-IsBytes bytes object (ground arith) (omega arith)
      codec_tests.1

abbrev hit : CompleteHit
hit = record { body = 7 ∷ 8 ∷ 9 ∷ []; done = true; range_start = 0; range_end = 1 }

-- A cache that drops nothing, files as a map, and metadata that are their own layout.
abbrev map_cache : TinyUfo
map_cache = record {
  Cache = Map CacheObject;
  get = λ c k. (c, get k c);
  put = λ c k o weight. insert k o c;
  remove = λ c k. (remove k c, get k c);
}

abbrev file_of : Option Bytes → Result IoError Bytes
file_of none = err not_found
file_of (some buf) = ok buf

abbrev map_files : FileSystem
map_files = record {
  Fs = Map Bytes;
  read = λ files path. file_of (get path files);
  write = λ files path buf. (insert path buf files, ok tt);
  remove_file = λ files path. (remove path files, ok tt);
}

abbrev plain_meta : MetaLib
plain_meta = record {
  CacheMeta = Bytes × Bytes;
  serialize = λ meta. ok meta;
  deserialize = λ first second. ok (first, second);
}

get-insert_same : {V : Type 0} (k : Str) (v : V) (m : Map V) → get k (insert k v m) ≡ some v
get-insert_same k v m = ground (arith, get-insert k k v m, str_eq_refl k)

map_cache-IsCache : IsCache map_cache
map_cache-IsCache = record {
  put_get = λ c k o weight. inl (get-insert_same k o c);
  remove_get = λ c k. ground (arith, get-remove k k c, str_eq_refl k);
}

map_files-IsFileSystem : IsFileSystem map_files
map_files-IsFileSystem = record {
  write_read = λ files path buf e. ap file_of (get-insert_same path buf files);
}

abbrev memory : HttpCacheStorage
memory = tiny_storage map_cache

memory-IsFresh : IsFresh memory object
memory-IsFresh = tiny_storage-IsFresh map_cache map_cache-IsCache object

abbrev key : CacheKey
key = record { namespace = str "a"; combined = str "k" }

abbrev handler : ObjectMissHandler
handler = record { meta = object.meta; body = []; key = str "k"; namespace = str "a" }

abbrev chunks : List Bytes
chunks = (7 ∷ 8 ∷ []) ∷ (9 ∷ []) ∷ []

abbrev after_finish : Map CacheObject
after_finish = (finish plain_meta memory [] (write_all handler chunks)).0

lookup-finish_example :
    (3 ≡ length (concat chunks))
    × Finds plain_meta memory after_finish key object.meta (7 ∷ 8 ∷ 9 ∷ [])
unfolding code
lookup-finish_example =
    lookup-finish plain_meta memory [] key object.meta chunks handler 3 (λ parts e. sym e) refl
      memory-IsFresh refl

abbrev files : FileCache big_endian map_files map_cache
files = record {
  files = [];
  directory = str "/tmp";
  reading = 0;
  reading_max = 2;
  writing = 0;
  writing_max = 1;
  cache = none;
  cache_file_max_weight = 256;
}

-- With an old object in memory, and no weight that is light enough.
abbrev cached : FileCache big_endian map_files map_cache
cached = record files {
  cache = some ((str "k", record object { body = [] }) ∷ []);
  cache_file_max_weight = 1;
}

get-put_example :
    (File.get big_endian map_files map_cache
      (File.put big_endian map_files map_cache files (str "k") (str "a") object).0
      (str "k")
      (str "a")).1
    ≡ done (some object)
unfolding code
get-put_example =
    get-put big_endian map_files map_cache files (str "k") (str "a") object big_endian-IsBytes
      map_files-IsFileSystem map_cache-IsCache (inl refl) (omega arith) (omega arith) refl refl

get-put_of_heavy_example :
    ((File.put big_endian map_files map_cache cached (str "k") [] object).0.files
      ≡ (map_files.write cached.files
          (get_file_path big_endian map_files map_cache cached (str "k") [])
          (to_bytes big_endian object)).0)
    × ((File.get big_endian map_files map_cache
          (File.put big_endian map_files map_cache cached (str "k") [] object).0
          (str "k")
          []).1
        ≡ done (some (record object { body = [] })))
unfolding code
get-put_of_heavy_example =
    get-put_of_heavy big_endian map_files map_cache cached (str "k")
      ((str "k", record object { body = [] }) ∷ []) (record object { body = [] }) refl refl []
      object (omega arith) refl

abbrev busy : FileCache big_endian map_files map_cache
busy = record files { reading = 2; writing = 1 }
