-- ===== src/Core/Limit.antt =====
-- Counts that expire: `TtlLruLimit` of pingap-core/src/ttl_lru_limit.rs.
pub mod Window
use pingap.Common.{ℕ, ◌+◌, Bool, true, false, Option, none, some}
use pingap.Common.Tests.{◌==◌, ltb, if◌then◌else◌}
use pingap.Common.Text.{Str}
use pingap.Common.Words.{inc64, sub64}

pub record TtlLimit : Type 0 where
  pub count : ℕ
  pub created_at : ℕ

-- The crate tinyufo: a map that may drop any entry at a put, with the weight of an entry. A get
-- counts the use of its key.
pub record LimitCache : Type 1 where
  pub Cache : Type 0
  pub get : Cache → Str → Cache × Option TtlLimit
  pub put : Cache → Str → TtlLimit → ℕ → Cache

-- The entry that inc writes.
unfoldable pub counted : ℕ → Option TtlLimit → TtlLimit
counted now none = record { count = 1; created_at = now }
counted now (some value) = record {
  count = inc64 value.count;
  created_at = if value.created_at == 0 then now else value.created_at;
}

module _ (lib : LimitCache) where
  pub record TtlLruLimit : Type 0 where
    pub ttl : ℕ
    pub ufo : lib.Cache
    pub max : ℕ

  -- What validate makes of an entry: whether it is valid, and whether it is to be reset.
  unfoldable pub check : TtlLruLimit → ℕ → Option TtlLimit → Bool × Bool
  check self now none = (true, false)
  check self now (some value) =
      if ltb self.ttl (sub64 now value.created_at)
      then (true, true)
      else if ltb value.count self.max
      then (true, false)
      else (false, false)

  unfoldable pub validate : TtlLruLimit → ℕ → Str → TtlLruLimit × Bool
  validate self now key =
      let (ufo, found) = lib.get self.ufo key in
      let (valid, should_reset) = check self now found in
      let self' = record self {
        ufo =
            if should_reset then lib.put ufo key (record { count = 0; created_at = 0 }) 1 else ufo;
      } in
      (self', valid)

  unfoldable pub inc : TtlLruLimit → ℕ → Str → TtlLruLimit
  inc self now key =
      let (ufo, found) = lib.get self.ufo key in
      record self { ufo = lib.put ufo key (counted now found) 1 }
