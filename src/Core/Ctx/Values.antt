-- ===== src/Core/Ctx/Values.antt =====
-- The values of a context by their names, the server timing and the cache key:
-- pingap-core/src/ctx.rs. Times are those of the calls, in milliseconds.
use pingap.Common.{
  ℕ, ◌+◌, ◌-◌, ◌%◌, ◌^◌, Bool, true, false, Option, none, some, List, [], ◌∷◌, ◌++◌,
}
use pingap.Common.Tests.{ltb, if◌then◌else◌}
use pingap.Common.Text.{Str, str, join, unwrap_or_default}
use pingap.Common.Map.{Map, get}
use pingap.Common.Words.{sub64}
use pingap.Common.Digits.{show}
use pingap.Core.Ctx.{Ctx, CompressionStat}
use pingap.Core.Ctx.Durations.{format_duration}

-- A time that counts only below one hour.
abbrev below_hour : Option ℕ → Option ℕ
below_hour none = none
below_hour (some value) = if ltb value 3_600_000 then some value else none

abbrev pub get_upstream_response_time : Ctx → Option ℕ
get_upstream_response_time self = below_hour self.upstream_response_time

abbrev pub get_upstream_connect_time : Ctx → Option ℕ
get_upstream_connect_time self = below_hour self.upstream_connect_time

abbrev pub get_upstream_processing_time : Ctx → Option ℕ
get_upstream_processing_time self = below_hour self.upstream_processing_time

abbrev ms : Option ℕ → Str
ms none = []
ms (some value) = show 10 value

abbrev human : Option ℕ → Str
human none = []
human (some value) = format_duration value

abbrev flag : Bool → Str
flag true = str "true"
flag false = str "false"

abbrev duration_of : Option CompressionStat → Option ℕ
duration_of none = none
duration_of (some stat) = some stat.duration

-- An `i32` by its bit pattern.
abbrev pub show_i32 : ℕ → Str
show_i32 n = if ltb n (2 ^ 31) then show 10 n else b'-' ∷ show 10 (2 ^ 32 - n)

abbrev shown : (ℕ → Str) → Option ℕ → Str
shown print none = []
shown print (some value) = print value

-- The ratio of two sizes with one digit behind the point, as Rust prints an `f64`.
abbrev pub Ratio : Type 0
Ratio = ℕ → ℕ → Str

abbrev ratio : Ratio → Option CompressionStat → Str
ratio show_ratio none = []
ratio show_ratio (some stat) = show_ratio stat.in_bytes stat.out_bytes

abbrev pub values : Ratio → ℕ → Ctx → Map Str
values show_ratio now_ms self =
    (str "connection_id", show 10 self.connection_id)
    ∷ (str "upstream_reused", flag self.upstream_reused)
    ∷ (str "upstream_addr", self.upstream_address)
    ∷ (str "processing", show_i32 self.processing)
    ∷ (str "upstream_connect_time", ms (get_upstream_connect_time self))
    ∷ (str "upstream_connect_time_human", human (get_upstream_connect_time self))
    ∷ (str "upstream_connected", shown show_i32 self.upstream_connected)
    ∷ (str "upstream_processing_time", ms (get_upstream_processing_time self))
    ∷ (str "upstream_processing_time_human", human (get_upstream_processing_time self))
    ∷ (str "upstream_response_time", ms (get_upstream_response_time self))
    ∷ (str "upstream_response_time_human", human (get_upstream_response_time self))
    ∷ (str "upstream_tcp_connect_time", ms self.upstream_tcp_connect_time)
    ∷ (str "upstream_tcp_connect_time_human", human self.upstream_tcp_connect_time)
    ∷ (str "upstream_tls_handshake_time", ms self.upstream_tls_handshake_time)
    ∷ (str "upstream_tls_handshake_time_human", human self.upstream_tls_handshake_time)
    ∷ (str "upstream_connection_time", ms self.upstream_connection_time)
    ∷ (str "upstream_connection_time_human", human self.upstream_connection_time)
    ∷ (str "location", self.location)
    ∷ (str "connection_time", show 10 self.connection_time)
    ∷ (str "connection_time_human", format_duration self.connection_time)
    ∷ (str "connection_reused", flag self.connection_reused)
    ∷ (str "tls_version", unwrap_or_default self.tls_version)
    ∷ (str "tls_cipher", unwrap_or_default self.tls_cipher)
    ∷ (str "tls_handshake_time", ms self.tls_handshake_time)
    ∷ (str "tls_handshake_time_human", human self.tls_handshake_time)
    ∷ (str "compression_time", ms (duration_of self.compression_stat))
    ∷ (str "compression_time_human", human (duration_of self.compression_stat))
    ∷ (str "compression_ratio", ratio show_ratio self.compression_stat)
    ∷ (str "cache_lookup_time", ms self.cache_lookup_time)
    ∷ (str "cache_lookup_time_human", human self.cache_lookup_time)
    ∷ (str "cache_lock_time", ms self.cache_lock_time)
    ∷ (str "cache_lock_time_human", human self.cache_lock_time)
    ∷ (str "service_time", show 10 (sub64 now_ms self.created_at))
    ∷ (str "service_time_human", format_duration (sub64 now_ms self.created_at))
    ∷ []

-- A name that stands for no value appends nothing.
unfoldable pub append_value : Ratio → ℕ → Ctx → Str → Str → Str
unfolding show format_duration get
append_value show_ratio now_ms self buf key =
    buf ++ unwrap_or_default (get key (values show_ratio now_ms self))

abbrev timing : Str → ℕ → Str
timing name time = name ++ (str ";dur=" ++ show 10 time)

-- The two times of a group, each if it is there, and their sum if one is.
abbrev group : Str → Str → Str → Option ℕ → Option ℕ → List Str
group name first second none none = []
group name first second (some a) none = timing (name ++ (b'.' ∷ first)) a ∷ timing name a ∷ []
group name first second none (some b) = timing (name ++ (b'.' ∷ second)) b ∷ timing name b ∷ []
group name first second (some a) (some b) =
    timing (name ++ (b'.' ∷ first)) a
    ∷ timing (name ++ (b'.' ∷ second)) b
    ∷ timing name ((a + b) % 2 ^ 64)
    ∷ []

-- On 32 bits, as the times of plugins are.
abbrev pub plugin_time : List (Str × ℕ) → ℕ
plugin_time [] = 0
plugin_time ((_, time) ∷ times) = (time + plugin_time times) % 2 ^ 32

abbrev plugin_items : List (Str × ℕ) → List Str
plugin_items [] = []
plugin_items ((name, time) ∷ times) = timing (str "plugin." ++ name) time ∷ plugin_items times

abbrev plugins : Option (List (Str × ℕ)) → List Str
plugins none = []
plugins (some times) = plugin_items times ++ timing (str "plugin") (plugin_time times) ∷ []

unfoldable pub generate_server_timing : ℕ → Ctx → Str
unfolding show join
generate_server_timing now_ms self = join (str ", ") (
    group (str "upstream") (str "connect") (str "processing") (get_upstream_connect_time self)
      (get_upstream_processing_time self)
    ++ (group (str "cache") (str "lookup") (str "lock") self.cache_lookup_time self.cache_lock_time
        ++ (plugins self.plugin_processing_times
            ++ timing (str "total") (sub64 now_ms self.created_at) ∷ [])))

pub record CacheKey : Type 0 where
  pub namespace : Str
  pub primary : Str
  pub user_tag : Str

-- With the text of the URI.
unfoldable pub get_cache_key : Ctx → Str → Str → CacheKey
unfolding join
get_cache_key ctx method uri =
    let request = method ++ (b':' ∷ uri) in
    record {
      namespace = unwrap_or_default ctx.cache_namespace;
      primary = elim ctx.cache_keys [
        | some keys ↦ join (str ":") keys ++ (b':' ∷ request)
        | none ↦ request
      ];
      user_tag = [];
    }
