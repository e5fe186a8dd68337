-- ===== src/Core/Ctx.antt =====
-- `Ctx` of pingap-core/src/ctx.rs, the state of one request. The tracing spans are left out. A
-- handler of bodies is the function that it has. A guard of a request under way, which the plugin limit
-- stores, is the counter that it belongs to and its key.
pub mod Durations
pub mod Values
use pingap.Common.{ℕ, Bool, false, Option, none, some, List, [], ◌∷◌, ◌++◌}
use pingap.Common.Text.{Str}
use pingap.Common.Map.{Map, get, insert}

pub record CompressionStat : Type 0 where
  pub in_bytes : ℕ
  pub out_bytes : ℕ
  pub duration : ℕ

pub record Guard : Type 0 where
  pub counter : ℕ
  pub key : Str

-- Durations are in milliseconds.
pub record Ctx : Type 0 where
  pub connection_id : ℕ
  pub processing : ℕ
  pub accepted : ℕ
  pub location_processing : ℕ
  pub location_accepted : ℕ
  pub created_at : ℕ
  pub tls_version : Option Str
  pub tls_cipher : Option Str
  pub tls_handshake_time : Option ℕ
  pub status : Option ℕ
  pub connection_time : ℕ
  pub connection_reused : Bool
  pub location : Str
  pub client_ip : Option Str
  pub remote_port : Option ℕ
  pub remote_addr : Option Str
  pub server_port : Option ℕ
  pub server_addr : Option Str
  pub guard : Option Guard
  pub request_id : Option Str
  pub cache_namespace : Option Str
  pub cache_keys : Option (List Str)
  pub check_cache_control : Bool
  pub cache_lookup_time : Option ℕ
  pub cache_lock_time : Option ℕ
  pub cache_max_ttl : Option ℕ
  pub upstream : Str
  pub upstream_reused : Bool
  pub upstream_connect_time : Option ℕ
  pub upstream_tcp_connect_time : Option ℕ
  pub upstream_tls_handshake_time : Option ℕ
  pub upstream_processing_time : Option ℕ
  pub upstream_response_time : Option ℕ
  pub upstream_connection_time : Option ℕ
  pub compression_stat : Option CompressionStat
  pub modify_response_body : Option (Str → Str)
  pub modify_upstream_response_body : Option (Str → Str)
  pub response_body : Option Str
  pub cache_reading : Option ℕ
  pub cache_writing : Option ℕ
  pub upstream_connected : Option ℕ
  pub upstream_address : Str
  pub upstream_processing : Option ℕ
  pub payload_size : ℕ
  pub variables : Option (Map Str)
  pub plugin_processing_times : Option (List (Str × ℕ))

-- `Ctx::default`.
abbrev pub new_ctx : Ctx
new_ctx = record {
  connection_id = 0;
  processing = 0;
  accepted = 0;
  location_processing = 0;
  location_accepted = 0;
  created_at = 0;
  tls_version = none;
  tls_cipher = none;
  tls_handshake_time = none;
  status = none;
  connection_time = 0;
  connection_reused = false;
  location = [];
  client_ip = none;
  remote_port = none;
  remote_addr = none;
  server_port = none;
  server_addr = none;
  guard = none;
  request_id = none;
  cache_namespace = none;
  cache_keys = none;
  check_cache_control = false;
  cache_lookup_time = none;
  cache_lock_time = none;
  cache_max_ttl = none;
  upstream = [];
  upstream_reused = false;
  upstream_connect_time = none;
  upstream_tcp_connect_time = none;
  upstream_tls_handshake_time = none;
  upstream_processing_time = none;
  upstream_response_time = none;
  upstream_connection_time = none;
  compression_stat = none;
  modify_response_body = none;
  modify_upstream_response_body = none;
  response_body = none;
  cache_reading = none;
  cache_writing = none;
  upstream_connected = none;
  upstream_address = [];
  upstream_processing = none;
  payload_size = 0;
  variables = none;
  plugin_processing_times = none;
}

-- `Ctx::new`, at a time.
abbrev pub new : ℕ → Ctx
new now_ms = record new_ctx { created_at = now_ms }

abbrev or_empty {ℓ} : {A : Type ℓ} → Option (List A) → List A
or_empty none = []
or_empty (some xs) = xs

-- The key is stored behind a dollar sign.
unfoldable pub add_variable : Ctx → Str → Str → Ctx
unfolding insert
add_variable self key value = record self {
  variables = some (insert (b'$' ∷ key) value (or_empty self.variables));
}

unfoldable pub get_variable : Ctx → Str → Option Str
unfolding get
get_variable self key = get key (or_empty self.variables)

unfoldable pub add_plugin_processing_time : Ctx → Str → ℕ → Ctx
add_plugin_processing_time self name time = record self {
  plugin_processing_times = some (or_empty self.plugin_processing_times ++ (name, time) ∷ []);
}
