-- ===== src/Server/Proxy.antt =====
-- The request to the upstream: its headers and the times of its connection, from
-- `set_append_proxy_headers`, `upstream_request_filter` and `connected_to_upstream` of
-- src/proxy/server.rs.
pub mod Headers
use pingap.Common.{ℕ, ◌-◌, Bool, true, false, not, ◌&&◌, Option, none, some, List, [], ◌∷◌, ◌++◌}
use pingap.Common.Tests.{ltb, if◌then◌else◌}
use pingap.Common.Text.{Str, str}
use pingap.Common.Map.{Map, remove}
use pingap.Core.Ctx.{Ctx}
use pingap.Core.Plugin.{Session, Digest}
use pingap.External.{RegexLib, HttpLib}
use pingap.Http.Header.{RequestHeader, HttpHeader}
use pingap.Http.Values.{System, convert_header_value}
use pingap.Location.Registry.{get_location}
use pingap.Location.Route.{Location}
use pingap.Server.Early.{get_digest_detail}
use pingap.Util.Datetime.{get_latency}

-- `insert_header` replaces all values of a name, `append_header` adds one.
unfoldable pub insert_header : Str → Str → List (Str × Str) → List (Str × Str)
insert_header name value headers = remove name headers ++ (name, value) ∷ []

unfoldable pub append_header : Str → Str → List (Str × Str) → List (Str × Str)
append_header name value headers = headers ++ (name, value) ∷ []

-- `DEFAULT_PROXY_SET_HEADERS`, as `convert_headers` reads them.
abbrev pub default_proxy_set_headers : List HttpHeader
default_proxy_set_headers =
    (str "x-real-ip", str "$remote_addr")
    ∷ (str "x-forwarded-for", str "$proxy_add_x_forwarded_for")
    ∷ (str "x-forwarded-proto", str "$scheme")
    ∷ (str "x-forwarded-host", str "$host")
    ∷ (str "x-forwarded-port", str "$server_port")
    ∷ []

abbrev or_empty : Option (List HttpHeader) → List HttpHeader
or_empty none = []
or_empty (some headers) = headers

-- The headers that a location sets, in order.
abbrev pub sets_of : (rx : RegexLib) → Location rx → List HttpHeader
sets_of rx location =
    (if location.enable_reverse_proxy_headers then default_proxy_set_headers else [])
    ++ or_empty location.proxy_set_headers

abbrev pub adds_of : (rx : RegexLib) → Location rx → List HttpHeader
adds_of rx location = or_empty location.proxy_add_headers

module _ (http : HttpLib) (system : System) (now_ms : ℕ) (session : Session) (ctx : Ctx) where
  -- A value that stands for no other stays as it is.
  abbrev pub converted : Str → Str
  converted v = elim (convert_header_value http system now_ms v session ctx) [
    | none ↦ v
    | some value ↦ value
  ]

  abbrev pub set_all : List HttpHeader → List (Str × Str) → List (Str × Str)
  set_all [] headers = headers
  set_all ((k, v) ∷ arr) headers = set_all arr (insert_header k (converted v) headers)

  abbrev pub append_all : List HttpHeader → List (Str × Str) → List (Str × Str)
  append_all [] headers = headers
  append_all ((k, v) ∷ arr) headers = append_all arr (append_header k (converted v) headers)

  unfoldable pub set_append_proxy_headers :
      (rx : RegexLib) → Map (Location rx) → RequestHeader → RequestHeader
  unfolding insert_header append_header
  set_append_proxy_headers rx locations header = elim (get_location rx ctx.location locations) [
    | none ↦ header
    | some location ↦ record header {
      headers = append_all (adds_of rx location) (set_all (sets_of rx location) header.headers);
    }
  ]

abbrev or_zero : Option ℕ → ℕ
or_zero none = 0
or_zero (some t) = t

abbrev if_later : ℕ → ℕ → Option ℕ → Option ℕ
if_later earlier later before = if ltb earlier later then some (later - earlier) else before

-- The times of a new connection.
unfoldable pub with_upstream_digest : ℕ → Bool → Digest → Ctx → Ctx
with_upstream_digest now_ms reused digest ctx =
    let detail = get_digest_detail now_ms digest in
    let connect_time = or_zero ctx.upstream_connect_time in
    let timed : Ctx = if reused then ctx else record ctx {
      upstream_tcp_connect_time =
          if ltb 0 connect_time
          then if_later connect_time detail.tcp_established ctx.upstream_tcp_connect_time
          else ctx.upstream_tcp_connect_time;
      upstream_tls_handshake_time =
          if_later detail.tcp_established detail.tls_established ctx.upstream_tls_handshake_time;
    } in
    record timed { upstream_connection_time = some detail.connection_time }

unfoldable pub connected_to_upstream : ℕ → Bool → Option Digest → Ctx → Ctx
unfolding with_upstream_digest
connected_to_upstream now_ms reused digest ctx =
    let measured : Ctx = elim digest [
      | none ↦ ctx
      | some digest ↦ with_upstream_digest now_ms reused digest ctx
    ] in
    record measured {
      upstream_reused = reused;
      upstream_connect_time = get_latency now_ms measured.upstream_connect_time;
      upstream_processing_time = get_latency now_ms measured.upstream_processing_time;
    }
