-- ===== src/Upstream/Peer.antt =====
-- `Upstream` of pingap-upstream/src/upstream.rs: the key of the consistent hash, the choice of a
-- peer, and the counter of the requests under way, a bit pattern of 32 bits. The timeouts and the
-- socket options that are copied to a peer, the discovery of backends and the health checks are
-- left out.
use pingap.Common.{ℕ, Bool, Option, none, some, List, [], ◌∷◌, ◌++◌}
use pingap.Common.Tests.{if◌then◌else◌}
use pingap.Common.Text.{Str, str, str_eq, is_empty, split, trim, unwrap_or_default}
use pingap.Common.Map.{Map, get}
use pingap.Common.Words.{inc32, dec32}
use pingap.Core.Plugin.{Session}
use pingap.External.{HttpLib}
use pingap.Http.Header.{get_host, get_req_header_value, get_cookie_value, get_query_value}

pub data SelectionLb : Type 0 where
  round_robin consistent transparent : SelectionLb

pub record Upstream : Type 0 where
  pub name : Str
  pub lb : SelectionLb
  pub hash : Str
  pub hash_key : Str
  pub tls : Bool
  pub sni : Str
  pub connected : Option ℕ
  pub processing : ℕ

pub record HttpPeer : Type 0 where
  pub address : Str
  pub tls : Bool
  pub sni : Str

abbrev text_of : Option (Option Str) → Option Str
text_of none = none
text_of (some value) = some (unwrap_or_default value)

abbrev first_of : List Str → Str
first_of [] = []
first_of (item ∷ _) = trim item

module _ (http : HttpLib) where
  -- `Session::get_header`, as text; a value that is no text is the empty one.
  abbrev get_header : Session → Str → Option Str
  get_header session name = elim (get name session.req_header.headers) [
    | none ↦ none
    | some value ↦ some (unwrap_or_default (http.to_str value))
  ]

  -- From X-Forwarded-For, from X-Real-Ip, or the address of the other end.
  unfoldable pub get_client_ip : Session → Str
  unfolding split trim get
  get_client_ip session = elim (get_header session (str "x-forwarded-for")) [
    | some value ↦ first_of (split b',' value)
    | none ↦ elim (get_header session (str "x-real-ip")) [
      | some value ↦ value
      | none ↦ elim session.client_addr [ none ↦ [] | some (addr, _) ↦ addr ]
    ]
  ]

  abbrev or_client_ip : Session → Option Str → Str
  or_client_ip session none = get_client_ip session
  or_client_ip session (some client_ip) = client_ip

  unfoldable pub get_hash_value : Str → Str → Session → Option Str → Str
  get_hash_value hash hash_key session client_ip =
      let header = session.req_header in
      if str_eq hash (str "url")
      then http.show_uri header.uri.host header.uri.path header.uri.query
      else if str_eq hash (str "ip")
      then or_client_ip session client_ip
      else if str_eq hash (str "header")
      then unwrap_or_default (get_req_header_value http header hash_key)
      else if str_eq hash (str "cookie")
      then unwrap_or_default (get_cookie_value http header hash_key)
      else if str_eq hash (str "query")
      then unwrap_or_default (get_query_value header hash_key)
      else header.uri.path

  -- The address that the load balancer picks for a key.
  abbrev selected : (Str → Option Str) → Upstream → Session → Option Str → Option Str
  selected select self session client_ip = elim self.lb [
    | round_robin ↦ select []
    | consistent ↦ select (get_hash_value self.hash self.hash_key session client_ip)
    | transparent ↦ none
  ]

  abbrev peer_of : Upstream → Str → HttpPeer
  peer_of self address = record { address = address; tls = self.tls; sni = self.sni }

  abbrev transparent_peer : Upstream → Str → HttpPeer
  transparent_peer self host = record {
    address = host ++ (if self.tls then str ":443" else str ":80");
    tls = self.tls;
    sni = if str_eq self.sni (str "$host") then host else self.sni;
  }

  abbrev map_peer : Upstream → Option Str → Option HttpPeer
  map_peer self none = none
  map_peer self (some address) = some (peer_of self address)

  abbrev map_transparent : Upstream → Option Str → Option HttpPeer
  map_transparent self none = none
  map_transparent self (some host) = some (transparent_peer self host)

  -- The upstream after the call, which counts the request also when there is no peer.
  unfoldable pub new_http_peer :
      (Str → Option Str) → Upstream → Session → Option Str → Upstream × Option HttpPeer
  new_http_peer select self session client_ip = (
    record self { processing = inc32 self.processing },
    elim self.lb [
      | transparent ↦ map_transparent self (get_host http session.req_header)
      | round_robin ↦ map_peer self (selected select self session client_ip)
      | consistent ↦ map_peer self (selected select self session client_ip)
    ],
  )

unfoldable pub completed : Upstream → Upstream
completed self = record self { processing = dec32 self.processing }

unfoldable pub get_upstream : Str → Map Upstream → Option Upstream
unfolding get
get_upstream name upstreams = if is_empty name then none else get name upstreams
