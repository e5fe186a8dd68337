-- ===== src/Logger/Entry.antt =====
-- One line of the access log: `Parser::format` of pingap-logger/src/access.rs.
pub mod Time
use pingap.Common.{ℕ, Bool, true, false, Option, none, some, List, [], ◌∷◌, ◌++◌}
use pingap.Common.Tests.{if◌then◌else◌}
use pingap.Common.Text.{Str, str, unwrap_or_default}
use pingap.Common.Digits.{show}
use pingap.Common.Map.{get}
use pingap.Common.Results.{ok, err}
use pingap.Common.Words.{sub64}
use pingap.Core.Ctx.{Ctx}
use pingap.Core.Ctx.Values.{Ratio, append_value}
use pingap.Core.Plugin.{Session}
use pingap.External.{HttpLib}
use pingap.Http.Header.{RequestHeader, Uri, get_host, get_cookie_value}
use pingap.Logger.Format.{
  TagCategory, fill, host, method, path, proto, query, remote, client_ip, scheme, uri, referrer,
  user_agent, when, when_utc_iso, when_unix, size, size_human, status, latency, latency_human,
  cookie, request_header, response_header, context, payload_size, payload_size_human, request_id,
  Tag, Parser,
}
use pingap.Upstream.Peer.{get_client_ip}
use pingap.Util.Format.{format_byte_size, format_duration}

-- What the session of pingora knows at the end of a request, beside its header: the protocol, the
-- size of the body sent, and the headers of the response that was written.
pub record Written : Type 0 where
  pub is_http2 : Bool
  pub body_bytes_sent : ℕ
  pub headers : Option (List (Str × Str))

-- The crate chrono: the text of a time in the local zone and in UTC.
pub record Chrono : Type 0 where
  pub to_local : ℕ → Str
  pub to_utc : ℕ → Str

abbrev header_of : List (Str × Str) → Str → Str
header_of headers name = unwrap_or_default (get name headers)

abbrev path_and_query : Uri → Str
path_and_query u = elim u.query [ none ↦ u.path | some q ↦ u.path ++ (b'?' ∷ q) ]

-- A value by a name that is in the data of a tag.
abbrev by_name : (Str → Str) → Option Str → Str
by_name value none = []
by_name value (some name) = value name

abbrev if_timed : (ℕ → Str) → Option ℕ → Str
if_timed print none = []
if_timed print (some now) = print now

abbrev written_header : HttpLib → Option (List (Str × Str)) → Str → Str
written_header http none name = []
written_header http (some headers) name = elim (http.header_name name) [
  | err _ ↦ []
  | ok name ↦ header_of headers name
]

module _ (http : HttpLib) (chrono : Chrono) (show_ratio : Ratio) where
  -- The text of a tag; the time is there if the format needs one.
  unfoldable pub entry : Written → Session → Ctx → ℕ → Option ℕ → TagCategory → Option Str → Str
  unfolding get show get_host get_cookie_value append_value get_client_ip format_byte_size
      format_duration
  entry written session ctx now_ms now fill value = unwrap_or_default value
  entry written session ctx now_ms now host value =
      unwrap_or_default (get_host http session.req_header)
  entry written session ctx now_ms now method value = session.req_header.method
  entry written session ctx now_ms now path value = session.req_header.uri.path
  entry written session ctx now_ms now proto value =
      if written.is_http2 then str "HTTP/2.0" else str "HTTP/1.1"
  entry written session ctx now_ms now query value = unwrap_or_default session.req_header.uri.query
  entry written session ctx now_ms now remote value = unwrap_or_default ctx.remote_addr
  entry written session ctx now_ms now client_ip value = elim ctx.client_ip [
    | some ip ↦ ip
    | none ↦ get_client_ip http session
  ]
  entry written session ctx now_ms now scheme value = elim ctx.tls_version [
    | some _ ↦ str "https"
    | none ↦ str "http"
  ]
  entry written session ctx now_ms now uri value = path_and_query session.req_header.uri
  entry written session ctx now_ms now referrer value =
      header_of session.req_header.headers (str "referer")
  entry written session ctx now_ms now user_agent value =
      header_of session.req_header.headers (str "user-agent")
  entry written session ctx now_ms now when value = if_timed chrono.to_local now
  entry written session ctx now_ms now when_utc_iso value = if_timed chrono.to_utc now
  entry written session ctx now_ms now when_unix value = if_timed (show 10) now
  entry written session ctx now_ms now size value = show 10 written.body_bytes_sent
  entry written session ctx now_ms now size_human value = format_byte_size written.body_bytes_sent
  entry written session ctx now_ms now status value = elim ctx.status [
    | some code ↦ show 10 code
    | none ↦ str "0"
  ]
  entry written session ctx now_ms now latency value =
      if_timed (λ t. show 10 (sub64 t ctx.created_at)) now
  entry written session ctx now_ms now latency_human value =
      if_timed (λ t. format_duration (sub64 t ctx.created_at)) now
  entry written session ctx now_ms now cookie value =
      by_name (λ name. unwrap_or_default (get_cookie_value http session.req_header name)) value
  entry written session ctx now_ms now request_header value =
      by_name (written_header http (some session.req_header.headers)) value
  entry written session ctx now_ms now response_header value =
      by_name (written_header http written.headers) value
  entry written session ctx now_ms now payload_size value = show 10 ctx.payload_size
  entry written session ctx now_ms now payload_size_human value = format_byte_size ctx.payload_size
  entry written session ctx now_ms now request_id value = unwrap_or_default ctx.request_id
  entry written session ctx now_ms now context value =
      by_name (append_value show_ratio now_ms ctx []) value

  unfoldable pub entries : Written → Session → Ctx → ℕ → Option ℕ → List Tag → Str
  unfolding entry
  entries written session ctx now_ms now [] = []
  entries written session ctx now_ms now (tag ∷ tags) =
      entry written session ctx now_ms now tag.category tag.«data»
      ++ entries written session ctx now_ms now tags

  -- With the time of the call.
  unfoldable pub format : Parser → Written → Session → Ctx → ℕ → Str
  unfolding entries
  format self written session ctx now_ms =
      let now = if self.needs_timestamp then some now_ms else none in
      entries written session ctx now_ms now self.tags
