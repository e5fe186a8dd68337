-- ===== src/Plugin/KeyAuth.antt =====
-- The plugin key_auth of pingap-plugin/src/key_auth.rs. `new` takes the values that the plugin's
-- configuration gives, and its errors are their messages; the delay before an answer is left out, as
-- it changes no state.
pub mod Keys
use pingap.Common.{ℕ, Bool, true, false, not, Option, none, some, List, [], ◌∷◌, ◌++◌}
use pingap.Common.Tests.{if◌then◌else◌}
use pingap.Common.Text.{Str, str, is_empty, includes, unwrap_or_default}
use pingap.Common.Map.{get, remove}
use pingap.Common.Results.{Result, ok, err}
use pingap.Core.Ctx.{Ctx}
use pingap.Core.Plugin.{
  PluginStep, request, step_eq, HttpResponse, default_response, Failure, Session,
}
use pingap.External.{HttpLib}
use pingap.Http.Header.{RequestHeader, get_query_value}
use pingap.Http.Query.{remove_query_from_header}

pub record KeyAuth : Type 0 where
  pub plugin_step : PluginStep
  pub header : Option Str
  pub query : Option Str
  pub keys : List Str
  pub miss_authorization_resp : HttpResponse
  pub unauthorized_resp : HttpResponse
  pub hide_credentials : Bool

abbrev unauthorized : Str → HttpResponse
unauthorized body = record default_response { status = 401; body = body }

abbrev pub key_auth : Option Str → Option Str → List Str → Bool → KeyAuth
key_auth header query keys hide = record {
  plugin_step = request;
  header = header;
  query = query;
  keys = keys;
  miss_authorization_resp = unauthorized (str "Key missing");
  unauthorized_resp = unauthorized (str "Key auth fail");
  hide_credentials = hide;
}

abbrev with_keys : List Str → KeyAuth → Result Str KeyAuth
with_keys [] self = err (str "auth keys can't be empty")
with_keys (_ ∷ _) self = ok self

-- The name of a query parameter goes before the name of a header.
unfoldable pub new : HttpLib → Str → Str → List Str → Bool → Result Str KeyAuth
new http query_name header_name keys hide =
    if is_empty query_name
    then (if is_empty header_name
        then err (str "auth key is not allowed empty")
        else elim (http.header_name header_name) [
          | err e ↦ err (str "invalid header name, " ++ e)
          | ok name ↦ with_keys keys (key_auth (some name) none keys hide)
        ])
    else with_keys keys (key_auth none (some query_name) keys hide)

-- The key that a request brings, empty if it brings none. `get_header_bytes` is the first value of
-- the header.
unfoldable pub key_of : KeyAuth → Session → Str
unfolding get
key_of self session = elim self.query [
  | some key ↦ unwrap_or_default (get_query_value session.req_header key)
  | none ↦ elim self.header [
    | none ↦ []
    | some name ↦ unwrap_or_default (get name session.req_header.headers)
  ]
]

-- The request without its key; an error of the removal is only logged.
unfoldable pub hide : HttpLib → KeyAuth → RequestHeader → RequestHeader
unfolding remove
hide http self req_header = elim self.header [
  | some name ↦ record req_header { headers = remove name req_header.headers }
  | none ↦ elim self.query [
    | none ↦ req_header
    | some name ↦ (remove_query_from_header http req_header name).0
  ]
]

abbrev pub Handled : Type 0
Handled = Session × Ctx × Result Failure (Bool × Option HttpResponse)

unfoldable pub handle_request : HttpLib → KeyAuth → PluginStep → Session → Ctx → Handled
handle_request http self step session ctx =
    let value = key_of self session in
    if not (step_eq step self.plugin_step)
    then (session, ctx, ok (false, none))
    else if is_empty value
    then (session, ctx, ok (true, some self.miss_authorization_resp))
    else if not (includes self.keys value)
    then (session, ctx, ok (true, some self.unauthorized_resp))
    else if self.hide_credentials
    then (record session { req_header = hide http self session.req_header }, ctx, ok (true, none))
    else (session, ctx, ok (true, none))
