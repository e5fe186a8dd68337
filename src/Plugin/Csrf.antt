-- ===== src/Plugin/Csrf.antt =====
-- The plugin csrf of pingap-plugin/src/csrf.rs. `new` takes the values that the plugin's
-- configuration gives, with the time to live in seconds; its errors are their messages.
pub mod Tokens
pub mod Guard
use pingap.Common.{ℕ, Bool, true, false, not, ◌&&◌, ◌||◌, Option, none, some, List, [], ◌∷◌, ◌++◌}
use pingap.Common.Tests.{ltb, if◌then◌else◌}
use pingap.Common.Text.{Str, str, str_eq, is_empty, includes, split, unwrap_or_default}
use pingap.Common.Map.{get}
use pingap.Common.Results.{Result, ok, err}
use pingap.Common.Words.{sub64}
use pingap.Common.Digits.{show, from_str_radix}
use pingap.Core.Ctx.{Ctx}
use pingap.Core.Plugin.{
  PluginStep, request, step_eq, HttpResponse, default_response, Failure, new_internal_error,
  Session,
}
use pingap.External.{HttpLib}
use pingap.Http.Header.{RequestHeader, get_cookie_value}

-- The crates sha2, base64 and cookie: the digest of a text, its text, and the text of a cookie
-- with its name, value, path and age.
pub record TokenLib : Type 0 where
  pub sha256 : Str → List ℕ
  pub base64_encode : List ℕ → Str
  pub build : Str → Str → Str → Option ℕ → Str

pub record Csrf : Type 0 where
  pub plugin_step : PluginStep
  pub token_path : Str
  pub key : Str
  pub name : Str
  pub ttl : ℕ
  pub unauthorized_resp : HttpResponse

unfoldable pub new : Str → Str → Str → ℕ → Result Str Csrf
new name token_path key ttl =
    let csrf : Csrf = record {
      plugin_step = request;
      token_path = token_path;
      key = key;
      name = if is_empty name then str "x-csrf-token" else name;
      ttl = ttl;
      unauthorized_resp = record default_response {
        status = 401;
        body = str "Csrf token is empty or invalid";
      };
    } in
    if is_empty token_path
    then err (str "Token path is not allowed empty")
    else if is_empty key
    then err (str "Key is not allowed empty")
    else ok csrf

-- `HTTP_HEADER_NO_STORE`.
abbrev no_store : Str × Str
no_store = (str "cache-control", str "private, no-store")

-- The bytes of the first value under a name, empty if there is none or the name is invalid.
abbrev pub get_header_bytes : HttpLib → RequestHeader → Str → Str
get_header_bytes http header name = elim (http.header_name name) [
  | err _ ↦ []
  | ok name ↦ unwrap_or_default (get name header.headers)
]

-- The time of a token that is no number counts as zero.
abbrev pub time_of : Str → ℕ
time_of time = elim (from_str_radix 16 time) [ none ↦ 0 | some n ↦ n ]

abbrev pub safe_methods : List Str
safe_methods = str "GET" ∷ str "HEAD" ∷ str "OPTIONS" ∷ []

module _ (lib : TokenLib) where
  abbrev pub signature : Str → Str → Str
  signature key prefix = lib.base64_encode (lib.sha256 (prefix ++ key))

  -- With the random id and the time of the call.
  unfoldable pub generate_token : Str → ℕ → Str → Str
  unfolding show
  generate_token id now key =
      let prefix = id ++ (b'.' ∷ show 16 now) in prefix ++ (b'.' ∷ signature key prefix)

  abbrev pub is_valid : Str → ℕ → ℕ → List Str → Bool
  is_valid key ttl now (id ∷ time ∷ signed ∷ []) =
      if ltb 0 ttl && ltb ttl (sub64 now (time_of time))
      then false
      else str_eq signed (signature key (id ++ (b'.' ∷ time)))
  is_valid key ttl now _ = false

  unfoldable pub validate_token : Str → ℕ → ℕ → Str → Bool
  unfolding split str_eq from_str_radix
  validate_token key ttl now value = is_valid key ttl now (split b'.' value)

  abbrev pub Handled : Type 0
  Handled = Session × Ctx × Result Failure (Bool × Option HttpResponse)

  -- The answer to a request of the token.
  abbrev pub set_cookie : HttpLib → Csrf → Str → Result Failure (Bool × Option HttpResponse)
  set_cookie http self token =
      let age = if ltb 0 self.ttl then some self.ttl else none in
      elim (http.header_value (lib.build self.name token (str "/") age)) [
        | err e ↦ err (new_internal_error 400 e)
        | ok cookie ↦ ok (
          true,
          some (record default_response {
            status = 204;
            headers = some (no_store ∷ (str "set-cookie", cookie) ∷ []);
          }),
        )
      ]

  -- With the random id and the time.
  unfoldable pub handle_request : HttpLib → Str → ℕ → Csrf → PluginStep → Session → Ctx → Handled
  handle_request http id now self step session ctx =
      let header = session.req_header in
      let value = get_header_bytes http header self.name in
      if not (step_eq step self.plugin_step)
      then (session, ctx, ok (false, none))
      else if str_eq header.uri.path self.token_path
      then (session, ctx, set_cookie http self (generate_token id now self.key))
      else if includes safe_methods header.method
      then (session, ctx, ok (false, none))
      else if is_empty value
      then (session, ctx, ok (true, some self.unauthorized_resp))
      else if not (str_eq value (unwrap_or_default (get_cookie_value http header self.name)))
          || not (validate_token self.key self.ttl now value)
      then (session, ctx, ok (true, some self.unauthorized_resp))
      else (session, ctx, ok (true, none))
