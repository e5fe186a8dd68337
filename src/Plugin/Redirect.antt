-- ===== src/Plugin/Redirect.antt =====
-- The plugin redirect of pingap-plugin/src/redirect.rs. `new` takes the values that the plugin's
-- configuration gives.
pub mod Followed
use pingap.Common.{ℕ, Bool, true, false, not, ◌&&◌, Option, none, some, List, [], ◌∷◌, ◌++◌}
use pingap.Common.Tests.{leb, if◌then◌else◌}
use pingap.Common.Text.{Str, str, str_len, starts_with, unwrap_or_default}
use pingap.Common.Results.{Result, ok, err}
use pingap.Core.Ctx.{Ctx}
use pingap.Core.Plugin.{
  PluginStep, request, step_eq, HttpResponse, default_response, Failure, Session,
}
use pingap.External.{HttpLib}
use pingap.Http.Header.{HttpHeader, HeaderError, Uri, get_host, convert_headers}

pub record Redirect : Type 0 where
  pub prefix : Str
  pub http_to_https : Bool
  pub plugin_step : PluginStep

-- A prefix of one byte is no prefix, and any other one begins with a slash.
unfoldable pub new : Str → Bool → Redirect
unfolding str_len starts_with
new prefix http_to_https = record {
  prefix =
      if leb (str_len prefix) 1
      then []
      else if not (starts_with prefix (str "/"))
      then str "/" ++ prefix
      else prefix;
  http_to_https = http_to_https;
  plugin_step = request;
}

abbrev pub is_some : Option Str → Bool
is_some none = false
is_some (some s) = true

abbrev pub same : Bool → Bool → Bool
same true b = b
same false b = not b

abbrev unwrap_headers : Result HeaderError (List HttpHeader) → List HttpHeader
unwrap_headers (ok headers) = headers
unwrap_headers (err e) = []

module _ (http : HttpLib) where
  abbrev show : Uri → Str
  show uri = http.show_uri uri.host uri.path uri.query

  abbrev pub location : Redirect → Session → Str
  location self session =
      str "Location: "
      ++ ((if self.http_to_https then str "https" else str "http")
          ++ (str "://"
              ++ (unwrap_or_default (get_host http session.req_header)
                  ++ (self.prefix ++ show session.req_header.uri))))

  abbrev pub to_location : Redirect → Session → HttpResponse
  to_location self session = record default_response {
    status = 307;
    headers = some (unwrap_headers (convert_headers http (location self session ∷ [])));
  }

  unfoldable pub handle_request :
      Redirect
      → PluginStep
      → Session
      → Ctx
      → Session × Ctx × Result Failure (Bool × Option HttpResponse)
  unfolding starts_with get_host convert_headers
  handle_request self step session ctx =
      let schema_match = same (is_some ctx.tls_version) self.http_to_https in
      if not (step_eq step self.plugin_step)
      then (session, ctx, ok (false, none))
      else if schema_match && starts_with session.req_header.uri.path self.prefix
      then (session, ctx, ok (false, none))
      else (session, ctx, ok (true, some (to_location self session)))
