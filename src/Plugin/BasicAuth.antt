-- ===== src/Plugin/BasicAuth.antt =====
-- The plugin basic_auth of pingap-plugin/src/basic_auth.rs. `new` takes the values that the plugin's
-- configuration gives, and its errors are their messages; the delay before an answer is left out.
pub mod Listed
use pingap.Common.{ℕ, Bool, true, false, not, Option, none, some, List, [], ◌∷◌, ◌++◌}
use pingap.Common.Tests.{if◌then◌else◌}
use pingap.Common.Text.{Str, str, is_empty, includes, unwrap_or_default}
use pingap.Common.Map.{get, remove}
use pingap.Common.Results.{Result, ok, err, ◌>>=◌}
use pingap.Core.Ctx.{Ctx}
use pingap.Core.Plugin.{
  PluginStep, request, step_eq, HttpResponse, default_response, Failure, Session,
}

pub record BasicAuth : Type 0 where
  pub plugin_step : PluginStep
  pub authorizations : List Str
  pub hide_credentials : Bool
  pub miss_authorization_resp : HttpResponse
  pub unauthorized_resp : HttpResponse

abbrev pub unauthorized : Str → HttpResponse
unauthorized body = record default_response {
  status = 401;
  headers = some ((str "www-authenticate", str "Basic realm=\"Access to the staging site\"") ∷ []);
  body = body;
}

-- What a request is to send, for each item that the crate base64 decodes.
unfoldable pub authorizations_of : (Str → Result Str (List ℕ)) → List Str → Result Str (List Str)
authorizations_of base64_decode [] = ok []
authorizations_of base64_decode (item ∷ items) = do
  _ ← base64_decode item
  rest ← authorizations_of base64_decode items
  ok ((str "Basic " ++ item) ∷ rest)

abbrev pub with_authorizations : Bool → List Str → Result Str BasicAuth
with_authorizations hide [] = err (str "basic authorizations can't be empty")
with_authorizations hide (item ∷ items) = ok (record {
  plugin_step = request;
  authorizations = item ∷ items;
  hide_credentials = hide;
  miss_authorization_resp = unauthorized (str "Authorization is missing");
  unauthorized_resp = unauthorized (str "Invalid user or password");
})

unfoldable pub new : (Str → Result Str (List ℕ)) → List Str → Bool → Result Str BasicAuth
new base64_decode items hide = authorizations_of base64_decode items >>= with_authorizations hide

unfoldable pub handle_request :
    BasicAuth
    → PluginStep
    → Session
    → Ctx
    → Session × Ctx × Result Failure (Bool × Option HttpResponse)
handle_request self step session ctx =
    let header = session.req_header in
    let value = unwrap_or_default (get (str "authorization") header.headers) in
    if not (step_eq step self.plugin_step)
    then (session, ctx, ok (false, none))
    else if is_empty value
    then (session, ctx, ok (true, some self.miss_authorization_resp))
    else if not (includes self.authorizations value)
    then (session, ctx, ok (true, some self.unauthorized_resp))
    else if self.hide_credentials
    then (
      record session {
        req_header = record header { headers = remove (str "authorization") header.headers };
      },
      ctx,
      ok (true, none),
    )
    else (session, ctx, ok (true, none))
