-- ===== src/Plugin/RefererRestriction.antt =====
-- The plugin referer_restriction of pingap-plugin/src/referer_restriction.rs. `new` takes the values
-- that the plugin's configuration gives.
pub mod Hosts
use pingap.Common.{ℕ, Bool, true, false, not, ◌||◌, Option, none, some, List, [], ◌∷◌}
use pingap.Common.Tests.{◌==◌, if◌then◌else◌}
use pingap.Common.Text.{Str, str, str_eq, is_empty, ends_with, includes, unwrap_or_default}
use pingap.Common.Lists.{any}
use pingap.Common.Map.{get}
use pingap.Common.Results.{Result, ok}
use pingap.Core.Ctx.{Ctx}
use pingap.Core.Plugin.{
  PluginStep, request, step_eq, HttpResponse, default_response, Failure, Session,
}
use pingap.External.{HttpLib, UrlLib}

pub record RefererRestriction : Type 0 where
  pub plugin_step : PluginStep
  pub referer_list : List Str
  pub prefix_referer_list : List Str
  pub restriction_category : Str
  pub forbidden_resp : HttpResponse

-- The hosts in full and, behind a star, the ends of hosts.
abbrev pub add_referer : Str → List Str × List Str → List Str × List Str
add_referer [] (full, ends) = ([] ∷ full, ends)
add_referer (c ∷ item) (full, ends) =
    if c == b'*' then (full, item ∷ ends) else ((c ∷ item) ∷ full, ends)

unfoldable pub read_list : List Str → List Str × List Str
read_list [] = ([], [])
read_list (item ∷ items) = add_referer item (read_list items)

unfoldable pub new : List Str → Str → Str → RefererRestriction
new referer_list category message = record {
  plugin_step = request;
  referer_list = (read_list referer_list).0;
  prefix_referer_list = (read_list referer_list).1;
  restriction_category = category;
  forbidden_resp = record default_response {
    status = 403;
    body = if is_empty message then str "Request is forbidden" else message;
  };
}

-- The host of a referer, empty if it is no URL or has none.
abbrev pub host_of : UrlLib → Str → Str
host_of url referer = elim (url.parse referer) [ none ↦ [] | some host ↦ unwrap_or_default host ]

unfoldable pub has_host : RefererRestriction → Str → Bool
has_host self host =
    includes self.referer_list host || any (λ item. ends_with host item) self.prefix_referer_list

abbrev pub found : HttpLib → UrlLib → RefererRestriction → Option Str → Bool
found http url self none = false
found http url self (some value) =
    has_host self (host_of url (unwrap_or_default (http.to_str value)))

unfoldable pub handle_request :
    HttpLib
    → UrlLib
    → RefererRestriction
    → PluginStep
    → Session
    → Ctx
    → Session × Ctx × Result Failure (Bool × Option HttpResponse)
unfolding get
handle_request http url self step session ctx =
    let found = found http url self (get (str "referer") session.req_header.headers) in
    let allow = if str_eq self.restriction_category (str "deny") then not found else found in
    if not (step_eq step self.plugin_step)
    then (session, ctx, ok (false, none))
    else if not allow
    then (session, ctx, ok (true, some self.forbidden_resp))
    else (session, ctx, ok (true, none))
