-- ===== src/Plugin/UaRestriction.antt =====
-- The plugin ua_restriction of pingap-plugin/src/ua_restriction.rs. `new` takes the values that the
-- plugin's configuration gives.
use pingap.Common.{Bool, true, false, not, Option, none, some, List, [], ◌∷◌}
use pingap.Common.Tests.{if◌then◌else◌}
use pingap.Common.Text.{Str, str, str_eq, is_empty, unwrap_or_default}
use pingap.Common.Lists.{any}
use pingap.Common.Map.{get}
use pingap.Common.Results.{Result, ok, ◌>>=◌}
use pingap.Core.Ctx.{Ctx}
use pingap.Core.Plugin.{
  PluginStep, request, step_eq, HttpResponse, default_response, Failure, Session,
}
use pingap.External.{RegexLib, HttpLib}

module _ (rx : RegexLib) where
  pub record UaRestriction : Type 0 where
    pub plugin_step : PluginStep
    pub ua_list : List rx.Regex
    pub restriction_category : Str
    pub forbidden_resp : HttpResponse

  unfoldable pub compile : List Str → Result Str (List rx.Regex)
  compile [] = ok []
  compile (item ∷ items) = do reg ← rx.new item; regs ← compile items; ok (reg ∷ regs)

  unfoldable pub new : List Str → Str → Str → Result Str UaRestriction
  unfolding compile
  new ua_list category message = do
    regs ← compile ua_list
    ok (record {
      plugin_step = request;
      ua_list = regs;
      restriction_category = category;
      forbidden_resp = record default_response {
        status = 403;
        body = if is_empty message then str "Request is forbidden" else message;
      };
    })

  abbrev pub found : HttpLib → UaRestriction → Option Str → Bool
  found http self none = false
  found http self (some value) =
      any (λ item. rx.is_match item (unwrap_or_default (http.to_str value))) self.ua_list

  unfoldable pub handle_request :
      HttpLib
      → UaRestriction
      → PluginStep
      → Session
      → Ctx
      → Session × Ctx × Result Failure (Bool × Option HttpResponse)
  unfolding get
  handle_request http self step session ctx =
      let found = found http self (get (str "user-agent") session.req_header.headers) in
      let allow = if str_eq self.restriction_category (str "deny") then not found else found in
      if not (step_eq step self.plugin_step)
      then (session, ctx, ok (false, none))
      else if not allow
      then (session, ctx, ok (true, some self.forbidden_resp))
      else (session, ctx, ok (true, none))
