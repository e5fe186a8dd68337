-- ===== src/Plugin/IpRestriction.antt =====
-- The plugin ip_restriction of pingap-plugin/src/ip_restriction.rs over `IpRules` of
-- pingap-util/src/ip.rs. The reading of the plugin's configuration file is left out: `new` takes
-- the values that it gives.
pub mod Access
use pingap.Common.{ℕ, Bool, true, false, not, Option, none, some, List, [], ◌∷◌}
use pingap.Common.Tests.{if◌then◌else◌}
use pingap.Common.Text.{Str, str, str_eq, is_empty, includes}
use pingap.Common.Lists.{any}
use pingap.Common.Results.{Result, ok, err}
use pingap.Core.Ctx.{Ctx}
use pingap.Core.Plugin.{
  PluginStep, request, step_eq, HttpResponse, default_response, Failure, Session, Plugin,
}
use pingap.External.{HttpLib}
use pingap.Upstream.Peer.{get_client_ip}

-- The crate ipnet and the addresses of Rust's standard library: networks, addresses, and whether a
-- network has an address. The error of a text that is no address is its text.
pub record IpLib : Type 1 where
  pub IpNet : Type 0
  pub IpAddr : Type 0
  pub parse_net : Str → Option IpNet
  pub parse_addr : Str → Result Str IpAddr
  pub contains : IpNet → IpAddr → Bool

module _ (ip : IpLib) where
  pub record IpRules : Type 0 where
    pub ip_net_list : List ip.IpNet
    pub ip_list : List Str

  abbrev add_rule : Str → Option ip.IpNet → IpRules → IpRules
  add_rule item none rules = record rules { ip_list = item ∷ rules.ip_list }
  add_rule item (some net) rules = record rules { ip_net_list = net ∷ rules.ip_net_list }

  -- A value that is a network goes to the networks, any other one to the addresses.
  unfoldable pub new_rules : List Str → IpRules
  new_rules [] = record { ip_net_list = []; ip_list = [] }
  new_rules (item ∷ values) = add_rule item (ip.parse_net item) (new_rules values)

  unfoldable pub is_match : IpRules → Str → Result Str Bool
  is_match self addr = if includes self.ip_list addr then ok true else elim (ip.parse_addr addr) [
    | err e ↦ err e
    | ok a ↦ ok (any (λ net. ip.contains net a) self.ip_net_list)
  ]

  pub record IpRestriction : Type 0 where
    pub plugin_step : PluginStep
    pub ip_rules : IpRules
    pub restriction_category : Str
    pub forbidden_resp : HttpResponse

  -- From the list of addresses, the type and the message of the configuration.
  unfoldable pub new : List Str → Str → Str → IpRestriction
  new ip_list category message = record {
    plugin_step = request;
    ip_rules = new_rules ip_list;
    restriction_category = category;
    forbidden_resp = record default_response {
      status = 403;
      body = if is_empty message then str "Request is forbidden" else message;
    };
  }

  abbrev pub bad_request : Str → HttpResponse
  bad_request body = record default_response {
    status = 400;
    body = body;
    headers = some ((str "cache-control", str "private, no-store") ∷ []);
  }

  abbrev pub Handled : Type 0
  Handled = Session × Ctx × Result Failure (Bool × Option HttpResponse)

  -- What follows from the match.
  unfoldable pub decide : IpRestriction → Result Str Bool → Option HttpResponse
  decide self (err e) = some (bad_request e)
  decide self (ok found) =
      let allow = if str_eq self.restriction_category (str "deny") then not found else found in
      if allow then none else some self.forbidden_resp

  abbrev with_client_ip : HttpLib → Session → Ctx → Option Str → Ctx × Str
  with_client_ip http session ctx (some addr) = (ctx, addr)
  with_client_ip http session ctx none =
      let addr = get_client_ip http session in (record ctx { client_ip = some addr }, addr)

  -- The client's address is taken from the context, or found and put there.
  unfoldable pub handle_request : HttpLib → IpRestriction → PluginStep → Session → Ctx → Handled
  handle_request http self step session ctx =
      if not (step_eq step self.plugin_step)
      then (session, ctx, ok (false, none))
      else (let (ctx', addr) = with_client_ip http session ctx ctx.client_ip in
          (session, ctx', ok (true, decide self (is_match self.ip_rules addr))))
