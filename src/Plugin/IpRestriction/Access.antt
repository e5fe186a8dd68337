-- ===== src/Plugin/IpRestriction/Access.antt =====
-- Whom the plugin ip_restriction lets through: pingap-plugin/src/ip_restriction.rs and
-- pingap-util/src/ip.rs.
use pingap.Common.{
  ◌≡◌, refl, ap, inl, inr, Bool, true, false, not, ◌||◌, Option, none, some, List, [], ◌∷◌, arith,
}
use pingap.Common.Tests.{Bool-cases, Option-cases, if◌then◌else◌}
use pingap.Common.Text.{Str, str, str_eq, includes}
use pingap.Common.Lists.{any}
use pingap.Common.Results.{ok}
use pingap.Core.Ctx.{Ctx}
use pingap.Core.Plugin.{request, Session}
use pingap.External.{HttpLib}
use pingap.Plugin.IpRestriction.{IpLib, add_rule, new_rules, is_match, new, decide, handle_request}

module _ (ip : IpLib) (addr : Str) where
  -- Whether one value of the configuration stands for an address.
  abbrev pub rule : ip.IpAddr → Str → Option ip.IpNet → Bool
  rule a item none = str_eq item addr
  rule a item (some net) = ip.contains net a

  -- Whether some value of the configuration does.
  abbrev pub listed : ip.IpAddr → List Str → Bool
  listed a [] = false
  listed a (item ∷ values) = rule a item (ip.parse_net item) || listed a values

  new_rules-listed :
      (a : ip.IpAddr) (values : List Str)
      → let rules = new_rules ip values in
        (includes rules.ip_list addr || any (λ net. ip.contains net a) rules.ip_net_list)
        ≡ listed a values
  unfolding new_rules includes
  new_rules-listed a [] = refl
  new_rules-listed a (item ∷ values) =
      let rest = new_rules-listed a values in
      elim (Option-cases (ip.parse_net item)) [
        | inl single ↦ rw (new_rules, single, add_rule) (ground (arith, rest))
        | inr (net, parsed) ↦ rw (new_rules, parsed, add_rule) (ground (arith, rest))
      ]

  is_match-listed :
      (a : ip.IpAddr) (values : List Str)
      → ip.parse_addr addr ≡ ok a
      → is_match ip (new_rules ip values) addr ≡ ok (listed a values)
  unfolding is_match
  is_match-listed a values parsed =
      let found = new_rules-listed a values in
      elim (Bool-cases (includes (new_rules ip values).ip_list addr)) [
        | inl there ↦ rw (there, is_match) (ap ok (rw there at found))
        | inr not_there ↦ rw (not_there, is_match, parsed) (ap ok (rw not_there at found))
      ]

  -- The plugin in use, with the client's address known: a request of an address lets nothing answer
  -- exactly when no value of a list to deny stands for the address, or when some value of another
  -- list does; all others get the answer 403. A value stands for an address if it is a network that
  -- has it, or if it is no network and the same text.
  pub handle_request-listed :
      (http : HttpLib) (values : List Str) (category message : Str) (session : Session) (ctx : Ctx)
      (a : ip.IpAddr)
      → ctx.client_ip ≡ some addr
      → ip.parse_addr addr ≡ ok a
      → handle_request ip http (new ip values category message) request session ctx ≡ (
        session,
        ctx,
        ok (
          true,
          if (if str_eq category (str "deny") then not (listed a values) else listed a values)
              then none
              else some (new ip values category message).forbidden_resp,
        ),
      )
  unfolding handle_request decide new
  handle_request-listed http values category message session ctx a known parsed =
      rw (known, is_match-listed a values parsed) refl
