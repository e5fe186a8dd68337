-- ===== src/Tests/Plugins.antt =====
-- The plugins, the limit of visits and the removal of a query parameter on concrete inputs:
-- pingap-plugin/src, and ttl_lru_limit.rs and http_header.rs of pingap-core/src.
use pingap.Common.{
  ℕ, ◌+◌, ◌≤◌, ◌≡◌, ◌≢◌, ◌↔◌, ◌⊎◌, ◌∙◌, inl, arith, refl, not, true, Option, none, some, List, [],
  ◌∷◌,
}
use pingap.Common.Tests.{if◌then◌else◌}
use pingap.Common.Text.{
  Str, str, str_eq, str_eq_refl, starts_with, split, split_once, join, includes,
}
use pingap.Common.Lists.{All, length}
use pingap.Common.Map.{Map, get, get-insert, insert, remove}
use pingap.Common.Results.{ok}
use pingap.Core.Ctx.{Ctx, new_ctx}
use pingap.Core.Limit.{TtlLimit, LimitCache, TtlLruLimit, check, validate, counted, inc}
use pingap.Core.Limit.Window.{IsRoomy, visits, visits_of_unused}
use pingap.Core.Plugin.{HttpResponse, Session, request}
use pingap.External.{HttpLib}
use pingap.Http.Header.{RequestHeader, find_pair, get_query_value}
use pingap.Http.Query.{kept_items, remove_query_from_header}
use pingap.Http.Query.Removal.{IsUriParser, get_query_value-remove_query_from_header}
use pingap.Plugin.IpRestriction.{IpLib, new_rules, is_match, decide}
use pingap.Plugin.IpRestriction
use pingap.Plugin.IpRestriction.Access.{listed, handle_request-listed}
use pingap.Plugin.KeyAuth.{KeyAuth, key_auth, key_of, hide}
use pingap.Plugin.KeyAuth
use pingap.Plugin.KeyAuth.Keys.{handle_request-key}
use pingap.Tests.Fixtures.{plain_http, ask}
use Prim.Native.Nat.{min}
use mathlib.Core.List.{Memᴰ}

code : Unit {0}
unfolding str_eq starts_with insert check validate counted inc split split_once join includes get
    remove find_pair get_query_value kept_items remove_query_from_header new_rules is_match decide
    IpRestriction.new IpRestriction.handle_request KeyAuth.new key_of hide KeyAuth.handle_request
code = tt

abbrev read_uri : Option (Str × Str) → Str → Option Str × Str × Option Str
read_uri none path = (none, path, none)
read_uri (some (path, query)) s = (none, path, some query)

abbrev http : HttpLib
http = record plain_http { parse_uri = λ s. some (read_uri (split_once b'?' s) s) }

abbrev header : RequestHeader
header = record (ask (str "/api") []).req_header {
  uri = record { host = none; path = str "/api"; query = some (str "a=1&key=k&b=2&key") };
}

laws : IsUriParser http header.uri
unfolding code
laws = record { plain = refl; with_query = λ query kept there part some_left. refl }

get_query_value-remove_query_from_header_example :
    let (header', result) = remove_query_from_header http header (str "key") in
    (result ≡ ok tt)
    × (get_query_value header' (str "key") ≡ none)
    × (str "key" ≢ str "b" → get_query_value header' (str "b") ≡ get_query_value header (str "b"))
get_query_value-remove_query_from_header_example =
    get_query_value-remove_query_from_header http header (str "key") (str "b") laws

-- Networks that are the prefixes of their addresses, written with a point at the end.
abbrev pub prefixes : IpLib
prefixes = record {
  IpNet = Str;
  IpAddr = Str;
  parse_net = λ s. if starts_with s (str "10.") then some s else none;
  parse_addr = λ s. ok s;
  contains = λ net a. starts_with a net;
}

abbrev from_private : Ctx
from_private = record new_ctx { client_ip = some (str "10.0.0.1") }

abbrev rules : List Str
rules = str "10.0." ∷ str "1.1.1.1" ∷ []

abbrev visit : Session
visit = record (ask (str "/api") []) { req_header = header }

abbrev denying : IpRestriction.IpRestriction prefixes
denying = IpRestriction.new prefixes rules (str "deny") []

handle_request-listed_example :
    IpRestriction.handle_request prefixes http denying request visit from_private ≡ (
      visit,
      from_private,
      ok (
        true,
        if (if str_eq (str "deny") (str "deny")
              then not (listed prefixes (str "10.0.0.1") (str "10.0.0.1") rules)
              else listed prefixes (str "10.0.0.1") (str "10.0.0.1") rules)
            then none
            else some denying.forbidden_resp,
      ),
    )
handle_request-listed_example =
    handle_request-listed prefixes (str "10.0.0.1") http rules (str "deny") [] visit from_private
      (str "10.0.0.1") refl refl

abbrev keys : List Str
keys = str "k" ∷ str "l" ∷ []

abbrev plugin : KeyAuth.KeyAuth
plugin = key_auth none (some (str "key")) keys true

handle_request-key_example :
    (((KeyAuth.handle_request http plugin request visit new_ctx).2 ≡ ok (true, none))
      ↔ ((key_of plugin visit ≢ []) × Memᴰ (key_of plugin visit) keys))
    × (((KeyAuth.handle_request http plugin request visit new_ctx).2 ≡ ok (true, none))
        ⊎ ((resp : HttpResponse) × ((KeyAuth.handle_request http plugin request visit new_ctx).2
              ≡ ok (true, some resp))
            × (resp.status ≡ 401)))
unfolding code
handle_request-key_example =
    handle_request-key http (str "key") [] keys true plugin refl visit new_ctx

abbrev maps : LimitCache
maps = record {
  Cache = Map TtlLimit;
  get = λ c k. (c, get k c);
  put = λ c k v weight. insert k v c;
}

maps-IsRoomy : IsRoomy maps
maps-IsRoomy = record {
  put_get = λ c k v weight. get-insert k k v c ∙ rw (str_eq_refl k) refl;
  get_get = λ c j k. refl;
}

abbrev limit : TtlLruLimit maps
limit = record { ttl = 500; ufo = []; max = 3 }

abbrev times : List ℕ
times = 1001 ∷ 1100 ∷ 1400 ∷ 1500 ∷ []

inside : All (λ now. (1000 ≤ now) × (now ≤ 1500)) times
inside = (
  (omega arith, omega arith),
  ((omega arith, omega arith), ((omega arith, omega arith), ((omega arith, omega arith), tt))),
)

visits_of_unused_example :
    visits maps (str "::1") (1000 ∷ times) limit ≡ min (length times + 1) limit.max
unfolding get
visits_of_unused_example =
    visits_of_unused maps (str "::1") limit 1000 times maps-IsRoomy (inl refl) (omega arith)
      (omega arith) (omega arith) (omega arith) inside

-- The window opens again after the time to live.
visits_test :
    visits maps (str "::1") (1000 ∷ 1001 ∷ 1100 ∷ 1400 ∷ 1501 ∷ 1502 ∷ 1503 ∷ 1504 ∷ []) limit ≡ 6
unfolding code
visits_test = refl
