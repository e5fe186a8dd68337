-- ===== src/Tests/Responses.antt =====
-- The request to the upstream and the response on concrete inputs: src/proxy/server.rs.
use pingap.Common.{
  ℕ, ◌/◌, ◌≤◌, ◌≡◌, ◌⊎◌, refl, true, false, Option, none, some, [], ◌∷◌, ◌++◌, arith,
}
use pingap.Common.Text.{str, str_eq, starts_with}
use pingap.Common.Map.{get, remove}
use pingap.Common.Digits.{show}
use pingap.Common.Results.{ok}
use pingap.Core.Ctx.{Ctx, new_ctx}
use pingap.Core.Ctx.Values.{append_value, generate_server_timing}
use pingap.Core.Ctx.Durations.{format_duration}
use pingap.Core.Plugin.{Session, ResponseHeader, response}
use pingap.Http.Header.{get_host}
use pingap.Plugin.ResponseHeaders
use pingap.Http.Values.{System, convert_header_value, handle_special_headers}
use pingap.Location.Registry.{get_location}
use pingap.Location.Route.{Location}
use pingap.Common.Map.{Map}
use pingap.Server.Proxy.{insert_header, append_header, sets_of, adds_of, set_append_proxy_headers}
use pingap.Server.Proxy.Headers.{values, last_or, added, values-set_append_proxy_headers}
use pingap.Server.Responses.{
  CacheLib, or_zero, forbids, response_cache_filter, upstream_response_body_filter,
  response_body_filter,
}
use pingap.Server.Responses.Bodies.{through, sent, joined, applied, sent-through}
use pingap.Server.Responses.Caching.{response_cache_filter-fresh}
use pingap.Tests.Fixtures.{literals, plain_http, base_location, ask}

code : Unit {0}
unfolding ResponseHeaders.rename_all ResponseHeaders.remove_all ResponseHeaders.changed str_eq
    starts_with get remove show append_value generate_server_timing format_duration get_host
    convert_header_value handle_special_headers get_location insert_header append_header
    set_append_proxy_headers response_cache_filter upstream_response_body_filter
    response_body_filter
code = tt

abbrev system : System
system = record { hostname = str "pingap"; env_var = λ name. none; show_ratio = λ a b. [] }

abbrev proxied : Location literals
proxied = record base_location {
  enable_reverse_proxy_headers = true;
  proxy_set_headers = some ((str "x-real-ip", str "hidden") ∷ []);
  proxy_add_headers = some ((str "x-forwarded-for", str ":connection_id") ∷ []);
}

abbrev routes : Map (Location literals)
routes = (str "api", proxied) ∷ []

abbrev visit : Session
visit = ask (str "/api") ((str "x-forwarded-for", str "1.1.1.1") ∷ [])

abbrev at_api : Ctx
at_api = record new_ctx {
  location = str "api";
  connection_id = 7;
  remote_addr = some (str "2.2.2.2");
}

values-set_append_proxy_headers_example :
    values
      (str "x-forwarded-for")
      (set_append_proxy_headers plain_http system 0 visit at_api literals routes
        visit.req_header).headers
    ≡ last_or plain_http system 0 visit at_api
        (str "x-forwarded-for")
        (str "1.1.1.1" ∷ [])
        (sets_of literals proxied)
      ++ added plain_http system 0 visit at_api (str "x-forwarded-for") (adds_of literals proxied)
unfolding code
values-set_append_proxy_headers_example =
    values-set_append_proxy_headers plain_http system 0 visit at_api (str "x-forwarded-for")
      literals routes proxied visit.req_header refl

headers_tests :
    (values
        (str "x-forwarded-for")
        (set_append_proxy_headers plain_http system 0 visit at_api literals routes
          visit.req_header).headers
      ≡ str "1.1.1.1, 2.2.2.2" ∷ str "7" ∷ [])
    × (values
          (str "x-real-ip")
          (set_append_proxy_headers plain_http system 0 visit at_api literals routes
            visit.req_header).headers
        ≡ str "hidden" ∷ [])
unfolding code
headers_tests = (refl, refl)

abbrev rewriting : Ctx
rewriting = record new_ctx {
  modify_upstream_response_body = some (λ body. str "<" ++ body);
  modify_response_body = some (λ body. body ++ str ">");
}

sent-through_example :
    sent (through 0 rewriting (str "a" ∷ str "b" ∷ []) (str "c"))
    ≡ applied rewriting.modify_response_body (
        applied rewriting.modify_upstream_response_body (joined (str "a" ∷ str "b" ∷ []) (str "c")))
sent-through_example = sent-through 0 rewriting (str "a" ∷ str "b" ∷ []) (str "c") refl

through_test :
    through 0 rewriting (str "a" ∷ str "b" ∷ []) (str "c")
    ≡ some [] ∷ some [] ∷ some (str "<abc>") ∷ []
unfolding code
through_test = refl

-- A cache control that is the time for which a response is fresh.
abbrev seconds : CacheLib
seconds = record {
  CacheControl = ℕ;
  Cacheable = Option ℕ;
  from_resp_headers = λ resp. some resp.status;
  no_cache = λ c. false;
  no_store = λ c. false;
  is_private = λ c. false;
  max_age = λ c. ok (some c);
  fresh_sec = λ c. some c;
  set_s_maxage = λ n c. n;
  resp_cacheable = λ c resp. c;
  origin_not_cache = none;
}

abbrev resp : ResponseHeader
resp = record { status = 600; headers = [] }

abbrev one_minute : Ctx
one_minute = record new_ctx { cache_max_ttl = some 60_000 }

response_cache_filter-fresh_example :
    (response_cache_filter seconds resp one_minute ≡ none)
    ⊎ ((response_cache_filter seconds resp one_minute ≡ none)
        × (seconds.from_resp_headers resp ≡ none))
    ⊎ ((c kept : ℕ) × (seconds.from_resp_headers resp ≡ some c)
        × (forbids seconds c ≡ false)
        × (response_cache_filter seconds resp one_minute ≡ some kept)
        × (or_zero (some kept) ≤ 60_000 / 1000))
response_cache_filter-fresh_example =
    response_cache_filter-fresh seconds (record { fresh = λ n c cached small. refl }) resp
      one_minute 60_000 refl (omega arith)

caching_test : response_cache_filter seconds resp one_minute ≡ some 60
unfolding code
caching_test = refl

-- The headers of a response are added, removed, set and renamed in this order. Of a header with
-- two values only the first one is renamed, and the other one is lost.
response_headers_tests :
    (ResponseHeaders.rename_all
        ((str "a", str "b") ∷ [])
        ((str "a", str "1") ∷ (str "a", str "2") ∷ [])
      ≡ (str "b", str "1") ∷ [])
    × (ResponseHeaders.changed plain_http system 0
          (record {
            plugin_step = response;
            add_headers = (str "x", str "1") ∷ [];
            remove_headers = str "y" ∷ [];
            set_headers = (str "y", str "2") ∷ [];
            rename_headers = [];
            set_headers_not_exists = (str "y", str "3") ∷ (str "z", str "4") ∷ [];
          })
          visit
          new_ctx
          ((str "y", str "0") ∷ [])
        ≡ (str "x", str "1") ∷ (str "y", str "2") ∷ (str "z", str "4") ∷ [])
unfolding code
response_headers_tests = (refl, refl)
