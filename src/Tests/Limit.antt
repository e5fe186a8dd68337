-- ===== src/Tests/Limit.antt =====
-- The plugin limit on concrete requests: pingap-plugin/src/limit.rs.
use pingap.Common.{
  ℕ, ◌+◌, ◌-◌, ◌^◌, ◌≤◌, ◌≡◌, refl, true, false, none, some, List, [], ◌∷◌, arith, min,
}
use pingap.Common.Tests.{if◌then◌else◌}
use pingap.Common.Text.{Str, str, str_eq, str_eq_iff}
use pingap.Common.Map.{get}
use pingap.Common.Digits.{show}
use pingap.Common.Results.{ok}
use pingap.Core.Ctx.{Ctx, new_ctx}
use pingap.Core.Plugin.{Session, request}
use pingap.Http.Header.{get_req_header_value}
use pingap.Plugin.Limit.{
  LimitLib, Counts, store, drop_guard, Limiter, request_header, track, incr, handle_request, new,
}
use pingap.Plugin.Limit.Guards.{Flights, one_if, let_through}
use pingap.Plugin.Limit.Flight.{IsCounter, Reach, begins, comes, Reach-let_through}
use pingap.Tests.Fixtures.{plain_http, ask}

code : Unit {0}
unfolding str_eq get show get_req_header_value store drop_guard track incr handle_request new
code = tt

abbrev count : List Str → Str → ℕ
count [] k = 0
count (key ∷ keys) k = one_if (str_eq key k) + count keys k

abbrev release : List Str → Str → List Str
release [] key = []
release (other ∷ keys) key =
    let rest = release keys key in if str_eq other key then keys else other ∷ rest

-- The keys of the guards, and no rates.
abbrev keys : LimitLib
keys = record {
  Inflight = List Str;
  new_inflight = [];
  raise = λ s key. (key ∷ s, min (count (key ∷ s) key) (2 ^ 63 - 1));
  release = release;
  Rate = Unit {0};
  new_rate = λ interval. tt;
  observe = λ rate key. tt;
  rate = λ rate key. 0;
  rate_with = λ weight rate key. 0;
}

count-release :
    (s : List Str) (key k : Str) → count (release s key) k ≡ count s k - one_if (str_eq key k)
count-release [] key k = ground arith
count-release (other ∷ s) key k =
    ground
      (arith, count-release s key k, str_eq_iff other key, str_eq_iff other k, str_eq_iff key k)

counter : IsCounter keys
counter = record {
  count = count;
  count-raise = λ s key k. refl;
  count-release = count-release;
  raise-value = λ s key. omega arith;
  raise-bound = λ s key. omega arith;
}

abbrev visit : Session
visit = ask (str "/") ((str "x-user", str "ann") ∷ [])

abbrev first : Limiter plain_http keys
first = record {
  tag = request_header;
  max = 1;
  key = str "x-user";
  inflight = some 7;
  rate = none;
  plugin_step = request;
  weight = 0;
}

abbrev start : Counts plain_http keys
start id = []

abbrev one_more : Counts plain_http keys → Counts plain_http keys
one_more counts = (handle_request plain_http keys first request visit counts new_ctx).1

abbrev live : Flights
live = (str "ann", false) ∷ (str "ann", true) ∷ []

twice : Reach keys plain_http 7 first start (one_more (one_more start)) live
unfolding code
twice = comes visit new_ctx refl (comes visit new_ctx refl begins)

Reach-let_through_example : let_through (str "ann") live ≤ 1
unfolding code
Reach-let_through_example =
    Reach-let_through keys plain_http 7 counter request_header 1 (str "x-user") 0 (omega arith)
      start twice (str "ann")

abbrev guarded : Ctx
guarded = record new_ctx { guard = some (record { counter = 3; key = str "ann" }) }

-- The second request of a user is refused, a request without the header is not limited, and a second
-- limiter drops the guard of the first one while the request goes on.
limit_tests :
    ((handle_request plain_http keys first request visit (one_more start) new_ctx).2.2
      ≡ ok (
        true,
        some (record {
          status = 429;
          body = str "Plugin limit, exceed limit 2/1";
          max_age = none;
          created_at = none;
          cache_private = none;
          headers = none;
        }),
      ))
    × ((handle_request plain_http keys first request (ask (str "/") []) start new_ctx).2.1.guard
        ≡ none)
    × ((handle_request plain_http keys first request visit (λ id. str "ann" ∷ []) guarded).1 3 ≡ [])
unfolding code
limit_tests = (refl, refl, refl)
