-- ===== src/Plugin/Limit.antt =====
-- The plugin limit of pingap-plugin/src/limit.rs. `new` takes the values that the plugin's
-- configuration gives. An isize is its bit pattern. A counter of requests under way is an object
-- that the limiter and the guards share: it stands in a store under a number.
pub mod Guards
pub mod Flight
use pingap.Common.{
  ℕ, ◌-◌, ◌^◌, Bool, true, false, not, ◌||◌, Option, none, some, List, [], ◌∷◌, ◌++◌, min,
}
use pingap.Common.Tests.{◌==◌, ltb, if◌then◌else◌}
use pingap.Common.Text.{Str, str, str_eq, is_empty, unwrap_or_default}
use pingap.Common.Digits.{show}
use pingap.Common.Results.{Result, ok, err}
use pingap.Core.Ctx.{Guard, Ctx}
use pingap.Core.Plugin.{
  PluginStep, request, proxy_upstream, step_eq, HttpResponse, default_response, Failure, Session,
}
use pingap.External.{HttpLib}
use pingap.Http.Header.{get_query_value, get_req_header_value, get_cookie_value}
use pingap.Plugin.CombinedAuth.{lt_i64}
use pingap.Upstream.Peer.{get_client_ip}

-- The crate pingora-limits: the counts of requests under way, where the count of a key is raised,
-- with its new value, and lowered when the guard of the key is dropped; and the rates over an
-- interval in seconds, where a request is observed and the rate of a key, rounded up, is read,
-- from the samples of the last interval or with a weight, in percent, of the current one.
pub record LimitLib : Type 1 where
  pub Inflight : Type 0
  pub new_inflight : Inflight
  pub raise : Inflight → Str → Inflight × ℕ
  pub release : Inflight → Str → Inflight
  pub Rate : Type 0
  pub new_rate : ℕ → Rate
  pub observe : Rate → Str → Rate
  pub rate : Rate → Str → ℕ
  pub rate_with : ℕ → Rate → Str → ℕ

pub data LimitTag : Type 0 where
  ip request_header cookie query : LimitTag

abbrev show_isize : ℕ → Str
show_isize n = if ltb n (2 ^ 63) then show 10 n else b'-' ∷ show 10 (2 ^ 64 - n)

abbrev pub tag_of : Str → LimitTag
tag_of tag =
    if str_eq tag (str "cookie")
    then cookie
    else if str_eq tag (str "header")
    then request_header
    else if str_eq tag (str "query")
    then query
    else ip

-- `clamp` between 0 and 100.
abbrev clamped : ℕ → ℕ
clamped n = if ltb n (2 ^ 63) then min n 100 else 0

abbrev interval_of : Option ℕ → ℕ
interval_of none = 10
interval_of (some seconds) = seconds

module _ (http : HttpLib) (lib : LimitLib) where
  -- The counters of all limiters.
  abbrev pub Counts : Type 0
  Counts = ℕ → lib.Inflight

  unfoldable pub store : ℕ → lib.Inflight → Counts → Counts
  store id inflight counts other = if other == id then inflight else counts other

  -- The drop of a guard lowers the count of its key in its counter.
  unfoldable pub drop_guard : Option Guard → Counts → Counts
  drop_guard none counts = counts
  drop_guard (some guard) counts =
      store guard.counter (lib.release (counts guard.counter) guard.key) counts

  pub record Limiter : Type 0 where
    pub tag : LimitTag
    pub max : ℕ
    pub key : Str
    pub inflight : Option ℕ
    pub rate : Option lib.Rate
    pub plugin_step : PluginStep
    pub weight : ℕ

  -- From the number of a new counter, the type, the tag, the key, the maximum, the weight, the interval
  -- if there is one, and the step.
  unfoldable pub new :
      ℕ → Str → Str → Str → ℕ → ℕ → Option ℕ → PluginStep → Counts → Counts × Result Str Limiter
  unfolding str_eq store
  new id category tag key max weight interval step counts =
      let by_inflight = str_eq category (str "inflight") in
      let params : Limiter = record {
        tag = tag_of tag;
        max = max;
        key = key;
        inflight = if by_inflight then some id else none;
        rate = if by_inflight then none else some (lib.new_rate (interval_of interval));
        plugin_step = step;
        weight = clamped weight;
      } in
      (
        if by_inflight then store id lib.new_inflight counts else counts,
        if step_eq step request || step_eq step proxy_upstream
            then ok params
            else err (str "Limit plugin should be executed at request or proxy upstream step"),
      )

  -- The key of a request; the address of the client is also put into the context.
  unfoldable pub key_of : Limiter → Session → Ctx → Ctx × Str
  unfolding get_query_value get_req_header_value get_cookie_value
  key_of self session ctx = elim self.tag [
    | query ↦ (ctx, unwrap_or_default (get_query_value session.req_header self.key))
    | request_header ↦
        (ctx, unwrap_or_default (get_req_header_value http session.req_header self.key))
    | cookie ↦ (ctx, unwrap_or_default (get_cookie_value http session.req_header self.key))
    | ip ↦
        let client_ip = get_client_ip http session in
        (record ctx { client_ip = some client_ip }, client_ip)
  ]

  abbrev rate_value : ℕ → lib.Rate → Str → ℕ
  rate_value weight rate key =
      if ltb 0 weight then lib.rate_with weight rate key else lib.rate rate key

  -- Counts a request under its key: the limiter, the counters, the context and the value. The guard is
  -- stored in the context, and the guard that was there before is dropped.
  unfoldable pub track : Limiter → Str → Counts → Ctx → Limiter × Counts × Ctx × ℕ
  unfolding store drop_guard
  track self key counts ctx = elim self.rate [
    | some rate ↦
        let observed = lib.observe rate key in
        (record self { rate = some observed }, counts, ctx, rate_value self.weight observed key)
    | none ↦ elim self.inflight [
      | some id ↦
          let (inflight, value) = lib.raise (counts id) key in
          (
            self,
            drop_guard ctx.guard (store id inflight counts),
            record ctx { guard = some (record { counter = id; key = key }) },
            value,
          )
      | none ↦ (self, counts, ctx, 0)
    ]
  ]

  -- The limiter, the counters, the context, and the value of an error.
  unfoldable pub incr :
      Limiter → Session → Counts → Ctx → Limiter × Counts × Ctx × Result ℕ (Unit {0})
  unfolding key_of track
  incr self session counts ctx =
      let (ctx', key) = key_of self session ctx in
      let (self', counts', tracked, value) = track self key counts ctx' in
      if is_empty key
      then (self, counts, ctx', ok tt)
      else if lt_i64 self.max value
      then (self', counts', tracked, err value)
      else (self', counts', tracked, ok tt)

  abbrev too_many_requests : ℕ → ℕ → HttpResponse
  too_many_requests value max = record default_response {
    status = 429;
    body = str "Plugin limit, exceed limit " ++ (show_isize value ++ (b'/' ∷ show_isize max));
  }

  -- The limiter, the counters, and what the handler leaves behind.
  unfoldable pub handle_request :
      Limiter
      → PluginStep
      → Session
      → Counts
      → Ctx
      → Limiter × Counts × (Session × Ctx × Result Failure (Bool × Option HttpResponse))
  unfolding incr show
  handle_request self step session counts ctx =
      let (self', counts', ctx', result) = incr self session counts ctx in
      if not (step_eq step self.plugin_step)
      then (self, counts, (session, ctx, ok (false, none)))
      else elim result [
        | err value ↦
            (self', counts', (session, ctx', ok (true, some (too_many_requests value self.max))))
        | ok passed ↦ (self', counts', (session, ctx', ok (true, none)))
      ]
