-- ===== src/Server/Responses.antt =====
-- The handlers of responses of src/proxy/server.rs. The tracing of the feature `full` is left out.
pub mod Bodies
pub mod Caching
use pingap.Common.{
  ℕ, ◌+◌, ◌/◌, ◌%◌, ◌^◌, ◌<◌, Bool, true, false, not, ◌&&◌, ◌||◌, Option, none, some, List, [], ◌∷◌,
  ◌++◌,
}
use pingap.Common.Tests.{ltb, leb, ◌==◌, if◌then◌else◌}
use pingap.Common.Text.{Str, str, str_len, starts_with}
use pingap.Common.Map.{Map, get}
use pingap.Common.Digits.{show}
use pingap.Common.Results.{Result, ok, err}
use pingap.Core.Ctx.{Ctx, add_plugin_processing_time}
use pingap.Core.Ctx.Values.{generate_server_timing}
use pingap.Core.Plugin.{
  PluginStep, upstream_response, response, Failure, Session, ResponseHeader, Responded, Plugin,
}
use pingap.External.{RegexLib}
use pingap.Location.Registry.{get_location}
use pingap.Location.Route.{Location}
use pingap.Server.Plugins.{PluginEnv}
use pingap.Server.Proxy.{insert_header}
use pingap.Util.Datetime.{get_latency}

-- What a handler of responses leaves behind.
abbrev pub Handled : Type 0
Handled = Session × Ctx × ResponseHeader × Result Failure (Unit {0})

abbrev pub Method : Type 0
Method = Plugin → PluginStep → Session → Ctx → ResponseHeader → Responded

module _ (env : PluginEnv) (method : Method) (step : PluginStep) where
  abbrev after_plugin : Str → (Session → Ctx → ResponseHeader → Handled) → Responded → Handled
  after_plugin name rest (session, ctx, header, err e) = (session, ctx, header, err e)
  after_plugin name rest (session, ctx, header, ok executed) =
      rest session
        (if executed then add_plugin_processing_time ctx name (env.elapsed name step) else ctx)
        header

  unfoldable pub run_plugins : List Str → Session → Ctx → ResponseHeader → Handled
  unfolding add_plugin_processing_time
  run_plugins [] session ctx header = (session, ctx, header, ok tt)
  run_plugins (name ∷ names) session ctx header = elim (env.get_plugin name) [
    | none ↦ run_plugins names session ctx header
    | some plugin ↦ after_plugin name (run_plugins names) (method plugin step session ctx header)
  ]

  -- The loops of `handle_response_plugin` and `handle_upstream_response_plugin`.
  unfoldable pub handle_plugins : Option (List Str) → Session → Ctx → ResponseHeader → Handled
  unfolding run_plugins
  handle_plugins none session ctx header = (session, ctx, header, ok tt)
  handle_plugins (some plugins) session ctx header =
      if session.is_upgrade_req
      then (session, ctx, header, ok tt)
      else run_plugins plugins session ctx header

abbrev pub handle_response_plugin :
    PluginEnv → PluginStep → Option (List Str) → Session → Ctx → ResponseHeader → Handled
handle_response_plugin env = handle_plugins env (λ plugin. plugin.handle_response)

abbrev pub handle_upstream_response_plugin :
    PluginEnv → PluginStep → Option (List Str) → Session → Ctx → ResponseHeader → Handled
handle_upstream_response_plugin env = handle_plugins env (λ plugin. plugin.handle_upstream_response)

abbrev pub with_header : Str → Str → ResponseHeader → ResponseHeader
with_header name value header = record header { headers = insert_header name value header.headers }

-- What the session's cache knows of a request, if it is enabled: the phase, and how long the lookup
-- and the lock took, in milliseconds.
pub record CacheInfo : Type 0 where
  pub phase : Str
  pub lookup_duration : Option ℕ
  pub lock_duration : Option ℕ

abbrev with_duration : Str → Option ℕ → ResponseHeader → ResponseHeader
with_duration name none header = header
with_duration name (some ms) header = with_header name (show 10 ms ++ str "ms") header

abbrev or_before : Option ℕ → Option ℕ → Option ℕ
or_before none before = before
or_before (some ms) before = some ms

unfoldable pub with_cache : Option CacheInfo → Ctx → ResponseHeader → Ctx × ResponseHeader
unfolding insert_header show
with_cache none ctx header = (ctx, header)
with_cache (some cache) ctx header = (
  record ctx {
    cache_lookup_time = or_before cache.lookup_duration ctx.cache_lookup_time;
    cache_lock_time = or_before cache.lock_duration ctx.cache_lock_time;
  },
  with_duration (str "x-cache-lock") cache.lock_duration (
      with_duration (str "x-cache-lookup") cache.lookup_duration
        (with_header (str "x-cache-status") cache.phase header)),
)

abbrev with_server_timing : Bool → ℕ → Handled → Handled
with_server_timing enabled now_ms (session, ctx, header, err e) = (session, ctx, header, err e)
with_server_timing enabled now_ms (session, ctx, header, ok _) =
    let timed =
      if enabled
      then with_header (str "server-timing") (generate_server_timing now_ms ctx) header
      else header in
    (session, ctx, timed, ok tt)

module _ (rx : RegexLib) (env : PluginEnv) (now_ms : ℕ) where
  abbrev run_at :
      (Option (List Str) → Session → Ctx → ResponseHeader → Handled)
      → Map (Location rx)
      → Session
      → Ctx
      → ResponseHeader
      → Handled
  run_at handle locations session ctx header = elim (get_location rx ctx.location locations) [
    | none ↦ (session, ctx, header, ok tt)
    | some location ↦ handle location.plugins session ctx header
  ]

  -- With the cache of the session and whether the server sends its timing.
  unfoldable pub response_filter :
      Option CacheInfo → Bool → Map (Location rx) → Session → Ctx → ResponseHeader → Handled
  unfolding with_cache insert_header generate_server_timing
  response_filter cache enable_server_timing locations session ctx header =
      let (ctx', header') = with_cache cache ctx header in
      with_server_timing enable_server_timing now_ms
        (run_at (handle_response_plugin env response) locations session ctx' header')

  abbrev with_status : Ctx → ResponseHeader → Ctx
  with_status ctx header = elim ctx.status [
    | some _ ↦ ctx
    | none ↦ record ctx {
      status = some header.status;
      upstream_response_time = get_latency now_ms ctx.upstream_response_time;
    }
  ]

  abbrev with_request_id : Option Str → ResponseHeader → ResponseHeader
  with_request_id none header = header
  with_request_id (some id) header = with_header (str "x-request-id") id header

  abbrev finish_upstream : Handled → Handled
  finish_upstream (session, ctx, header, err e) = (session, ctx, header, err e)
  finish_upstream (session, ctx, header, ok _) =
      let known = with_status ctx header in
      (
        session,
        record known {
          upstream_processing_time = get_latency now_ms known.upstream_processing_time;
        },
        with_request_id known.request_id header,
        ok tt,
      )

  unfoldable pub upstream_response_filter :
      Map (Location rx) → Session → Ctx → ResponseHeader → Handled
  unfolding insert_header
  upstream_response_filter locations session ctx header =
      finish_upstream (
        run_at (handle_upstream_response_plugin env upstream_response) locations session ctx header)

-- What is left of a part of a body that a handler takes, and what the buffer holds with it.
abbrev pub taken : Option Str → Option Str
taken none = none
taken (some _) = some []

abbrev pub buffered : Option Str → Option Str → Str
buffered none none = []
buffered none (some b) = b
buffered (some buf) none = buf
buffered (some buf) (some b) = buf ++ b

abbrev end_upstream : Bool → ℕ → Ctx → Ctx
end_upstream end_of_stream now_ms ctx =
    if end_of_stream
    then record ctx { upstream_response_time = get_latency now_ms ctx.upstream_response_time }
    else ctx

-- A part of the body and whether it is the last; a handler of the whole body holds all parts back
-- until the last one.
unfoldable pub upstream_response_body_filter : ℕ → Option Str → Bool → Ctx → Option Str × Ctx
upstream_response_body_filter now_ms body end_of_stream ctx =
    elim ctx.modify_upstream_response_body [
      | none ↦ (body, end_upstream end_of_stream now_ms ctx)
      | some modify ↦
          let buf = buffered ctx.response_body body in
          if end_of_stream
          then (
            some (modify buf),
            end_upstream true now_ms
                (record ctx { response_body = none; modify_upstream_response_body = none }),
          )
          else (taken body, record ctx { response_body = some buf })
    ]

unfoldable pub response_body_filter : Option Str → Bool → Ctx → Option Str × Ctx
response_body_filter body end_of_stream ctx = elim ctx.modify_response_body [
  | none ↦ (body, ctx)
  | some modify ↦
      let buf = buffered ctx.response_body body in
      if end_of_stream
      then (some (modify buf), record ctx { response_body = some buf; modify_response_body = none })
      else (taken body, record ctx { response_body = some buf })
]

-- The crate pingora-cache: the header cache-control, and whether a response may be kept.
pub record CacheLib : Type 1 where
  pub CacheControl : Type 0
  pub Cacheable : Type 0
  pub from_resp_headers : ResponseHeader → Option CacheControl
  pub no_cache : CacheControl → Bool
  pub no_store : CacheControl → Bool
  pub is_private : CacheControl → Bool
  pub max_age : CacheControl → Result (Unit {0}) (Option ℕ)
  pub fresh_sec : CacheControl → Option ℕ
  pub set_s_maxage : ℕ → CacheControl → CacheControl
  pub resp_cacheable : Option CacheControl → ResponseHeader → Cacheable
  pub origin_not_cache : Cacheable

abbrev pub or_zero : Option ℕ → ℕ
or_zero none = 0
or_zero (some n) = n

abbrev pub is_missing : {A : Type 0} → Option A → Bool
is_missing none = true
is_missing (some _) = false

module _ (lib : CacheLib) where
  abbrev has_no_age : Result (Unit {0}) (Option ℕ) → Bool
  has_no_age (err _) = false
  has_no_age (ok age) = or_zero age == 0

  -- Whether the origin forbids to keep a response.
  abbrev pub forbids : lib.CacheControl → Bool
  forbids c = lib.no_cache c || lib.no_store c || lib.is_private c || has_no_age (lib.max_age c)

  -- Seconds of the longest time, on 32 bits where they are compared.
  abbrev pub limited : Option ℕ → lib.CacheControl → lib.CacheControl
  limited none c = c
  limited (some ttl) c =
      let seconds = ttl / 1000 in
      if ltb (seconds % 2 ^ 32) (or_zero (lib.fresh_sec c)) then lib.set_s_maxage seconds c else c

  unfoldable pub response_cache_filter : ResponseHeader → Ctx → lib.Cacheable
  unfolding get
  response_cache_filter resp ctx =
      if ctx.check_cache_control && is_missing (get (str "cache-control") resp.headers)
      then lib.origin_not_cache
      else elim (lib.from_resp_headers resp) [
        | none ↦ lib.resp_cacheable none resp
        | some c ↦
            if forbids c
            then lib.origin_not_cache
            else lib.resp_cacheable (some (limited ctx.cache_max_ttl c)) resp
      ]

-- The errors of pingora, by their type and their source.
pub data ErrorType : Type 0 where
  http_status : ℕ → ErrorType
  connect_timedout connection_closed other : ErrorType

pub data ErrorSource : Type 0 where
  upstream downstream internal unset : ErrorSource

abbrev pub downstream_code : ErrorType → ℕ
downstream_code connect_timedout = 408
downstream_code connection_closed = 499
downstream_code _ = 500

abbrev pub source_code : ErrorType → ErrorSource → ℕ
source_code etype upstream = 502
source_code etype downstream = downstream_code etype
source_code etype internal = 500
source_code etype unset = 500

abbrev pub error_code : ErrorType → ErrorSource → ℕ
error_code (http_status code) esource = code
error_code etype esource = source_code etype esource

-- `StatusCode::from_u16`, or the status 500.
abbrev valid_status : ℕ → ℕ
valid_status code = if leb 100 code && ltb code 1000 then code else 500

-- The context, the response and the code of the error. The page and the name of the error are
-- texts; `gen_error_response` of pingora makes the header of a code.
unfoldable pub fail_to_proxy :
    (ℕ → ResponseHeader) → ErrorType → ErrorSource → Str → Str → Ctx → Ctx × ResponseHeader × ℕ
unfolding insert_header starts_with show str_len
fail_to_proxy gen_error_response etype esource name content ctx =
    let code = error_code etype esource in
    let content_type =
      if starts_with content (str "{")
      then str "application/json; charset=utf-8"
      else str "text/html; charset=utf-8" in
    (
      record ctx { status = some (valid_status code) },
      with_header (str "content-length") (show 10 (str_len content)) (
          with_header (str "x-pingap-etype") name
            (with_header (str "content-type") content_type (gen_error_response code))),
      code,
    )
