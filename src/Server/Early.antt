-- ===== src/Server/Early.antt =====
-- `Server::early_request_filter` of src/proxy/server.rs, without the tracing and the metrics of
-- the feature `full`.
pub mod Effects
use pingap.Common.{
  ℕ, ◌+◌, ◌-◌, ◌%◌, ◌^◌, Bool, true, false, not, ◌&&◌, Option, none, some, List, [], ◌∷◌,
}
use pingap.Common.Tests.{ltb, leb, if◌then◌else◌}
use pingap.Common.Text.{Str, str, unwrap_or_default}
use pingap.Common.Map.{Map, get, update}
use pingap.Common.Words.{inc32, inc64}
use pingap.Common.Results.{Result, ok, err}
use pingap.Core.Ctx.{Ctx}
use pingap.Core.Plugin.{early_request, Failure, new_internal_error, Digest, Session}
use pingap.External.{RegexLib, HttpLib}
use pingap.Http.Header.{get_host}
use pingap.Location.Selector.{Error}
use pingap.Location.Route.{Location, validate_content_length, add_processing}
use pingap.Server.Plugins.{PluginEnv, Ran, handle_request_plugin}
use pingap.Server.Routes.{find_location}
use pingap.Server.State.{State, Reply, accept_request}

-- The parameters of the handlers: other crates, the plugins, the texts of errors and the clock.
pub record Env : Type 0 where
  pub http : HttpLib
  pub plugins : PluginEnv
  pub show : Error → Str
  pub now_ms : ℕ

pub record DigestDetail : Type 0 where
  pub connection_reused : Bool
  pub connection_time : ℕ
  pub tcp_established : ℕ
  pub tls_established : ℕ
  pub tls_version : Option Str
  pub tls_cipher : Option Str

abbrev or_zero : Option ℕ → ℕ
or_zero none = 0
or_zero (some n) = n

-- The first and the last entry; 0 where there is none.
unfoldable pub first_established : List (Option ℕ) → ℕ
first_established [] = 0
first_established (t ∷ _) = or_zero t

unfoldable pub last_established : List (Option ℕ) → ℕ
last_established [] = 0
last_established (t ∷ []) = or_zero t
last_established (_ ∷ t ∷ ts) = last_established (t ∷ ts)

-- Subtraction of `u64` wraps around.
abbrev sub64 : ℕ → ℕ → ℕ
sub64 a b = (a + 2 ^ 64 - b) % 2 ^ 64

unfoldable pub get_digest_detail : ℕ → Digest → DigestDetail
get_digest_detail now digest =
    let tcp_established = first_established digest.timing_digest in
    let connection_time = if ltb 0 tcp_established then sub64 now tcp_established else 0 in
    let connection_reused = ltb 100 connection_time in
    elim digest.ssl_digest [
      | none ↦ record {
        connection_reused = connection_reused;
        connection_time = connection_time;
        tcp_established = tcp_established;
        tls_established = 0;
        tls_version = none;
        tls_cipher = none;
      }
      | some (version, cipher) ↦ record {
        connection_reused = connection_reused;
        connection_time = connection_time;
        tcp_established = tcp_established;
        tls_established = last_established digest.timing_digest;
        tls_version = some version;
        tls_cipher = some cipher;
      }
    ]

unfoldable pub with_digest : DigestDetail → Ctx → Ctx
with_digest detail ctx = record ctx {
  connection_time = detail.connection_time;
  connection_reused = detail.connection_reused;
  tls_handshake_time =
      if not detail.connection_reused && leb detail.tcp_established detail.tls_established
      then some (detail.tls_established - detail.tcp_established)
      else ctx.tls_handshake_time;
  tls_cipher = detail.tls_cipher;
  tls_version = detail.tls_version;
}

-- What is known of the connection.
unfoldable pub with_connection : ℕ → Session → Ctx → Ctx
with_connection now session ctx =
    let identified : Ctx = elim session.stream_id [
      | none ↦ ctx
      | some id ↦ record ctx { connection_id = id }
    ] in
    elim session.digest [
      | none ↦ identified
      | some digest ↦ with_digest (get_digest_detail now digest) identified
    ]

-- The addresses of both ends.
unfoldable pub with_addresses : Session → Ctx → Ctx
with_addresses session ctx =
    let from : Ctx = elim session.client_addr [
      | none ↦ ctx
      | some (addr, port) ↦ record ctx { remote_addr = some addr; remote_port = some port }
    ] in
    elim session.server_addr [
      | none ↦ from
      | some (addr, port) ↦ record from { server_addr = some addr; server_port = some port }
    ]

module _ (rx : RegexLib) (env : Env) where
  -- The request is counted by the process and by the server.
  unfoldable pub count_request : State rx → State rx
  count_request state = record (accept_request rx state) {
    server = record (state.server) {
      accepted = inc64 state.server.accepted;
      processing = inc32 state.server.processing;
    };
  }

  abbrev early_plugins : State rx → Location rx → Session → Ctx → Reply rx (Unit {0})
  early_plugins state location session ctx =
      let (session, ctx, result) =
        handle_request_plugin env.plugins early_request location.plugins session ctx in
      record {
        state = state;
        session = session;
        ctx = ctx;
        result = elim result [ ok _ ↦ ok tt | err e ↦ err e ];
      }

  abbrev fail : State rx → Session → Ctx → ℕ → Str → Reply rx (Unit {0})
  fail state session ctx status message = record {
    state = state;
    session = session;
    ctx = ctx;
    result = err (new_internal_error status message);
  }

  abbrev start_location : State rx → Location rx → Session → Ctx → Reply rx (Unit {0})
  start_location state location session ctx =
      if location.grpc_web
      then elim session.grpc_web [
        | none ↦ fail state session ctx 500 (str "grpc web bridge module should be added")
        | some _ ↦ early_plugins state location (record session { grpc_web = some true }) ctx
      ]
      else early_plugins state location session ctx

  -- What is done with `current_location`; `key` is the name under which it was found.
  unfoldable pub enter_location :
      State rx → Session → Option (Str × Location rx) × Ctx → Reply rx (Unit {0})
  enter_location state session (none, ctx) = record {
    state = state;
    session = session;
    ctx = ctx;
    result = ok tt;
  }
  enter_location state session (some (key, location), ctx) =
      elim (validate_content_length rx env.http location session.req_header) [
        | err e ↦ fail state session ctx 413 (env.show e)
        | ok _ ↦
            let counted = record state {
              locations = update key (λ l. (add_processing rx l).0) state.locations;
            } in
            elim (add_processing rx location).1 [
              | err e ↦ fail counted session ctx 429 (env.show e)
              | ok (accepted, processing) ↦
                  start_location counted location session
                    (record ctx { location_accepted = accepted; location_processing = processing })
            ]
      ]

  -- The context when the routing starts.
  unfoldable pub prepared : State rx → Session → Ctx → Ctx
  prepared counted session ctx =
      with_addresses session (record (with_connection env.now_ms session ctx) {
        processing = counted.server.processing;
        accepted = counted.server.accepted;
      })

  unfoldable pub early_request_filter : State rx → Session → Ctx → Reply rx (Unit {0})
  early_request_filter state session ctx =
      let counted = count_request state in
      let ctx' = prepared counted session ctx in
      let host = unwrap_or_default (get_host env.http session.req_header) in
      elim (get state.server.name state.server_locations) [
        | none ↦ record { state = counted; session = session; ctx = ctx'; result = ok tt }
        | some names ↦
            enter_location counted session
              (find_location rx state.locations host session.req_header.uri.path names none ctx')
      ]
