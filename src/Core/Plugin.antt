-- ===== src/Core/Plugin.antt =====
-- The trait `Plugin` of pingap-core/src/plugin.rs, with the session that it is handed, and
-- `HttpResponse` of pingap-core/src/http_response.rs.
use pingap.Common.{ℕ, ◌≡◌, Bool, true, false, Option, none, some, List, []}
use pingap.Common.Text.{Str}
use pingap.Common.Results.{Result, ok}
use pingap.Http.Header.{RequestHeader, HttpHeader}
use pingap.Core.Ctx.{Ctx}

pub data PluginStep : Type 0 where
  early_request request proxy_upstream upstream_response response : PluginStep

abbrev pub step_eq : PluginStep → PluginStep → Bool
step_eq early_request early_request = true
step_eq request request = true
step_eq proxy_upstream proxy_upstream = true
step_eq upstream_response upstream_response = true
step_eq response response = true
step_eq _ _ = false

pub record HttpResponse : Type 0 where
  pub status : ℕ
  pub body : Str
  pub max_age : Option ℕ
  pub created_at : Option ℕ
  pub cache_private : Option Bool
  pub headers : Option (List HttpHeader)

-- `HttpResponse::default`, whose status is 200.
abbrev pub default_response : HttpResponse
default_response = record {
  status = 200;
  body = [];
  max_age = none;
  created_at = none;
  cache_private = none;
  headers = none;
}

-- The error of pingora that carries a status.
pub record Failure : Type 0 where
  pub status : ℕ
  pub message : Str

abbrev pub new_internal_error : ℕ → Str → Failure
new_internal_error status message = record { status = status; message = message }

-- The parts of pingora's timing and TLS digest that are read: the times at which the layers of
-- the connection were established, in milliseconds, and the TLS version and cipher.
pub record Digest : Type 0 where
  pub timing_digest : List (Option ℕ)
  pub ssl_digest : Option (Str × Str)

-- The session of pingora: the request, what is known of the connection, whether the gRPC-web
-- module is loaded and started, and the status of the response header that was written.
pub record Session : Type 0 where
  pub req_header : RequestHeader
  pub is_upgrade_req : Bool
  pub stream_id : Option ℕ
  pub digest : Option Digest
  pub client_addr : Option (Str × ℕ)
  pub server_addr : Option (Str × ℕ)
  pub grpc_web : Option Bool
  pub response_written : Option ℕ

-- The header of a response.
pub record ResponseHeader : Type 0 where
  pub status : ℕ
  pub headers : List (Str × Str)

-- What the handlers of responses leave behind, and whether the plugin was executed.
abbrev pub Responded : Type 0
Responded = Session × Ctx × ResponseHeader × Result Failure Bool

-- `handle_request`: the session and the context after the call, whether the plugin was executed,
-- and its response.
pub record Plugin : Type 0 where
  pub handle_request :
      PluginStep → Session → Ctx → Session × Ctx × Result Failure (Bool × Option HttpResponse)
  pub handle_response : PluginStep → Session → Ctx → ResponseHeader → Responded
  pub handle_upstream_response : PluginStep → Session → Ctx → ResponseHeader → Responded

-- The methods of the trait that a plugin leaves out.
abbrev pub no_response : PluginStep → Session → Ctx → ResponseHeader → Responded
no_response step session ctx header = (session, ctx, header, ok false)

abbrev pub no_request :
    PluginStep → Session → Ctx → Session × Ctx × Result Failure (Bool × Option HttpResponse)
no_request step session ctx = (session, ctx, ok (false, none))

-- What a plugin gives when it answers, and when it lets the request go on.
pub answered≢passed :
    {answer : HttpResponse} {executed : Bool} {result : Result Failure (Bool × Option HttpResponse)}
    → result ≡ ok (true, some answer)
    → result ≡ ok (executed, none)
    → ⊥
answered≢passed h k = cc
