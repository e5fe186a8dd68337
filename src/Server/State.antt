-- ===== src/Server/State.antt =====
-- What the handlers of src/proxy/server.rs share: the server's counters, the global maps of
-- locations and upstreams, and the counters of pingap-performance/src/process.rs. All counters
-- are bit patterns, of 64 bits where they count accepted requests and of 32 bits elsewhere.
use pingap.Common.{ℕ, List}
use pingap.Common.Text.{Str}
use pingap.Common.Map.{Map}
use pingap.Common.Words.{inc32, dec32, inc64}
use pingap.Common.Results.{Result}
use pingap.Core.Ctx.{Ctx}
use pingap.Core.Plugin.{Failure, Session}
use pingap.External.{RegexLib}
use pingap.Location.Route.{Location}
use pingap.Upstream.Peer.{Upstream}

-- The fields of `Server` that the handlers read or write.
pub record Server : Type 0 where
  pub name : Str
  pub accepted : ℕ
  pub processing : ℕ

pub record State (rx : RegexLib) : Type 0 where
  pub server : Server
  pub server_locations : Map (List Str)
  pub locations : Map (Location rx)
  pub upstreams : Map Upstream
  pub accepted : ℕ
  pub processing : ℕ

-- What a handler leaves behind.
pub record Reply (rx : RegexLib) (A : Type 0) : Type 0 where
  pub state : State rx
  pub session : Session
  pub ctx : Ctx
  pub result : Result Failure A

module _ (rx : RegexLib) where
  unfoldable pub accept_request : State rx → State rx
  accept_request state = record state {
    accepted = inc64 state.accepted;
    processing = inc32 state.processing;
  }

  unfoldable pub end_request : State rx → State rx
  end_request state = record state { processing = dec32 state.processing }
