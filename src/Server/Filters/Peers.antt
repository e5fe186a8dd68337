-- ===== src/Server/Filters/Peers.antt =====
-- The counter of the requests of an upstream, from the choice of a peer to the end of the request:
-- `upstream_peer` and `logging` of src/proxy/server.rs.
use pingap.Common.{
  ℕ, zero, suc, ◌+◌, ◌%◌, ◌^◌, ◌<◌, ◌≡◌, ◌≢◌, refl, ap, ◌∙◌, false, Option, none, some, [], ◌∷◌,
  arith,
}
use pingap.Common.Text.{Str, str, str_eq_refl, starts_with}
use pingap.Common.Map.{Map, get, update, map_option, get-update}
use pingap.Common.Words.{inc32, dec32}
use pingap.Core.Ctx.{Ctx, get_variable}
use pingap.Core.Plugin.{Session}
use pingap.External.{RegexLib}
use pingap.Location.Registry.{get_location}
use pingap.Location.Route.{Location}
use pingap.Server.Early.{Env}
use pingap.Server.Filters.{upstream_peer, with_address}
use pingap.Server.Logging.{resolved_name, get_upstream_with_variables, logging}
use pingap.Server.State.{State, end_request}
use pingap.Upstream.Peer.{Upstream, HttpPeer, new_http_peer, completed, get_upstream}

module _ (rx : RegexLib) (env : Env) (select : Str → Str → Option Str) where
  -- pingora asks for a peer again when a connection fails that may be tried again.
  abbrev pub attempts : ℕ → State rx → Session → Ctx → State rx × Ctx
  attempts zero state session ctx = (state, ctx)
  attempts (suc n) state session ctx =
      let (state', ctx', peer) = upstream_peer rx env select state session ctx in
      attempts n state' session ctx'

  abbrev pub processing_of_upstream : Str → State rx → Option ℕ
  processing_of_upstream name state = map_option (λ u. u.processing) (get name state.upstreams)

  -- What the location of a request resolves to: an upstream under its own name.
  pub record Resolves (state : State rx) (ctx : Ctx) (l : Location rx) (up : Upstream)
      : Type 0 where
    pub located : get_location rx ctx.location state.locations ≡ some l
    pub named : resolved_name l.upstream ctx ≡ up.name
    pub known : get_upstream up.name state.upstreams ≡ some up

  get_upstream-eq-some :
      (name : Str) (up : Upstream) (upstreams : Map Upstream)
      → get_upstream name upstreams ≡ some up
      → (get name upstreams ≡ some up) × (name ≢ [])
  unfolding get_upstream
  get_upstream-eq-some [] up upstreams e = absurd (ground arith)
  get_upstream-eq-some (c ∷ name) up upstreams e = (e, λ h. cc)

  get_upstream-named :
      (name : Str) (upstreams : Map Upstream)
      → name ≢ []
      → get_upstream name upstreams ≡ get name upstreams
  unfolding get_upstream
  get_upstream-named [] upstreams nonempty = absurd (nonempty refl)
  get_upstream-named (c ∷ name) upstreams nonempty = refl

  get_upstream-update :
      (name : Str) (up : Upstream) (f : Upstream → Upstream) (upstreams : Map Upstream)
      → get_upstream name upstreams ≡ some up
      → get_upstream name (update name f upstreams) ≡ some (f up)
  get_upstream-update name up f upstreams e =
      let (here, nonempty) = get_upstream-eq-some name up upstreams e in
      get_upstream-named name (update name f upstreams) nonempty
      ∙ get-update name name f upstreams
      ∙ rw (str_eq_refl name, here) refl

  with_address-keeps :
      (ctx : Ctx) (peer : Option HttpPeer)
      → ((with_address rx env ctx peer).location ≡ ctx.location)
        × ((with_address rx env ctx peer).variables ≡ ctx.variables)
  with_address-keeps ctx none = (refl, refl)
  with_address-keeps ctx (some peer) = (refl, refl)

  -- One choice of a peer, whether it finds one or not.
  upstream_peer-effect :
      (state : State rx) (session : Session) (ctx : Ctx) (l : Location rx) (up : Upstream)
      → Resolves state ctx l up
      → let r = upstream_peer rx env select state session ctx in
        (r.0.locations ≡ state.locations)
        × (r.1.location ≡ ctx.location)
        × (r.1.variables ≡ ctx.variables)
        × (r.1.upstream ≡ up.name)
        × (get_upstream up.name r.0.upstreams
            ≡ some (record up { processing = inc32 up.processing }))
  unfolding upstream_peer get_upstream_with_variables get_upstream new_http_peer
  upstream_peer-effect state session ctx l up h =
      let found : get_upstream_with_variables l.upstream ctx state.upstreams ≡ some up =
        ap (λ name. get_upstream name state.upstreams) h.named ∙ h.known in
      let count =
        λ (u : Upstream). (new_http_peer env.http (select up.name) u session ctx.client_ip).0 in
      let (at, vars) =
        with_address-keeps (record ctx { upstream_connected = up.connected })
          (new_http_peer env.http (select up.name) up session ctx.client_ip).1 in
      rw (upstream_peer, h.located, found, h.named)
        (refl, at, vars, refl, get_upstream-update up.name up count state.upstreams h.known)

  resolved_name-variables :
      (upstream : Str) (c d : Ctx)
      → c.variables ≡ d.variables
      → resolved_name upstream c ≡ resolved_name upstream d
  unfolding resolved_name get_variable
  resolved_name-variables upstream c d e = rw e refl

  -- The count after several choices.
  attempts-effect :
      (n : ℕ) (state : State rx) (session : Session) (ctx : Ctx) (l : Location rx) (up : Upstream)
      → Resolves state ctx l up
      → up.processing < 2 ^ 32
      → let r = attempts (suc n) state session ctx in
        (r.1.upstream ≡ up.name)
        × (get_upstream up.name r.0.upstreams
            ≡ some (record up { processing = (up.processing + suc n) % 2 ^ 32 }))
  attempts-effect zero state session ctx l up h small =
      let (_, _, _, chosen, counted) = upstream_peer-effect state session ctx l up h in
      (chosen, counted)
  attempts-effect (suc n) state session ctx l up h small =
      let (same_locations, at, vars, chosen, counted) =
        upstream_peer-effect state session ctx l up h in
      let r = upstream_peer rx env select state session ctx in
      let next : Resolves r.0 r.1 l (record up { processing = inc32 up.processing }) = record {
        located = rw (same_locations, at) h.located;
        named = resolved_name-variables l.upstream r.1 ctx vars ∙ h.named;
        known = counted;
      } in
      let (chosen', counted') = attempts-effect n r.0 session r.1 l _ next (omega arith) in
      let same : (inc32 up.processing + suc n) % 2 ^ 32 ≡ (up.processing + suc (suc n)) % 2 ^ 32 =
        omega arith in
      (chosen', counted' ∙ ap (λ k. some (record up { processing = k })) same)

  -- A request counts at its upstream once for every peer that is chosen for it, and `logging` takes
  -- one off: with one choice the counter is as it was, whether a peer was found or not, and every
  -- further choice, when pingora tries again, leaves it one higher for good. The name of the
  -- upstream is no variable.
  pub logging-attempts :
      (n : ℕ) (state : State rx) (session session' : Session) (ctx ctx' : Ctx) (l : Location rx)
      (up : Upstream)
      → Resolves state ctx l up
      → up.processing < 2 ^ 32
      → starts_with up.name (str "$") ≡ false
      → ctx'.upstream ≡ (attempts (suc n) state session ctx).1.upstream
      → processing_of_upstream up.name
          (logging rx (attempts (suc n) state session ctx).0 session' ctx').0
        ≡ some ((up.processing + n) % 2 ^ 32)
  unfolding logging resolved_name get_upstream_with_variables completed end_request
  logging-attempts n state session session' ctx ctx' l up h small plain kept =
      let (chosen, counted) = attempts-effect n state session ctx l up h small in
      let s = (attempts (suc n) state session ctx).0 in
      let up' = record up { processing = (up.processing + suc n) % 2 ^ 32 } in
      let resolved : resolved_name ctx'.upstream ctx' ≡ up.name =
        ap (λ name. resolved_name name ctx') (kept ∙ chosen) ∙ rw (resolved_name, plain) refl in
      let found : get_upstream_with_variables ctx'.upstream ctx' s.upstreams ≡ some up' =
        ap (λ name. get_upstream name s.upstreams) resolved ∙ counted in
      let left = get_upstream-update up.name up' completed s.upstreams counted in
      let (here, _) =
        get_upstream-eq-some up.name (completed up') (update up.name completed s.upstreams) left in
      let back : dec32 ((up.processing + suc n) % 2 ^ 32) ≡ (up.processing + n) % 2 ^ 32 =
        omega arith in
      rw (logging, found, resolved, here) (ap some back)
