-- ===== src/Server/Proxy/Headers.antt =====
-- The headers of the request to the upstream: src/proxy/server.rs.
use pingap.Common.{ℕ, ◌≡◌, refl, sym, ap, ◌∙◌, some, List, [], ◌∷◌, ◌++◌, arith}
use pingap.Common.Tests.{if◌then◌else◌}
use pingap.Common.Text.{Str, str_eq, str_eq_iff}
use pingap.Common.Map.{Map, remove}
use pingap.Core.Ctx.{Ctx}
use pingap.Core.Plugin.{Session}
use pingap.External.{RegexLib, HttpLib}
use pingap.Http.Header.{RequestHeader, HttpHeader}
use pingap.Http.Values.{System}
use pingap.Location.Registry.{get_location}
use pingap.Location.Route.{Location}
use pingap.Server.Proxy.{
  insert_header, append_header, converted, set_all, append_all, sets_of, adds_of,
  set_append_proxy_headers,
}
use mathlib.Core.List.{append_assoc, append-nil}

-- All values of a name, in order.
abbrev pub values : Str → List (Str × Str) → List Str
values name [] = []
values name ((k, v) ∷ headers) =
    let rest = values name headers in if str_eq k name then v ∷ rest else rest

values-append :
    (name : Str) (xs ys : List (Str × Str))
    → values name (xs ++ ys) ≡ values name xs ++ values name ys
values-append name [] ys = refl
values-append name ((k, v) ∷ xs) ys = ground (arith, values-append name xs ys)

values-remove :
    (name k : Str) (headers : List (Str × Str))
    → values name (remove k headers) ≡ (if str_eq k name then [] else values name headers)
unfolding remove
values-remove name k [] = ground arith
values-remove name k ((j, v) ∷ headers) =
    ground
      (arith, str_eq_iff k name, str_eq_iff j name, str_eq_iff j k, values-remove name k headers)

values-insert_header :
    (name k v : Str) (headers : List (Str × Str))
    → values name (insert_header k v headers)
      ≡ (if str_eq k name then v ∷ [] else values name headers)
unfolding insert_header
values-insert_header name k v headers =
    values-append name (remove k headers) ((k, v) ∷ [])
    ∙ ground (arith, values-remove name k headers, append-nil (values name headers))

module _ (http : HttpLib) (system : System) (now_ms : ℕ) (session : Session) (ctx : Ctx)
    (name : Str) where
  -- What a name has after the headers are set: the last value that is set for it, if there is one.
  abbrev pub last_or : List Str → List HttpHeader → List Str
  last_or before [] = before
  last_or before ((k, v) ∷ sets) =
      last_or (if str_eq k name then converted http system now_ms session ctx v ∷ [] else before)
        sets

  -- What is added to it.
  abbrev pub added : List HttpHeader → List Str
  added [] = []
  added ((k, v) ∷ adds) =
      let rest = added adds in
      if str_eq k name then converted http system now_ms session ctx v ∷ rest else rest

  values-set_all :
      (sets : List HttpHeader) (headers : List (Str × Str))
      → values name (set_all http system now_ms session ctx sets headers)
        ≡ last_or (values name headers) sets
  values-set_all [] headers = refl
  values-set_all ((k, v) ∷ sets) headers =
      let value = converted http system now_ms session ctx v in
      values-set_all sets (insert_header k value headers)
      ∙ ap (λ before. last_or before sets) (values-insert_header name k value headers)

  values-append_all :
      (adds : List HttpHeader) (headers : List (Str × Str))
      → values name (append_all http system now_ms session ctx adds headers)
        ≡ values name headers ++ added adds
  unfolding append_header
  values-append_all [] headers = sym (append-nil (values name headers))
  values-append_all ((k, v) ∷ adds) headers =
      let value = converted http system now_ms session ctx v in
      values-append_all adds (append_header k value headers)
      ∙ ap (λ t. t ++ added adds) (values-append name headers ((k, value) ∷ []))
      ∙ append_assoc (values name headers) (values name ((k, value) ∷ [])) (added adds)
      ∙ ap (λ t. values name headers ++ t) (ground arith)

  -- In the request to the upstream, a name has the last of the values that its location sets for it,
  -- or, where the location sets none, the values that the client sent, and behind them all values
  -- that the location adds, in order. Values that stand for others are replaced by them.
  pub values-set_append_proxy_headers :
      (rx : RegexLib) (locations : Map (Location rx)) (location : Location rx)
      (header : RequestHeader)
      → get_location rx ctx.location locations ≡ some location
      → values name
          (set_append_proxy_headers http system now_ms session ctx rx locations header).headers
        ≡ last_or (values name header.headers) (sets_of rx location) ++ added (adds_of rx location)
  unfolding set_append_proxy_headers
  values-set_append_proxy_headers rx locations location header found =
      let sets = sets_of rx location in
      let adds = adds_of rx location in
      rw (set_append_proxy_headers, found)
        (values-append_all adds (set_all http system now_ms session ctx sets header.headers)
          ∙ ap (λ t. t ++ added adds) (values-set_all sets header.headers))
