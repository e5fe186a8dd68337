-- ===== src/Server/Filters/Admission.antt =====
-- Which requests go on to an upstream, and how much of a body does: src/proxy/server.rs.
use pingap.Common.{
  ℕ, ◌+◌, ◌%◌, ◌^◌, ◌<◌, ◌≤◌, ◌≡◌, ◌↔◌, ◌⊎◌, inl, inr, refl, ap, ◌∙◌, ◌||◌, true, false, none, some,
  List, [], ◌∷◌, arith,
}
use pingap.Common.Tests.{leb, ◌==◌, Bool-cases, Option-cases}
use pingap.Common.Map.{Map}
use pingap.Common.Results.{Result, ok, err, err≢ok}
use pingap.Core.Ctx.{Ctx}
use pingap.Core.Plugin.{new_internal_error, Failure, Session}
use pingap.External.{RegexLib}
use pingap.Location.Selector.{body_too_large}
use pingap.Location.Registry.{get_location}
use pingap.Location.Route.{Location, client_body_size_limit}
use pingap.Server.Early.{Env}
use pingap.Server.Filters.{
  count_body, limited, sent, route_request, request_filter, request_body_filter,
}

module _ (rx : RegexLib) (env : Env) (locations : Map (Location rx)) where
  abbrev pub go_on :
      (Ctx → Ctx × Result Failure (Unit {0}))
      → Ctx × Result Failure (Unit {0})
      → Ctx × Result Failure (Unit {0})
  go_on next (ctx, err e) = (ctx, err e)
  go_on next (ctx, ok _) = next ctx

  -- The parts of a body, one after the other, until one is refused.
  abbrev pub receive : List ℕ → Ctx → Ctx × Result Failure (Unit {0})
  receive [] ctx = (ctx, ok tt)
  receive (size ∷ sizes) ctx =
      go_on (receive sizes) (request_body_filter rx env locations (some size) ctx)

  abbrev pub total : List ℕ → ℕ
  total [] = 0
  total (size ∷ sizes) = size + total sizes

  request_body_filter_of_fits :
      (size : ℕ) (ctx : Ctx) (l : Location rx)
      → get_location rx ctx.location locations ≡ some l
      → ctx.payload_size + size < 2 ^ 64
      → (l.client_max_body_size == 0 || leb (ctx.payload_size + size) l.client_max_body_size) ≡ true
      → request_body_filter rx env locations (some size) ctx
        ≡ (record ctx { payload_size = ctx.payload_size + size }, ok tt)
  unfolding request_body_filter client_body_size_limit
  request_body_filter_of_fits size ctx l known h fits =
      let sum : (ctx.payload_size + size) % 2 ^ 64 ≡ ctx.payload_size + size = omega arith in
      let passes : client_body_size_limit rx l (ctx.payload_size + size) ≡ ok tt = ground arith in
      ap (λ n. count_body rx env locations (record ctx { payload_size = n })) sum
      ∙ rw (count_body, known, limited, passes) refl

  request_body_filter_of_over :
      (size : ℕ) (ctx : Ctx) (l : Location rx)
      → get_location rx ctx.location locations ≡ some l
      → ctx.payload_size + size < 2 ^ 64
      → (l.client_max_body_size == 0 || leb (ctx.payload_size + size) l.client_max_body_size)
        ≡ false
      → request_body_filter rx env locations (some size) ctx ≡ (
        record ctx { payload_size = ctx.payload_size + size },
        err (new_internal_error 413 (env.show (body_too_large l.client_max_body_size))),
      )
  unfolding request_body_filter client_body_size_limit
  request_body_filter_of_over size ctx l known h over =
      let sum : (ctx.payload_size + size) % 2 ^ 64 ≡ ctx.payload_size + size = omega arith in
      let refused : client_body_size_limit rx l (ctx.payload_size + size)
          ≡ err (body_too_large l.client_max_body_size) =
        ground arith in
      ap (λ n. count_body rx env locations (record ctx { payload_size = n })) sum
      ∙ rw (count_body, known, limited, refused) refl

  -- A body passes, in whatever parts it comes, exactly when its location sets no limit or the sum of
  -- the parts is within it. The parts received so far are.
  pub receive-total :
      (sizes : List ℕ) (ctx : Ctx) (l : Location rx)
      → get_location rx ctx.location locations ≡ some l
      → ctx.payload_size + total sizes < 2 ^ 64
      → (l.client_max_body_size ≡ 0) ⊎ (ctx.payload_size ≤ l.client_max_body_size)
      → ((receive sizes ctx).1 ≡ ok tt)
        ↔ ((l.client_max_body_size ≡ 0) ⊎ (ctx.payload_size + total sizes ≤ l.client_max_body_size))
  receive-total [] ctx l known h so_far = ground arith
  receive-total (size ∷ sizes) ctx l known h so_far =
      elim (Bool-cases
        (l.client_max_body_size == 0 || leb (ctx.payload_size + size) l.client_max_body_size)) [
          | inl fits ↦
              let counted = record ctx { payload_size = ctx.payload_size + size } in
              let rest = receive-total sizes counted l known (omega arith) (ground arith) in
              rw
                (ap (go_on (receive sizes))
                  (request_body_filter_of_fits size ctx l known (omega arith) fits))
                (ground (arith, rest))
          | inr over ↦
              rw
                (ap (go_on (receive sizes))
                  (request_body_filter_of_over size ctx l known (omega arith) over))
                (ground arith)
        ]

  sent-done :
      (ctx : Ctx) (out : Session × Result Failure (Unit {0}))
      → (sent rx env ctx out).2 ≡ ok false
      → ⊥
  sent-done ctx (session, ok _) e = absurd (ground arith)
  sent-done ctx (session, err failure) e = err≢ok e

  -- Without a handler in front, a request goes on to an upstream only with a location: one without
  -- is answered.
  pub request_filter-located :
      (session : Session) (ctx : Ctx)
      → (request_filter rx env
          (record { admin = none; lets_encrypt = none })
          locations
          session
          ctx).2
        ≡ ok false
      → (l : Location rx) × (get_location rx ctx.location locations ≡ some l)
  unfolding request_filter route_request
  request_filter-located session ctx e =
      elim (Option-cases (get_location rx ctx.location locations)) [
        | inl missing ↦ absurd (sent-done ctx _ (rw (missing, route_request) at e))
        | inr (l, known) ↦ (l, known)
      ]
