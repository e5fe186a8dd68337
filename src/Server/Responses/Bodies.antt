-- ===== src/Server/Responses/Bodies.antt =====
-- The bodies of responses that a handler rewrites as a whole: src/proxy/server.rs.
use pingap.Common.{ℕ, ◌≡◌, refl, ap, ◌∙◌, true, false, Option, none, some, List, [], ◌∷◌, ◌++◌}
use pingap.Common.Text.{Str, unwrap_or_default}
use pingap.Core.Ctx.{Ctx}
use pingap.Server.Responses.{buffered, upstream_response_body_filter, response_body_filter}
use mathlib.Core.List.{append_assoc, append-nil}

-- The parts of a body through both filters, the last part at the end of the stream: what the client
-- is sent for each.
abbrev pub through : ℕ → Ctx → List Str → Str → List (Option Str)
through now_ms ctx [] last =
    let (body, ctx') = upstream_response_body_filter now_ms (some last) true ctx in
    (response_body_filter body true ctx').0 ∷ []
through now_ms ctx (part ∷ parts) last =
    let (body, ctx') = upstream_response_body_filter now_ms (some part) false ctx in
    let (body', ctx'') = response_body_filter body false ctx' in
    body' ∷ through now_ms ctx'' parts last

-- The text of what was sent.
abbrev pub sent : List (Option Str) → Str
sent [] = []
sent (none ∷ parts) = sent parts
sent (some part ∷ parts) = part ++ sent parts

abbrev pub joined : List Str → Str → Str
joined [] last = last
joined (part ∷ parts) last = part ++ joined parts last

-- A handler, where there is one.
abbrev pub applied : Option (Str → Str) → Str → Str
applied none body = body
applied (some modify) body = modify body

buffered-append :
    (before : Option Str) (part : Str)
    → buffered before (some part) ≡ unwrap_or_default before ++ part
buffered-append none part = refl
buffered-append (some buf) part = refl

-- One more part in the buffer.
grow :
    (before : Option Str) (part rest : Str)
    → buffered before (some part) ++ rest ≡ unwrap_or_default before ++ (part ++ rest)
grow before part rest =
    ap (λ t. t ++ rest) (buffered-append before part)
    ∙ append_assoc (unwrap_or_default before) part rest

-- A context with given handlers and a given buffer.
abbrev with_handlers : Ctx → Option (Str → Str) → Option (Str → Str) → Option Str → Ctx
with_handlers ctx up down buf = record ctx {
  modify_upstream_response_body = up;
  modify_response_body = down;
  response_body = buf;
}

-- What is sent in the end, of what is in the buffer and what follows.
abbrev outcome : Option (Str → Str) → Option (Str → Str) → Option Str → Str → Str
outcome none none buf rest = rest
outcome (some up) none buf rest = up (unwrap_or_default buf ++ rest)
outcome none (some down) buf rest = down (unwrap_or_default buf ++ rest)
outcome (some up) (some down) buf rest = down (up (unwrap_or_default buf ++ rest))

module _ (now_ms : ℕ) (last : Str) where
  sent_at :
      (up down : Option (Str → Str)) (parts : List Str) (ctx : Ctx) (buf : Option Str)
      → sent (through now_ms (with_handlers ctx up down buf) parts last)
        ≡ outcome up down buf (joined parts last)
  unfolding upstream_response_body_filter response_body_filter
  sent_at none none [] ctx buf = append-nil last
  sent_at none none (part ∷ parts) ctx buf = ap (λ t. part ++ t) (sent_at none none parts ctx buf)
  sent_at (some up) none [] ctx buf =
      append-nil (up (buffered buf (some last))) ∙ ap up (buffered-append buf last)
  sent_at (some up) none (part ∷ parts) ctx buf =
      sent_at (some up) none parts ctx (some (buffered buf (some part)))
      ∙ ap up (grow buf part (joined parts last))
  sent_at none (some down) [] ctx buf =
      append-nil (down (buffered buf (some last))) ∙ ap down (buffered-append buf last)
  sent_at none (some down) (part ∷ parts) ctx buf =
      sent_at none (some down) parts ctx (some (buffered buf (some part)))
      ∙ ap down (grow buf part (joined parts last))
  sent_at (some up) (some down) [] ctx buf =
      append-nil (down (up (buffered buf (some last))))
      ∙ ap (λ t. down (up t)) (buffered-append buf last)
  sent_at (some up) (some down) (part ∷ parts) ctx buf =
      sent_at (some up) (some down) parts ctx (some (buffered buf (some part) ++ []))
      ∙ ap (λ t. down (up (t ++ joined parts last))) (append-nil (buffered buf (some part)))
      ∙ ap (λ t. down (up t)) (grow buf part (joined parts last))

outcome_of_empty :
    (up down : Option (Str → Str)) (rest : Str)
    → outcome up down none rest ≡ applied down (applied up rest)
outcome_of_empty none none rest = refl
outcome_of_empty (some up) none rest = refl
outcome_of_empty none (some down) rest = refl
outcome_of_empty (some up) (some down) rest = refl

-- However a body is divided into parts, the client gets what the two handlers make of the whole of
-- it, first the one of the upstream's body and then the one of the response's.
pub sent-through :
    (now_ms : ℕ) (ctx : Ctx) (parts : List Str) (last : Str)
    → ctx.response_body ≡ none
    → sent (through now_ms ctx parts last)
      ≡ applied ctx.modify_response_body
          (applied ctx.modify_upstream_response_body (joined parts last))
sent-through now_ms ctx parts last empty =
    let up = ctx.modify_upstream_response_body in
    let down = ctx.modify_response_body in
    ap (λ buf. sent (through now_ms (with_handlers ctx up down buf) parts last)) empty
    ∙ sent_at now_ms last up down parts ctx none
    ∙ outcome_of_empty up down (joined parts last)
