-- ===== src/Plugin/BasicAuth/Listed.antt =====
-- Whom the plugin basic_auth lets through: pingap-plugin/src/basic_auth.rs.
use pingap.Common.{
  ℕ, ◌≡◌, ◌↔◌, refl, sym, ap, ◌∙◌, ◌⊎◌, inl, inr, Bool, true, false, Option, none, some, List, [],
  ◌∷◌, ◌++◌, map, arith,
}
use pingap.Common.Tests.{Bool-cases}
use pingap.Common.Text.{Str, str, is_empty, includes, unwrap_or_default}
use pingap.Common.Map.{get}
use pingap.Common.Members.{includes_iff}
use pingap.Common.Results.{Result, ok, err≢ok, ok_inj, Result-cases}
use pingap.Core.Ctx.{Ctx}
use pingap.Core.Plugin.{request, Session, HttpResponse, Failure, answered≢passed}
use pingap.Plugin.BasicAuth.{BasicAuth, authorizations_of, with_authorizations, new, handle_request}
use mathlib.Core.List.{Memᴰ}
use mathlib.Core.List.Memᴰ

-- What a request sends for an item.
abbrev pub basic : Str → Str
basic item = str "Basic " ++ item

authorizations_of-map :
    (decode : Str → Result Str (List ℕ)) (items found : List Str)
    → authorizations_of decode items ≡ ok found
    → found ≡ map basic items
unfolding authorizations_of
authorizations_of-map decode [] found h = cc
authorizations_of-map decode (item ∷ items) found h = elim (Result-cases (decode item)) [
  | inr (e, failed) ↦ absurd (err≢ok (rw (authorizations_of, failed) at h))
  | inl (bytes, decoded) ↦ elim (Result-cases (authorizations_of decode items)) [
    | inr (e, failed) ↦ absurd (err≢ok (rw (authorizations_of, decoded, failed) at h))
    | inl (rest, others) ↦
        let same = authorizations_of-map decode items rest others in
        let all : found ≡ basic item ∷ rest =
          sym (ok_inj (rw (authorizations_of, decoded, others) at h)) in
        all ∙ ap (λ t. basic item ∷ t) same
  ]
]

with_authorizations-fields :
    (hide : Bool) (items : List Str) (self : BasicAuth)
    → with_authorizations hide items ≡ ok self
    → (self.authorizations ≡ items) × (self.plugin_step ≡ request)
with_authorizations-fields hide [] self h = absurd (err≢ok h)
with_authorizations-fields hide (item ∷ items) self h =
    (sym (ap (λ r. r.authorizations) (ok_inj h)), sym (ap (λ r. r.plugin_step) (ok_inj h)))

new-fields :
    (decode : Str → Result Str (List ℕ)) (items : List Str) (hide : Bool) (self : BasicAuth)
    → new decode items hide ≡ ok self
    → (self.authorizations ≡ map basic items) × (self.plugin_step ≡ request)
unfolding new
new-fields decode items hide self built = elim (Result-cases (authorizations_of decode items)) [
  | inr (e, failed) ↦ absurd (err≢ok (rw (new, failed) at built))
  | inl (found, read) ↦
      let (listed, at_request) =
        with_authorizations-fields hide found self (rw (new, read) at built) in
      (listed ∙ authorizations_of-map decode items found read, at_request)
]

basic-nonempty :
    (items : List Str) (value : Str) → Memᴰ value (map basic items) → is_empty value ≡ false
basic-nonempty items value m =
    let (item, there, same) = Memᴰ.of_map basic items m in rw (← same) refl

refusals :
    (decode : Str → Result Str (List ℕ)) (items : List Str) (hide : Bool) (self : BasicAuth)
    → new decode items hide ≡ ok self
    → (self.miss_authorization_resp.status ≡ 401) × (self.unauthorized_resp.status ≡ 401)
unfolding new
refusals decode items hide self built = elim (Result-cases (authorizations_of decode items)) [
  | inr (e, failed) ↦ absurd (err≢ok (rw (new, failed) at built))
  | inl ([], read) ↦ absurd (err≢ok (rw (new, read) at built))
  | inl (item ∷ found, read) ↦
      let made = ok_inj (rw (new, read) at built) in
      (
        sym (ap (λ r. r.miss_authorization_resp.status) made),
        sym (ap (λ r. r.unauthorized_resp.status) made),
      )
]

-- A request goes on, or gets an answer with the status 401.
abbrev pub IsDecided : Result Failure (Bool × Option HttpResponse) → Type 0
IsDecided result =
    (result ≡ ok (true, none))
    ⊎ ((resp : HttpResponse) × (result ≡ ok (true, some resp)) × (resp.status ≡ 401))

-- A plugin that was built from a configuration lets a request go on exactly when its header
-- authorization is the word Basic, a space and one of the configured items; all others get an
-- answer with the status 401.
pub handle_request-basic :
    (decode : Str → Result Str (List ℕ)) (items : List Str) (hide : Bool) (self : BasicAuth)
    (session : Session) (ctx : Ctx)
    → new decode items hide ≡ ok self
    → (((handle_request self request session ctx).2 ≡ ok (true, none))
        ↔ Memᴰ
            (unwrap_or_default (get (str "authorization") session.req_header.headers))
            (map basic items))
      × IsDecided (handle_request self request session ctx).2
unfolding handle_request new
handle_request-basic decode items hide self session ctx built =
    let value = unwrap_or_default (get (str "authorization") session.req_header.headers) in
    let (listed, at_request) = new-fields decode items hide self built in
    let member = includes_iff (map basic items) value in
    let (missed, refused) = refusals decode items hide self built in
    elim (Bool-cases (is_empty value)) [
      | inl nothing ↦
          let result : (handle_request self request session ctx).2
              ≡ ok (true, some self.miss_authorization_resp) =
            rw (handle_request, nothing, at_request) refl in
          (
            (
              λ passed. absurd (answered≢passed result passed),
              λ m. absurd (ground (arith, nothing, basic-nonempty items value m)),
            ),
            inr (self.miss_authorization_resp, result, missed),
          )
      | inr brought ↦ elim (Bool-cases (includes (map basic items) value)) [
        | inl known ↦
            let result : (handle_request self request session ctx).2 ≡ ok (true, none) =
              elim (Bool-cases self.hide_credentials) [
                | inl hides ↦ rw (handle_request, brought, listed, known, hides, at_request) refl
                | inr shows ↦ rw (handle_request, brought, listed, known, shows, at_request) refl
              ] in
            ((λ _. member.0 known, λ _. result), inl result)
        | inr unknown ↦
            let result : (handle_request self request session ctx).2
                ≡ ok (true, some self.unauthorized_resp) =
              rw (handle_request, brought, listed, unknown, at_request) refl in
            (
              (
                λ passed. absurd (answered≢passed result passed),
                λ m. absurd (ground (arith, member.1 m, unknown)),
              ),
              inr (self.unauthorized_resp, result, refused),
            )
      ]
    ]
