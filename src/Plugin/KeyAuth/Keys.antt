-- ===== src/Plugin/KeyAuth/Keys.antt =====
-- Whom the plugin key_auth lets through, and what it hides: pingap-plugin/src/key_auth.rs.
use pingap.Common.{
  ℕ, ◌≡◌, ◌≢◌, ◌↔◌, ◌⊎◌, inl, inr, refl, sym, ap, subst, ◌∙◌, Bool, true, none, some, List, [], ◌∷◌,
  arith,
}
use pingap.Common.Tests.{Bool-cases}
use pingap.Common.Text.{Str, str_eq_refl, is_empty, includes, unwrap_or_default}
use pingap.Common.Map.{get, remove, get-remove}
use pingap.Common.Members.{includes_iff}
use pingap.Common.Results.{ok, err≢ok, Result-cases}
use pingap.Core.Ctx.{Ctx}
use pingap.Core.Plugin.{request, Session, HttpResponse, answered≢passed}
use pingap.External.{HttpLib}
use pingap.Http.Query.Removal.{IsUriParser, get_query_value-remove_query_from_header}
use pingap.Plugin.KeyAuth.{KeyAuth, with_keys, key_auth, new, key_of, hide, handle_request}
use mathlib.Core.List.{Memᴰ}

with_keys-ok : (keys : List Str) {key self : KeyAuth} → with_keys keys key ≡ ok self → self ≡ key
with_keys-ok [] h = absurd (err≢ok h)
with_keys-ok (x ∷ keys) h = cc

List-cases : (k : Str) → (k ≡ []) ⊎ ((c : ℕ) × (rest : Str) × (k ≡ c ∷ rest))
List-cases [] = inl refl
List-cases (c ∷ rest) = inr (c, rest, refl)

abbrev hidden : HttpLib → KeyAuth → Session → Session
hidden http key session = record session { req_header = hide http key session.req_header }

module _ (http : HttpLib) (query header : Str) (keys : List Str) (hides : Bool) (self : KeyAuth)
    (built : new http query header keys hides ≡ ok self) where
  abbrev by_query : KeyAuth
  by_query = key_auth none (some query) keys hides

  abbrev by_header : Str → KeyAuth
  by_header name = key_auth (some name) none keys hides

  new-shape : (self ≡ by_query) ⊎ ((name : Str) × (self ≡ by_header name))
  unfolding new
  new-shape = elim (Bool-cases (is_empty query)) [
    | inr named ↦ inl (with_keys-ok keys (rw named at built))
    | inl unnamed ↦ elim (Bool-cases (is_empty header)) [
      | inl nothing ↦ absurd (err≢ok (rw (unnamed, nothing) at built))
      | inr named ↦ elim (Result-cases (http.header_name header)) [
        | inr (e, failed) ↦ absurd (err≢ok (rw (unnamed, named, failed) at built))
        | inl (name, valid) ↦ inr (name, with_keys-ok keys (rw (unnamed, named, valid) at built))
      ]
    ]
  ]

  new-fields : (self.keys ≡ keys) × (self.plugin_step ≡ request) × (self.hide_credentials ≡ hides)
  new-fields = elim new-shape [
    | inl e ↦ (ap (λ k. k.keys) e, ap (λ k. k.plugin_step) e, ap (λ k. k.hide_credentials) e)
    | inr (_, e) ↦ (ap (λ k. k.keys) e, ap (λ k. k.plugin_step) e, ap (λ k. k.hide_credentials) e)
  ]

  key_of-hidden :
      (session : Session)
      → IsUriParser http session.req_header.uri
      → key_of self (hidden http self session) ≡ []
  unfolding key_of hide
  key_of-hidden session laws = elim new-shape [
    | inl e ↦
        let (_, gone, _) =
          get_query_value-remove_query_from_header http session.req_header query query laws in
        subst (λ k. key_of k (hidden http k session) ≡ []) (sym e) (ap unwrap_or_default gone)
    | inr (name, e) ↦
        let gone : get name (remove name session.req_header.headers) ≡ none =
          rw (get-remove name name session.req_header.headers, str_eq_refl name) refl in
        subst (λ k. key_of k (hidden http k session) ≡ []) (sym e) (ap unwrap_or_default gone)
  ]

  refusals : (self.miss_authorization_resp.status ≡ 401) × (self.unauthorized_resp.status ≡ 401)
  refusals = elim new-shape [
    | inl e ↦ (ap (λ k. k.miss_authorization_resp.status) e, ap (λ k. k.unauthorized_resp.status) e)
    | inr (_, e) ↦
        (ap (λ k. k.miss_authorization_resp.status) e, ap (λ k. k.unauthorized_resp.status) e)
  ]

  passes-key :
      (session : Session) (ctx : Ctx)
      → ((handle_request http self request session ctx).2 ≡ ok (true, none))
        ↔ ((key_of self session ≢ []) × Memᴰ (key_of self session) keys)
  unfolding handle_request new
  passes-key session ctx =
      let (as_keys, at_request, _) = new-fields in
      let member = includes_iff keys (key_of self session) in
      elim (List-cases (key_of self session)) [
        | inl nothing ↦
            let result : (handle_request http self request session ctx).2
                ≡ ok (true, some self.miss_authorization_resp) =
              rw (handle_request, nothing, at_request) refl in
            (λ h. absurd (answered≢passed result h), λ (there, _). absurd (there nothing))
        | inr (c, k, key) ↦ elim (Bool-cases (includes keys (c ∷ k))) [
          | inl known ↦
              let result : (handle_request http self request session ctx).2 ≡ ok (true, none) =
                elim (Bool-cases self.hide_credentials) [
                  | inl hidden ↦ rw (handle_request, key, as_keys, known, hidden, at_request) refl
                  | inr shown ↦ rw (handle_request, key, as_keys, known, shown, at_request) refl
                ] in
              (
                λ _. (
                  (λ e. absurd (ground (arith, e, key))),
                  member.0 (ap (includes keys) key ∙ known),
                ),
                λ _. result,
              )
          | inr unknown ↦
              let result : (handle_request http self request session ctx).2
                  ≡ ok (true, some self.unauthorized_resp) =
                rw (handle_request, key, as_keys, unknown, at_request) refl in
              (
                λ h. absurd (answered≢passed result h),
                λ (_, listed). absurd (ground (arith, member.1 listed, key, unknown)),
              )
        ]
      ]

  -- A plugin that was built from a configuration lets a request go on exactly when it brings a key
  -- that is not empty and that the configuration lists; a request without a key and one with
  -- another key get an answer with the status 401.
  pub handle_request-key :
      (session : Session) (ctx : Ctx)
      → (((handle_request http self request session ctx).2 ≡ ok (true, none))
          ↔ ((key_of self session ≢ []) × Memᴰ (key_of self session) keys))
        × (((handle_request http self request session ctx).2 ≡ ok (true, none))
            ⊎ ((resp : HttpResponse) × ((handle_request http self request session ctx).2
                  ≡ ok (true, some resp))
                × (resp.status ≡ 401)))
  unfolding handle_request
  handle_request-key session ctx =
      let (as_keys, at_request, _) = new-fields in
      let (missed, refused) = refusals in
      (
        passes-key session ctx,
        elim (Bool-cases (is_empty (key_of self session))) [
          | inl nothing ↦
              inr (
                self.miss_authorization_resp,
                rw (handle_request, nothing, at_request) refl,
                missed,
              )
          | inr brought ↦ elim (Bool-cases (includes self.keys (key_of self session))) [
            | inl known ↦ inl (
                (passes-key session ctx).1 (
                  (λ nothing. absurd (ground (arith, nothing, brought))),
                  (includes_iff keys (key_of self session)).0
                      (ap (λ k. includes k (key_of self session)) (sym as_keys) ∙ known),
                ))
            | inr unknown ↦ inr (
              self.unauthorized_resp,
              rw (handle_request, brought, unknown, at_request) refl,
              refused,
            )
          ]
        ],
      )

  -- With hide_credentials, the request that goes on does not bring the key any more, whether it was
  -- in the query or in a header. The parser of URIs reads a path back, with and without a query.
  pub handle_request-hidden :
      (session : Session) (ctx : Ctx)
      → IsUriParser http session.req_header.uri
      → hides ≡ true
      → (handle_request http self request session ctx).2 ≡ ok (true, none)
      → key_of self (handle_request http self request session ctx).0 ≡ []
  unfolding handle_request
  handle_request-hidden session ctx laws hiding passed =
      let (as_keys, at_request, as_hides) = new-fields in
      let (there, member) = (passes-key session ctx).0 passed in
      let listed = (includes_iff keys (key_of self session)).1 member in
      elim (List-cases (key_of self session)) [
        | inl nothing ↦ absurd (there nothing)
        | inr (c, k, key) ↦
            let known = rw key at listed in
            let hiding = as_hides ∙ hiding in
            let moved : (handle_request http self request session ctx).0
                ≡ hidden http self session =
              rw (handle_request, key, as_keys, known, hiding, at_request) refl in
            ap (key_of self) moved ∙ key_of-hidden session laws
      ]
