-- ===== src/Plugin/Csrf/Guard.antt =====
-- Which requests the plugin csrf lets through: pingap-plugin/src/csrf.rs.
use pingap.Common.{
  ℕ, ◌≤◌, ◌≡◌, ◌≢◌, refl, sym, ap, subst, ◌⊎◌, inl, inr, Bool, true, false, ◌&&◌, none, some, List,
  [], ◌∷◌, ◌++◌, arith,
}
use pingap.Common.Tests.{ltb, Bool-cases, if◌then◌else◌}
use pingap.Common.Text.{
  Str, str, str_eq, str_eq_iff, is_empty, includes, split, join, unwrap_or_default,
}
use pingap.Common.Splits.{join-split}
use pingap.Common.Words.{sub64}
use pingap.Common.Results.{ok, Result-cases, err≢ok}
use pingap.Core.Ctx.{Ctx}
use pingap.Core.Plugin.{request, Session, answered≢passed}
use pingap.External.{HttpLib}
use pingap.Http.Header.{get_cookie_value}
use pingap.Plugin.Csrf.{
  TokenLib, Csrf, signature, time_of, is_valid, validate_token, get_header_bytes, safe_methods,
  set_cookie, generate_token, handle_request,
}

-- A token with a signature for a key, no older than the time to live unless that is zero.
pub record IsSigned (lib : TokenLib) (key : Str) (ttl now : ℕ) (value : Str) : Type 0 where
  pub id : Str
  pub time : Str
  pub text : value ≡ id ++ (b'.' ∷ (time ++ (b'.' ∷ signature lib key (id ++ (b'.' ∷ time)))))
  pub age : (ttl ≡ 0) ⊎ (sub64 now (time_of time) ≤ ttl)

is_valid-IsSigned :
    (lib : TokenLib) (key : Str) (ttl now : ℕ) (parts : List Str)
    → is_valid lib key ttl now parts ≡ true
    → IsSigned lib key ttl now (join (str ".") parts)
unfolding join
is_valid-IsSigned lib key ttl now [] h = absurd (ground arith)
is_valid-IsSigned lib key ttl now (id ∷ []) h = absurd (ground arith)
is_valid-IsSigned lib key ttl now (id ∷ time ∷ []) h = absurd (ground arith)
is_valid-IsSigned lib key ttl now (id ∷ time ∷ signed ∷ next ∷ parts) h = absurd (ground arith)
is_valid-IsSigned lib key ttl now (id ∷ time ∷ signed ∷ []) h =
    elim (Bool-cases (ltb 0 ttl && ltb ttl (sub64 now (time_of time)))) [
      | inl old ↦ absurd (ground (arith, old))
      | inr young ↦
          let same =
            (str_eq_iff signed (signature lib key (id ++ (b'.' ∷ time)))).0
              (rw (is_valid, young) at h) in
          record {
            id = id;
            time = time;
            text = ap (λ s. id ++ (b'.' ∷ (time ++ (b'.' ∷ s)))) same;
            age = ground (arith, young);
          }
    ]

pub validate_token-IsSigned :
    (lib : TokenLib) (key : Str) (ttl now : ℕ) (value : Str)
    → validate_token lib key ttl now value ≡ true
    → IsSigned lib key ttl now value
unfolding validate_token
validate_token-IsSigned lib key ttl now value h =
    subst (IsSigned lib key ttl now) (join-split b'.' value)
      (is_valid-IsSigned lib key ttl now (split b'.' value) h)

set_cookie-answers :
    (lib : TokenLib) (http : HttpLib) (self : Csrf) (token : Str)
    → (executed : Bool) → set_cookie lib http self token ≢ ok (executed, none)
set_cookie-answers lib http self token executed passed =
    elim (Result-cases (
      http.header_value
        (lib.build self.name token (str "/") (if ltb 0 self.ttl then some self.ttl else none)))) [
          | inl (cookie, valid) ↦ answered≢passed refl (rw (set_cookie, valid) at passed)
          | inr (e, invalid) ↦ err≢ok (rw (set_cookie, invalid) at passed)
        ]

-- A request with another method than GET, HEAD and OPTIONS that the plugin, at its step, neither
-- answers nor refuses, whether or not it says that it was executed, has a token
-- in the header of the configured name, and the same token in the cookie of that name; the token is
-- signed with the configured key and no older than the time to live.
pub handle_request-IsSigned :
    (lib : TokenLib) (http : HttpLib) (id : Str) (now : ℕ) (self : Csrf) (session : Session)
    (ctx : Ctx)
    → self.plugin_step ≡ request
    → includes safe_methods session.req_header.method ≡ false
    → (executed : Bool)
    → (handle_request lib http id now self request session ctx).2 ≡ ok (executed, none)
    → let value = get_header_bytes http session.req_header self.name in
      (value ≢ [])
      × (unwrap_or_default (get_cookie_value http session.req_header self.name) ≡ value)
      × IsSigned lib self.key self.ttl now value
unfolding handle_request
handle_request-IsSigned lib http id now self session ctx at_request unsafe executed passed =
    let value = get_header_bytes http session.req_header self.name in
    let cookie = unwrap_or_default (get_cookie_value http session.req_header self.name) in
    elim (Bool-cases (str_eq session.req_header.uri.path self.token_path)) [
      | inl asks ↦ absurd (
          set_cookie-answers lib http self (generate_token lib id now self.key) executed
            (rw (handle_request, asks, at_request) at passed))
      | inr other ↦ elim (Bool-cases (is_empty value)) [
        | inl nothing ↦ absurd (
            answered≢passed refl
              (rw (handle_request, other, unsafe, nothing, at_request) at passed))
        | inr brought ↦ elim (Bool-cases (str_eq value cookie)) [
          | inr differs ↦ absurd (
              answered≢passed refl
                (rw (handle_request, other, unsafe, brought, differs, at_request) at passed))
          | inl same ↦ elim (Bool-cases (validate_token lib self.key self.ttl now value)) [
            | inr invalid ↦ absurd (
                answered≢passed refl (
                  rw (handle_request, other, unsafe, brought, same, invalid, at_request) at passed))
            | inl valid ↦ (
              (λ nothing. absurd (ground (arith, nothing, brought))),
              sym ((str_eq_iff value cookie).0 same),
              validate_token-IsSigned lib self.key self.ttl now value valid,
            )
          ]
        ]
      ]
    ]
