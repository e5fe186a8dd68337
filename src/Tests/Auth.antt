-- ===== src/Tests/Auth.antt =====
-- The plugins csrf and basic_auth on concrete requests: pingap-plugin/src.
use pingap.Common.{
  ℕ, ◌≡◌, ◌≢◌, ◌↔◌, refl, inr, true, false, none, some, List, [], ◌∷◌, ◌++◌, map, arith,
}
use pingap.Common.Text.{
  Str, str, str_eq, starts_with, ends_with, includes, split, split_once, trim, unwrap_or_default,
}
use pingap.Common.Map.{get, remove}
use pingap.Common.Splits.{IsFree}
use pingap.Common.Digits.{show, from_str_radix}
use pingap.Common.Results.{Result, ok, err}
use pingap.Core.Ctx.{new_ctx}
use pingap.Core.Plugin.{Session, request, default_response}
use pingap.Http.Header.{find_pair, get_req_header_value, get_cookie_value}
use pingap.Plugin.Csrf.{TokenLib, Csrf, generate_token, validate_token, get_header_bytes}
use pingap.Plugin.Csrf
use pingap.Plugin.Csrf.Guard.{IsSigned, handle_request-IsSigned}
use pingap.Plugin.Csrf.Tokens.{validate_token-generate_token}
use pingap.Plugin.BasicAuth.{authorizations_of, unauthorized}
use pingap.Plugin.BasicAuth
use pingap.Plugin.BasicAuth.Listed.{basic, IsDecided, handle_request-basic}
use pingap.Plugin.RefererRestriction.{read_list, has_host}
use pingap.Plugin.RefererRestriction
use pingap.Tests.Fixtures.{plain_http, ask}
use mathlib.Core.List.{Memᴰ}

code : Unit {0}
unfolding str_eq ends_with starts_with includes split split_once trim get remove show from_str_radix
    find_pair get_req_header_value get_cookie_value generate_token validate_token Csrf.new
    Csrf.handle_request authorizations_of BasicAuth.new BasicAuth.handle_request read_list has_host
    RefererRestriction.new RefererRestriction.handle_request
code = tt

-- The digest of a text is its length, in the letters of its text.
abbrev sizes : TokenLib
sizes = record {
  sha256 = λ s. map (λ c. 1) s;
  base64_encode = λ bytes. map (λ b. b'A') bytes;
  build = λ name value path age. name ++ (b'=' ∷ value);
}

letters : (bytes : List ℕ) → IsFree b'.' (sizes.base64_encode bytes)
letters [] = tt
letters (b ∷ bytes) = (refl, letters bytes)

validate_token-generate_token_example :
    validate_token sizes (str "key") 60 1050 (generate_token sizes (str "ab") 1000 (str "key"))
    ≡ true
validate_token-generate_token_example =
    validate_token-generate_token sizes (str "ab") (str "key") 60 1000 1050 (refl, (refl, tt))
      letters (omega arith) (omega arith) (inr (omega arith))

token_tests :
    (generate_token sizes (str "ab") 1000 (str "key") ≡ str "ab.3e8.AAAAAAAAA")
    × (validate_token sizes (str "key") 60 1061 (str "ab.3e8.AAAAAAAAA") ≡ false)
    × (validate_token sizes (str "ke") 60 1060 (str "ab.3e8.AAAAAAAAA") ≡ false)
    × (validate_token sizes (str "key") 60 999 (str "ab.3e8.AAAAAAAAA") ≡ false)
unfolding code
token_tests = (refl, refl, refl, refl)

abbrev csrf : Csrf.Csrf
csrf = record {
  plugin_step = request;
  token_path = str "/token";
  key = str "key";
  name = str "x-csrf-token";
  ttl = 60;
  unauthorized_resp = record default_response { status = 401 };
}

abbrev token : Str
token = str "ab.3e8.AAAAAAAAA"

abbrev post : Session
post =
    let asked =
      ask (str "/api")
        ((str "x-csrf-token", token) ∷ (str "Cookie", str "x-csrf-token=" ++ token) ∷ []) in
    record asked { req_header = record (asked.req_header) { method = str "POST" } }

handle_request-IsSigned_example :
    (token ≢ [])
    × (unwrap_or_default (get_cookie_value plain_http post.req_header (str "x-csrf-token")) ≡ token)
    × IsSigned sizes (str "key") 60 1050 token
unfolding code
handle_request-IsSigned_example =
    handle_request-IsSigned sizes plain_http (str "cd") 1050 csrf post new_ctx refl refl true refl

csrf_tests :
    ((Csrf.handle_request sizes plain_http (str "cd") 1061 csrf request post new_ctx).2
      ≡ ok (true, some csrf.unauthorized_resp))
    × (Csrf.new [] [] (str "key") 0 ≡ err (str "Token path is not allowed empty"))
unfolding code
csrf_tests = (refl, refl)

abbrev decode : Str → Result Str (List ℕ)
decode s = ok s

abbrev items : List Str
items = str "YTpi" ∷ str "Yzpk" ∷ []

abbrev basic_auth : BasicAuth.BasicAuth
basic_auth = record {
  plugin_step = request;
  authorizations = map basic items;
  hide_credentials = true;
  miss_authorization_resp = unauthorized (str "Authorization is missing");
  unauthorized_resp = unauthorized (str "Invalid user or password");
}

abbrev login : Session
login = ask (str "/") ((str "authorization", str "Basic Yzpk") ∷ [])

handle_request-basic_example :
    (((BasicAuth.handle_request basic_auth request login new_ctx).2 ≡ ok (true, none))
      ↔ Memᴰ (str "Basic Yzpk") (map basic items))
    × IsDecided (BasicAuth.handle_request basic_auth request login new_ctx).2
unfolding code
handle_request-basic_example = handle_request-basic decode items true basic_auth login new_ctx refl

basic_auth_tests :
    ((BasicAuth.handle_request basic_auth request login new_ctx).2 ≡ ok (true, none))
    × ((BasicAuth.handle_request basic_auth request login new_ctx).0 ≡ ask (str "/") [])
unfolding code
basic_auth_tests = (refl, refl)

-- A referer whose host ends as a pattern says is denied, one without a host is not.
referer_tests :
    (has_host
        (RefererRestriction.new (str "*.a.com" ∷ str "b.com" ∷ []) (str "deny") [])
        (str "x.a.com")
      ≡ true)
    × (has_host (RefererRestriction.new (str "*.a.com" ∷ str "b.com" ∷ []) (str "deny") []) []
        ≡ false)
unfolding code
referer_tests = (refl, refl)
