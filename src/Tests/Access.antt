-- ===== src/Tests/Access.antt =====
-- The plugins combined_auth, redirect and accept_encoding on concrete requests:
-- pingap-plugin/src.
use pingap.Common.{◌+◌, ◌≤◌, ◌≡◌, ◌↔◌, refl, true, false, Option, none, some, List, [], ◌∷◌, arith}
use pingap.Common.Text.{
  Str, str, str_eq, str_len, starts_with, contains, includes, split, split_once, trim, join,
}
use pingap.Common.Map.{get, insert}
use pingap.Common.Map
use pingap.Common.Results.{ok, err}
use pingap.Core.Ctx.{Ctx, new_ctx}
use pingap.Core.Plugin.{Session, early_request, request}
use pingap.Http.Header.{
  find_pair, get_query_value, get_req_header_value, get_host, convert_header, convert_headers,
}
use pingap.Plugin.AcceptEncoding.{encodings_of, accepted}
use pingap.Plugin.AcceptEncoding
use pingap.Plugin.CombinedAuth.{
  DigestLib, CombinedAuth, Authorization, auths_of, parse_i64, deviates, validate_digest,
  validate_param, validate,
}
use pingap.Plugin.CombinedAuth
use pingap.Plugin.CombinedAuth.Window.{deviates-window}
use pingap.Plugin.IpRestriction.{is_match, new_rules}
use pingap.Plugin.Redirect
use pingap.Tests.Fixtures.{plain_http, ask}
use pingap.Tests.Plugins.{prefixes}

code : Unit {0}
unfolding str_eq str_len starts_with contains includes split split_once trim join get insert
    Map.remove find_pair get_query_value get_req_header_value get_host convert_header
    convert_headers encodings_of accepted AcceptEncoding.new AcceptEncoding.handle_request auths_of
    parse_i64 deviates validate_digest validate_param validate CombinedAuth.new
    CombinedAuth.handle_request is_match new_rules Redirect.new Redirect.handle_request
code = tt

-- The digest of a text is the text.
abbrev digest : DigestLib
digest = record { sha256_hex = λ s. s; to_lowercase = λ s. s; int_error = λ s. s }

abbrev items : List (Option (Authorization prefixes digest))
items =
    none
    ∷ some (record { app_id = str "app"; ip_list = []; secret = str "key"; deviation = 30 })
    ∷ []

abbrev auth : CombinedAuth prefixes digest
auth = record { plugin_step = request; auths = auths_of prefixes digest items [] }

abbrev asks : Str → Session
asks query =
    let session = ask (str "/") [] in
    record session {
      req_header = record (session.req_header) {
        uri = record (session.req_header.uri) { query = some query };
      };
    }

abbrev signed : Session
signed = asks (str "app_id=app&ts=1000&digest=key:1000")

deviates-window_example :
    (deviates 1020 1000 30 ≡ false) ↔ ((1020 ≤ 1000 + 30) × (1000 ≤ 1020 + 30))
deviates-window_example = deviates-window 1020 1000 30 (omega arith) (omega arith) (omega arith)

-- A late request is refused. A time that lies 2 ^ 63 seconds before now is taken: its distance does
-- not fit, and the least number is less than any deviation.
authorized_tests :
    (validate prefixes digest plain_http auth 1031 signed
      ≡ err (str "timestamp deviation is invalid"))
    × (validate prefixes digest plain_http auth 1020
          (asks (str "app_id=app&ts=-9223372036854774788&digest=key:-9223372036854774788"))
        ≡ ok tt)
    × (validate prefixes digest plain_http auth 1020 (asks (str "app_id=app&ts=1000&digest=key:1"))
        ≡ err (str "digest is invalid"))
unfolding code
authorized_tests = (refl, refl, refl)

abbrev secure : Ctx
secure = record new_ctx { tls_version = some (str "TLSv1.3") }

-- A prefix that the path has is added once more when only the scheme differs.
redirect_tests :
    (Redirect.location plain_http
        (Redirect.new (str "v1") true)
        (ask (str "/v1/users") ((str "host", str "a.com") ∷ []))
      ≡ str "Location: https://a.com/v1/v1/users")
    × ((Redirect.handle_request plain_http
          (Redirect.new (str "v1") true)
          request
          (ask (str "/v1/users") [])
          secure).2
        ≡ ok (false, none))
unfolding code
redirect_tests = (refl, refl)

abbrev encoded : Session
encoded = ask (str "/") ((str "accept-encoding", str "gzip, br") ∷ [])

accept_encoding_tests :
    ((AcceptEncoding.handle_request plain_http
        (AcceptEncoding.new (str "zstd, br, gzip") false)
        early_request
        encoded
        new_ctx).0.req_header.headers
      ≡ (str "accept-encoding", str "br, gzip") ∷ [])
    × ((AcceptEncoding.handle_request plain_http
          (AcceptEncoding.new (str "zstd, br, gzip") true)
          early_request
          encoded
          new_ctx).0.req_header.headers
        ≡ (str "accept-encoding", str "br") ∷ [])
    × ((AcceptEncoding.handle_request plain_http
          (AcceptEncoding.new (str "zstd") true)
          early_request
          encoded
          new_ctx).0.req_header.headers
        ≡ [])
unfolding code
accept_encoding_tests = (refl, refl, refl)
