-- ===== src/Plugin/CombinedAuth.antt =====
-- The plugin combined_auth of pingap-plugin/src/combined_auth.rs. `new` takes the table that the
-- plugin's configuration gives. An i64 is its bit pattern.
pub mod Window
pub mod Signed
use pingap.Common.{
  ℕ, ◌+◌, ◌-◌, ◌*◌, ◌%◌, ◌^◌, Bool, true, false, not, ◌&&◌, Option, none, some, List, [], ◌∷◌, ◌++◌,
}
use pingap.Common.Tests.{ltb, leb, ◌==◌, if◌then◌else◌}
use pingap.Common.Text.{Str, str, str_eq, is_empty, unwrap_or_default}
use pingap.Common.Map.{Map, get, insert}
use pingap.Common.Results.{Result, ok, err}
use pingap.Common.Words.{sub64}
use pingap.Core.Ctx.{Ctx}
use pingap.Core.Plugin.{
  PluginStep, request, step_eq, HttpResponse, default_response, Failure, Session,
}
use pingap.External.{HttpLib}
use pingap.Http.Header.{RequestHeader, get_query_value}
use pingap.Plugin.IpRestriction.{IpLib, IpRules, new_rules, is_match}
use pingap.Upstream.Peer.{get_client_ip}

-- The crates sha2 and hex, `str::to_lowercase`, and the text of the error of a number.
pub record DigestLib : Type 0 where
  pub sha256_hex : Str → Str
  pub to_lowercase : Str → Str
  pub int_error : Str → Str

read_decimal : ℕ → Str → Option ℕ
read_decimal n [] = some n
read_decimal n (c ∷ s) =
    let rest = read_decimal (n * 10 + (c - b'0')) s in
    if leb b'0' c && leb c b'9' then rest else none

abbrev digits : Str → Option ℕ
digits [] = none
digits (c ∷ s) = read_decimal 0 (c ∷ s)

abbrev at_most : ℕ → Option ℕ → Option ℕ
at_most limit none = none
at_most limit (some n) = if leb n limit then some n else none

abbrev negated : Option ℕ → Option ℕ
negated none = none
negated (some n) = some (sub64 0 n)

-- `<i64 as FromStr>::from_str`, its error left out.
unfoldable pub parse_i64 : Str → Option ℕ
unfolding read_decimal
parse_i64 [] = none
parse_i64 (c ∷ s) =
    if c == b'-'
    then negated (at_most (2 ^ 63) (digits s))
    else if c == b'+'
    then at_most (2 ^ 63 - 1) (digits s)
    else at_most (2 ^ 63 - 1) (digits (c ∷ s))

-- `i64::abs` without checks of overflow: the least number stays as it is.
abbrev pub abs64 : ℕ → ℕ
abs64 n = if ltb n (2 ^ 63) then n else 2 ^ 64 - n

-- The order of two i64.
abbrev pub lt_i64 : ℕ → ℕ → Bool
lt_i64 a b = ltb ((a + 2 ^ 63) % 2 ^ 64) ((b + 2 ^ 63) % 2 ^ 64)

-- Whether the distance of a time from now is more than the deviation.
unfoldable pub deviates : ℕ → ℕ → ℕ → Bool
deviates now value deviation = lt_i64 deviation (abs64 (sub64 now value))

module _ (ip : IpLib) (digest : DigestLib) where
  pub record AuthParam : Type 0 where
    pub ip_rules : Option (IpRules ip)
    pub secret : Str
    pub deviation : ℕ

  pub record CombinedAuth : Type 0 where
    pub plugin_step : PluginStep
    pub auths : Map AuthParam

  -- A table of the list authorizations.
  pub record Authorization : Type 0 where
    pub app_id : Str
    pub ip_list : List Str
    pub secret : Str
    pub deviation : ℕ

  abbrev pub param_of : Authorization → AuthParam
  param_of value = record {
    ip_rules = if is_empty value.ip_list then none else some (new_rules ip value.ip_list);
    secret = value.secret;
    deviation = value.deviation;
  }

  abbrev insert_auth : Authorization → Map AuthParam → Map AuthParam
  insert_auth value auths =
      if is_empty value.app_id then auths else insert value.app_id (param_of value) auths

  -- Items that are no tables are skipped.
  unfoldable pub auths_of : List (Option Authorization) → Map AuthParam → Map AuthParam
  unfolding insert
  auths_of [] auths = auths
  auths_of (none ∷ items) auths = auths_of items auths
  auths_of (some value ∷ items) auths = auths_of items (insert_auth value auths)

  -- From the value of authorizations, which may be absent or no list.
  unfoldable pub new : Option (Option (List (Option Authorization))) → Result Str CombinedAuth
  unfolding auths_of
  new none = err (str "authorizations is empty")
  new (some none) = err (str "authorizations is not array")
  new (some (some authorizations)) =
      ok (record { plugin_step = request; auths = auths_of authorizations [] })

  abbrev pub query : Session → Str → Str
  query session name = unwrap_or_default (get_query_value session.req_header name)

  abbrev pub matches : Result Str Bool → Bool
  matches (ok found) = found
  matches (err e) = false

  abbrev pub ip_allowed : HttpLib → Option (IpRules ip) → Session → Bool
  ip_allowed http none session = true
  ip_allowed http (some rules) session = matches (is_match ip rules (get_client_ip http session))

  -- What is signed by the digest of a time.
  abbrev pub signature : AuthParam → Str → Str
  signature param ts = digest.sha256_hex (param.secret ++ (b':' ∷ ts))

  -- The checks after the address, at a time.
  unfoldable pub validate_digest : ℕ → AuthParam → Str → Str → Result Str (Unit {0})
  unfolding parse_i64 deviates str_eq
  validate_digest now param ts value =
      if is_empty ts then err (str "timestamp is empty") else elim (parse_i64 ts) [
        | none ↦ err (digest.int_error ts)
        | some time ↦
            if deviates now time param.deviation
            then err (str "timestamp deviation is invalid")
            else if is_empty value
            then err (str "digest is empty")
            else if not (str_eq (digest.to_lowercase value) (signature param ts))
            then err (str "digest is invalid")
            else ok tt
      ]

  unfoldable pub validate_param : HttpLib → ℕ → AuthParam → Session → Result Str (Unit {0})
  unfolding validate_digest is_match get_query_value
  validate_param http now param session =
      if str_eq param.secret (str "*")
      then ok tt
      else if not (ip_allowed http param.ip_rules session)
      then err (str "ip is invalid")
      else validate_digest now param (query session (str "ts")) (query session (str "digest"))

  -- The message of the first check that fails.
  unfoldable pub validate : HttpLib → CombinedAuth → ℕ → Session → Result Str (Unit {0})
  unfolding validate_param get
  validate http self now session = elim (get_query_value session.req_header (str "app_id")) [
    | none ↦ err (str "app id is empty")
    | some app_id ↦ elim (get app_id self.auths) [
      | none ↦ err (str "app id is invalid")
      | some param ↦ validate_param http now param session
    ]
  ]

  abbrev pub unauthorized : Str → HttpResponse
  unauthorized message = record default_response {
    status = 401;
    headers = some ((str "cache-control", str "private, no-store") ∷ []);
    body = str "Plugin combined_auth invalid, message: " ++ message;
  }

  unfoldable pub handle_request :
      HttpLib
      → CombinedAuth
      → ℕ
      → PluginStep
      → Session
      → Ctx
      → Session × Ctx × Result Failure (Bool × Option HttpResponse)
  unfolding validate
  handle_request http self now step session ctx =
      if not (step_eq step self.plugin_step)
      then (session, ctx, ok (false, none))
      else elim (validate http self now session) [
        | err message ↦ (session, ctx, ok (true, some (unauthorized message)))
        | ok passed ↦ (session, ctx, ok (true, none))
      ]
