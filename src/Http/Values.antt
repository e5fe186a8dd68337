-- ===== src/Http/Values.antt =====
-- Header values that stand for other values: `convert_header_value` of
-- pingap-core/src/http_header.rs.
use pingap.Common.{ℕ, Bool, false, not, ◌||◌, Option, none, some, [], ◌∷◌, ◌++◌}
use pingap.Common.Tests.{◌==◌, if◌then◌else◌}
use pingap.Common.Text.{Str, str, str_eq, is_empty, starts_with, unwrap_or_default}
use pingap.Common.Lists.{drop}
use pingap.Common.Digits.{show}
use pingap.Common.Map.{get}
use pingap.Common.Results.{Result, ok, err}
use pingap.Core.Ctx.{Ctx}
use pingap.Core.Ctx.Values.{Ratio, append_value}
use pingap.Core.Plugin.{Session}
use pingap.External.{HttpLib}
use pingap.Http.Header.{get_host}

-- The host's name, the variables of the environment and the format of ratios.
pub record System : Type 0 where
  pub hostname : Str
  pub env_var : Str → Option Str
  pub show_ratio : Ratio

module _ (http : HttpLib) (system : System) where
  abbrev ok_value : Result Str Str → Option Str
  ok_value (ok value) = some value
  ok_value (err _) = none

  -- `HeaderValue::from_str(s).ok()`.
  abbrev pub to_header_value : Str → Option Str
  to_header_value s = ok_value (http.header_value s)

  abbrev pub and_then : {A : Type 0} → (A → Option Str) → Option A → Option Str
  and_then f none = none
  and_then f (some a) = f a

  -- The value of another header of the request.
  abbrev pub handle_http_header : Str → Session → Option Str
  handle_http_header key session = elim (http.header_name key) [
    | err _ ↦ none
    | ok name ↦ get name session.req_header.headers
  ]

  abbrev pub handle_env_var : Str → Option Str
  handle_env_var name = and_then to_header_value (system.env_var name)

  abbrev pub handle_context_value : ℕ → Ctx → Str → Option Str
  handle_context_value now_ms ctx key =
      let value = append_value system.show_ratio now_ms ctx [] key in
      if is_empty value then none else to_header_value value

  unfoldable pub handle_special_headers : ℕ → Session → Ctx → Str → Option Str
  unfolding get starts_with append_value
  handle_special_headers now_ms session ctx buf =
      if starts_with buf (str "$http_")
      then handle_http_header (drop 6 buf) session
      else if starts_with buf (str "$")
      then handle_env_var (drop 1 buf)
      else if starts_with buf (str ":")
      then handle_context_value now_ms ctx (drop 1 buf)
      else none

  abbrev with_forwarded : Option Str → Str → Str
  with_forwarded none addr = addr
  with_forwarded (some existing) addr =
      unwrap_or_default (http.to_str existing) ++ (str ", " ++ addr)

  -- The address of the client behind those that forwarded the request before.
  abbrev pub forwarded : Session → Ctx → Option Str
  forwarded session ctx =
      and_then
        (λ addr.
          to_header_value
            (with_forwarded (get (str "x-forwarded-for") session.req_header.headers) addr))
        ctx.remote_addr

  abbrev pub is_special : Str → Bool
  is_special [] = false
  is_special (c ∷ _) = c == b'$' || c == b':'

  -- Nothing for a value that stands for itself.
  unfoldable pub convert_header_value : ℕ → Str → Session → Ctx → Option Str
  unfolding get str_eq get_host show handle_special_headers
  convert_header_value now_ms buf session ctx =
      if not (is_special buf)
      then none
      else if str_eq buf (str "$host")
      then and_then to_header_value (get_host http session.req_header)
      else if str_eq buf (str "$scheme")
      then some (elim ctx.tls_version [ some _ ↦ str "https" | none ↦ str "http" ])
      else if str_eq buf (str "$hostname")
      then to_header_value system.hostname
      else if str_eq buf (str "$remote_addr")
      then and_then to_header_value ctx.remote_addr
      else if str_eq buf (str "$remote_port")
      then and_then (λ port. to_header_value (show 10 port)) ctx.remote_port
      else if str_eq buf (str "$server_addr")
      then and_then to_header_value ctx.server_addr
      else if str_eq buf (str "$server_port")
      then and_then (λ port. to_header_value (show 10 port)) ctx.server_port
      else if str_eq buf (str "$upstream_addr")
      then (if is_empty ctx.upstream_address then none else to_header_value ctx.upstream_address)
      else if str_eq buf (str "$proxy_add_x_forwarded_for")
      then forwarded session ctx
      else handle_special_headers now_ms session ctx buf
