-- ===== src/Config/Validate.antt =====
-- The checks of a configuration: the functions `validate` of pingap-config/src/common.rs, with
-- `guess_discovery`, and `is_static_discovery` of pingap-discovery/src/common.rs.
pub mod Sound
use pingap.Common.{
  ℕ, Bool, true, false, not, ◌&&◌, ◌||◌, Option, none, some, List, [], ◌∷◌, ◌++◌, map,
}
use pingap.Common.Tests.{if◌then◌else◌, leb}
use pingap.Common.Text.{
  Str, str, str_eq, is_empty, starts_with, contains, trim, split, split_once, split_whitespace,
  unwrap_or_default, includes,
}
use pingap.Common.Lists.{any}
use pingap.Common.Map.{Map}
use pingap.Common.Results.{Result, ok, err, ◌>>=◌}
use pingap.Config.Conf.{LocationConf, ServerConf}
use pingap.Config.Error.{Error, invalid, io, ser, url_parse, regex, panicked}
use pingap.Config.Pingap.{UpstreamConf, CertificateConf, PingapConf}
use pingap.Config.Toml.{TomlLib, convert_pingap_config}
use pingap.External.{RegexLib, UrlLib, HttpLib, NetLib, PemLib}
use pingap.Util.Paths.{convert_pem}

abbrev pub Checked : Type 0
Checked = Result Error (Unit {0})

-- A loop that stops at the first error.
unfoldable pub each : {A : Type 0} → (A → Checked) → List A → Checked
each check [] = ok tt
each check (a ∷ xs) = do _ ← check a; each check xs

abbrev pub map_err : {A : Type 0} → (Str → Error) → Result Str A → Checked
map_err f (ok a) = ok tt
map_err f (err source) = err (f source)

unfoldable pub is_static_discovery : Str → Bool
unfolding str_eq
is_static_discovery value =
    is_empty value || (str_eq value (str "common") || str_eq value (str "static"))

module _ (pem : PemLib) where
  abbrev validate_cert : Str → Checked
  validate_cert value = elim (convert_pem pem value) [
    | err source ↦ err (invalid source)
    | ok buf ↦ elim (pem.certs buf) [
      | err source ↦ err (invalid (str "Failed to parse certificate: " ++ source))
      | ok certs ↦
          if is_empty certs
          then err (invalid (str "No valid certificates found in input"))
          else ok tt
    ]
  ]

  abbrev validate_key : Str → Checked
  validate_key value = elim (convert_pem pem value) [
    | err source ↦ err (invalid source)
    | ok buf ↦ map_err invalid (pem.private_key buf)
  ]

  abbrev unless_empty : (Str → Checked) → Option Str → Checked
  unless_empty check value =
      let text = unwrap_or_default value in if is_empty text then ok tt else check text

  unfoldable pub validate_certificate : CertificateConf → Checked
  validate_certificate self = do
    _ ← unless_empty validate_key self.tls_key
    _ ← unless_empty validate_cert self.tls_cert
    unless_empty validate_cert self.tls_chain

module _ (net : NetLib) (urls : UrlLib) where
  abbrev pub host_of : Str → Str
  host_of addr = elim (split_once 0x3a addr) [ none ↦ addr | some (host, port) ↦ host ]

  unfoldable pub guess_discovery : UpstreamConf → Str
  unfolding split_once
  guess_discovery self = elim self.discovery [
    | some discovery ↦ discovery
    | none ↦ if any (λ addr. not (net.is_ip_addr (host_of addr))) self.addrs then str "dns" else []
  ]

  -- The first word is taken by its index: an address without a word ends the check with a panic.
  abbrev pub validate_addr : Str → Str → Checked
  validate_addr name addr = elim (split_whitespace addr) [
    | [] ↦ err panicked
    | host_port ∷ parts ↦
        map_err (λ source. io source (host_port ++ (str "(upstream:" ++ (name ++ str ")"))))
          (net.to_socket_addrs
            (if contains host_port (str ":") then host_port else host_port ++ str ":80"))
  ]

  abbrev validate_addresses : Str → UpstreamConf → Checked
  validate_addresses name self =
      if is_empty self.addrs
      then err (invalid (str "upstream addrs is empty"))
      else if not (is_static_discovery (guess_discovery self))
      then ok tt
      else each (validate_addr name) self.addrs

  abbrev validate_health_check : UpstreamConf → Checked
  validate_health_check self = elim self.health_check [
    | none ↦ ok tt
    | some url ↦
        if is_empty url
        then ok tt
        else elim (urls.parse url) [ none ↦ err (url_parse url) | some host ↦ ok tt ]
  ]

  abbrev validate_tcp_probe_count : UpstreamConf → Checked
  validate_tcp_probe_count self = elim self.tcp_probe_count [
    | none ↦ ok tt
    | some count ↦
        if leb count 16 then ok tt else err (invalid (str "tcp probe count should be <= 16"))
  ]

  unfoldable pub validate_upstream : Str → UpstreamConf → Checked
  unfolding each guess_discovery
  validate_upstream name self = do
    _ ← validate_addresses name self
    _ ← validate_health_check self
    validate_tcp_probe_count self

abbrev in_location : Str → Str
in_location name = str "(location:" ++ (name ++ str ")")

abbrev pub is_missing : List Str → Str → Bool
is_missing upstream_names upstream =
    not (is_empty upstream)
    && (not (starts_with upstream (str "$")) && not (includes upstream_names upstream))

module _ (rx : RegexLib) (http : HttpLib) where
  abbrev validate_header : Str → Str → Checked
  validate_header name header = elim (split_once 0x3a header) [
    | none ↦ err (invalid (str "header " ++ (header ++ (str " is invalid" ++ in_location name))))
    | some (k, v) ↦ do
      _ ←
          map_err
            (λ e. invalid (
              str "header name("
              ++ (trim k ++ (str ") is invalid, error: " ++ (e ++ in_location name)))))
            (http.header_name (trim k))
      map_err
          (λ e. invalid (
            str "header value("
            ++ (trim v ++ (str ") is invalid, error: " ++ (e ++ in_location name)))))
          (http.header_value (trim v))
  ]

  abbrev validate_headers : Str → Option (List Str) → Checked
  validate_headers name headers = elim headers [
    | none ↦ ok tt
    | some items ↦ each (validate_header name) items
  ]

  abbrev first : List Str → Str
  first [] = []
  first (part ∷ parts) = part

  abbrev validate_rewrite : Option Str → Checked
  validate_rewrite none = ok tt
  validate_rewrite (some value) = map_err regex (rx.new (first (split 0x20 value)))

  unfoldable pub validate_location : List Str → Str → LocationConf → Checked
  unfolding each
  validate_location upstream_names name self =
      let upstream = unwrap_or_default self.upstream in
      if is_missing upstream_names upstream
      then err
          (invalid (str "upstream(" ++ (upstream ++ (str ") is not found" ++ in_location name))))
      else (do
        _ ← validate_headers name self.proxy_add_headers
        _ ← validate_headers name self.proxy_set_headers
        validate_rewrite self.rewrite)

-- Adds the addresses of a server to those in use.
unfoldable pub take_addrs : List Str → List Str → Result Error (List Str)
unfolding includes
take_addrs [] listen_addr_list = ok listen_addr_list
take_addrs (addr ∷ addrs) listen_addr_list =
    let rest = take_addrs addrs (listen_addr_list ++ (addr ∷ [])) in
    if includes listen_addr_list addr
    then err (invalid (addr ++ str " is inused by other server"))
    else rest

abbrev pub check_location : List Str → Str → Str → Checked
check_location location_names name item =
    if includes location_names item
    then ok tt
    else err
        (invalid (str "location(" ++ (item ++ (str ") is not found(server:" ++ (name ++ str ")")))))

unfoldable pub check_locations : List Str → Str → Option (List Str) → Checked
unfolding each
check_locations location_names name none = ok tt
check_locations location_names name (some locations) =
    each (check_location location_names name) locations

module _ (net : NetLib) where
  unfoldable pub validate_server : List Str → Str → ServerConf → Checked
  unfolding each check_locations
  validate_server location_names name self = do
    _ ←
        each (λ addr. map_err (λ source. io source self.addr) (net.to_socket_addrs addr))
          (split 0x2c self.addr)
    check_locations location_names name self.locations

  unfoldable pub validate_servers : List Str → Map ServerConf → List Str → Checked
  unfolding take_addrs validate_server
  validate_servers location_names [] listen_addr_list = ok tt
  validate_servers location_names ((name, server) ∷ servers) listen_addr_list = do
    listed ← take_addrs (split 0x2c server.addr) listen_addr_list
    _ ← validate_server location_names name server
    validate_servers location_names servers listed

abbrev pub names : {V : Type 0} → Map V → List Str
names entries = map (λ entry. entry.0) entries

module _ (rx : RegexLib) (http : HttpLib) (net : NetLib) (urls : UrlLib) (pem : PemLib)
    (toml : TomlLib) where
  -- The text of the configuration is read again, with its includes, and must be one.
  abbrev validate_text : PingapConf toml.Value → Checked
  validate_text self = elim (toml.to_string_pretty self) [
    | err source ↦ err (ser source)
    | ok ping_conf ↦ elim (convert_pingap_config toml ping_conf true) [
      | err failure ↦ err failure
      | ok conf ↦ ok tt
    ]
  ]

  unfoldable pub validate : PingapConf toml.Value → Checked
  unfolding each validate_upstream validate_location validate_servers validate_certificate
  validate self = do
    _ ← each (λ entry. validate_upstream net urls entry.0 entry.1) self.upstreams
    _ ←
        each (λ entry. validate_location rx http (names self.upstreams) entry.0 entry.1)
          self.locations
    _ ← validate_servers net (names self.locations) self.servers []
    _ ← each (λ entry. validate_certificate pem entry.1) self.certificates
    validate_text self
