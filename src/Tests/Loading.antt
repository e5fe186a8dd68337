-- ===== src/Tests/Loading.antt =====
-- The reading and the checks of a concrete configuration: pingap-config/src/common.rs.
use pingap.Common.{
  ◌≡◌, refl, sym, subst, inl, inr, true, false, Option, none, some, List, [], ◌∷◌, ◌++◌, map, arith,
}
use pingap.Common.Tests.{Option-cases, some_inj, some≢none, if◌then◌else◌}
use pingap.Common.Text.{
  Str, str, str_eq, starts_with, contains, trim, split, split_once, split_whitespace, join,
  includes,
}
use pingap.Common.Lists.{drop}
use pingap.Common.Map.{Map, HasDistinctKeys, get, insert}
use pingap.Common.Map
use pingap.Common.Results.{ok, err}
use pingap.Config.Conf.{LocationConf}
use pingap.Config.Error.{panicked, invalid}
use pingap.Config.Pingap.{UpstreamConf, CertificateConf, PingapConf}
use pingap.Config.Pingap.Links.{IsLinked}
use pingap.Config.Toml.{
  TomlConfig, TomlLib, convert_entries, convert_include_toml, convert_pingap_config, insert_all,
}
use pingap.Config.Toml.Entries.{AreRead, convert_pingap_config-AreRead}
use pingap.Config.Toml.Includes.{IsTableReader}
use pingap.Config.Validate.{
  each, is_static_discovery, validate_certificate, guess_discovery, validate_upstream,
  validate_location, check_locations, validate_server, take_addrs, validate_servers, validate,
}
use pingap.Config.Validate.Sound.{listen_addrs, AreDistinct, validate-IsLinked}
use pingap.External.{UrlLib, NetLib, PemLib}
use pingap.Tests.Fixtures.{literals, plain_http}

code : Unit {0}
unfolding str_eq starts_with contains trim split split_once split_whitespace join includes get
    insert Map.remove convert_entries convert_include_toml convert_pingap_config insert_all each
    is_static_discovery validate_certificate guess_discovery validate_upstream validate_location
    check_locations validate_server take_addrs validate_servers validate listen_addrs
code = tt

-- Values of a small format: a table is a list of names and texts, and a text that begins with @ is
-- the list of the one name that follows.
data TomlValue : Type 0 where
  text : Str → TomlValue
  array : Str → TomlValue
  table : Map Str → TomlValue

abbrev value_of : Str → TomlValue
value_of s = if starts_with s (str "@") then array (drop 1 s) else text s

abbrev show_value : TomlValue → Str
show_value (text s) = s
show_value (array name) = str "@" ++ name
show_value (table m) = []

abbrev show_table : Map TomlValue → Str
show_table m = join (str "\n") (map (λ entry. entry.0 ++ (str "=" ++ show_value entry.1)) m)

abbrev as_table : TomlValue → Option (Map TomlValue)
as_table (text s) = none
as_table (array name) = none
as_table (table m) = some (map (λ entry. (entry.0, value_of entry.1)) m)

abbrev as_array : TomlValue → Option (List TomlValue)
as_array (text s) = none
as_array (array name) = some (text name ∷ [])
as_array (table m) = none

abbrev as_str : TomlValue → Option Str
as_str (text s) = some s
as_str (array name) = none
as_str (table m) = none

abbrev read_table : Str → Option (Map TomlValue)
read_table s = elim (split_once 0x3d s) [ none ↦ none | some (k, v) ↦ some ((k, text v) ∷ []) ]

-- The text after the first name.
abbrev rest_of : Str → Str
rest_of s = elim (split_once 0x3d s) [ none ↦ [] | some (k, v) ↦ v ]

abbrev upstream : Str → UpstreamConf
upstream addr = record {
  addrs = addr ∷ [];
  discovery = none;
  algo = none;
  sni = none;
  health_check = none;
  tcp_probe_count = some 9;
}

abbrev location : LocationConf
location = record {
  upstream = some (str "app");
  path = some (str "/api");
  host = none;
  proxy_set_headers = some (str "x-from: web" ∷ []);
  proxy_add_headers = none;
  rewrite = some (str "^/api /");
  weight = none;
  plugins = none;
  client_max_body_size = none;
  max_processing = none;
  grpc_web = none;
  enable_reverse_proxy_headers = none;
}

abbrev pub certificate : CertificateConf
certificate = record {
  domains = none;
  tls_cert = none;
  tls_key = none;
  tls_chain = none;
  is_default = none;
  is_ca = none;
  acme = none;
  buffer_days = none;
  remark = none;
}

abbrev parts : TomlConfig TomlValue
parts = record {
  servers = none;
  upstreams = some (
      (str "app", table ((str "includes", str "@env") ∷ (str "sni", str "a") ∷ []))
      ∷ (str "old", table ((str "addr", str "10.0.0.2") ∷ []))
      ∷ []);
  locations = none;
  plugins = none;
  certificates = none;
  storages = some ((str "env", table ((str "value", str "sni=b") ∷ [])) ∷ []);
}

abbrev small_toml : TomlLib
small_toml = record {
  Value = TomlValue;
  as_table = as_table;
  as_array = as_array;
  as_str = as_str;
  table_to_string = show_table;
  table = read_table;
  config = λ s. if str_eq s (str "saved") then ok parts else err (str "not a table");
  storage =
      λ s. ok (record { category = str "config"; value = rest_of s; secret = none; remark = none });
  upstream = λ s. ok (upstream s);
  location = λ s. ok location;
  server = λ s. ok (record { addr = s; locations = none });
  plugin = λ s. ok [];
  certificate = λ s. ok certificate;
  to_string_pretty = λ conf. ok (str "saved");
}

abbrev converted : PingapConf TomlValue
converted = record {
  upstreams =
      (str "app", upstream (str "sni=b")) ∷ (str "old", upstream (str "addr=10.0.0.2")) ∷ [];
  locations = [];
  servers = [];
  plugins = [];
  certificates = [];
  storages =
      (
        str "env",
        record { category = str "config"; value = str "sni=b"; secret = none; remark = none },
      )
      ∷ [];
}

small_toml-IsTableReader : IsTableReader small_toml
unfolding get
small_toml-IsTableReader s entries h =
    let parsed : read_table s ≡ some entries = h in
    elim (Option-cases (split_once 0x3d s)) [
      | inl single ↦ absurd (some≢none (sym (rw (read_table, single) at parsed)))
      | inr ((k, v), pair) ↦
          subst (HasDistinctKeys {V = TomlValue}) (some_inj (rw (read_table, pair) at parsed))
            (refl, tt)
    ]

convert_pingap_config-AreRead_example :
    AreRead small_toml small_toml.upstream converted.storages true parts.upstreams
      converted.upstreams
    × AreRead small_toml small_toml.location converted.storages true none []
    × AreRead small_toml small_toml.server converted.storages true none []
unfolding code
convert_pingap_config-AreRead_example =
    convert_pingap_config-AreRead small_toml (str "saved") true parts small_toml-IsTableReader refl
      (refl, (refl, tt)) tt tt converted refl

-- The value of an entry is replaced by that of the text that it includes, and stays without the
-- replacement.
include_tests :
    (convert_include_toml small_toml
        ((str "env", str "sni=b") ∷ [])
        true
        (table ((str "includes", str "@env") ∷ (str "sni", str "a") ∷ []))
      ≡ str "sni=b")
    × (convert_include_toml small_toml [] false (table ((str "includes", str "@env") ∷ []))
        ≡ str "includes=@env")
unfolding code
include_tests = (refl, refl)

-- Names of hosts begin with a letter in these tests, and an address has a port.
abbrev net : NetLib
net = record {
  is_ip_addr = λ s. starts_with s (str "1");
  to_socket_addrs = λ s. if contains s (str ":") then ok tt else err (str "invalid");
}

abbrev urls : UrlLib
urls = record { parse = λ s. if contains s (str "://") then some none else none }

abbrev pub pem : PemLib
pem = record {
  home_dir = none;
  absolutize = λ s. none;
  is_file = λ s. false;
  read = λ s. err (str "missing");
  base64_decode = λ s. ok s;
  certs = λ buf. ok (buf ∷ []);
  private_key = λ buf. ok (some buf);
}

abbrev conf : PingapConf TomlValue
conf = record {
  upstreams = (str "app", upstream (str "10.0.0.1")) ∷ [];
  locations = (str "api", location) ∷ [];
  servers =
      (str "web", record { addr = str ":80,:81"; locations = some (str "api" ∷ []) })
      ∷ (str "tls", record { addr = str ":443"; locations = none })
      ∷ [];
  plugins = [];
  certificates = (str "cert", certificate) ∷ [];
  storages = [];
}

validate-IsLinked_example :
    IsLinked TomlValue conf × AreDistinct (str ":80" ∷ str ":81" ∷ str ":443" ∷ [])
unfolding code
validate-IsLinked_example =
    validate-IsLinked literals plain_http net urls pem small_toml conf
      (λ name used counts gone. ground arith, tt) refl

-- An address in use, a missing upstream, and an address without a word, on which the check panics.
validate_tests :
    (validate literals plain_http net urls pem small_toml (record conf {
      servers =
          (str "web", record { addr = str ":80"; locations = none })
          ∷ (str "tls", record { addr = str ":80"; locations = none })
          ∷ [];
    })
      ≡ err (invalid (str ":80 is inused by other server")))
    × (validate literals plain_http net urls pem small_toml (record conf { upstreams = [] })
        ≡ err (invalid (str "upstream(app) is not found(location:api)")))
    × (validate_upstream net urls
          (str "app")
          (record (upstream []) { discovery = some (str "static") })
        ≡ err panicked)
unfolding code
validate_tests = (refl, refl, refl)
