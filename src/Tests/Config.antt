-- ===== src/Tests/Config.antt =====
-- The removal of entries from a concrete configuration: pingap-config/src/common.rs.
use pingap.Common.{◌≡◌, refl, none, some, [], ◌∷◌, arith}
use pingap.Common.Text.{Str, str, str_eq, starts_with, includes}
use pingap.Common.Map.{get}
use pingap.Common.Map
use pingap.Common.Results.{ok, err}
use pingap.Config.Conf.{LocationConf}
use pingap.Config.Pingap.{UpstreamConf, PingapConf, remove}
use pingap.Config.Pingap.Links.{IsLinked, remove-IsLinked}

code : Unit {0}
unfolding str_eq starts_with includes get Map.remove remove
code = tt

abbrev upstream : Str → UpstreamConf
upstream addr = record {
  addrs = addr ∷ [];
  discovery = none;
  algo = none;
  sni = none;
  health_check = none;
  tcp_probe_count = none;
}

abbrev location : LocationConf
location = record {
  upstream = some (str "new");
  path = some (str "/api");
  host = none;
  proxy_set_headers = none;
  proxy_add_headers = none;
  rewrite = none;
  weight = none;
  plugins = none;
  client_max_body_size = none;
  max_processing = none;
  grpc_web = none;
  enable_reverse_proxy_headers = none;
}

abbrev conf : PingapConf Str
conf = record {
  upstreams =
      (str "new", upstream (str "10.0.0.1:80")) ∷ (str "old", upstream (str "10.0.0.2:80")) ∷ [];
  locations = (str "api", location) ∷ [];
  servers = (str "web", record { addr = str ":80"; locations = some (str "api" ∷ []) }) ∷ [];
  plugins = [];
  certificates = [];
  storages =
      (str "env", record { category = str "config"; value = []; secret = none; remark = none })
      ∷ [];
}

conf-IsLinked : IsLinked Str conf
unfolding code
conf-IsLinked = record {
  upstreams = (λ name used counts gone. ground arith, tt);
  plugins = (λ name used counts gone. ground arith, tt);
  locations = (λ name used counts gone. ground arith, tt);
}

abbrev without_old : PingapConf Str
without_old = record conf { upstreams = (str "new", upstream (str "10.0.0.1:80")) ∷ [] }

remove-IsLinked_example : IsLinked Str without_old
unfolding code
remove-IsLinked_example =
    remove-IsLinked Str conf (str "old") conf-IsLinked without_old (str "upstream") refl

-- An upstream in use stays, and a storage is not removed although the call succeeds.
remove_tests :
    (remove Str conf (str "upstream") (str "new")
      ≡ err (str "upstream(new) is in used by location(api)"))
    × (remove Str conf (str "storage") (str "env") ≡ ok conf)
unfolding code
remove_tests = (refl, refl)
