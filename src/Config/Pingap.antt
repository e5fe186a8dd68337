-- ===== src/Config/Pingap.antt =====
-- The configuration `PingapConf` of pingap-config/src/common.rs and the removal of an entry. The
-- basic part, which no entry refers to, is left out.
pub mod Links
use pingap.Common.{ℕ, Bool, false, Option, none, some, List, [], ◌∷◌, ◌++◌}
use pingap.Common.Tests.{if◌then◌else◌}
use pingap.Common.Text.{Str, str, str_eq, includes}
use pingap.Common.Map.{Map}
use pingap.Common.Map
use pingap.Common.Results.{Result, ok, err}
use pingap.Config.Conf.{LocationConf, ServerConf}

-- The fields that say where an upstream is; its options are left out.
pub record UpstreamConf : Type 0 where
  pub addrs : List Str
  pub discovery : Option Str
  pub algo : Option Str
  pub sni : Option Str
  pub health_check : Option Str
  pub tcp_probe_count : Option ℕ

pub record CertificateConf : Type 0 where
  pub domains : Option Str
  pub tls_cert : Option Str
  pub tls_key : Option Str
  pub tls_chain : Option Str
  pub is_default : Option Bool
  pub is_ca : Option Bool
  pub acme : Option Str
  pub buffer_days : Option ℕ
  pub remark : Option Str

pub record StorageConf : Type 0 where
  pub category : Str
  pub value : Str
  pub secret : Option Str
  pub remark : Option Str

-- The first entry whose value uses something, in the order of the iteration.
abbrev pub user_of : {V : Type 0} → (V → Bool) → Map V → Option Str
user_of uses [] = none
user_of uses ((name, value) ∷ entries) = if uses value then some name else user_of uses entries

abbrev pub lists : Option (List Str) → Str → Bool
lists none name = false
lists (some names) name = includes names name

abbrev pub is_upstream : Option Str → Str → Bool
is_upstream none name = false
is_upstream (some upstream) name = str_eq upstream name

abbrev in_used : Str → Str → Str → Str → Str
in_used what name user by =
    what
    ++ (str "(" ++ (name ++ (str ") is in used by " ++ (by ++ (str "(" ++ (user ++ str ")"))))))

-- Values of plugins are those of the crate toml.
module _ (Value : Type 0) where
  pub record PingapConf : Type 0 where
    pub upstreams : Map UpstreamConf
    pub locations : Map LocationConf
    pub servers : Map ServerConf
    pub plugins : Map (Map Value)
    pub certificates : Map CertificateConf
    pub storages : Map StorageConf

  abbrev pub remove_upstream : PingapConf → Str → Result Str PingapConf
  remove_upstream self name = elim (user_of (λ l. is_upstream l.upstream name) self.locations) [
    | some user ↦ err (in_used (str "upstream") name user (str "location"))
    | none ↦ ok (record self { upstreams = Map.remove name self.upstreams })
  ]

  abbrev pub remove_location : PingapConf → Str → Result Str PingapConf
  remove_location self name = elim (user_of (λ s. lists s.locations name) self.servers) [
    | some user ↦ err (in_used (str "location") name user (str "server"))
    | none ↦ ok (record self { locations = Map.remove name self.locations })
  ]

  abbrev pub remove_plugin : PingapConf → Str → Result Str PingapConf
  remove_plugin self name = elim (user_of (λ l. lists l.plugins name) self.locations) [
    | some user ↦ err (in_used (str "proxy plugin") name user (str "location"))
    | none ↦ ok (record self { plugins = Map.remove name self.plugins })
  ]

  unfoldable pub remove : PingapConf → Str → Str → Result Str PingapConf
  remove self category name =
      if str_eq category (str "upstream")
      then remove_upstream self name
      else if str_eq category (str "location")
      then remove_location self name
      else if str_eq category (str "server")
      then ok (record self { servers = Map.remove name self.servers })
      else if str_eq category (str "plugin")
      then remove_plugin self name
      else if str_eq category (str "certificate")
      then ok (record self { certificates = Map.remove name self.certificates })
      else ok self
