-- ===== src/Config/Conf.antt =====
-- The record `LocationConf` of pingap-config/src/common.rs.
use pingap.Common.{ℕ, Bool, Option, List}
use pingap.Common.Text.{Str}

pub record LocationConf : Type 0 where
  pub upstream : Option Str
  pub path : Option Str
  pub host : Option Str
  pub proxy_set_headers : Option (List Str)
  pub proxy_add_headers : Option (List Str)
  pub rewrite : Option Str
  pub weight : Option ℕ
  pub plugins : Option (List Str)
  pub client_max_body_size : Option ℕ
  pub max_processing : Option ℕ
  pub grpc_web : Option Bool
  pub enable_reverse_proxy_headers : Option Bool

-- The fields of `ServerConf` that the model reads.
pub record ServerConf : Type 0 where
  pub addr : Str
  pub locations : Option (List Str)
