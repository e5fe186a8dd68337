-- ===== src/Tests/Fixtures.antt =====
-- The parameters of the model as concrete functions, and two locations of a server.
use pingap.Common.{◌^◌, ◌-◌, false, none, some, List, [], ◌∷◌}
use pingap.Common.Text.{Str, str, contains}
use pingap.Common.Map.{Map}
use pingap.Common.Results.{ok}
use pingap.Core.Plugin.{Session}
use pingap.External.{RegexLib, HttpLib}
use pingap.Location.Route.{Location}
use pingap.Location.Selector.{prefix_path}
use pingap.Server.Plugins.{PluginEnv}
use pingap.Server.Early.{Env}
use pingap.Server.State.{State}

-- Patterns that match where they occur.
abbrev pub literals : RegexLib
literals = record {
  Regex = Str;
  new = λ s. ok s;
  as_str = λ s. s;
  capture_names = λ s. [];
  is_match = λ re s. contains s re;
  captures = λ re s. none;
  replace = λ re s value. value;
}

abbrev pub plain_http : HttpLib
plain_http = record {
  header_name = λ s. ok s;
  header_value = λ s. ok s;
  to_str = λ s. some s;
  parse_uri = λ s. some (none, s, none);
  show_uri = λ host path query. path;
}

abbrev pub no_plugins : PluginEnv
no_plugins = record {
  get_plugin = λ name. none;
  send = λ resp session. (session, ok tt);
  elapsed = λ name step. 0;
}

abbrev pub env : Env
env = record { http = plain_http; plugins = no_plugins; show = λ error. []; now_ms = 1000 }

abbrev pub base_location : Location literals
base_location = record {
  name = str "api";
  key = str "k";
  upstream = str "backend";
  path = str "/api";
  path_selector = prefix_path (str "/api");
  hosts = [];
  reg_rewrite = none;
  proxy_add_headers = none;
  proxy_set_headers = none;
  plugins = none;
  accepted = 0;
  processing = 0;
  max_processing = 0;
  grpc_web = false;
  client_max_body_size = 10;
  enable_reverse_proxy_headers = false;
}

abbrev pub web : Location literals
web = record base_location {
  name = str "web";
  path = str "/web";
  path_selector = prefix_path (str "/web");
  processing = 2 ^ 32 - 1;
  client_max_body_size = 0;
}

abbrev pub locations : Map (Location literals)
locations = (str "api", base_location) ∷ (str "web", web) ∷ []

abbrev pub state : State literals
state = record {
  server = record { name = str "main"; accepted = 0; processing = 0 };
  server_locations = (str "main", str "api" ∷ str "web" ∷ []) ∷ [];
  locations = locations;
  upstreams = [];
  accepted = 0;
  processing = 0;
}

abbrev pub ask : Str → List (Str × Str) → Session
ask path headers = record {
  req_header = record {
    method = str "GET";
    uri = record { host = none; path = path; query = none };
    headers = headers;
  };
  is_upgrade_req = false;
  stream_id = none;
  digest = none;
  client_addr = none;
  server_addr = none;
  grpc_web = none;
  response_written = none;
}
