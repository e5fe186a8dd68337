-- ===== src/External.antt =====
-- Code that the repository takes from other crates: interfaces that the model's definitions take
-- as parameters.
use pingap.Common.{ℕ, Bool, Option, List}
use pingap.Common.Text.{Str}
use pingap.Common.Results.{Result}

-- The crate regex: a compiled pattern and its methods. Errors are their texts.
pub record RegexLib : Type 1 where
  pub Regex : Type 0
  pub new : Str → Result Str Regex
  pub as_str : Regex → Str
  pub capture_names : Regex → List (Option Str)
  pub is_match : Regex → Str → Bool
  pub captures : Regex → Str → Option (List (Option Str))
  pub replace : Regex → Str → Str → Str

-- The crate url: the host of a URL, if the text is one.
pub record UrlLib : Type 0 where
  pub parse : Str → Option (Option Str)

-- The crate http: checks of header names and values, with the error's text, the reading of a
-- header's bytes as text, and the parser and the printer of URIs, by their host, path and query.
pub record HttpLib : Type 0 where
  pub header_name : Str → Result Str Str
  pub header_value : Str → Result Str Str
  pub to_str : Str → Option Str
  pub parse_uri : Str → Option (Option Str × Str × Option Str)
  pub show_uri : Option Str → Str → Option Str → Str

-- Rust's network names: whether a text is an IP address, and the look-up of socket addresses,
-- which may ask the system's resolver, with the text of its error.
pub record NetLib : Type 0 where
  pub is_ip_addr : Str → Bool
  pub to_socket_addrs : Str → Result Str (Unit {0})

-- The file system, the crates dirs and path-absolutize, and the readers of certificates and keys
-- of base64 and rustls-pemfile; a file of certificates has their bytes.
pub record PemLib : Type 0 where
  pub home_dir : Option Str
  pub absolutize : Str → Option Str
  pub is_file : Str → Bool
  pub read : Str → Result Str (List ℕ)
  pub base64_decode : Str → Result Str (List ℕ)
  pub certs : List ℕ → Result Str (List (List ℕ))
  pub private_key : List ℕ → Result Str (Option (List ℕ))
