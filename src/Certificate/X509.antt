-- ===== src/Certificate/X509.antt =====
-- The reading of certificates: `Certificate` of pingap-certificate/src/lib.rs, `TlsCertificate` of
-- tls_certificate.rs and the chains of chain.rs. Times are those since 1970.
use pingap.Common.{ℕ, ◌+◌, ◌*◌, Bool, true, false, Option, none, some, List, [], ◌∷◌, ◌++◌}
use pingap.Common.Tests.{ltb, ◌==◌, if◌then◌else◌}
use pingap.Common.Text.{Str, str, str_eq, unwrap_or_default}
use pingap.Common.Lists.{length}
use pingap.Common.Results.{Result, ok, err, ◌>>=◌}
use pingap.Config.Pingap.{CertificateConf}
use pingap.External.{PemLib}
use pingap.Util.Paths.{convert_pem}

-- The enum `Error`, by its category and message.
pub data Error : Type 0 where
  x509 : Str → Str → Error
  invalid : Str → Str → Error

abbrev pub show_error : Error → Str
show_error (x509 category message) =
    str "X509 error, category: " ++ (category ++ (str ", " ++ message))
show_error (invalid category message) =
    str "Invalid error, category: " ++ (category ++ (str ", " ++ message))

pub data GeneralName : Type 0 where
  dns_name : Str → GeneralName
  ip_address : List ℕ → GeneralName
  other_name : GeneralName

-- What the crate x509-parser finds in a certificate, the names if there are any to read.
pub record Parsed : Type 0 where
  pub subject_alternative_name : Option (List GeneralName)
  pub not_before : ℕ
  pub not_after : ℕ
  pub issuer : Str

-- The crates openssl, x509-parser and rcgen, with the text of an error, and texts that Rust makes
-- of addresses, of quoted texts and of bytes. A certificate that is issued for a name by the
-- certificate and the key of an authority comes with its key and its end.
pub record X509Lib : Type 1 where
  pub X509 : Type 0
  pub Key : Type 0
  pub from_pem : List ℕ → Result Str X509
  pub private_key_from_pem : List ℕ → Result Str Key
  pub parse_x509_pem : List ℕ → Result Str (List ℕ)
  pub parse_x509 : List ℕ → Result Str Parsed
  pub issue : List ℕ → List ℕ → Str → Result Str (X509 × Key × ℕ)
  pub common_name : Str → Option Str
  pub show_ip : List ℕ → Str
  pub quote : Str → Str
  pub from_utf8 : List ℕ → Option Str
  pub to_uppercase : Str → Str
  pub hash_key : CertificateConf → Str

pub record Certificate : Type 0 where
  pub domains : List Str
  pub pem : List ℕ
  pub key : List ℕ
  pub acme : Option Str
  pub not_after : ℕ
  pub not_before : ℕ
  pub issuer : Str

-- `Vec::sort` of texts.
abbrev str_leb : Str → Str → Bool
str_leb [] t = true
str_leb (c ∷ s) [] = false
str_leb (c ∷ s) (d ∷ t) = if ltb c d then true else if c == d then str_leb s t else false

abbrev insert_name : Str → List Str → List Str
insert_name name [] = name ∷ []
insert_name name (other ∷ names) =
    let later = insert_name name names in
    if str_leb name other then name ∷ other ∷ names else other ∷ later

abbrev pub sort_names : List Str → List Str
sort_names [] = []
sort_names (name ∷ names) = insert_name name (sort_names names)

abbrev pub convert_certificate_bytes : PemLib → Option Str → Option (List ℕ)
convert_certificate_bytes pem none = none
convert_certificate_bytes pem (some value) = elim (convert_pem pem value) [
  | ok buf ↦ some buf
  | err source ↦ none
]

abbrev pub is_ip_length : ℕ → Bool
is_ip_length len = if len == 4 then true else len == 16

module _ (lib : X509Lib) (pem : PemLib) where
  -- The names of hosts and the addresses; an address of a wrong length is left out.
  abbrev pub dns_names : List GeneralName → List Str
  dns_names [] = []
  dns_names (dns_name name ∷ names) = name ∷ dns_names names
  dns_names (ip_address bytes ∷ names) =
      let later = dns_names names in
      if is_ip_length (length bytes) then lib.show_ip bytes ∷ later else later
  dns_names (other_name ∷ names) = dns_names names

  abbrev pub names_of : Option (List GeneralName) → List Str
  names_of none = []
  names_of (some names) = dns_names names

  abbrev as_x509 : {A : Type 0} → Str → Result Str A → Result Error A
  as_x509 category (ok a) = ok a
  as_x509 category (err source) = err (x509 category source)

  abbrev as_invalid : {A : Type 0} → Str → Result Str A → Result Error A
  as_invalid category (ok a) = ok a
  as_invalid category (err source) = err (invalid category source)

  abbrev unwrap_bytes : Option (List ℕ) → List ℕ
  unwrap_bytes none = []
  unwrap_bytes (some bytes) = bytes

  abbrev pub certificate_of : List ℕ → Str → Result Error Certificate
  certificate_of pem_data key = do
    der ← as_x509 (str "parse_x509_pem") (lib.parse_x509_pem pem_data)
    parsed ← as_x509 (str "parse_x509") (lib.parse_x509 der)
    ok (record {
      domains = sort_names (names_of parsed.subject_alternative_name);
      pem = pem_data;
      key = unwrap_bytes (convert_certificate_bytes pem (some key));
      acme = none;
      not_after = parsed.not_after;
      not_before = parsed.not_before;
      issuer = parsed.issuer;
    })

  -- `Certificate::new`.
  unfoldable pub new : Str → Str → Result Error Certificate
  new pem' key = elim (convert_certificate_bytes pem (some pem')) [
    | none ↦ err (invalid (str "certificate") (str "invalid pem data"))
    | some pem_data ↦ certificate_of pem_data key
  ]

  -- `Certificate::valid` at a time.
  unfoldable pub valid : ℕ → ℕ → Certificate → Bool
  valid ts buffer_days self =
      let days = if buffer_days == 0 then 2 else buffer_days in
      ltb (ts + days * (24 * 3600)) self.not_after

  -- `parse_chain_certificate` at a time.
  unfoldable pub parse_chain_certificate : ℕ → List ℕ → Option lib.X509
  unfolding new
  parse_chain_certificate now bytes = elim (lib.from_utf8 bytes) [
    | none ↦ none
    | some pem_str ↦ elim (new pem_str []) [
      | err failure ↦ none
      | ok cert ↦
          if ltb (now + 30 * (24 * 3600)) cert.not_after
          then elim (lib.from_pem bytes) [ ok found ↦ some found | err source ↦ none ]
          else none
    ]
  ]

  -- The chains of Let's Encrypt that the program carries, each read at its first use.
  pub record Chains : Type 0 where
    pub e5 : Option lib.X509
    pub e6 : Option lib.X509
    pub r10 : Option lib.X509
    pub r11 : Option lib.X509

  abbrev pub get_lets_encrypt_chain_certificate : Chains → Str → Option lib.X509
  get_lets_encrypt_chain_certificate chains cn =
      let name = lib.to_uppercase cn in
      if str_eq name (str "E5")
      then chains.e5
      else if str_eq name (str "E6")
      then chains.e6
      else if str_eq name (str "R10")
      then chains.r10
      else if str_eq name (str "R11")
      then chains.r11
      else none

  pub record TlsCertificate : Type 0 where
    pub name : Option Str
    pub chain_certificate : Option lib.X509
    pub certificate : Option (lib.X509 × lib.Key)
    pub domains : List Str
    pub info : Option Certificate
    pub hash_key : Str
    pub is_ca : Bool
    pub buffer_days : ℕ

  abbrev pub unwrap_bool : Option Bool → Bool
  unwrap_bool none = false
  unwrap_bool (some b) = b

  abbrev pub unwrap_count : Option ℕ → ℕ
  unwrap_count none = 0
  unwrap_count (some n) = n

  -- The chain of the configuration, whose errors are ignored, or that of Let's Encrypt.
  abbrev pub chain_of : Chains → CertificateConf → Certificate → Option lib.X509
  chain_of chains value info = elim (convert_certificate_bytes pem value.tls_chain) [
    | some bytes ↦ elim (lib.from_pem bytes) [ ok chain ↦ some chain | err source ↦ none ]
    | none ↦ elim value.acme [
      | some acme ↦
          get_lets_encrypt_chain_certificate chains
            (unwrap_or_default (lib.common_name info.issuer))
      | none ↦ none
    ]
  ]

  abbrev as_certificate : Result Error Certificate → Result Error Certificate
  as_certificate (ok info) = ok info
  as_certificate (err failure) = err (invalid (str "certificate") (show_error failure))

  -- `TlsCertificate::try_from`.
  unfoldable pub try_from : Chains → CertificateConf → Result Error TlsCertificate
  unfolding new
  try_from chains value = do
    info ← as_certificate (new (unwrap_or_default value.tls_cert) (unwrap_or_default value.tls_key))
    cert ← as_invalid (str "x509_from_pem") (lib.from_pem info.pem)
    key ← as_invalid (str "private_key_from_pem") (lib.private_key_from_pem info.key)
    ok (record {
      name = none;
      chain_certificate = chain_of chains value info;
      certificate = some (cert, key);
      domains = info.domains;
      info = some info;
      hash_key = lib.hash_key value;
      is_ca = unwrap_bool value.is_ca;
      buffer_days = unwrap_count value.buffer_days;
    })
