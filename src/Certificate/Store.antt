-- ===== src/Certificate/Store.antt =====
-- The store of certificates by domain and the choice for a server name:
-- pingap-certificate/src/dynamic_certificate.rs, and the checks of validity_checker.rs.
pub mod Sources
use pingap.Common.{
  ℕ, ◌+◌, ◌*◌, ◌%◌, Bool, true, false, not, ◌||◌, Option, none, some, List, [], ◌∷◌, ◌++◌, map,
}
use pingap.Common.Tests.{ltb, ◌==◌, if◌then◌else◌}
use pingap.Common.Text.{Str, str, str_eq, split, split_once, join}
use pingap.Common.Map.{Map, get, insert}
use pingap.Common.Results.{Result, ok, err}
use pingap.Certificate.X509.{
  X509Lib, Error, show_error, Chains, Certificate, TlsCertificate, try_from, unwrap_bool,
}
use pingap.Certificate.SelfSigned.{Signed, SelfSignedCertificate, get_self_signed_certificate}
use pingap.Config.Pingap.{CertificateConf}
use pingap.External.{PemLib}

abbrev pub default_server_name : Str
default_server_name = str "*"

abbrev pub is_none {ℓ} : {A : Type ℓ} → Option A → Bool
is_none none = true
is_none (some a) = false

-- Puts a value under each of some names.
unfoldable pub insert_each : {V : Type 0} → List Str → V → Map V → Map V
unfolding insert
insert_each [] v m = m
insert_each (name ∷ names) v m = insert_each names v (insert name v m)

abbrev pub after_dot : Str → Str
after_dot sni = elim (split_once 0x2e sni) [ none ↦ [] | some (first, rest) ↦ rest ]

unfoldable pub wildcard_sni : Str → Str
unfolding split_once
wildcard_sni sni = str "*." ++ after_dot sni

module _ (lib : X509Lib) (pem : PemLib) where
  abbrev pub DynamicCertificates : Type 0
  DynamicCertificates = Map (TlsCertificate lib pem)

  -- The domains of a configured certificate are those of its configuration, if it has them.
  abbrev pub domains_of : CertificateConf → TlsCertificate lib pem → List Str
  domains_of conf cert = elim conf.domains [ none ↦ cert.domains | some value ↦ split 0x2c value ]

  abbrev pub named : Str → TlsCertificate lib pem → TlsCertificate lib pem
  named name cert = record cert { name = some name }

  -- The names under which a configured certificate is put.
  abbrev pub keys_of : CertificateConf → TlsCertificate lib pem → List Str
  keys_of conf cert =
      domains_of conf cert
      ++ (if unwrap_bool lib pem conf.is_default then default_server_name ∷ [] else [])

  -- The loop of `parse_certificates`, with the certificates and the errors so far.
  unfoldable pub parse_from :
      Chains lib pem
      → Map CertificateConf
      → DynamicCertificates
      → List (Str × Str)
      → DynamicCertificates × List (Str × Str)
  unfolding insert_each try_from split
  parse_from chains [] certs errors = (certs, errors)
  parse_from chains ((name, conf) ∷ confs) certs errors =
      if is_none conf.tls_cert || is_none conf.tls_key
      then parse_from chains confs certs errors
      else elim (try_from lib pem chains conf) [
        | ok cert ↦
            parse_from chains confs (insert_each (keys_of conf cert) (named name cert) certs) errors
        | err failure ↦ parse_from chains confs certs (errors ++ ((name, show_error failure) ∷ []))
      ]

  unfoldable pub parse_certificates :
      Chains lib pem → Map CertificateConf → DynamicCertificates × List (Str × Str)
  unfolding parse_from
  parse_certificates chains confs = parse_from chains confs [] []

  -- The names listed as updated: the loop ends at the first certificate that has not changed.
  unfoldable pub updated : DynamicCertificates → DynamicCertificates → List Str
  unfolding get
  updated certs [] = []
  updated certs ((name, cert) ∷ rest) =
      let later = updated certs rest in
      elim (get name certs) [
        | none ↦ name ∷ later
        | some value ↦ if str_eq value.hash_key cert.hash_key then [] else name ∷ later
      ]

  -- `try_update_certificates`: the new store, the names and the errors.
  unfoldable pub try_update_certificates :
      Chains lib pem
      → Map CertificateConf
      → DynamicCertificates
      → DynamicCertificates × List Str × Str
  unfolding parse_certificates updated
  try_update_certificates chains confs certs =
      let (dynamic_certs, errors) = parse_certificates chains confs in
      let msg_list = map (λ item. item.1 ++ (str "(" ++ (item.0 ++ str ")"))) errors in
      (dynamic_certs, updated certs dynamic_certs, join (str ";") msg_list)

  abbrev pub info_key : Str → TlsCertificate lib pem → Str
  info_key name cert = elim cert.name [ none ↦ name | some value ↦ value ]

  unfoldable pub get_certificate_info_list : DynamicCertificates → List (Str × Certificate)
  get_certificate_info_list [] = []
  get_certificate_info_list ((name, cert) ∷ certs) =
      let later = get_certificate_info_list certs in
      elim cert.info [ none ↦ later | some info ↦ (info_key name cert, info) ∷ later ]

  unfoldable pub first_of : DynamicCertificates → List Str → Option (TlsCertificate lib pem)
  unfolding get
  first_of certs [] = none
  first_of certs (item ∷ items) =
      let later = first_of certs items in
      elim (get item certs) [ none ↦ later | some cert ↦ some cert ]

  -- The certificate for a server name.
  unfoldable pub select : DynamicCertificates → Str → Option (TlsCertificate lib pem)
  unfolding first_of wildcard_sni
  select certs sni = first_of certs (sni ∷ wildcard_sni sni ∷ default_server_name ∷ [])

  -- What the handshake takes: a certificate and its key, and the chain.
  pub record Offer : Type 0 where
    pub cert : lib.X509
    pub key : lib.Key
    pub chain : Option lib.X509

  abbrev pub unwrap_sni : Option Str → Str
  unwrap_sni none = default_server_name
  unwrap_sni (some sni) = sni

  abbrev own_offer : TlsCertificate lib pem → Option Offer
  own_offer d = elim d.certificate [
    | none ↦ none
    | some (cert, key) ↦ some (record { cert = cert; key = key; chain = d.chain_certificate })
  ]

  abbrev signed_offer :
      TlsCertificate lib pem → Result Error (SelfSignedCertificate lib) → Option Offer
  signed_offer d (err failure) = none
  signed_offer d (ok found) =
      some (record { cert = found.x509; key = found.key; chain = d.chain_certificate })

  -- `certificate_callback`, with the store of signed certificates.
  unfoldable pub certificate_callback :
      DynamicCertificates → Signed lib → Option Str → Signed lib × Option Offer
  unfolding select get_self_signed_certificate
  certificate_callback certs signed servername =
      let sni = unwrap_sni servername in
      elim (select certs sni) [
        | none ↦ (signed, none)
        | some d ↦
            if d.is_ca
            then (let (signed', found) = get_self_signed_certificate lib pem signed d sni in
                (signed', signed_offer d found))
            else (signed, own_offer d)
      ]

  abbrev buffer_of : ℕ → ℕ
  buffer_of buffer_days = (if buffer_days == 0 then 7 else buffer_days) * (24 * 3600)

  -- Whether a certificate is reported at a time: it ends soon or has not begun.
  abbrev pub is_reported : ℕ → TlsCertificate lib pem → Bool
  is_reported now cert = elim cert.info [
    | none ↦ false
    | some info ↦
        if not (is_none info.acme)
        then false
        else ltb info.not_after (now + buffer_of cert.buffer_days) || ltb now info.not_before
  ]

  unfoldable pub reported : ℕ → DynamicCertificates → List Str
  reported now [] = []
  reported now ((name, cert) ∷ certs) =
      let later = reported now certs in if is_reported now cert then name ∷ later else later

  -- `do_validity_check` at a time: whether it checked, and the message that is sent, if any.
  unfoldable pub do_validity_check : ℕ → ℕ → DynamicCertificates → Bool × Option Str
  unfolding reported
  do_validity_check count now certs =
      if not (count % (24 * 60) == 0) then (false, none) else elim (reported now certs) [
        | [] ↦ (true, none)
        | name ∷ names ↦ (
          true,
          some (str "certificate " ++ (join (str ",") (name ∷ names) ++ str " will be expired")),
        )
      ]
