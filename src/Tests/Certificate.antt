-- ===== src/Tests/Certificate.antt =====
-- The store of certificates and the choice for a server name on a concrete configuration:
-- pingap-certificate/src.
use pingap.Common.{ℕ, ◌≡◌, refl, true, false, none, some, List, [], ◌∷◌, arith}
use pingap.Common.Text.{Str, str, str_eq, starts_with, split, split_once, join, as_bytes}
use pingap.Common.Map.{Map, get, insert, update}
use pingap.Common.Results.{ok}
use pingap.Certificate.X509.{
  X509Lib, dns_name, ip_address, Chains, new, valid, parse_chain_certificate, try_from,
}
use pingap.Certificate.SelfSigned.{
  format_common_name, SelfSignedCertificate, Signed, find_signed, add_signed, aged, age_all,
  do_self_signed_certificate_validity, get_self_signed_certificate,
}
use pingap.Certificate.SelfSigned.Stale.{format_common_name-wildcard_sni, age_all-find_signed}
use pingap.Certificate.Store.{
  insert_each, parse_from, parse_certificates, updated, try_update_certificates, wildcard_sni,
  first_of, select, certificate_callback, reported, do_validity_check,
}
use pingap.Certificate.Store.Sources.{Choice, select-Choice}
use pingap.Config.Pingap.{CertificateConf}
use pingap.Tests.Loading.{pem, certificate}

code : Unit {0}
unfolding str_eq starts_with split split_once join as_bytes get insert update new valid
    parse_chain_certificate try_from format_common_name find_signed add_signed aged age_all
    do_self_signed_certificate_validity get_self_signed_certificate insert_each parse_from
    parse_certificates updated try_update_certificates wildcard_sni first_of select
    certificate_callback reported do_validity_check
code = tt

-- A certificate and a key are their bytes, all texts are for the host a.b.c and one address, and
-- the hash of a configuration is its certificate.
abbrev lib : X509Lib
lib = record {
  X509 = List ℕ;
  Key = List ℕ;
  from_pem = λ bytes. ok bytes;
  private_key_from_pem = λ bytes. ok bytes;
  parse_x509_pem = λ bytes. ok bytes;
  parse_x509 = λ der. ok (record {
    subject_alternative_name =
        some (dns_name (str "a.b.c") ∷ ip_address (1 ∷ 1 ∷ 1 ∷ 1 ∷ []) ∷ ip_address [] ∷ []);
    not_before = 1000;
    not_after = 9000000;
    issuer = [];
  });
  issue = λ ca key cn. ok (cn, key, 9000000);
  common_name = λ issuer. none;
  show_ip = λ bytes. str "1.1.1.1";
  quote = λ s. s;
  from_utf8 = λ bytes. some bytes;
  to_uppercase = λ s. s;
  hash_key = λ conf. elim conf.tls_cert [ none ↦ [] | some cert ↦ cert ];
}

abbrev chains : Chains lib pem
chains = record { e5 = none; e6 = none; r10 = none; r11 = none }

abbrev pair : Str → CertificateConf
pair text = record certificate { tls_cert = some text; tls_key = some (str "-----key") }

abbrev confs : Map CertificateConf
confs =
    (str "own", pair (str "-----own"))
    ∷ (str "wild", record (pair (str "-----wild")) { domains = some (str "*.x.y,x.y") })
    ∷ (str "ca", record (pair (str "-----ca")) { is_ca = some true; is_default = some true })
    ∷ (str "keyless", record certificate { tls_cert = some (str "-----none") })
    ∷ []

select-Choice_example :
    Choice lib pem chains confs
      (str "q.x.y" ∷ str "*.x.y" ∷ str "*" ∷ [])
      (select lib pem (parse_certificates lib pem chains confs).0 (str "q.x.y"))
unfolding code
select-Choice_example = select-Choice lib pem chains confs (str "q.x.y")

format_common_name-wildcard_sni_example :
    format_common_name (str "www.a.com") ≡ wildcard_sni (str "www.a.com")
format_common_name-wildcard_sni_example =
    format_common_name-wildcard_sni (str "www") (str "a") (str "com") (refl, (refl, (refl, tt)))
      (refl, tt)

abbrev signed : SelfSignedCertificate lib
signed = record { x509 = []; key = []; stale = false; count = 0; not_after = 500 }

abbrev store : Signed lib
store = (str "Some(ca):*.a.com", signed) ∷ []

abbrev name : Str
name = str "Some(ca):*.a.com"

age_all-find_signed_example :
    (get name (age_all lib 200 (age_all lib 100 store)) ≡ none)
    × ((w : SelfSignedCertificate lib) × (get name
            (age_all lib 200 (find_signed lib (age_all lib 100 store) name).0)
          ≡ some w))
unfolding code
age_all-find_signed_example =
    age_all-find_signed lib store (refl, tt) name signed refl refl refl 100 200 (omega arith)
      (omega arith)

-- Of two certificates with a name the last one has it, here an authority, which signs a certificate
-- for the wildcard of the name, as for a name that it has by default. No name is listed as updated
-- after one whose certificate has not changed, although the store has the new one.
store_tests :
    ((certificate_callback lib pem
        (parse_certificates lib pem chains confs).0
        []
        (some (str "a.b.c"))).1
      ≡ some (record { cert = str "*.b.c"; key = as_bytes (str "-----key"); chain = none }))
    × ((certificate_callback lib pem
          (parse_certificates lib pem chains confs).0
          []
          (some (str "www.a.com"))).1
        ≡ some (record { cert = str "*.a.com"; key = as_bytes (str "-----key"); chain = none }))
    × ((try_update_certificates lib pem chains
          ((str "1", pair (str "-----own"))
            ∷ (str "2", record (pair (str "-----new")) { domains = some (str "z") })
            ∷ [])
          (parse_certificates lib pem chains ((str "1", pair (str "-----own")) ∷ [])).0).1
        ≡ [])
    × (do_validity_check lib pem 0 8999000
          (parse_certificates lib pem chains ((str "1", pair (str "-----own")) ∷ [])).0
        ≡ (true, some (str "certificate 1.1.1.1,a.b.c will be expired")))
unfolding code
store_tests = (refl, refl, refl, refl)
