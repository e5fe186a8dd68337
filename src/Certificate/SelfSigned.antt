-- ===== src/Certificate/SelfSigned.antt =====
-- The certificates that an authority of the configuration signs, and their store:
-- pingap-certificate/src/self_signed.rs and the issue in tls_certificate.rs. The flag and the
-- count of a certificate are shared with its holders; here each operation is one step.
pub mod Stale
use pingap.Common.{
  ℕ, ◌*◌, ◌%◌, ◌^◌, Bool, true, false, not, Option, none, some, List, [], ◌∷◌, ◌++◌,
}
use pingap.Common.Tests.{ltb, ◌==◌, if◌then◌else◌}
use pingap.Common.Text.{Str, str, split, join}
use pingap.Common.Map.{Map, get, insert, update}
use pingap.Common.Results.{Result, ok, err}
use pingap.Common.Words.{inc32, sub64}
use pingap.Certificate.X509.{X509Lib, Error, invalid, TlsCertificate}
use pingap.External.{PemLib}

-- `format_common_name`.
unfoldable pub format_common_name : Str → Str
unfolding split join
format_common_name server_name = elim (split 0x2e server_name) [
  | [] ↦ server_name
  | first ∷ [] ↦ server_name
  | first ∷ second ∷ [] ↦ server_name
  | first ∷ second ∷ third ∷ rest ↦ str "*." ++ join (str ".") (second ∷ third ∷ rest)
]

module _ (lib : X509Lib) where
  pub record SelfSignedCertificate : Type 0 where
    pub x509 : lib.X509
    pub key : lib.Key
    pub stale : Bool
    pub count : ℕ
    pub not_after : ℕ

  abbrev pub Signed : Type 0
  Signed = Map SelfSignedCertificate

  abbrev used : SelfSignedCertificate → SelfSignedCertificate
  used v = record v { count = inc32 v.count }

  -- `get_self_signed_certificate`: the use of a certificate is counted.
  unfoldable pub find_signed : Signed → Str → Signed × Option SelfSignedCertificate
  unfolding get update
  find_signed m name = (update name used m, get name (update name used m))

  -- `add_self_signed_certificate`.
  unfoldable pub add_signed : Signed → Str → lib.X509 → lib.Key → ℕ → Signed × SelfSignedCertificate
  unfolding insert
  add_signed m name x509 key not_after =
      let v : SelfSignedCertificate = record {
        x509 = x509;
        key = key;
        stale = false;
        count = 0;
        not_after = not_after;
      } in
      (insert name v m, v)

  -- What becomes of a certificate at a check: one that expired long ago, or that was not used and
  -- is stale, is dropped.
  unfoldable pub aged : ℕ → SelfSignedCertificate → Option SelfSignedCertificate
  aged expired v =
      if ltb v.not_after expired
      then none
      else if v.count == 0
      then if v.stale then none else some (record v { stale = true })
      else some (record v { stale = false; count = 0 })

  unfoldable pub age_all : ℕ → Signed → Signed
  unfolding aged
  age_all expired [] = []
  age_all expired ((k, v) ∷ m) =
      let rest = age_all expired m in
      elim (aged expired v) [ none ↦ rest | some v' ↦ (k, v') ∷ rest ]

  -- `do_self_signed_certificate_validity` at a time, with whether it checked.
  unfoldable pub do_self_signed_certificate_validity : ℕ → ℕ → Signed → Signed × Bool
  unfolding age_all
  do_self_signed_certificate_validity count now m =
      if not (count % (24 * 60) == 0)
      then (m, false)
      else (age_all (sub64 now (2 * (24 * 3600))) m, true)

  module _ (pem : PemLib) where
    abbrev show_name : Option Str → Str
    show_name none = str "None"
    show_name (some name) = str "Some(" ++ (lib.quote name ++ str ")")

    abbrev new_certificate_with_ca :
        TlsCertificate lib pem → Str → Result Error (lib.X509 × lib.Key × ℕ)
    new_certificate_with_ca root_ca cn = elim root_ca.info [
      | none ↦ err (invalid (str "ca") (str "root ca is invalid"))
      | some info ↦ elim (lib.issue info.pem info.key cn) [
        | err source ↦ err (invalid (str "ca") source)
        | ok issued ↦ ok issued
      ]
    ]

    abbrev pub cache_key : TlsCertificate lib pem → Str → Str
    cache_key self server_name = show_name self.name ++ (str ":" ++ format_common_name server_name)

    -- `TlsCertificate::get_self_signed_certificate`.
    unfoldable pub get_self_signed_certificate :
        Signed → TlsCertificate lib pem → Str → Signed × Result Error SelfSignedCertificate
    unfolding find_signed add_signed format_common_name
    get_self_signed_certificate m self server_name =
        let (m', found) = find_signed m (cache_key self server_name) in
        elim found [
          | some cert ↦ (m', ok cert)
          | none ↦ elim (new_certificate_with_ca self (format_common_name server_name)) [
            | err failure ↦ (m', err failure)
            | ok (cert, key, not_after) ↦
                let (m'', v) = add_signed m' (cache_key self server_name) cert key not_after in
                (m'', ok v)
          ]
        ]
