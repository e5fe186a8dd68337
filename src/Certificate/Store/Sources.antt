-- ===== src/Certificate/Store/Sources.antt =====
-- Where the certificate for a server name comes from:
-- pingap-certificate/src/dynamic_certificate.rs.
use pingap.Common.{
  ◌≡◌, ◌≢◌, refl, sym, subst, ◌∙◌, ◌⊎◌, inl, inr, true, false, ◌||◌, Option, none, some, List, [],
  ◌∷◌, ◌++◌, arith,
}
use pingap.Common.Tests.{Bool-cases, Option-cases, some≢none, some_inj, if◌then◌else◌}
use pingap.Common.Text.{Str, includes}
use pingap.Common.Map.{Map, get, insert, get-insert}
use pingap.Common.Results.{ok, Result-cases, ok_inj, err≢ok}
use pingap.Certificate.X509.{X509Lib, Chains, TlsCertificate, try_from, show_error}
use pingap.Certificate.Store.{
  DynamicCertificates, insert_each, keys_of, named, is_none, parse_from, parse_certificates,
  first_of, wildcard_sni, default_server_name, select,
}
use pingap.Config.Pingap.{CertificateConf}
use pingap.External.{PemLib}

get-insert_each :
    {V : Type 0} (k : Str) (names : List Str) (v : V) (m : Map V)
    → get k (insert_each names v m) ≡ (if includes names k then some v else get k m)
unfolding insert_each includes
get-insert_each k [] v m = refl
get-insert_each k (name ∷ names) v m =
    ground (arith, get-insert_each k names v (insert name v m), get-insert name k v m)

module _ {V : Type 0} (k : Str) (names : List Str) (v : V) (m : Map V) where
  get-insert_each_of_listed : includes names k ≡ true → get k (insert_each names v m) ≡ some v
  get-insert_each_of_listed listed = rw (get-insert_each k names v m, listed) refl

  get-insert_each_of_other : includes names k ≡ false → get k (insert_each names v m) ≡ get k m
  get-insert_each_of_other other = rw (get-insert_each k names v m, other) refl

  get-insert_each-kept : get k m ≢ none → get k (insert_each names v m) ≢ none
  get-insert_each-kept before gone = elim (Bool-cases (includes names k)) [
    | inl listed ↦ some≢none (sym (get-insert_each_of_listed listed) ∙ gone)
    | inr other ↦ before (sym (get-insert_each_of_other other) ∙ gone)
  ]

true≢false : true ≡ false → ⊥
true≢false h = ground arith

module _ (lib : X509Lib) (pem : PemLib) (chains : Chains lib pem) where
  -- A configured certificate that has a key, can be read and is put under a name.
  abbrev pub IsFrom : Str → CertificateConf → Str → TlsCertificate lib pem → Type 0
  IsFrom name conf k cert =
      ((is_none conf.tls_cert || is_none conf.tls_key) ≡ false)
      × ((found : TlsCertificate lib pem) × (try_from lib pem chains conf ≡ ok found)
          × (named lib pem name found ≡ cert)
          × (includes (keys_of lib pem conf found) k ≡ true))

  -- One of the configured certificates is that under the name.
  abbrev pub Source : Map CertificateConf → Str → TlsCertificate lib pem → Type 0
  Source [] k cert = ⊥
  Source ((name, conf) ∷ confs) k cert = IsFrom name conf k cert ⊎ Source confs k cert

  get-parse_from :
      (confs : Map CertificateConf) (k : Str) (cert : TlsCertificate lib pem)
      (certs : DynamicCertificates lib pem) (errors : List (Str × Str))
      → get k (parse_from lib pem chains confs certs errors).0 ≡ some cert
      → Source confs k cert ⊎ (get k certs ≡ some cert)
  unfolding parse_from
  get-parse_from [] k cert certs errors h = inr h
  get-parse_from ((name, conf) ∷ confs) k cert certs errors h =
      elim (Bool-cases (is_none conf.tls_cert || is_none conf.tls_key)) [
        | inl absent ↦ elim (get-parse_from confs k cert certs errors (rw absent at h)) [
          | inl later ↦ inl (inr later)
          | inr before ↦ inr before
        ]
        | inr present ↦ elim (Result-cases (try_from lib pem chains conf)) [
          | inr (failure, e) ↦
              elim (get-parse_from confs k cert certs (errors ++ ((name, show_error failure) ∷ []))
                (rw (present, e) at h)) [ inl later ↦ inl (inr later) | inr before ↦ inr before ]
          | inl (found, e) ↦
              let v = named lib pem name found in
              let keys = keys_of lib pem conf found in
              elim (get-parse_from confs k cert (insert_each keys v certs) errors
                (rw (present, e) at h)) [
                  | inl later ↦ inl (inr later)
                  | inr before ↦ elim (Bool-cases (includes keys k)) [
                    | inl listed ↦ inl (
                        inl (
                          present,
                          (
                            found,
                            e,
                            some_inj
                                (sym (get-insert_each_of_listed k keys v certs listed) ∙ before),
                            listed,
                          ),
                        ))
                    | inr other ↦ inr (sym (get-insert_each_of_other k keys v certs other) ∙ before)
                  ]
                ]
        ]
      ]

  -- A name that has a source, or had a certificate before, has one after the loop.
  get-parse_from_of_Source :
      (confs : Map CertificateConf) (k : Str) (cert : TlsCertificate lib pem)
      (certs : DynamicCertificates lib pem) (errors : List (Str × Str))
      → Source confs k cert ⊎ (get k certs ≢ none)
      → get k (parse_from lib pem chains confs certs errors).0 ≢ none
  unfolding parse_from
  get-parse_from_of_Source [] k cert certs errors (inl none_there) = elim none_there [ ]
  get-parse_from_of_Source [] k cert certs errors (inr before) = before
  get-parse_from_of_Source ((name, conf) ∷ confs) k cert certs errors from =
      elim (Bool-cases (is_none conf.tls_cert || is_none conf.tls_key)) [
        | inl absent ↦ rw absent (
            get-parse_from_of_Source confs k cert certs errors (elim from [
              | inl (inl here) ↦ absurd (true≢false (sym absent ∙ here.0))
              | inl (inr later) ↦ inl later
              | inr before ↦ inr before
            ]))
        | inr present ↦ elim (Result-cases (try_from lib pem chains conf)) [
          | inr (failure, e) ↦
              rw (present, e)
                (get-parse_from_of_Source confs k cert certs
                  (errors ++ ((name, show_error failure) ∷ []))
                  (elim from [
                    | inl (inl here) ↦ absurd (err≢ok (sym e ∙ here.1.1))
                    | inl (inr later) ↦ inl later
                    | inr before ↦ inr before
                  ]))
          | inl (found, e) ↦
              let keys = keys_of lib pem conf found in
              let v = named lib pem name found in
              rw (present, e)
                (get-parse_from_of_Source confs k cert (insert_each keys v certs) errors
                  (elim from [
                    | inl (inl (there, (found', e', is, listed))) ↦ inr (λ gone. some≢none (
                        sym (
                          get-insert_each_of_listed k keys v certs (
                            subst (λ f. includes (keys_of lib pem conf f) k ≡ true)
                              (ok_inj (sym e' ∙ e)) listed))
                        ∙ gone))
                    | inl (inr later) ↦ inl later
                    | inr before ↦ inr (get-insert_each-kept k keys v certs before)
                  ]))
        ]
      ]

  -- The first name of a list that has a source, with a certificate under it; none if no name has
  -- one.
  abbrev pub Choice : Map CertificateConf → List Str → Option (TlsCertificate lib pem) → Type 0
  Choice confs [] none = Unit
  Choice confs [] (some cert) = ⊥
  Choice confs (item ∷ items) found =
      ((cert : TlsCertificate lib pem) × (found ≡ some cert) × Source confs item cert)
      ⊎ (((cert : TlsCertificate lib pem) → Source confs item cert → ⊥) × Choice confs items found)

  first_of-Choice :
      (confs : Map CertificateConf) (items : List Str)
      → Choice confs items (first_of lib pem (parse_from lib pem chains confs [] []).0 items)
  unfolding first_of get
  first_of-Choice confs [] = tt
  first_of-Choice confs (item ∷ items) =
      let certs = (parse_from lib pem chains confs [] []).0 in
      elim (Option-cases (get item certs)) [
        | inl missing ↦
            rw (first_of, missing)
              (inr (
                (λ cert source.
                    get-parse_from_of_Source confs item cert [] [] (inl source) missing),
                first_of-Choice confs items,
              ))
        | inr (cert, here) ↦
            rw (first_of, here)
              (inl (
                cert,
                refl,
                elim (get-parse_from confs item cert [] [] here) [
                  | inl source ↦ source
                  | inr before ↦ absurd (some≢none (sym before))
                ],
              ))
      ]

  -- The certificate for a server name is that of a configured certificate with a key that can be
  -- read: one with the name itself among its domains, if there is any, else one with the wildcard
  -- of the name, else a default one or one with the domain *; there is none only if no configured
  -- certificate has any of these names.
  pub select-Choice :
      (confs : Map CertificateConf) (sni : Str)
      → Choice confs
          (sni ∷ wildcard_sni sni ∷ default_server_name ∷ [])
          (select lib pem (parse_certificates lib pem chains confs).0 sni)
  unfolding select parse_certificates
  select-Choice confs sni =
      first_of-Choice confs (sni ∷ wildcard_sni sni ∷ default_server_name ∷ [])
