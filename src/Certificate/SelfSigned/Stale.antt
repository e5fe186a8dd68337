-- ===== src/Certificate/SelfSigned/Stale.antt =====
-- The common names of signed certificates and how long the certificates are kept:
-- pingap-certificate/src/self_signed.rs and tls_certificate.rs.
use pingap.Common.{
  ℕ, ◌≤◌, ◌≡◌, refl, sym, ap, subst, ◌∙◌, inl, inr, true, false, Option, none, some, List, [], ◌∷◌,
  ◌++◌, arith,
}
use pingap.Common.Tests.{Bool-cases, Option-cases, ◌==◌}
use pingap.Common.Text.{Str, str, str_eq, str_eq_iff, str_eq_refl, split, split_once, join}
use pingap.Common.Splits.{IsFree, split-append, split-parts, join-split}
use pingap.Common.Map.{get, update, get-update, HasDistinctKeys}
use pingap.Certificate.X509.{X509Lib}
use pingap.Certificate.SelfSigned.{
  format_common_name, SelfSignedCertificate, Signed, aged, age_all, find_signed, used,
}
use pingap.Certificate.Store.{after_dot, wildcard_sni}

split_once-append :
    (d : ℕ) (p rest : Str) → IsFree d p → split_once d (p ++ (d ∷ rest)) ≡ some (p, rest)
unfolding split_once
split_once-append d [] rest free =
    let same : (d == d) ≡ true = ground arith in rw (split_once, same) refl
split_once-append d (c ∷ p) rest free =
    rw (split_once, free.0, split_once-append d p rest free.1) refl

wildcard_sni_of_free :
    (first tail : Str)
    → IsFree 0x2e first
    → wildcard_sni (first ++ (0x2e ∷ tail)) ≡ str "*." ++ tail
unfolding wildcard_sni
wildcard_sni_of_free first tail free =
    rw (wildcard_sni, after_dot, split_once-append 0x2e first tail free) refl

format_common_name_of_parts :
    (name first second third : Str) (rest : List Str)
    → split 0x2e name ≡ first ∷ second ∷ third ∷ rest
    → format_common_name name ≡ str "*." ++ join (str ".") (second ∷ third ∷ rest)
unfolding format_common_name
format_common_name_of_parts name first second third rest parts = rw (format_common_name, parts) refl

-- The name for which an authority signs a certificate is the wildcard that the choice for the same
-- server name tries, if the server name has at least two dots.
pub format_common_name-wildcard_sni :
    (first second rest : Str)
    → IsFree 0x2e first
    → IsFree 0x2e second
    → format_common_name (first ++ (0x2e ∷ (second ++ (0x2e ∷ rest))))
      ≡ wildcard_sni (first ++ (0x2e ∷ (second ++ (0x2e ∷ rest))))
format_common_name-wildcard_sni first second rest free free' =
    let tail = second ++ (0x2e ∷ rest) in
    let (p, ps, parts) = split-parts 0x2e rest in
    let below : split 0x2e tail ≡ second ∷ p ∷ ps =
      split-append 0x2e second rest free' ∙ ap (λ l. second ∷ l) parts in
    let whole : split 0x2e (first ++ (0x2e ∷ tail)) ≡ first ∷ second ∷ p ∷ ps =
      split-append 0x2e first tail free ∙ ap (λ l. first ∷ l) below in
    format_common_name_of_parts (first ++ (0x2e ∷ tail)) first second p ps whole
    ∙ (ap (λ t. str "*." ++ t) (ap (join (str ".")) (sym below) ∙ join-split 0x2e tail)
        ∙ sym (wildcard_sni_of_free first tail free))

module _ (lib : X509Lib) where
  abbrev bind_option : {A B : Type 0} → Option A → (A → Option B) → Option B
  bind_option none f = none
  bind_option (some a) f = f a

  get-age_all :
      (expired : ℕ) (m : Signed lib)
      → HasDistinctKeys m
      → (k : Str) → get k (age_all lib expired m) ≡ bind_option (get k m) (aged lib expired)
  unfolding age_all get
  get-age_all expired [] distinct k = refl
  get-age_all expired ((j, v) ∷ m) (fresh, distinct) k =
      let rest = get-age_all expired m distinct k in
      elim (Bool-cases (str_eq j k)) [
        | inl same ↦
            let gone : get k m ≡ none =
              subst (λ i. get i m ≡ none) ((str_eq_iff j k).0 same) fresh in
            elim (Option-cases (aged lib expired v)) [
              | inl dropped ↦ rw (age_all, dropped, same, rest, gone) (sym dropped)
              | inr (v', kept) ↦ rw (age_all, kept, get, same) (sym kept)
            ]
        | inr other ↦ elim (Option-cases (aged lib expired v)) [
          | inl dropped ↦ rw (age_all, dropped, other) rest
          | inr (v', kept) ↦ rw (age_all, kept, get, other) rest
        ]
      ]

  -- A key of the checked store is one of the store.
  age_all-HasDistinctKeys :
      (expired : ℕ) (m : Signed lib) → HasDistinctKeys m → HasDistinctKeys (age_all lib expired m)
  unfolding age_all get
  age_all-HasDistinctKeys expired [] distinct = tt
  age_all-HasDistinctKeys expired ((j, v) ∷ m) (fresh, distinct) =
      elim (Option-cases (aged lib expired v)) [
        | inl dropped ↦ rw (age_all, dropped) (age_all-HasDistinctKeys expired m distinct)
        | inr (v', kept) ↦
            rw (age_all, kept)
              (
                rw (get-age_all expired m distinct j, fresh) refl,
                age_all-HasDistinctKeys expired m distinct,
              )
      ]

  update-HasDistinctKeys :
      (k : Str) (f : SelfSignedCertificate lib → SelfSignedCertificate lib) (m : Signed lib)
      → HasDistinctKeys m
      → HasDistinctKeys (update k f m)
  unfolding update
  update-HasDistinctKeys k f [] distinct = tt
  update-HasDistinctKeys k f ((j, v) ∷ m) (fresh, distinct) = elim (Bool-cases (str_eq j k)) [
    | inl same ↦ rw (update, same) (fresh, distinct)
    | inr other ↦
        let apart : str_eq k j ≡ false = ground (arith, str_eq_iff k j, str_eq_iff j k) in
        rw (update, other)
          (rw (get-update k j f m, apart) fresh, update-HasDistinctKeys k f m distinct)
  ]

  aged_of_fresh :
      (expired : ℕ) (v : SelfSignedCertificate lib)
      → v.stale ≡ false
      → v.count ≡ 0
      → expired ≤ v.not_after
      → aged lib expired v ≡ some (record v { stale = true })
  unfolding aged
  aged_of_fresh expired v fresh unused h = ground arith

  aged_of_stale :
      (expired : ℕ) (v : SelfSignedCertificate lib)
      → v.count ≡ 0
      → aged lib expired (record v { stale = true }) ≡ none
  unfolding aged
  aged_of_stale expired v unused = ground arith

  aged_of_used :
      (expired : ℕ) (v : SelfSignedCertificate lib)
      → v.count ≡ 0
      → expired ≤ v.not_after
      → aged lib expired (used lib (record v { stale = true }))
        ≡ some (record v { stale = false; count = 0 })
  unfolding aged
  aged_of_used expired v unused h = ground arith

  -- Of a certificate that was just signed and is not used, the first check makes it stale and the
  -- second drops it, and one that is used between the checks stays, if it does not expire; no two
  -- entries of the store have the same key.
  pub age_all-find_signed :
      (m : Signed lib)
      → HasDistinctKeys m
      → (k : Str) (v : SelfSignedCertificate lib) → get k m ≡ some v
      → v.stale ≡ false
      → v.count ≡ 0
      → (now later : ℕ) → now ≤ v.not_after
      → later ≤ v.not_after
      → (get k (age_all lib later (age_all lib now m)) ≡ none)
        × ((w : SelfSignedCertificate lib) × (get k
                (age_all lib later (find_signed lib (age_all lib now m) k).0)
              ≡ some w))
  unfolding find_signed
  age_all-find_signed m distinct k v here fresh unused now later h h' =
      let once : get k (age_all lib now m) ≡ some (record v { stale = true }) =
        rw (get-age_all now m distinct k, here) (aged_of_fresh now v fresh unused h) in
      let distinct' = age_all-HasDistinctKeys now m distinct in
      let distinct'' = update-HasDistinctKeys k (used lib) (age_all lib now m) distinct' in
      (
        rw (get-age_all later (age_all lib now m) distinct' k, once) (aged_of_stale later v unused),
        (
          record v { stale = false; count = 0 },
          rw
              (
                get-age_all later (update k (used lib) (age_all lib now m)) distinct'' k,
                get-update k k (used lib) (age_all lib now m),
                str_eq_refl k,
                once,
              )
              (aged_of_used later v unused h'),
        ),
      )
