-- ===== src/Config/Validate/Sound.antt =====
-- What the checks of a configuration ensure: `PingapConf::validate` of
-- pingap-config/src/common.rs.
use mathlib.Core.List.{append_assoc, append-nil}
use pingap.Common.{
  ◌≡◌, ◌≢◌, refl, sym, ap, subst, ◌∙◌, inl, inr, true, false, Option, none, some, List, [], ◌∷◌,
  ◌++◌, arith,
}
use pingap.Common.Tests.{Bool-cases, some≢none}
use pingap.Common.Text.{Str, str_eq, str_eq_iff, split, includes, unwrap_or_default}
use pingap.Common.Lists.{All, All-map}
use pingap.Common.Map.{Map, get}
use pingap.Common.Results.{ok, Result-cases, err≢ok, ok_inj}
use pingap.Config.Conf.{LocationConf, ServerConf}
use pingap.Config.Error.{io}
use pingap.Config.Pingap.{PingapConf, lists, is_upstream}
use pingap.Config.Pingap.Links.{IsKnown, Values, IsLinked, is_exempt, none_exempt}
use pingap.Config.Toml.{TomlLib}
use pingap.Config.Validate.{
  Checked, each, names, is_missing, map_err, check_location, check_locations, validate_location,
  validate_upstream, validate_server, take_addrs, validate_servers, validate,
}
use pingap.External.{RegexLib, UrlLib, HttpLib, NetLib, PemLib}

each-All :
    {A : Type 0} (check : A → Checked) (xs : List A)
    → each check xs ≡ ok tt
    → All (λ x. check x ≡ ok tt) xs
unfolding each
each-All check [] done = tt
each-All check (x ∷ xs) done = elim (Result-cases (check x)) [
  | inr (failure, e) ↦ absurd (err≢ok (rw e at done))
  | inl (passed, e) ↦ (e, each-All check xs (rw e at done))
]

-- A name among those of a map has an entry.
includes-names :
    {V : Type 0} (name : Str) (m : Map V) → includes (names m) name ≡ true → get name m ≢ none
unfolding includes get
includes-names name [] h e = absurd (ground arith)
includes-names name ((n, v) ∷ m) h e = elim (Bool-cases (str_eq n name)) [
  | inl same ↦ some≢none (rw same at e)
  | inr differs ↦ includes-names name m (rw differs at h) (rw differs at e)
]

-- The addresses that the servers listen on.
unfoldable pub listen_addrs : Map ServerConf → List Str
unfolding split
listen_addrs [] = []
listen_addrs ((name, server) ∷ servers) = split 0x2c server.addr ++ listen_addrs servers

abbrev pub AreDistinct : List Str → Type 0
AreDistinct [] = Unit
AreDistinct (a ∷ xs) = (includes xs a ≡ false) × AreDistinct xs

includes-snoc :
    (xs : List Str) (a b : Str)
    → includes xs a ≡ false
    → str_eq b a ≡ false
    → includes (xs ++ (b ∷ [])) a ≡ false
unfolding includes
includes-snoc [] a b h d = ground arith
includes-snoc (x ∷ xs) a b h d = ground (arith, includes-snoc xs a b)

AreDistinct-snoc :
    (xs : List Str) (a : Str)
    → includes xs a ≡ false
    → AreDistinct xs
    → AreDistinct (xs ++ (a ∷ []))
unfolding includes
AreDistinct-snoc [] a fresh d = (refl, tt)
AreDistinct-snoc (x ∷ xs) a fresh (h, d) =
    let other : str_eq a x ≡ false = ground (arith, str_eq_iff a x, str_eq_iff x a) in
    (includes-snoc xs x a h other, AreDistinct-snoc xs a (ground arith) d)

take_addrs-AreDistinct :
    (addrs listed listed' : List Str)
    → take_addrs addrs listed ≡ ok listed'
    → AreDistinct listed
    → (listed' ≡ listed ++ addrs) × AreDistinct listed'
unfolding take_addrs
take_addrs-AreDistinct [] listed listed' done d =
    let e : listed ≡ listed' = ok_inj done in
    (sym e ∙ sym (append-nil listed), subst AreDistinct e d)
take_addrs-AreDistinct (a ∷ addrs) listed listed' done d = elim (Bool-cases (includes listed a)) [
  | inl used ↦ absurd (err≢ok (rw used at done))
  | inr fresh ↦
      let (e, d') =
        take_addrs-AreDistinct addrs (listed ++ (a ∷ [])) listed' (rw fresh at done)
          (AreDistinct-snoc listed a fresh d) in
      (e ∙ append_assoc listed (a ∷ []) addrs, d')
]

module _ (net : NetLib) (location_names : List Str) where
  servers-AreDistinct :
      (servers : Map ServerConf) (listed : List Str)
      → validate_servers net location_names servers listed ≡ ok tt
      → AreDistinct listed
      → AreDistinct (listed ++ listen_addrs servers)
        × All (λ entry. validate_server net location_names entry.0 entry.1 ≡ ok tt) servers
  unfolding validate_servers listen_addrs
  servers-AreDistinct [] listed done d = (subst AreDistinct (sym (append-nil listed)) d, tt)
  servers-AreDistinct ((name, server) ∷ servers) listed done d =
      elim (Result-cases (take_addrs (split 0x2c server.addr) listed)) [
        | inr (failure, e) ↦ absurd (err≢ok (rw e at done))
        | inl (listed', e) ↦ elim (Result-cases (validate_server net location_names name server)) [
          | inr (failure, e') ↦ absurd (err≢ok (rw (e, e') at done))
          | inl (passed, e') ↦
              let (grown, d') =
                take_addrs-AreDistinct (split 0x2c server.addr) listed listed' e d in
              let (d'', rest) = servers-AreDistinct servers listed' (rw (e, e') at done) d' in
              (
                subst AreDistinct
                    (ap (λ l. l ++ listen_addrs servers) grown
                      ∙ append_assoc listed (split 0x2c server.addr) (listen_addrs servers))
                    d'',
                (e', rest),
              )
        ]
      ]

  -- A server that passes lists only locations of the configuration.
  server-includes :
      (name : Str) (server : ServerConf)
      → validate_server net location_names name server ≡ ok tt
      → check_locations location_names name server.locations ≡ ok tt
  unfolding validate_server
  server-includes name server done =
      elim (Result-cases (
        each (λ addr. map_err (λ source. io source server.addr) (net.to_socket_addrs addr))
          (split 0x2c server.addr))) [
            | inr (failure, e) ↦ absurd (err≢ok (rw e at done))
            | inl (passed, e) ↦ rw e at done
          ]

All-includes : (P : Str → Type 0) (xs : List Str) (k : Str) → All P xs → includes xs k ≡ true → P k
unfolding includes
All-includes P [] k a h = absurd (ground arith)
All-includes P (x ∷ xs) k (p, a) h = elim (Bool-cases (str_eq x k)) [
  | inl same ↦ subst P ((str_eq_iff x k).0 same) p
  | inr differs ↦ All-includes P xs k a (rw differs at h)
]

check_locations-includes :
    (location_names : List Str) (name : Str) (locations : Option (List Str)) (item : Str)
    → check_locations location_names name locations ≡ ok tt
    → lists locations item ≡ true
    → includes location_names item ≡ true
unfolding check_locations
check_locations-includes location_names name none item done used = absurd (ground arith)
check_locations-includes location_names name (some locations) item done used =
    let passed =
      All-includes (λ l. check_location location_names name l ≡ ok tt) locations item
        (each-All (check_location location_names name) locations done) used in
    elim (Bool-cases (includes location_names item)) [
      | inl known ↦ known
      | inr missing ↦ absurd (err≢ok (rw missing at passed))
    ]

-- An upstream that is not missing has its name in the list, unless the name needs no entry.
is_missing-includes :
    (upstream_names : List Str) (upstream : Option Str) (item : Str)
    → is_missing upstream_names (unwrap_or_default upstream) ≡ false
    → is_upstream upstream item ≡ true
    → is_exempt item ≡ false
    → includes upstream_names item ≡ true
unfolding includes
is_missing-includes upstream_names none item known used counts = absurd (ground arith)
is_missing-includes upstream_names (some u) [] known used counts = absurd (ground arith)
is_missing-includes upstream_names (some u) (c ∷ item) known used counts =
    let same = (str_eq_iff u (c ∷ item)).0 used in
    ground (arith, subst (λ n. is_missing upstream_names n ≡ false) same known)

server-IsKnown :
    {V : Type 0} (net : NetLib) (locations : Map V) (name : Str) (server : ServerConf)
    → validate_server net (names locations) name server ≡ ok tt
    → IsKnown locations none_exempt (lists server.locations)
server-IsKnown net locations name server done item used counts = includes-names item locations (
    check_locations-includes (names locations) name server.locations item
      (server-includes net (names locations) name server done) used)

module _ (rx : RegexLib) (http : HttpLib) where
  location-IsKnown :
      {V : Type 0} (upstreams : Map V) (name : Str) (l : LocationConf)
      → validate_location rx http (names upstreams) name l ≡ ok tt
      → IsKnown upstreams is_exempt (is_upstream l.upstream)
  unfolding validate_location
  location-IsKnown upstreams name l done item used counts =
      elim (Bool-cases (is_missing (names upstreams) (unwrap_or_default l.upstream))) [
        | inl missing ↦ absurd (err≢ok (rw missing at done))
        | inr known ↦
            includes-names item upstreams
              (is_missing-includes (names upstreams) l.upstream item known used counts)
      ]

module _ (rx : RegexLib) (http : HttpLib) (net : NetLib) (urls : UrlLib) (pem : PemLib)
    (toml : TomlLib) where
  -- A configuration that passes the checks has an entry for each upstream that a location names,
  -- unless the name is empty or stands for a variable, and for each location that a server names,
  -- and no two of its listen addresses are the same, within a server or across servers. The checks
  -- leave out plugins: that each plugin named has an entry is a condition.
  pub validate-IsLinked :
      (self : PingapConf toml.Value)
      → Values (λ l. IsKnown self.plugins none_exempt (lists l.plugins)) self.locations
      → validate rx http net urls pem toml self ≡ ok tt
      → IsLinked toml.Value self × AreDistinct (listen_addrs self.servers)
  unfolding validate
  validate-IsLinked self plugins done =
      elim (Result-cases
        (each (λ entry. validate_upstream net urls entry.0 entry.1) self.upstreams)) [
          | inr (failure, e) ↦ absurd (err≢ok (rw e at done))
          | inl (passed, e) ↦
              elim (Result-cases (
                each (λ entry. validate_location rx http (names self.upstreams) entry.0 entry.1)
                  self.locations)) [
                    | inr (failure, e') ↦ absurd (err≢ok (rw (e, e') at done))
                    | inl (passed', e') ↦
                        elim (Result-cases
                          (validate_servers net (names self.locations) self.servers [])) [
                            | inr (failure, e'') ↦ absurd (err≢ok (rw (e, e', e'') at done))
                            | inl (passed'', e'') ↦
                                let located =
                                  each-All
                                    (λ entry.
                                      validate_location rx http (names self.upstreams) entry.0
                                        entry.1)
                                    self.locations e' in
                                let (distinct, served) =
                                  servers-AreDistinct net (names self.locations) self.servers [] e''
                                    tt in
                                (
                                  record {
                                    upstreams =
                                        All-map
                                          (λ entry.
                                            location-IsKnown rx http self.upstreams entry.0 entry.1)
                                          self.locations located;
                                    plugins = plugins;
                                    locations =
                                        All-map
                                          (λ entry.
                                            server-IsKnown net self.locations entry.0 entry.1)
                                          self.servers served;
                                  },
                                  distinct,
                                )
                          ]
                  ]
        ]
