-- ===== src/Location/Registry/Reload.antt =====
-- What a reload of the locations does to the map: pingap-location/src/location.rs.
use pingap.Common.{◌≡◌, subst, ◌⊎◌, inl, inr, Option, none, some, List, [], ◌∷◌, ◌++◌, arith}
use pingap.Common.Tests.{Bool-cases, Option-cases}
use pingap.Common.Text.{Str, str_eq, str_eq_iff}
use pingap.Common.Map.{Map, get, insert, get-insert, HasDistinctKeys}
use pingap.Common.Results.{ok, err, err≢ok, Result-cases}
use pingap.Config.Conf.{LocationConf}
use pingap.External.{RegexLib, HttpLib}
use pingap.Http.Header.{HeaderError}
use pingap.Location.Selector.{Error}
use pingap.Location.Route
use pingap.Location.Route.{Location}
use pingap.Location.Registry.{get_location, unchanged, init_from, try_init_locations}

module _ (rx : RegexLib) (http : HttpLib) (show : HeaderError → Str)
    (hash_key : LocationConf → Str) where
  -- The location of a configured name: the one in use with its counters, if its configuration has
  -- the same hash, and a new one otherwise.
  abbrev pub Built : Map (Location rx) → Str → LocationConf → Location rx → Type 0
  Built current name conf l =
      (unchanged rx http show hash_key (get_location rx name current) conf ≡ some l)
      ⊎ ((unchanged rx http show hash_key (get_location rx name current) conf ≡ none)
          × (Route.new rx http show hash_key name conf ≡ ok l))

  abbrev pub Reloaded :
      Map (Location rx)
      → Str
      → Option LocationConf
      → Option (Location rx)
      → Option (Location rx)
      → Type 0
  Reloaded current name none old l = l ≡ old
  Reloaded current name (some conf) old l =
      (new : Location rx) × (l ≡ some new) × Built current name conf new

  module _ (current : Map (Location rx)) where
    -- One configuration is done, and the rest of them leave its name alone.
    step-Reloaded :
        (configs : Map LocationConf) (acc m : Map (Location rx)) (j name : Str)
        (conf : LocationConf) (lo : Location rx)
        → get j configs ≡ none
        → Built current j conf lo
        → Reloaded current name (get name configs) (get name (insert j lo acc)) (get name m)
        → Reloaded current name (get name ((j, conf) ∷ configs)) (get name acc) (get name m)
    unfolding get
    step-Reloaded configs acc m j name conf lo fresh built rest =
        elim (Bool-cases (str_eq j name)) [
          | inl same ↦
              let e = (str_eq_iff j name).0 same in
              let absent = subst (λ k. get k configs ≡ none) e fresh in
              rw same (
                lo,
                rw (absent, get-insert, same) at rest,
                subst (λ k. Built current k conf lo) e built,
              )
          | inr other ↦ rw other (rw (get-insert, other) at rest)
        ]

    init_from-Reloaded :
        (configs : Map LocationConf) (acc m : Map (Location rx)) (before after : List Str)
        (name : Str)
        → HasDistinctKeys configs
        → init_from rx http show hash_key current configs acc before ≡ ok (m, after)
        → Reloaded current name (get name configs) (get name acc) (get name m)
    unfolding init_from get
    init_from-Reloaded [] acc m before after name d e = ground arith
    init_from-Reloaded ((j, conf) ∷ configs) acc m before after name d e =
        elim (Option-cases (unchanged rx http show hash_key (get_location rx j current) conf)) [
          | inl none_found ↦ elim (Result-cases (Route.new rx http show hash_key j conf)) [
            | inl (lo, made) ↦
                step-Reloaded configs acc m j name conf lo d.0 (inr (none_found, made)) (
                  init_from-Reloaded configs (insert j lo acc) m (before ++ j ∷ []) after name d.1
                    (rw (none_found, made, init_from) at e))
            | inr (error, failed) ↦ absurd (err≢ok (rw (none_found, failed, init_from) at e))
          ]
          | inr (lo, kept) ↦ step-Reloaded configs acc m j name conf lo d.0 (inl kept) (
              init_from-Reloaded configs (insert j lo acc) m before after name d.1
                (rw (kept, init_from) at e))
        ]

  -- A reload either fails and leaves the map as it was, or it replaces the map: a name that is
  -- not configured is gone; a configured name has the location in use, with its counters, if that
  -- was built from a configuration with the same hash, and otherwise the location that
  -- `Location::new` makes of its configuration. The names of the configurations are distinct.
  pub try_init_locations-Reloaded :
      (current : Map (Location rx)) (configs : Map LocationConf)
      → HasDistinctKeys configs
      → let (m, result) = try_init_locations rx http show hash_key current configs in
        ((error : Error) × (result ≡ err error) × (m ≡ current))
        ⊎ ((updated : List Str) × (result ≡ ok updated)
            × ((name : Str) → Reloaded current name (get name configs) none (get name m)))
  unfolding try_init_locations get
  try_init_locations-Reloaded current configs d =
      elim (Result-cases (init_from rx http show hash_key current configs [] [])) [
        | inl (found, e) ↦ inr (
          found.1,
          rw e,
          rw e λ name. init_from-Reloaded current configs [] found.0 [] found.1 name d e,
        )
        | inr (error, e) ↦ inl (error, rw e, rw e)
      ]
