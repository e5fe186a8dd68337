-- ===== src/Config/Pingap/Links.antt =====
-- References between the entries of a configuration: pingap-config/src/common.rs.
use pingap.Common.{◌≡◌, ◌≢◌, sym, ap, subst, ◌∙◌, inl, inr, Bool, true, false, none, [], ◌∷◌, arith}
use pingap.Common.Tests.{Bool-cases, Option-cases, some≢none}
use pingap.Common.Text.{Str, str, str_eq, str_eq_iff, starts_with}
use pingap.Common.Lists.{All}
use pingap.Common.Map.{Map, get, get-remove}
use pingap.Common.Map
use pingap.Common.Results.{ok, err≢ok, ok_inj}
use pingap.Config.Pingap.{
  PingapConf, user_of, lists, is_upstream, remove_upstream, remove_location, remove_plugin, remove,
}

-- Every name that an option holds and that is not exempt has an entry.
abbrev pub IsKnown : {V : Type 0} → Map V → (Str → Bool) → (Str → Bool) → Type 0
IsKnown entries exempt used =
    (name : Str) → used name ≡ true → exempt name ≡ false → get name entries ≢ none

-- Names that need no entry: the empty name and those of variables.
abbrev pub is_exempt : Str → Bool
is_exempt [] = true
is_exempt (c ∷ name) = starts_with (c ∷ name) (str "$")

abbrev pub none_exempt : Str → Bool
none_exempt name = false

-- A property of all values of a map.
abbrev pub Values : {V : Type 0} → (V → Type 0) → Map V → Type 0
Values P entries = All (λ entry. P entry.1) entries

Values-remove :
    {V : Type 0} (P : V → Type 0) (name : Str) (entries : Map V)
    → Values P entries
    → Values P (Map.remove name entries)
unfolding Map.remove
Values-remove P name [] a = tt
Values-remove P name ((n, v) ∷ entries) (p, a) =
    let rest = Values-remove P name entries a in
    elim (Bool-cases (str_eq n name)) [
      | inl same ↦ rw (Map.remove, same) rest
      | inr kept ↦ rw (Map.remove, kept) (p, rest)
    ]

true≢false : true ≡ false → ⊥
true≢false h = ground arith

-- A map that nothing refers to by a name still has all references after the name's removal.
Values-IsKnown :
    {V W : Type 0} (name : Str) (exempt : Str → Bool) (used : V → Str → Bool) (users : Map V)
    (entries : Map W)
    → user_of (λ v. used v name) users ≡ none
    → Values (λ v. IsKnown entries exempt (used v)) users
    → Values (λ v. IsKnown (Map.remove name entries) exempt (used v)) users
Values-IsKnown name exempt used [] entries unused a = tt
Values-IsKnown name exempt used ((n, v) ∷ users) entries unused (p, a) =
    elim (Bool-cases (used v name)) [
      | inl uses ↦ absurd (some≢none (rw uses at unused))
      | inr no_use ↦ (
        λ other used_here counts. elim (Bool-cases (str_eq name other)) [
          | inl same ↦ absurd (
              true≢false
                (sym used_here ∙ ap (used v) (sym ((str_eq_iff name other).0 same)) ∙ no_use))
          | inr differs ↦ rw (get-remove name other entries, differs) (p other used_here counts)
        ],
        Values-IsKnown name exempt used users entries (rw no_use at unused) a,
      )
    ]

module _ (Value : Type 0) where
  -- Every upstream and every plugin that a location names and every location that a server names
  -- has an entry, an upstream unless its name is empty or stands for a variable.
  pub record IsLinked (self : PingapConf Value) : Type 0 where
    pub upstreams :
        Values (λ l. IsKnown self.upstreams is_exempt (is_upstream l.upstream)) self.locations
    pub plugins : Values (λ l. IsKnown self.plugins none_exempt (lists l.plugins)) self.locations
    pub locations :
        Values (λ s. IsKnown self.locations none_exempt (lists s.locations)) self.servers

  module _ (self : PingapConf Value) (name : Str) (linked : IsLinked self) where
    remove_upstream-IsLinked :
        {self' : PingapConf Value} → remove_upstream Value self name ≡ ok self' → IsLinked self'
    remove_upstream-IsLinked removed =
        elim (Option-cases (user_of (λ l. is_upstream l.upstream name) self.locations)) [
          | inr (user, used) ↦ absurd (err≢ok (rw (remove_upstream, used) at removed))
          | inl unused ↦ subst IsLinked (ok_inj (rw (remove_upstream, unused) at removed)) (record {
            upstreams =
                Values-IsKnown name is_exempt (λ l. is_upstream l.upstream) self.locations
                  self.upstreams unused linked.upstreams;
            plugins = linked.plugins;
            locations = linked.locations;
          })
        ]

    remove_location-IsLinked :
        {self' : PingapConf Value} → remove_location Value self name ≡ ok self' → IsLinked self'
    remove_location-IsLinked removed =
        elim (Option-cases (user_of (λ s. lists s.locations name) self.servers)) [
          | inr (user, used) ↦ absurd (err≢ok (rw (remove_location, used) at removed))
          | inl unused ↦ subst IsLinked (ok_inj (rw (remove_location, unused) at removed)) (record {
            upstreams =
                Values-remove (λ l. IsKnown self.upstreams is_exempt (is_upstream l.upstream)) name
                  self.locations linked.upstreams;
            plugins =
                Values-remove (λ l. IsKnown self.plugins none_exempt (lists l.plugins)) name
                  self.locations linked.plugins;
            locations =
                Values-IsKnown name none_exempt (λ s. lists s.locations) self.servers self.locations
                  unused linked.locations;
          })
        ]

    remove_plugin-IsLinked :
        {self' : PingapConf Value} → remove_plugin Value self name ≡ ok self' → IsLinked self'
    remove_plugin-IsLinked removed =
        elim (Option-cases (user_of (λ l. lists l.plugins name) self.locations)) [
          | inr (user, used) ↦ absurd (err≢ok (rw (remove_plugin, used) at removed))
          | inl unused ↦ subst IsLinked (ok_inj (rw (remove_plugin, unused) at removed)) (record {
            upstreams = linked.upstreams;
            plugins =
                Values-IsKnown name none_exempt (λ l. lists l.plugins) self.locations self.plugins
                  unused linked.plugins;
            locations = linked.locations;
          })
        ]

    -- The removal of an entry of any category leaves a configuration whose references all have an
    -- entry, if they had one before.
    pub remove-IsLinked :
        (self' : PingapConf Value) (category : Str)
        → remove Value self category name ≡ ok self'
        → IsLinked self'
    unfolding remove
    remove-IsLinked self' category removed = elim (Bool-cases (str_eq category (str "upstream"))) [
      | inl up ↦ remove_upstream-IsLinked (rw up at removed)
      | inr no_up ↦ elim (Bool-cases (str_eq category (str "location"))) [
        | inl lo ↦ remove_location-IsLinked (rw (no_up, lo) at removed)
        | inr no_lo ↦ elim (Bool-cases (str_eq category (str "server"))) [
          | inl se ↦ subst IsLinked (ok_inj (rw (no_up, no_lo, se) at removed)) (record {
            upstreams = linked.upstreams;
            plugins = linked.plugins;
            locations =
                Values-remove (λ s. IsKnown self.locations none_exempt (lists s.locations)) name
                  self.servers linked.locations;
          })
          | inr no_se ↦ elim (Bool-cases (str_eq category (str "plugin"))) [
            | inl pl ↦ remove_plugin-IsLinked (rw (no_up, no_lo, no_se, pl) at removed)
            | inr no_pl ↦ elim (Bool-cases (str_eq category (str "certificate"))) [
              | inl ce ↦
                  subst IsLinked (ok_inj (rw (no_up, no_lo, no_se, no_pl, ce) at removed)) (record {
                    upstreams = linked.upstreams;
                    plugins = linked.plugins;
                    locations = linked.locations;
                  })
              | inr no_ce ↦
                  subst IsLinked (ok_inj (rw (no_up, no_lo, no_se, no_pl, no_ce) at removed)) linked
            ]
          ]
        ]
      ]
    ]
