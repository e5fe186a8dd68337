-- ===== src/Server/Routes/Choice.antt =====
-- Which location the loop of `early_request_filter` of src/proxy/server.rs ends with, against two
-- plain descriptions: the first location that matches and the last one that exists.
use pingap.Common.{◌≡◌, refl, inl, inr, Option, none, some, List, [], ◌∷◌, ap, ◌∙◌, subst, arith}
use pingap.Common.Tests.{Bool-cases, Option-cases, some≢none, some_inj, if◌then◌else◌}
use pingap.Common.Text.{Str}
use pingap.Common.Map.{Map}
use pingap.Core.Ctx.{Ctx, add_variable}
use pingap.External.{RegexLib}
use pingap.Location.Route.{Location, match_host_path}
use pingap.Location.Registry.{get_location}
use pingap.Server.Routes.{add_variables, or_none, find_location}

add_variables-location :
    (ctx : Ctx) (variables : List (Str × Str))
    → (add_variables ctx variables).location ≡ ctx.location
unfolding add_variables add_variable
add_variables-location ctx [] = refl
add_variables-location ctx ((key, value) ∷ variables) =
    add_variables-location (add_variable ctx key value) variables

module _ (rx : RegexLib) (locations : Map (Location rx)) where
  abbrev if_known :
      Str → Option (Location rx) → Option (Str × Location rx) → Option (Str × Location rx)
  if_known name none current = current
  if_known name (some l) current = some (name, l)

  -- The last location of the list that exists.
  unfoldable pub last_known : List Str → Option (Str × Location rx) → Option (Str × Location rx)
  last_known [] current = current
  last_known (name ∷ names) current =
      last_known names (if_known name (get_location rx name locations) current)

module _ (rx : RegexLib) (locations : Map (Location rx)) (key : Str) (l : Location rx) where
  -- An entry with its name in the map of locations.
  abbrev IsKnown : Option (Str × Location rx) → Type 0
  IsKnown none = Unit
  IsKnown (some (name, o)) = get_location rx name locations ≡ some o

  last_known-IsKnown :
      (names : List Str) (current : Option (Str × Location rx))
      → IsKnown current
      → IsKnown (last_known rx locations names current)
  unfolding last_known
  last_known-IsKnown [] current h = h
  last_known-IsKnown (name ∷ names) current h =
      elim (Option-cases (get_location rx name locations)) [
        | inl missing ↦ rw (missing, last_known) (last_known-IsKnown names current h)
        | inr (o, known) ↦ rw (known, last_known) (last_known-IsKnown names (some (name, o)) known)
      ]

  pub last_known-known :
      (names : List Str)
      → last_known rx locations names none ≡ some (key, l)
      → get_location rx key locations ≡ some l
  last_known-known names e = subst IsKnown e (last_known-IsKnown names none tt)

module _ (rx : RegexLib) (locations : Map (Location rx)) (host path : Str) where
  abbrev pub if_matches :
      Str → Option (Location rx) → Option (Str × Location rx) → Option (Str × Location rx)
  if_matches name none later = later
  if_matches name (some l) later =
      if (match_host_path rx l host path).0 then some (name, l) else later

  -- The first location of the list that exists and matches.
  unfoldable pub first_match : List Str → Option (Str × Location rx)
  first_match [] = none
  first_match (name ∷ names) = if_matches name (get_location rx name locations) (first_match names)

  -- With a match the loop ends at it, and the context has its name.
  pub find_location_of_match :
      (names : List Str) (current : Option (Str × Location rx)) (ctx : Ctx) (key : Str)
      (l : Location rx)
      → first_match names ≡ some (key, l)
      → ((find_location rx locations host path names current ctx).0 ≡ some (key, l))
        × ((find_location rx locations host path names current ctx).1.location ≡ l.name)
        × (get_location rx key locations ≡ some l)
  unfolding first_match find_location
  find_location_of_match [] current ctx key l e = absurd (ground arith)
  find_location_of_match (name ∷ names) current ctx key l e =
      elim (Option-cases (get_location rx name locations)) [
        | inl missing ↦
            rw (missing, find_location)
              (find_location_of_match names current ctx key l (rw (missing, first_match) at e))
        | inr (o, known) ↦ elim (Bool-cases (match_host_path rx o host path).0) [
          | inl hit ↦
              let same : ◌≡◌ {A = Str × Location rx} (name, o) (key, l) =
                some_inj (rw (known, hit, first_match) at e) in
              rw (known, find_location)
                (rw hit (
                  ap some same,
                  add_variables-location _ (or_none (match_host_path rx o host path).1)
                      ∙ ap (λ (t : Str × Location rx). t.1.name) same,
                  subst (λ (t : Str × Location rx). get_location rx t.0 locations ≡ some t.1) same
                      known,
                ))
          | inr miss ↦
              rw (known, find_location)
                (rw miss (
                  find_location_of_match names (some (name, o)) ctx key l
                    (rw (known, miss, first_match) at e)))
        ]
      ]

  pub find_location_of_no_match :
      (names : List Str) (current : Option (Str × Location rx)) (ctx : Ctx)
      → first_match names ≡ none
      → find_location rx locations host path names current ctx
        ≡ (last_known rx locations names current, ctx)
  unfolding first_match last_known find_location
  find_location_of_no_match [] current ctx e = refl
  find_location_of_no_match (name ∷ names) current ctx e =
      elim (Option-cases (get_location rx name locations)) [
        | inl missing ↦
            rw (missing, find_location)
              (find_location_of_no_match names current ctx (rw (missing, first_match) at e))
        | inr (o, known) ↦ elim (Bool-cases (match_host_path rx o host path).0) [
          | inl hit ↦ absurd (some≢none (rw (known, hit, first_match) at e))
          | inr miss ↦
              rw (known, find_location)
                (rw miss (
                  find_location_of_no_match names (some (name, o)) ctx
                    (rw (known, miss, first_match) at e)))
        ]
      ]
