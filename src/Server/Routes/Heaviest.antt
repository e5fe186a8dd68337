-- ===== src/Server/Routes/Heaviest.antt =====
-- The location that a request gets is the heaviest one that matches it: the loop of
-- `early_request_filter` over the sorted list of `try_init_server_locations`, in
-- src/proxy/server.rs.
use pingap.Common.{
  ℕ, ◌≤◌, ◌≡◌, sym, ap, subst, ◌≢◌, inl, inr, true, none, some, List, [], ◌∷◌, arith,
}
use pingap.Common.Tests.{Bool-cases, Option-cases, some≢none, some_inj}
use pingap.Common.Text.{Str}
use pingap.Common.Lists.{All}
use pingap.Common.Map.{Map}
use pingap.Core.Ctx.{Ctx}
use pingap.External.{RegexLib}
use pingap.Location.Route.{Location, match_host_path}
use pingap.Location.Registry.{get_location}
use pingap.Server.Routes.{sort_by_weight, find_location}
use pingap.Server.Routes.Choice.{first_match, find_location_of_match}
use mathlib.Core.List.{Memᴰ}
use pingap.Server.Routes.Order.{IsDescending, sort_by_weight-IsDescending, sort_by_weight-Memᴰ}

module _ (weight : Str → ℕ) where
  All-at : (n : ℕ) (y : Str) (xs : List Str) → All (λ x. weight x ≤ n) xs → Memᴰ y xs → weight y ≤ n
  All-at n y [] a m = elim m [ ]
  All-at n y (x ∷ xs) a (Memᴰ.head same) = ground arith
  All-at n y (x ∷ xs) a (Memᴰ.tail m) = All-at n y xs a.1 m

module _ (rx : RegexLib) (locations : Map (Location rx)) (host path : Str) (weight : Str → ℕ)
    (name : Str) (o : Location rx) (known : get_location rx name locations ≡ some o)
    (hit : (match_host_path rx o host path).0 ≡ true) where
  first_match-found :
      (names : List Str) → Memᴰ name names → first_match rx locations host path names ≢ none
  unfolding first_match
  first_match-found [] m = elim m [ ]
  first_match-found (x ∷ names) (Memᴰ.head same) =
      rw (subst (λ x. get_location rx x locations ≡ some o) same known, hit, first_match)
        (λ e. some≢none e)
  first_match-found (x ∷ names) (Memᴰ.tail m) = let rest = first_match-found names m in ground arith

  first_match-heaviest :
      (names : List Str) (key : Str) (l : Location rx)
      → IsDescending weight names
      → first_match rx locations host path names ≡ some (key, l)
      → Memᴰ name names
      → weight name ≤ weight key
  unfolding first_match
  first_match-heaviest [] key l d e m = elim m [ ]
  first_match-heaviest (x ∷ names) key l d e (Memᴰ.head same) =
      let e' =
        rw (subst (λ x. get_location rx x locations ≡ some o) same known, hit, first_match) at e in
      ground arith
  first_match-heaviest (x ∷ names) key l d e (Memᴰ.tail m) =
      elim (Option-cases (get_location rx x locations)) [
        | inl missing ↦ first_match-heaviest names key l d.1 (rw (missing, first_match) at e) m
        | inr (p, found) ↦ elim (Bool-cases (match_host_path rx p host path).0) [
          | inl first ↦
              let same : ◌≡◌ {A = Str × Location rx} (x, p) (key, l) =
                some_inj (rw (found, first, first_match) at e) in
              let same_key = ap (λ (t : Str × Location rx). t.0) same in
              rw (sym same_key) (All-at weight (weight x) name names d.0 m)
          | inr miss ↦ first_match-heaviest names key l d.1 (rw (found, miss, first_match) at e) m
        ]
      ]

  first_match-matches :
      (names : List Str) (key : Str) (l : Location rx)
      → first_match rx locations host path names ≡ some (key, l)
      → (match_host_path rx l host path).0 ≡ true
  unfolding first_match
  first_match-matches [] key l e = absurd (ground arith)
  first_match-matches (x ∷ names) key l e = elim (Option-cases (get_location rx x locations)) [
    | inl missing ↦ first_match-matches names key l (rw (missing, first_match) at e)
    | inr (p, found) ↦ elim (Bool-cases (match_host_path rx p host path).0) [
      | inl first ↦
          let same : ◌≡◌ {A = Str × Location rx} (x, p) (key, l) =
            some_inj (rw (found, first, first_match) at e) in
          subst (λ (t : Str × Location rx). (match_host_path rx t.1 host path).0 ≡ true) same first
      | inr miss ↦ first_match-matches names key l (rw (found, miss, first_match) at e)
    ]
  ]

  -- A request that some configured location of the server matches gets a location that matches it,
  -- and none that matches it is heavier than that one.
  pub find_location-heaviest :
      (items : List Str) (ctx : Ctx)
      → Memᴰ name items
      → let r = find_location rx locations host path (sort_by_weight weight items) none ctx in
        (key : Str) × (l : Location rx) × (r.0 ≡ some (key, l))
        × (r.1.location ≡ l.name)
        × (get_location rx key locations ≡ some l)
        × ((match_host_path rx l host path).0 ≡ true)
        × (weight name ≤ weight key)
  find_location-heaviest items ctx m =
      let names = sort_by_weight weight items in
      let there = sort_by_weight-Memᴰ weight name items m in
      elim (Option-cases (first_match rx locations host path names)) [
        | inl missed ↦ absurd (first_match-found names there missed)
        | inr ((key, l), found) ↦
            let (chosen, at, is_known) =
              find_location_of_match rx locations host path names none ctx key l found in
            (
              key,
              l,
              chosen,
              at,
              is_known,
              first_match-matches names key l found,
              first_match-heaviest names key l (sort_by_weight-IsDescending weight items).0 found
                  there,
            )
      ]
