-- ===== src/Server/Balance/Counts.antt =====
-- The counters of the map of locations of src/proxy/server.rs, against the requests under way.
use pingap.Common.{
  ℕ, ◌+◌, ◌^◌, ◌%◌, ◌≡◌, ◌≢◌, refl, sym, ap, ◌∙◌, inl, inr, some, List, [], ◌∷◌, ◌++◌, arith,
}
use pingap.Common.Tests.{Option-cases, some≢none, if◌then◌else◌}
use pingap.Common.Text.{Str, str_eq, str_eq_iff}
use pingap.Common.Lists.{length}
use pingap.Common.Map.{Map, get, get-update-cases}
use pingap.Core.Ctx.{Ctx}
use pingap.External.{RegexLib}
use pingap.Location.Route.{Location, add_processing, sub_processing}
use pingap.Location.Registry.{get_location}
use pingap.Server.Early.Effects.{counted}
use pingap.Server.Logging.{leave_location}

-- How many of the requests under way have a location.
abbrev pub count : Str → List Str → ℕ
count j [] = 0
count j (at ∷ flying) = let rest = count j flying in if str_eq at j then rest + 1 else rest

pub count-append :
    (j : Str) (pre post : List Str) (at : Str)
    → count j (pre ++ at ∷ post)
      ≡ (if str_eq at j then count j (pre ++ post) + 1 else count j (pre ++ post))
count-append j [] post at = refl
count-append j (p ∷ pre) post at = ground (arith, count-append j pre post at)

pub length-append :
    (pre post : List Str) (at : Str) → length (pre ++ at ∷ post) ≡ length (pre ++ post) + 1
length-append [] post at = ground arith
length-append (p ∷ pre) post at = ground (arith, length-append pre post at)

module _ (rx : RegexLib) where
  -- Each counter is the number of the requests under way at its location, modulo 2 ^ 32.
  abbrev pub Counts : Map (Location rx) → List Str → Type 0
  Counts locations flying =
      (j : Str) (l : Location rx)
      → j ≢ []
      → get j locations ≡ some l
      → (l.name ≡ j) × (l.processing ≡ count j flying % 2 ^ 32)

  pub counted-Counts :
      (key : Str) (locations : Map (Location rx)) (flying : List Str)
      → Counts locations flying
      → Counts (counted rx key locations) (key ∷ flying)
  unfolding add_processing
  counted-Counts key locations flying h j l named e =
      elim (get-update-cases key j (λ l. (add_processing rx l).0) locations l e) [
        | inl (other, known) ↦ ground (arith, h j l named known)
        | inr (o, same, known, is) ↦ ground (arith, h j o named known, str_eq_iff key j)
      ]

  get_location-named :
      (k : Str) (l : Location rx) (locations : Map (Location rx))
      → k ≢ []
      → get k locations ≡ some l
      → get_location rx k locations ≡ some l
  unfolding get_location
  get_location-named [] l locations named e = absurd (named refl)
  get_location-named (c ∷ k) l locations named e = e

  pub leave_location-Counts :
      (ctx : Ctx) (locations : Map (Location rx)) (pre post : List Str)
      → Counts locations (pre ++ ctx.location ∷ post)
      → Counts (leave_location rx ctx locations) (pre ++ post)
  unfolding leave_location get_location sub_processing
  leave_location-Counts ctx locations pre post h j l named e =
      let counts = count-append j pre post ctx.location in
      elim (Option-cases (get_location rx ctx.location locations)) [
        | inl missing ↦
            let known : get j locations ≡ some l = rw (missing, leave_location) at e in
            let other : ctx.location ≢ j = (λ same. some≢none (
              sym (get_location-named j l locations named known)
              ∙ ap (λ at. get_location rx at locations) (sym same)
              ∙ missing)) in
            ground (arith, h j l named known, str_eq_iff ctx.location j)
        | inr (at, found) ↦
            elim (get-update-cases ctx.location j (sub_processing rx) locations l
              (rw (found, leave_location) at e)) [
                | inl (other, known) ↦ ground (arith, h j l named known)
                | inr (o, same, known, is) ↦
                    ground (arith, h j o named known, str_eq_iff ctx.location j)
              ]
      ]
