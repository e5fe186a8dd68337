-- ===== src/Core/Limit/Window.antt =====
-- How many visits a limit lets through: pingap-core/src/ttl_lru_limit.rs.
use pingap.Common.{
  ℕ, ◌+◌, ◌-◌, ◌^◌, ◌≤◌, ◌<◌, ◌≡◌, ◌⊎◌, inl, inr, refl, ap, ◌∙◌, Bool, true, false, none, some,
  List, [], ◌∷◌, arith,
}
use pingap.Common.Tests.{◌==◌, ltb, Bool-cases, if◌then◌else◌}
use pingap.Common.Text.{Str}
use pingap.Common.Lists.{All, length}
use pingap.Common.Words.{inc64, sub64}
use Prim.Native.Nat.{min, suc}
use pingap.Core.Limit.{TtlLimit, LimitCache, TtlLruLimit, check, validate, counted, inc}

-- A cache with room for the keys in use: it drops nothing, and a get changes no entry.
pub record IsRoomy (lib : LimitCache) : Type 0 where
  pub put_get :
      (c : lib.Cache) (k : Str) (v : TtlLimit) (weight : ℕ)
      → (lib.get (lib.put c k v weight) k).1 ≡ some v
  pub get_get : (c : lib.Cache) (j k : Str) → (lib.get (lib.get c j).0 k).1 ≡ (lib.get c k).1

module _ (lib : LimitCache) (key : Str) where
  -- A visit at a time, which is counted if it is valid.
  abbrev pub visit : TtlLruLimit lib → ℕ → TtlLruLimit lib × Bool
  visit self now =
      let (self', valid) = validate lib self now key in
      (if valid then inc lib self' now key else self', valid)

  -- How many of the visits at the given times are valid.
  abbrev pub visits : List ℕ → TtlLruLimit lib → ℕ
  visits [] self = 0
  visits (now ∷ times) self =
      let (self', valid) = visit self now in
      let rest = visits times self' in if valid then suc rest else rest

  module _ (roomy : IsRoomy lib) (start : ℕ) (positive : 1 ≤ start) where
    check_fresh :
        (self : TtlLruLimit lib) (count now : ℕ)
        → start ≤ now
        → now ≤ start + self.ttl
        → start + self.ttl < 2 ^ 64
        → check lib self now (some (record { count = count; created_at = start }))
          ≡ (ltb count self.max, false)
    unfolding check
    check_fresh self count now after before span =
        let elapsed : sub64 now start ≤ self.ttl = omega arith in ground (arith, elapsed)

    visit_below :
        (self : TtlLruLimit lib) (count now : ℕ)
        → (lib.get self.ufo key).1 ≡ some (record { count = count; created_at = start })
        → start ≤ now
        → now ≤ start + self.ttl
        → start + self.ttl < 2 ^ 64
        → count < self.max
        → self.max < 2 ^ 64
        → let (self', valid) = visit self now in
          (valid ≡ true)
          × (self'.ttl ≡ self.ttl)
          × (self'.max ≡ self.max)
          × ((lib.get self'.ufo key).1 ≡ some (record { count = count + 1; created_at = start }))
    unfolding validate inc counted
    visit_below self count now entry after before span below bound =
        let fresh = check_fresh self count now after before span in
        let less : ltb count self.max ≡ true = ground arith in
        let valid = fresh ∙ ap (λ b. (b, false)) less in
        let kept = roomy.get_get self.ufo key key ∙ entry in
        let next : inc64 count ≡ count + 1 = omega arith in
        let made : (start == 0) ≡ false = ground arith in
        let written : counted now (some (record { count = count; created_at = start }))
            ≡ record { count = count + 1; created_at = start } =
          rw (counted, next, made) refl in
        rw (visit, validate, entry, valid, inc, kept, written)
          (
            refl,
            refl,
            refl,
            roomy.put_get (lib.get (lib.get self.ufo key).0 key).0 key
                (record { count = count + 1; created_at = start }) 1,
          )

    visit_above :
        (self : TtlLruLimit lib) (count now : ℕ)
        → (lib.get self.ufo key).1 ≡ some (record { count = count; created_at = start })
        → start ≤ now
        → now ≤ start + self.ttl
        → start + self.ttl < 2 ^ 64
        → self.max ≤ count
        → let (self', valid) = visit self now in
          (valid ≡ false)
          × (self'.ttl ≡ self.ttl)
          × (self'.max ≡ self.max)
          × ((lib.get self'.ufo key).1 ≡ some (record { count = count; created_at = start }))
    unfolding validate
    visit_above self count now entry after before span above =
        let fresh = check_fresh self count now after before span in
        let more : ltb count self.max ≡ false = ground arith in
        let invalid = fresh ∙ ap (λ b. (b, false)) more in
        rw (visit, validate, entry, invalid)
          (refl, refl, refl, roomy.get_get self.ufo key key ∙ entry)

    visits_counted :
        (ttl max : ℕ) (times : List ℕ) (self : TtlLruLimit lib) (count : ℕ)
        → (self.ttl ≡ ttl) × (self.max ≡ max)
        → (lib.get self.ufo key).1 ≡ some (record { count = count; created_at = start })
        → start + ttl < 2 ^ 64
        → max < 2 ^ 64
        → All (λ now. (start ≤ now) × (now ≤ start + ttl)) times
        → visits times self ≡ min (length times) (max - count)
    visits_counted ttl max [] self count _ entry span bound inside = omega arith
    visits_counted ttl max (now ∷ times) self count (is_ttl, is_max) entry span bound
          ((after, before), inside) =
        let at_start : now ≤ start + self.ttl = rw is_ttl before in
        let until : start + self.ttl < 2 ^ 64 = rw is_ttl span in
        elim (Bool-cases (ltb count self.max)) [
          | inl below ↦
              let (valid, same_ttl, same_max, entry') =
                visit_below self count now entry after at_start until (ground (arith, below))
                  (rw is_max bound) in
              let rest =
                visits_counted ttl max times (visit self now).0 (count + 1)
                  (same_ttl ∙ is_ttl, same_max ∙ is_max) entry' span bound inside in
              ground (arith, valid, rest, below, is_max)
          | inr above ↦
              let (invalid, same_ttl, same_max, entry') =
                visit_above self count now entry after at_start until (ground (arith, above)) in
              let rest =
                visits_counted ttl max times (visit self now).0 count
                  (same_ttl ∙ is_ttl, same_max ∙ is_max) entry' span bound inside in
              ground (arith, invalid, rest, above, is_max)
        ]

  -- No entry of the key that counts: there is none, or it is older than the time to live.
  abbrev pub IsUnused : TtlLruLimit lib → ℕ → Type 0
  IsUnused self now =
      ((lib.get self.ufo key).1 ≡ none)
      ⊎ ((value : TtlLimit) × ((lib.get self.ufo key).1 ≡ some value)
          × (self.ttl < sub64 now value.created_at))

  visit_first :
      (self : TtlLruLimit lib) (now : ℕ)
      → IsRoomy lib
      → IsUnused self now
      → let (self', valid) = visit self now in
        (valid ≡ true)
        × (self'.ttl ≡ self.ttl)
        × (self'.max ≡ self.max)
        × ((lib.get self'.ufo key).1 ≡ some (record { count = 1; created_at = now }))
  unfolding validate check inc counted
  visit_first self now roomy (inl missing) =
      let kept = roomy.get_get self.ufo key key ∙ missing in
      rw (visit, validate, missing, check, inc, kept, counted)
        (
          refl,
          refl,
          refl,
          roomy.put_get (lib.get (lib.get self.ufo key).0 key).0 key
              (record { count = 1; created_at = now }) 1,
        )
  visit_first self now roomy (inr (value, found, old)) =
      let expired : ltb self.ttl (sub64 now value.created_at) ≡ true = ground arith in
      let cleared = lib.put (lib.get self.ufo key).0 key (record { count = 0; created_at = 0 }) 1 in
      let reset =
        roomy.put_get (lib.get self.ufo key).0 key (record { count = 0; created_at = 0 }) 1 in
      rw (visit, validate, found, check, expired, inc, reset, counted)
        (
          refl,
          refl,
          refl,
          roomy.put_get (lib.get cleared key).0 key (record { count = 1; created_at = now }) 1,
        )

  -- A key that has no entry, or one older than the time to live, is visited at a time and then at
  -- times that are at most the time to live later: it is let through as often as there are visits,
  -- but at most max times. The cache has room for the keys in use, max is at least one, and the
  -- clock has started.
  pub visits_of_unused :
      (self : TtlLruLimit lib) (start : ℕ) (times : List ℕ)
      → IsRoomy lib
      → IsUnused self start
      → 1 ≤ start
      → 1 ≤ self.max
      → self.max < 2 ^ 64
      → start + self.ttl < 2 ^ 64
      → All (λ now. (start ≤ now) × (now ≤ start + self.ttl)) times
      → visits (start ∷ times) self ≡ min (length times + 1) self.max
  visits_of_unused self start times roomy unused positive some_max bound span inside =
      let (valid, same_ttl, same_max, entry) = visit_first self start roomy unused in
      let rest =
        visits_counted roomy start positive self.ttl self.max times (visit self start).0 1
          (same_ttl, same_max) entry span bound inside in
      ground (arith, valid, rest)
