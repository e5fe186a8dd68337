-- ===== src/Logger/Format/Rounds.antt =====
-- The loop over the keys of a log format ends: pingap-logger/src/access.rs.
use pingap.Common.{
  ℕ, suc, zero, ◌+◌, ◌≤◌, ◌<◌, ◌≡◌, refl, ap, ◌∙◌, inl, inr, Bool, true, ◌&&◌, ◌||◌, some, List, [],
  ◌∷◌, ◌++◌, arith,
}
use pingap.Common.Tests.{leb, ◌==◌, Option-cases}
use pingap.Common.Text.{Str, str_len}
use pingap.Common.Lists.{All}
use pingap.Logger.Format.{Tag, Machine, Match, Finder, fill_tags, key_tags, tags_from, tags_of}

-- The characters between the braces of a key.
abbrev pub is_key_char : ℕ → Bool
is_key_char c =
    (leb b'a' c && leb c b'z')
    || (leb b'A' c && leb c b'Z')
    || c == b'_'
    || c == b'<'
    || c == b'>'
    || c == b'-'
    || c == b'~'
    || c == b':'
    || c == b'$'

-- What a match is: braces with characters of keys between them, at its ends, not before the
-- position of the search.
pub record IsMatch (value : Str) (position : ℕ) (found : Match) : Type 0 where
  pub before : Str
  pub body : Str
  pub after : Str
  pub text : found.as_str ≡ b'{' ∷ (body ++ (b'}' ∷ []))
  pub chars : All (λ c. is_key_char c ≡ true) body
  pub splits : value ≡ before ++ (found.as_str ++ after)
  pub starts : found.start ≡ str_len before
  pub ends : found.end ≡ found.start + str_len found.as_str
  pub behind : position ≤ found.start

-- What the crate regex promises of the pattern of keys.
pub record IsKeyFinder (find_at : Finder) : Type 0 where
  pub sound :
      (value : Str) (position : ℕ) (found : Match)
      → find_at value position ≡ some found
      → IsMatch value position found

pub str_len-append : (s t : Str) → str_len (s ++ t) ≡ str_len s + str_len t
unfolding str_len
str_len-append [] t = omega arith
str_len-append (c ∷ s) t = omega (arith, str_len-append s t)

start-lt-len :
    (value : Str) (position : ℕ) (found : Match)
    → IsMatch value position found
    → found.start < str_len value
unfolding str_len
start-lt-len value position found m =
    let rest = m.body ++ (b'}' ∷ []) in
    let text = rw m.text at m.splits in
    let total = ap str_len text ∙ str_len-append m.before (b'{' ∷ (rest ++ m.after)) in
    omega (arith, total, m.starts)

module _ (machine : Machine) (find_at : Finder) (finder : IsKeyFinder find_at) (value : Str) where
  tags_from-total :
      (fuel current end : ℕ)
      → current ≤ str_len value
      → str_len value < fuel + current
      → (tags : List Tag) × (tags_from machine find_at fuel value current end ≡ some tags)
  unfolding tags_from
  tags_from-total zero current end inside enough = absurd (omega arith)
  tags_from-total (suc fuel) current end inside enough =
      elim (Option-cases (find_at value current)) [
        | inl no_more ↦ (fill_tags value end (str_len value), rw (tags_from, no_more) refl)
        | inr (found, hit) ↦
            let m = finder.sound value current found hit in
            let inner = start-lt-len value current found m in
            let after = m.behind in
            let (rest, rounds) =
              tags_from-total fuel (found.start + 1) found.end (omega arith) (omega arith) in
            (
              fill_tags value end found.start ++ (key_tags machine found.as_str ++ rest),
              rw (tags_from, hit, rounds) refl,
            )
      ]

  -- The reading of a log format ends, for every text and with the rounds that it is given: each
  -- match starts behind the start of the one before it, and within the text.
  pub tags_of-total : (tags : List Tag) × (tags_of machine find_at value ≡ some tags)
  unfolding tags_of
  tags_of-total = tags_from-total (str_len value + 1) 0 0 (omega arith) (omega arith)
