-- ===== src/Tests/Logger.antt =====
-- The access log on concrete formats: pingap-logger/src/access.rs.
use pingap.Common.{
  ℕ, ◌+◌, ◌≤◌, ◌<◌, ◌≡◌, refl, sym, ap, subst, ◌∙◌, inl, inr, Bool, true, false, ◌&&◌, Option, none,
  some, List, [], ◌∷◌, ◌++◌, arith,
}
use pingap.Common.Tests.{
  leb, ltb, ◌==◌, Bool-cases, Option-cases, some_inj, some≢none, if◌then◌else◌,
}
use pingap.Common.Text.{Str, str, str_eq, str_len, len_utf8}
use pingap.Common.Lists.{All}
use pingap.Common.Map.{get}
use pingap.Common.Digits.{show}
use pingap.Core.Ctx.{new_ctx}
use pingap.Logger.Entry.{Written, Chrono, entry, entries, format}
use pingap.Logger.Format.{
  plain, with_data, fill, host, method, size, latency, Tag, Match, Machine, Finder, Parser, tags_of,
  tags_from, format_extra_tag, key_tags, estimate_capacity, from,
}
use pingap.Logger.Format.Pieces.{
  Piece, source, meaning, IsFormed, IsLeftmost, tags_of-pieces, IsAscii, cons_head, cons_tail,
}
use pingap.Logger.Format.Rounds.{is_key_char, IsMatch, IsKeyFinder, str_len-append, tags_of-total}
use pingap.Tests.Fixtures.{plain_http, ask}
use mathlib.Core.List.{append_assoc}

-- The characters of keys up to a brace that closes.
abbrev key_end : Str → Option Str
key_end [] = none
key_end (c ∷ s) =
    let rest = key_end s in
    if c == b'}'
    then some []
    else if is_key_char c
    then elim rest [ none ↦ none | some body ↦ some (c ∷ body) ]
    else none

abbrev braced : Str → Str
braced body = b'{' ∷ (body ++ (b'}' ∷ []))

abbrev match_at : ℕ → Str → Match
match_at start body = record {
  start = start;
  end = start + str_len (braced body);
  as_str = braced body;
}

-- The first key of a text that starts at an offset, from a position on.
scan : ℕ → ℕ → Str → Option Match
unfolding str_len
scan position offset [] = none
scan position offset (c ∷ s) =
    let later = scan position (offset + len_utf8 c) s in
    if leb position offset && c == b'{'
    then elim (key_end s) [ some body ↦ some (match_at offset body) | none ↦ later ]
    else later

abbrev find_key : Finder
find_key value position = scan position 0 value

record Key (s body : Str) : Type 0 where
  after : Str
  splits : s ≡ body ++ (b'}' ∷ after)
  chars : All (λ c. is_key_char c ≡ true) body

key_end-Key : (s body : Str) → key_end s ≡ some body → Key s body
key_end-Key [] body h = absurd (some≢none (sym h))
key_end-Key (c ∷ s) body h = elim (Bool-cases (c == b'}')) [
  | inl closes ↦
      let same : c ≡ b'}' = ground (arith, closes) in
      subst (Key (c ∷ s)) (some_inj (rw (key_end, closes) at h))
        (record { after = s; splits = ap (λ d. d ∷ s) same; chars = tt })
  | inr more ↦ elim (Bool-cases (is_key_char c)) [
    | inr other ↦ absurd (some≢none (sym (rw (key_end, more, other) at h)))
    | inl char ↦ elim (Option-cases (key_end s)) [
      | inl endless ↦ absurd (some≢none (sym (rw (key_end, more, char, endless) at h)))
      | inr (rest, found) ↦
          let k = key_end-Key s rest found in
          subst (Key (c ∷ s)) (some_inj (rw (key_end, more, char, found) at h))
            (record { after = k.after; splits = ap (λ t. c ∷ t) k.splits; chars = (char, k.chars) })
    ]
  ]
]

match_at-IsMatch :
    (position offset : ℕ) (before s body : Str)
    → str_len before ≡ offset
    → position ≤ offset
    → Key s body
    → IsMatch (before ++ (b'{' ∷ s)) position (match_at offset body)
match_at-IsMatch position offset before s body length_is behind k = record {
  before = before;
  body = body;
  after = k.after;
  text = refl;
  chars = k.chars;
  splits = ap (λ t. before ++ (b'{' ∷ t)) (k.splits ∙ sym (append_assoc body (b'}' ∷ []) k.after));
  starts = sym length_is;
  ends = refl;
  behind = behind;
}

scan-IsMatch :
    (position offset : ℕ) (before s : Str) (found : Match)
    → str_len before ≡ offset
    → scan position offset s ≡ some found
    → IsMatch (before ++ s) position found
unfolding scan
scan-IsMatch position offset before [] found length_is h = absurd (some≢none (sym h))
scan-IsMatch position offset before (c ∷ s) found length_is h =
    let one : str_len (c ∷ []) ≡ len_utf8 c = omega arith in
    let longer =
      str_len-append before (c ∷ [])
      ∙ ap (λ n. str_len before + n) one
      ∙ ap (λ n. n + len_utf8 c) length_is in
    let next = λ (later : scan position (offset + len_utf8 c) s ≡ some found).
      subst (λ t. IsMatch t position found) (append_assoc before (c ∷ []) s)
        (scan-IsMatch position (offset + len_utf8 c) (before ++ (c ∷ [])) s found longer later) in
    elim (Bool-cases (leb position offset && c == b'{')) [
      | inr not_brace ↦ next (rw (scan, not_brace) at h)
      | inl brace ↦ elim (Option-cases (key_end s)) [
        | inl endless ↦ next (rw (scan, brace, endless) at h)
        | inr (body, ends) ↦
            let here : b'{' ≡ c = ground (arith, brace) in
            let behind : position ≤ offset = ground (arith, brace) in
            subst (λ d. IsMatch (before ++ (d ∷ s)) position found) here
              (subst (IsMatch (before ++ (b'{' ∷ s)) position)
                (some_inj (rw (scan, brace, ends) at h))
                (match_at-IsMatch position offset before s body length_is behind
                  (key_end-Key s body ends)))
      ]
    ]

key_end_complete :
    (body after : Str)
    → All (λ c. is_key_char c ≡ true) body
    → key_end (body ++ (b'}' ∷ after)) ≡ some body
key_end_complete [] after chars = refl
key_end_complete (c ∷ body) after (char, chars) =
    let open_yet : (c == b'}') ≡ false = ground (arith, char) in
    rw (open_yet, char, key_end_complete body after chars) refl

-- A search finds nothing behind a key that it has not passed.
scan-first :
    (position offset : ℕ) (s before body after : Str)
    → s ≡ before ++ (b'{' ∷ (body ++ (b'}' ∷ after)))
    → All (λ c. is_key_char c ≡ true) body
    → position ≤ offset + str_len before
    → (found : Match) × (scan position offset s ≡ some found)
      × (found.start ≤ offset + str_len before)
unfolding scan str_len
scan-first position offset [] [] body after e chars near = absurd cc
scan-first position offset [] (d ∷ before) body after e chars near = absurd cc
scan-first position offset (c ∷ s) [] body after e chars near =
    let brace : (leb position offset && c == b'{') ≡ true = ground (arith, cons_head e) in
    let ends : key_end s ≡ some body =
      ap key_end (cons_tail e) ∙ key_end_complete body after chars in
    (match_at offset body, rw (scan, brace, ends) refl, omega arith)
scan-first position offset (c ∷ s) (d ∷ before) body after e chars near =
    let same = cons_head e in
    let wide : str_len (d ∷ before) ≡ len_utf8 c + str_len before =
      ap (λ x. len_utf8 x + str_len before) (sym same) in
    let (found, later, early) =
      scan-first position (offset + len_utf8 c) s before body after (cons_tail e) chars
        (omega (arith, near, wide)) in
    elim (Bool-cases (leb position offset && c == b'{')) [
      | inr not_brace ↦ (found, rw (scan, not_brace) later, omega (arith, early, wide))
      | inl brace ↦ elim (Option-cases (key_end s)) [
        | inl endless ↦ (found, rw (scan, brace, endless) later, omega (arith, early, wide))
        | inr (text, ends) ↦ (match_at offset text, rw (scan, brace, ends) refl, omega arith)
      ]
    ]

find_key-first :
    (value : Str) (position : ℕ) (found : Match)
    → find_key value position ≡ some found
    → (before body after : Str) → value ≡ before ++ (b'{' ∷ (body ++ (b'}' ∷ after)))
    → All (λ c. is_key_char c ≡ true) body
    → position ≤ str_len before
    → found.start ≤ str_len before
find_key-first value position found hit before body after e chars near =
    let (other, there, early) =
      scan-first position 0 value before body after e chars (omega (arith, near)) in
    subst (λ (m : Match). m.start ≤ str_len before) (some_inj (sym there ∙ hit))
      (omega (arith, early))

find_key-without :
    (value : Str) (position : ℕ)
    → find_key value position ≡ none
    → (before body after : Str) → value ≡ before ++ (b'{' ∷ (body ++ (b'}' ∷ after)))
    → All (λ c. is_key_char c ≡ true) body
    → str_len before < position
find_key-without value position nothing before body after e chars =
    elim (Bool-cases (leb position (str_len before))) [
      | inr behind ↦ ground (arith, behind)
      | inl near ↦
          let (other, there, early) =
            scan-first position 0 value before body after e chars (ground (arith, near)) in
          absurd (some≢none (sym there ∙ nothing))
    ]

find_key-IsKeyFinder : IsKeyFinder find_key
unfolding str_len
find_key-IsKeyFinder = record {
  sound = λ value position found h. scan-IsMatch position 0 [] value found refl h;
}

find_key-IsLeftmost : IsLeftmost find_key
find_key-IsLeftmost = record {
  sound = find_key-IsKeyFinder;
  first = find_key-first;
  without = find_key-without;
}

code : Unit {0}
unfolding str_eq str_len get show scan tags_of tags_from format_extra_tag key_tags estimate_capacity
    from entry entries format
code = tt

abbrev machine : Machine
machine = record { hostname = str "pingap"; env_var = λ name. none }

abbrev line : Str
line = str "{method} [{$hostname}] {unknown}{"

tags_of-total_example : (tags : List Tag) × (tags_of machine find_key line ≡ some tags)
tags_of-total_example = tags_of-total machine find_key find_key-IsKeyFinder line

abbrev tags : List Tag
tags =
    plain method
    ∷ with_data fill (str " [")
    ∷ with_data fill (str "pingap")
    ∷ with_data fill (str "] ")
    ∷ with_data fill (str "{")
    ∷ []

line-tags : tags_of machine find_key line ≡ some tags
unfolding code
line-tags = refl

abbrev is_ascii : Str → Bool
is_ascii [] = true
is_ascii (c ∷ s) = ltb c 0x80 && is_ascii s

is_ascii-IsAscii : (s : Str) → is_ascii s ≡ true → IsAscii s
is_ascii-IsAscii [] h = tt
is_ascii-IsAscii (c ∷ s) h = (ground (arith, h), is_ascii-IsAscii s (ground (arith, h)))

ascii : IsAscii line
ascii = is_ascii-IsAscii line refl

tags_of-pieces_example :
    (pieces : List Piece) × IsFormed pieces
    × (source pieces ≡ line)
    × (tags ≡ meaning machine pieces)
tags_of-pieces_example =
    tags_of-pieces machine find_key find_key-IsLeftmost line ascii tags line-tags

-- The positions of matches are in bytes and those of texts in code points.
two_bytes :
    tags_of machine find_key (0xe9 ∷ str "{host}!")
    ≡ some (with_data fill (0xe9 ∷ str "{") ∷ plain host ∷ with_data fill [] ∷ [])
unfolding code
two_bytes = refl

abbrev written : Written
written = record { is_http2 = false; body_bytes_sent = 1500; headers = none }

abbrev chrono : Chrono
chrono = record { to_local = λ t. []; to_utc = λ t. [] }

abbrev parser : Parser
parser = record { needs_timestamp = true; capacity = 160; tags = plain size ∷ plain latency ∷ [] }

format_test :
    format plain_http chrono (λ a b. []) parser written (ask (str "/") []) new_ctx 1234
    ≡ str "15001234"
unfolding code
format_test = refl
