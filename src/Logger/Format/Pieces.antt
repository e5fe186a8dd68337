-- ===== src/Logger/Format/Pieces.antt =====
-- What the tags of a log format stand for: pingap-logger/src/access.rs.
use pingap.Common.{
  ℕ, suc, zero, ◌+◌, ◌-◌, ◌≤◌, ◌<◌, ◌≡◌, ◌≢◌, refl, sym, ap, subst, ◌∙◌, inl, inr, true, false,
  none, some, List, [], ◌∷◌, ◌++◌, arith,
}
use pingap.Common.Tests.{ltb, Option-cases, some_inj, some≢none}
use pingap.Common.Text.{Str, str_len}
use pingap.Common.Splits.{IsFree}
use pingap.Common.Lists.{All, length, length-append, take, take-append, drop-append}
use pingap.Logger.Format.{
  Tag, with_data, fill, Machine, Match, Finder, substring, fill_tags, key_tags, tags_from, tags_of,
}
use pingap.Logger.Format.Rounds.{is_key_char, IsMatch, IsKeyFinder}
use mathlib.Core.List.{append_assoc, append-nil}

abbrev pub IsAscii : Str → Type 0
IsAscii s = All (λ c. c < 0x80) s

-- The parts of a format: texts as they are, and keys with their braces.
pub data Piece : Type 0 where
  text key : Str → Piece

abbrev pub source : List Piece → Str
source [] = []
source (text s ∷ pieces) = s ++ source pieces
source (key s ∷ pieces) = s ++ source pieces

-- A text is a tag of its own; a key is the tag that it names, or none.
abbrev pub meaning : Machine → List Piece → List Tag
meaning machine [] = []
meaning machine (text s ∷ pieces) = with_data fill s ∷ meaning machine pieces
meaning machine (key s ∷ pieces) = key_tags machine s ++ meaning machine pieces

-- What the crate regex promises of the order of matches: a match is the first one that does not begin
-- before the position, and there is none only if no key stands there.
pub record IsLeftmost (find_at : Finder) : Type 0 where
  pub sound : IsKeyFinder find_at
  pub first :
      (value : Str) (position : ℕ) (found : Match)
      → find_at value position ≡ some found
      → (before body after : Str) → value ≡ before ++ (b'{' ∷ (body ++ (b'}' ∷ after)))
      → All (λ c. is_key_char c ≡ true) body
      → position ≤ str_len before
      → found.start ≤ str_len before
  pub without :
      (value : Str) (position : ℕ)
      → find_at value position ≡ none
      → (before body after : Str) → value ≡ before ++ (b'{' ∷ (body ++ (b'}' ∷ after)))
      → All (λ c. is_key_char c ≡ true) body
      → str_len before < position

-- A text in which no key with its braces stands.
abbrev pub IsKeyless : Str → Type 0
IsKeyless s =
    (before body after : Str)
    → s ≡ before ++ (b'{' ∷ (body ++ (b'}' ∷ after)))
    → All (λ c. is_key_char c ≡ true) body
    → ⊥

abbrev pub IsBehindText : List Piece → Type 0
IsBehindText [] = Unit
IsBehindText (text s ∷ pieces) = ⊥
IsBehindText (key s ∷ pieces) = Unit

-- The texts are not empty, no key stands in them, and two of them do not follow each other; the keys
-- are characters of keys between braces. A format is in one way a list of such pieces.
abbrev pub IsFormed : List Piece → Type 0
IsFormed [] = Unit
IsFormed (text s ∷ pieces) = (s ≢ []) × IsKeyless s × IsBehindText pieces × IsFormed pieces
IsFormed (key s ∷ pieces) =
    ((body : Str) × (s ≡ b'{' ∷ (body ++ (b'}' ∷ []))) × All (λ c. is_key_char c ≡ true) body)
    × IsFormed pieces

abbrev gap_pieces : Str → List Piece
gap_pieces [] = []
gap_pieces (c ∷ s) = text (c ∷ s) ∷ []

gap_source :
    (gap : Str) (pieces : List Piece) → source (gap_pieces gap ++ pieces) ≡ gap ++ source pieces
gap_source [] pieces = refl
gap_source (c ∷ gap) pieces = refl

gap-IsFormed : (gap : Str) → IsKeyless gap → IsFormed (gap_pieces gap)
gap-IsFormed [] keyless = tt
gap-IsFormed (c ∷ gap) keyless = ((λ h. absurd cc), keyless, tt, tt)

gap-key-IsFormed :
    (gap s : Str) (pieces : List Piece)
    → IsKeyless gap
    → IsFormed (key s ∷ pieces)
    → IsFormed (gap_pieces gap ++ (key s ∷ pieces))
gap-key-IsFormed [] s pieces keyless formed = formed
gap-key-IsFormed (c ∷ gap) s pieces keyless formed = ((λ h. absurd cc), keyless, tt, formed)

gap_meaning :
    (machine : Machine) (gap : Str) (pieces : List Piece)
    → meaning machine (gap_pieces gap ++ pieces)
      ≡ meaning machine (gap_pieces gap) ++ meaning machine pieces
gap_meaning machine [] pieces = refl
gap_meaning machine (c ∷ gap) pieces = refl

source_of_gap : (gap : Str) → source (gap_pieces gap) ≡ gap
source_of_gap [] = refl
source_of_gap (c ∷ gap) = append-nil (c ∷ gap)

str_len_of_ascii : (s : Str) → IsAscii s → str_len s ≡ length s
unfolding str_len
str_len_of_ascii [] ascii = refl
str_len_of_ascii (c ∷ s) (low, ascii) = ground (arith, str_len_of_ascii s ascii)

IsAscii-suffix : (s t : Str) → IsAscii (s ++ t) → IsAscii t
IsAscii-suffix [] t ascii = ascii
IsAscii-suffix (c ∷ s) t (low, ascii) = IsAscii-suffix s t ascii

IsAscii-prefix : (s t : Str) → IsAscii (s ++ t) → IsAscii s
IsAscii-prefix [] t ascii = tt
IsAscii-prefix (c ∷ s) t (low, ascii) = (low, IsAscii-prefix s t ascii)

fill_tags_of_gap :
    (machine : Machine) (value done gap tail : Str) (start end : ℕ)
    → value ≡ done ++ (gap ++ tail)
    → end ≡ length done
    → start ≡ length done + length gap
    → fill_tags value end start ≡ meaning machine (gap_pieces gap)
fill_tags_of_gap machine value done [] tail start end e at_end at_start =
    let none_left : ltb end start ≡ false = ground arith in rw none_left refl
fill_tags_of_gap machine value done (c ∷ gap) tail start end e at_end at_start =
    let more : ltb end start ≡ true = ground arith in
    let count : start - end ≡ length (c ∷ gap) = omega arith in
    let cut : substring end start value ≡ c ∷ gap =
      rw (substring, e, count, at_end)
        (ap (take (length (c ∷ gap))) (drop-append done ((c ∷ gap) ++ tail))
          ∙ take-append (c ∷ gap) tail) in
    rw (fill_tags, more, cut) refl

pub cons_head : {x y : ℕ} {s t : Str} → ◌≡◌ {A = Str} (x ∷ s) (y ∷ t) → x ≡ y
cons_head e = cc

pub cons_tail : {x y : ℕ} {s t : Str} → ◌≡◌ {A = Str} (x ∷ s) (y ∷ t) → s ≡ t
cons_tail e = cc

-- Where the next brace stands that opens, behind a text that has none.
next_brace :
    (front mid rest before x : Str)
    → front ++ (mid ++ rest) ≡ before ++ (b'{' ∷ x)
    → length front ≤ length before
    → IsFree b'{' mid
    → (gap : Str) × (before ≡ front ++ (mid ++ gap)) × (rest ≡ gap ++ (b'{' ∷ x))
next_brace [] [] rest before x e h free = (before, refl, e)
next_brace [] (c ∷ mid) rest [] x e h (not_brace, free) =
    absurd (ground (arith, cons_head e, not_brace))
next_brace [] (c ∷ mid) rest (d ∷ before) x e h (not_brace, free) =
    let (gap, inside, outside) = next_brace [] mid rest before x (cons_tail e) (omega arith) free in
    (gap, ap (λ t. d ∷ t) inside ∙ ap (λ y. y ∷ (mid ++ gap)) (sym (cons_head e)), outside)
next_brace (c ∷ front) mid rest [] x e h free = absurd (omega arith)
next_brace (c ∷ front) mid rest (d ∷ before) x e h free =
    let (gap, inside, outside) =
      next_brace front mid rest before x (cons_tail e) (omega arith) free in
    (
      gap,
      ap (λ t. d ∷ t) inside ∙ ap (λ y. y ∷ (front ++ (mid ++ gap))) (sym (cons_head e)),
      outside,
    )

brace-IsFree :
    (body : Str) → All (λ c. is_key_char c ≡ true) body → IsFree b'{' (body ++ (b'}' ∷ []))
brace-IsFree [] chars = (refl, tt)
brace-IsFree (c ∷ body) (char, chars) = (ground (arith, char), brace-IsFree body chars)

module _ (machine : Machine) (find_at : Finder) (finder : IsLeftmost find_at) (value : Str)
    (ascii : IsAscii value) where
  -- The rest of a text behind a part of it stands for the tags that the loop finds in it.
  record Rest (rest : Str) (tags : List Tag) : Type 0 where
    pieces : List Piece
    formed : IsFormed pieces
    text : source pieces ≡ rest
    same : tags ≡ meaning machine pieces

  -- Where a key would stand that stands in a gap.
  key_inside :
      (front mid gap rest before body after : Str)
      → value ≡ front ++ (mid ++ (gap ++ rest))
      → gap ≡ before ++ (b'{' ∷ (body ++ (b'}' ∷ after)))
      → (value ≡ (front ++ (mid ++ before)) ++ (b'{' ∷ (body ++ (b'}' ∷ (after ++ rest)))))
        × (str_len (front ++ (mid ++ before)) ≡ length front + (length mid + length before))
  key_inside front mid gap rest before body after e inside =
      let tail = b'{' ∷ (body ++ (b'}' ∷ (after ++ rest))) in
      let moved : gap ++ rest ≡ before ++ tail =
        ap (λ t. t ++ rest) inside
        ∙ append_assoc before (b'{' ∷ (body ++ (b'}' ∷ after))) rest
        ∙ ap (λ t. before ++ (b'{' ∷ t)) (append_assoc body (b'}' ∷ after) rest) in
      let whole : value ≡ (front ++ (mid ++ before)) ++ tail =
        e
        ∙ ap (λ t. front ++ (mid ++ t)) moved
        ∙ ap (λ t. front ++ t) (sym (append_assoc mid before tail))
        ∙ sym (append_assoc front (mid ++ before) tail) in
      let low = IsAscii-prefix (front ++ (mid ++ before)) tail (subst IsAscii whole ascii) in
      (
        whole,
        str_len_of_ascii (front ++ (mid ++ before)) low
            ∙ length-append front (mid ++ before)
            ∙ ap (λ n. length front + n) (length-append mid before),
      )

  last-IsKeyless :
      (front mid rest : Str) (current : ℕ)
      → value ≡ front ++ (mid ++ rest)
      → current ≡ length front
      → find_at value current ≡ none
      → IsKeyless rest
  last-IsKeyless front mid rest current e at_current no_more before body after inside chars =
      let padded = e ∙ ap (λ t. front ++ (mid ++ t)) (sym (append-nil rest)) in
      let (whole, size) = key_inside front mid rest [] before body after padded inside in
      let early =
        finder.without value current no_more (front ++ (mid ++ before)) body (after ++ []) whole
          chars in
      absurd (omega (arith, early, size, at_current))

  gap-IsKeyless :
      (front mid gap rest : Str) (current : ℕ) (found : Match)
      → value ≡ front ++ (mid ++ (gap ++ rest))
      → current ≡ length front
      → find_at value current ≡ some found
      → found.start ≡ length front + (length mid + length gap)
      → IsKeyless gap
  gap-IsKeyless front mid gap rest current found e at_current hit starts before body after inside
        chars =
      let (whole, size) = key_inside front mid gap rest before body after e inside in
      let early =
        finder.first value current found hit (front ++ (mid ++ before)) body (after ++ rest) whole
          chars (omega (arith, size, at_current)) in
      let longer = ap length inside ∙ length-append before (b'{' ∷ (body ++ (b'}' ∷ after))) in
      absurd (omega (arith, early, size, starts, longer))

  last_part :
      (done rest : Str) (end : ℕ)
      → value ≡ done ++ rest
      → end ≡ length done
      → IsKeyless rest
      → Rest rest (fill_tags value end (str_len value))
  last_part done rest end e at_end keyless =
      let whole = e ∙ ap (λ t. done ++ t) (sym (append-nil rest)) in
      let size = str_len_of_ascii value ascii ∙ ap length e ∙ length-append done rest in
      record {
        pieces = gap_pieces rest;
        formed = gap-IsFormed rest keyless;
        text = source_of_gap rest;
        same = fill_tags_of_gap machine value done rest [] (str_len value) end whole at_end size;
      }

  -- The lengths of a match in a text of one-byte characters.
  match_ends :
      (position : ℕ) (found : Match) (m : IsMatch value position found)
      → (found.start ≡ length m.before)
        × (found.end ≡ length m.before + suc (length (m.body ++ (b'}' ∷ []))))
  match_ends position found m =
      let whole = subst IsAscii m.splits ascii in
      let inner = IsAscii-suffix m.before (found.as_str ++ m.after) whole in
      let start =
        m.starts
        ∙ str_len_of_ascii m.before (IsAscii-prefix m.before (found.as_str ++ m.after) whole) in
      let size =
        str_len_of_ascii found.as_str (IsAscii-prefix found.as_str m.after inner)
        ∙ ap length m.text in
      (start, omega (arith, m.ends, start, size))

  one_part :
      (done gap : Str) (end position : ℕ) (found : Match) (m : IsMatch value position found)
      (tags : List Tag)
      → m.before ≡ done ++ gap
      → end ≡ length done
      → IsKeyless gap
      → Rest m.after tags
      → Rest
          (gap ++ (found.as_str ++ m.after))
          (fill_tags value end found.start ++ (key_tags machine found.as_str ++ tags))
  one_part done gap end position found m tags inside at_end keyless later =
      let (starts, _) = match_ends position found m in
      let size = starts ∙ ap length inside ∙ length-append done gap in
      let whole =
        m.splits
        ∙ ap (λ t. t ++ (found.as_str ++ m.after)) inside
        ∙ append_assoc done gap (found.as_str ++ m.after) in
      let filled =
        fill_tags_of_gap machine value done gap (found.as_str ++ m.after) found.start end whole
          at_end size in
      record {
        pieces = gap_pieces gap ++ (key found.as_str ∷ later.pieces);
        formed =
            gap-key-IsFormed gap found.as_str later.pieces keyless
              ((m.body, m.text, m.chars), later.formed);
        text =
            gap_source gap (key found.as_str ∷ later.pieces)
            ∙ ap (λ t. gap ++ (found.as_str ++ t)) later.text;
        same =
            ap (λ t. t ++ (key_tags machine found.as_str ++ tags)) filled
            ∙ ap (λ t. meaning machine (gap_pieces gap) ++ (key_tags machine found.as_str ++ t))
                later.same
            ∙ sym (gap_meaning machine gap (key found.as_str ∷ later.pieces));
      }

  tags_from-Rest :
      (fuel : ℕ) (front mid rest : Str) (current end : ℕ) (tags : List Tag)
      → value ≡ front ++ (mid ++ rest)
      → IsFree b'{' mid
      → current ≡ length front
      → end ≡ length (front ++ mid)
      → tags_from machine find_at fuel value current end ≡ some tags
      → Rest rest tags
  unfolding tags_from
  tags_from-Rest zero front mid rest current end tags e free at_current at_end h =
      absurd (some≢none (sym h))
  tags_from-Rest (suc fuel) front mid rest current end tags e free at_current at_end h =
      elim (Option-cases (find_at value current)) [
        | inl no_more ↦ subst (Rest rest) (some_inj (rw (tags_from, no_more) at h)) (
            last_part (front ++ mid) rest end (e ∙ sym (append_assoc front mid rest)) at_end
              (last-IsKeyless front mid rest current e at_current no_more))
        | inr (found, hit) ↦
            let m = finder.sound.sound value current found hit in
            let (starts, ends) = match_ends current found m in
            let body = m.body ++ (b'}' ∷ []) in
            let full = m.splits ∙ ap (λ t. m.before ++ (t ++ m.after)) m.text in
            let (gap, inside, outside) =
              next_brace front mid rest m.before (body ++ m.after) (sym e ∙ full)
                (omega (arith, m.behind, starts)) free in
            let spread =
              m.splits
              ∙ ap (λ t. t ++ (found.as_str ++ m.after)) inside
              ∙ append_assoc front (mid ++ gap) (found.as_str ++ m.after)
              ∙ ap (λ t. front ++ t) (append_assoc mid gap (found.as_str ++ m.after)) in
            let reach =
              starts
              ∙ ap length inside
              ∙ length-append front (mid ++ gap)
              ∙ ap (λ n. length front + n) (length-append mid gap) in
            let keyless =
              gap-IsKeyless front mid gap (found.as_str ++ m.after) current found spread at_current
                hit reach in
            elim (Option-cases (tags_from machine find_at fuel value (found.start + 1) found.end)) [
              | inl stuck ↦ absurd (some≢none (sym (rw (tags_from, hit, stuck) at h)))
              | inr (more, rounds) ↦
                  let later =
                    tags_from-Rest fuel (m.before ++ (b'{' ∷ [])) body m.after (found.start + 1)
                      found.end more
                      (full ∙ sym (append_assoc m.before (b'{' ∷ []) (body ++ m.after)))
                      (brace-IsFree m.body m.chars)
                      (omega (arith, starts, length-append m.before (b'{' ∷ [])))
                      (omega (
                        arith,
                        ends,
                        length-append (m.before ++ (b'{' ∷ [])) body,
                        length-append m.before (b'{' ∷ []),
                      ))
                      rounds in
                  let part =
                    one_part (front ++ mid) gap end current found m more
                      (inside ∙ sym (append_assoc front mid gap)) at_end keyless later in
                  let found_text = outside ∙ ap (λ t. gap ++ (t ++ m.after)) (sym m.text) in
                  subst (λ r. Rest r tags) (sym found_text)
                    (subst (Rest (gap ++ (found.as_str ++ m.after)))
                      (some_inj (rw (tags_from, hit, rounds) at h)) part)
            ]
      ]

  -- A log format of one-byte characters is split into its keys in braces and the texts between them,
  -- which are not empty and in which no key stands, in order and without a rest; its tags are those of
  -- the parts: a text is a tag as it is, and a key is the tag that it names, or none if it names none.
  pub tags_of-pieces :
      (tags : List Tag)
      → tags_of machine find_at value ≡ some tags
      → (pieces : List Piece) × IsFormed pieces
        × (source pieces ≡ value)
        × (tags ≡ meaning machine pieces)
  unfolding tags_of
  tags_of-pieces tags h =
      let whole = tags_from-Rest (str_len value + 1) [] [] value 0 0 tags refl tt refl refl h in
      (whole.pieces, whole.formed, whole.text, whole.same)
