-- ===== src/Common/Text.antt =====
-- Text as a list of code points, with the methods of `str` that the program calls.
use Prim.Native.Char.{code}
use Prim.Native.String.{String}
use Prim.Native.Nat.{ℕ, ◌+◌, ◌/◌, ◌%◌}
use mathlib.Core.Path.{◌≡◌, refl}
use mathlib.Core.Logic.{◌↔◌}
use mathlib.Core.Bool.{Bool, true, false, not, ◌&&◌, ◌||◌}
use mathlib.Core.Option.{Option, none, some}
use mathlib.Core.List.{List, [], ◌∷◌, ◌++◌, reverse}
use native.Mathlib.Omega.{arith}
use pingap.Common.Tests.{ltb, leb, ◌==◌, if◌then◌else◌}

abbrev pub Str : Type 0
Str = List ℕ

-- A literal of the source.
abbrev pub str : String → Str
str String.[] = []
str (String.◌∷◌ c s) = code c ∷ str s

unfoldable pub str_eq : Str → Str → Bool
str_eq [] [] = true
str_eq [] (_ ∷ _) = false
str_eq (_ ∷ _) [] = false
str_eq (c ∷ s) (d ∷ t) = (c == d) && str_eq s t

pub str_eq_iff : (s t : Str) → (str_eq s t ≡ true) ↔ (s ≡ t)
unfolding str_eq
str_eq_iff [] [] = ((λ _. refl), (λ _. refl))
str_eq_iff [] (d ∷ t) = ground arith
str_eq_iff (c ∷ s) [] = ground arith
str_eq_iff (c ∷ s) (d ∷ t) = ground (arith, str_eq_iff s t)

pub str_eq_refl : (s : Str) → str_eq s s ≡ true
str_eq_refl s = (str_eq_iff s s).1 refl

abbrev pub is_empty {ℓ} : {A : Type ℓ} → List A → Bool
is_empty [] = true
is_empty (_ ∷ _) = false

-- `str::len`: the number of bytes in UTF-8.
abbrev pub len_utf8 : ℕ → ℕ
len_utf8 c = if ltb c 0x80 then 1 else if ltb c 0x800 then 2 else if ltb c 0x1_0000 then 3 else 4

unfoldable pub str_len : Str → ℕ
str_len [] = 0
str_len (c ∷ s) = len_utf8 c + str_len s

unfoldable pub starts_with : Str → Str → Bool
starts_with s [] = true
starts_with [] (_ ∷ _) = false
starts_with (c ∷ s) (d ∷ t) = (c == d) && starts_with s t

unfoldable pub ends_with : Str → Str → Bool
unfolding starts_with
ends_with s t = starts_with (reverse s) (reverse t)

pub starts_with-append : (t s : Str) → starts_with (t ++ s) t ≡ true
unfolding starts_with
starts_with-append [] s = refl
starts_with-append (c ∷ t) s = ground (arith, starts_with-append t s)

pub starts_with-exists : (s t : Str) → starts_with s t ≡ true → (r : Str) × (s ≡ t ++ r)
unfolding starts_with
starts_with-exists s [] h = (s, refl)
starts_with-exists [] (d ∷ t) h = elim (false_true h) [ ]
  where
    false_true : false ≡ true → ⊥
    false_true e = cc
starts_with-exists (c ∷ s) (d ∷ t) h =
    let (r, e) = starts_with-exists s t (ground arith) in (r, ground arith)

-- `str::contains` of a text.
unfoldable pub contains : Str → Str → Bool
unfolding starts_with
contains [] t = is_empty t
contains (c ∷ s) t = starts_with (c ∷ s) t || contains s t

-- `char::is_whitespace`: the code points with the property White_Space.
unfoldable pub is_whitespace : ℕ → Bool
is_whitespace c =
    (leb 9 c && leb c 13)
    || c == 0x20
    || c == 0x85
    || c == 0xa0
    || c == 0x1680
    || (leb 0x2000 c && leb c 0x200a)
    || c == 0x2028
    || c == 0x2029
    || c == 0x202f
    || c == 0x205f
    || c == 0x3000

unfoldable pub trim_start : Str → Str
unfolding is_whitespace
trim_start [] = []
trim_start (c ∷ s) = if is_whitespace c then trim_start s else c ∷ s

unfoldable pub trim : Str → Str
unfolding trim_start
trim s = reverse (trim_start (reverse (trim_start s)))

-- Puts a code point in front of the first part.
abbrev pub push_first : ℕ → List Str → List Str
push_first c [] = (c ∷ []) ∷ []
push_first c (p ∷ ps) = (c ∷ p) ∷ ps

-- `str::split` at a code point; there is always a first part.
unfoldable pub split : ℕ → Str → List Str
split d [] = [] ∷ []
split d (c ∷ s) = let parts = split d s in if c == d then [] ∷ parts else push_first c parts

-- `str::split_once` at a code point.
unfoldable pub split_once : ℕ → Str → Option (Str × Str)
split_once d [] = none
split_once d (c ∷ s) =
    let later = split_once d s in
    if c == d then some ([], s) else elim later [ none ↦ none | some (k, v) ↦ some (c ∷ k, v) ]

-- `[S]::join`.
unfoldable pub join : Str → List Str → Str
join sep [] = []
join sep (p ∷ []) = p
join sep (p ∷ q ∷ ps) = p ++ (sep ++ join sep (q ∷ ps))

abbrev pub unwrap_or_default : Option Str → Str
unwrap_or_default none = []
unwrap_or_default (some s) = s

-- `Vec<String>::contains`.
unfoldable pub includes : List Str → Str → Bool
unfolding str_eq
includes [] k = false
includes (x ∷ xs) k = str_eq x k || includes xs k

abbrev begins_word : Str → Bool
begins_word [] = false
begins_word (c ∷ s) = not (is_whitespace c)

-- `str::split_whitespace`.
unfoldable pub split_whitespace : Str → List Str
split_whitespace [] = []
split_whitespace (c ∷ s) =
    let words = split_whitespace s in
    if is_whitespace c
    then words
    else if begins_word s
    then push_first c words
    else (c ∷ []) ∷ words

-- `str::as_bytes`: the text in UTF-8.
abbrev encode_utf8 : ℕ → List ℕ
encode_utf8 c =
    if ltb c 0x80
    then c ∷ []
    else if ltb c 0x800
    then (0xc0 + c / 64) ∷ (0x80 + c % 64) ∷ []
    else if ltb c 0x1_0000
    then (0xe0 + c / 4096) ∷ (0x80 + c / 64 % 64) ∷ (0x80 + c % 64) ∷ []
    else (0xf0 + c / 262144) ∷ (0x80 + c / 4096 % 64) ∷ (0x80 + c / 64 % 64) ∷ (0x80 + c % 64) ∷ []

unfoldable pub as_bytes : Str → List ℕ
as_bytes [] = []
as_bytes (c ∷ s) = encode_utf8 c ++ as_bytes s
