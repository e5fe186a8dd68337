-- ===== src/Logger/Format.antt =====
-- The format of the access log: `Parser` of pingap-logger/src/access.rs.
pub mod Rounds
pub mod Pieces
use pingap.Common.{
  ℕ, suc, zero, ◌+◌, ◌-◌, Bool, true, false, ◌||◌, Option, none, some, List, [], ◌∷◌, ◌++◌,
}
use pingap.Common.Tests.{ltb, ◌==◌, if◌then◌else◌}
use pingap.Common.Text.{Str, str, str_eq, str_len, unwrap_or_default}
use pingap.Common.Lists.{take, drop, any}
use pingap.Common.Map.{Map, get}

pub data TagCategory : Type 0 where
  fill host method path proto query remote client_ip scheme uri referrer user_agent : TagCategory
  when when_utc_iso when_unix size size_human status latency latency_human : TagCategory
  cookie request_header response_header context : TagCategory
  payload_size payload_size_human request_id : TagCategory

pub record Tag : Type 0 where
  pub category : TagCategory
  pub «data» : Option Str

pub record Parser : Type 0 where
  pub needs_timestamp : Bool
  pub capacity : ℕ
  pub tags : List Tag

-- The crate substring: the code points from one index to before another.
abbrev pub substring : ℕ → ℕ → Str → Str
substring start end s = take (end - start) (drop start s)

abbrev pub plain : TagCategory → Tag
plain category = record { category = category; «data» = none }

abbrev pub with_data : TagCategory → Str → Tag
with_data category value = record { category = category; «data» = some value }

-- The tags of fixed keys.
abbrev pub known : Map TagCategory
known =
    (str "{host}", host)
    ∷ (str "{method}", method)
    ∷ (str "{path}", path)
    ∷ (str "{proto}", proto)
    ∷ (str "{query}", query)
    ∷ (str "{remote}", remote)
    ∷ (str "{client_ip}", client_ip)
    ∷ (str "{scheme}", scheme)
    ∷ (str "{uri}", uri)
    ∷ (str "{referer}", referrer)
    ∷ (str "{user_agent}", user_agent)
    ∷ (str "{when}", when)
    ∷ (str "{when_utc_iso}", when_utc_iso)
    ∷ (str "{when_unix}", when_unix)
    ∷ (str "{size}", size)
    ∷ (str "{size_human}", size_human)
    ∷ (str "{status}", status)
    ∷ (str "{latency}", latency)
    ∷ (str "{latency_human}", latency_human)
    ∷ (str "{payload_size}", payload_size)
    ∷ (str "{payload_size_human}", payload_size_human)
    ∷ (str "{request_id}", request_id)
    ∷ []

-- The host's name and the variables of the environment.
pub record Machine : Type 0 where
  pub hostname : Str
  pub env_var : Str → Option Str

-- By the key without its braces.
abbrev tag_of_key : Machine → Str → Option Tag
tag_of_key machine [] = none
tag_of_key machine (c ∷ value) =
    if c == b'~'
    then some (with_data cookie value)
    else if c == b'>'
    then some (with_data request_header value)
    else if c == b'<'
    then some (with_data response_header value)
    else if c == b':'
    then some (with_data context value)
    else if c == b'$'
    then some (
        with_data fill (
          if str_eq (c ∷ value) (str "$hostname")
          then machine.hostname
          else unwrap_or_default (machine.env_var value)))
    else none

unfoldable pub format_extra_tag : Machine → Str → Option Tag
unfolding str_len str_eq
format_extra_tag machine key =
    if ltb (str_len key) 2 then none else tag_of_key machine (substring 1 (str_len key - 1) key)

-- A match of a regular expression: its ends in bytes, and its text.
pub record Match : Type 0 where
  pub start : ℕ
  pub end : ℕ
  pub as_str : Str

abbrev pub to_list : Option Tag → List Tag
to_list none = []
to_list (some tag) = tag ∷ []

-- The tags of a match: at most one.
unfoldable pub key_tags : Machine → Str → List Tag
unfolding get format_extra_tag
key_tags machine key = elim (get key known) [
  | some category ↦ plain category ∷ []
  | none ↦ to_list (format_extra_tag machine key)
]

-- `[` from `start` to `end` `]` of the text as it is, if there is something.
abbrev pub fill_tags : Str → ℕ → ℕ → List Tag
fill_tags value start end =
    if ltb start end then with_data fill (substring start end value) ∷ [] else []

-- `Regex::find_at` for the pattern of keys, from a position on.
abbrev pub Finder : Type 0
Finder = Str → ℕ → Option Match

-- The loop over the matches, from the position of the search and the end of the last match, and
-- the text behind the last match. The count of rounds is fuel.
abbrev pub next_tags : Machine → Str → ℕ → Match → Option (List Tag) → Option (List Tag)
next_tags machine value end found none = none
next_tags machine value end found (some rest) =
    some (fill_tags value end found.start ++ (key_tags machine found.as_str ++ rest))

unfoldable pub tags_from : Machine → Finder → ℕ → Str → ℕ → ℕ → Option (List Tag)
tags_from machine find_at zero value current end = none
tags_from machine find_at (suc fuel) value current end = elim (find_at value current) [
  | none ↦ some (fill_tags value end (str_len value))
  | some found ↦
      next_tags machine value end found
        (tags_from machine find_at fuel value (found.start + 1) found.end)
]

abbrev pub is_timed : TagCategory → Bool
is_timed when = true
is_timed when_utc_iso = true
is_timed when_unix = true
is_timed latency = true
is_timed latency_human = true
is_timed _ = false

abbrev size_of : Tag → ℕ
size_of tag = elim tag.category [
  | fill ↦ str_len (unwrap_or_default tag.«data»)
  | uri ↦ 64
  | path ↦ 64
  | user_agent ↦ 100
  | _ ↦ 16
]

unfoldable pub estimate_capacity : List Tag → ℕ
unfolding str_len
estimate_capacity [] = 128
estimate_capacity (tag ∷ tags) = size_of tag + estimate_capacity tags

abbrev pub with_tags : List Tag → Parser
with_tags tags = record {
  needs_timestamp = any (λ tag. is_timed tag.category) tags;
  capacity = estimate_capacity tags;
  tags = tags;
}

abbrev formats : Map Str
formats =
    (
      str "combined",
      str
          "{remote} \"{method} {uri} {proto}\" {status} {size_human} \"{referer}\" \"{user_agent}\"",
    )
    ∷ (str "common", str "{remote} \"{method} {uri} {proto}\" {status} {size_human}")
    ∷ (str "short", str "{remote} {method} {uri} {proto} {status} {size_human} - {latency}ms")
    ∷ (str "tiny", str "{method} {uri} {status} {size_human} - {latency}ms")
    ∷ []

abbrev predefined : Str → Option Str → Str
predefined value none = value
predefined value (some text) = text

-- The text of the format, which a name of a predefined one stands for.
abbrev pub text_of : Str → Str
text_of value = predefined value (get value formats)

-- Each round starts behind the start of the last match, so there are no more rounds than bytes.
unfoldable pub tags_of : Machine → Finder → Str → Option (List Tag)
unfolding tags_from
tags_of machine find_at value = tags_from machine find_at (str_len value + 1) value 0 0

unfoldable pub from : Machine → Finder → Str → Option Parser
unfolding tags_of get estimate_capacity
from machine find_at value = elim (tags_of machine find_at (text_of value)) [
  | none ↦ none
  | some tags ↦ some (with_tags tags)
]
