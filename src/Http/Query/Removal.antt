-- ===== src/Http/Query/Removal.antt =====
-- What is left of a query after a parameter was removed: pingap-core/src/http_header.rs.
use pingap.Common.{
  ℕ, ◌≡◌, ◌≢◌, refl, sym, ap, subst, ◌∙◌, inl, inr, Option, none, some, List, [], ◌∷◌, ◌++◌,
}
use pingap.Common.Tests.{Bool-cases, Option-cases}
use pingap.Common.Text.{Str, str, str_eq, split, split_once, join}
use pingap.Common.Splits.{IsFree, split-IsFree, split-join, join-split}
use pingap.Common.Lists.{All}
use pingap.Common.Results.{ok}
use pingap.External.{HttpLib}
use pingap.Http.Header.{Uri, RequestHeader, find_pair, get_query_value}
use pingap.Http.Query.{new_path, remove_query_from_header}
use pingap.Http.Query.Items.{others, kept_items-others, find_pair-others, find_pair-others_of_other}

others-All :
    (d : ℕ) (name : Str) (items : List Str)
    → All (IsFree d) items
    → All (IsFree d) (others name items)
others-All d name [] a = tt
others-All d name (item ∷ items) a =
    let rest = others-All d name items a.1 in
    elim (Option-cases (split_once b'=' item)) [
      | inl single ↦ elim (Bool-cases (str_eq item name)) [
        | inl same ↦ rw (others, single, same) rest
        | inr kept ↦ rw (others, single, kept) (a.0, rest)
      ]
      | inr ((k, v), pair) ↦ elim (Bool-cases (str_eq k name)) [
        | inl same ↦ rw (others, pair, same) rest
        | inr kept ↦ rw (others, pair, kept) (a.0, rest)
      ]
    ]

-- A text that is left of another one when some of its characters are taken out.
pub data Sub : Str → Str → Type 0 where
  sub_nil : Sub [] []
  sub_keep : {s t : Str} (c : ℕ) → Sub s t → Sub (c ∷ s) (c ∷ t)
  sub_skip : {s t : Str} (c : ℕ) → Sub s t → Sub s (c ∷ t)

Sub-empty : (t : Str) → Sub [] t
Sub-empty [] = sub_nil
Sub-empty (c ∷ t) = sub_skip c (Sub-empty t)

Sub-prefix : (p t : Str) → Sub p (p ++ t)
Sub-prefix [] t = Sub-empty t
Sub-prefix (c ∷ p) t = sub_keep c (Sub-prefix p t)

Sub-refl : (t : Str) → Sub t t
Sub-refl [] = sub_nil
Sub-refl (c ∷ t) = sub_keep c (Sub-refl t)

Sub-keep : (p : Str) {s t : Str} → Sub s t → Sub (p ++ s) (p ++ t)
Sub-keep [] h = h
Sub-keep (c ∷ p) h = sub_keep c (Sub-keep p h)

Sub-skip : (p : Str) {s t : Str} → Sub s t → Sub s (p ++ t)
Sub-skip [] h = h
Sub-skip (c ∷ p) h = sub_skip c (Sub-skip p h)

join-Sub_of_dropped :
    (item : Str) (kept rest : List Str)
    → Sub (join (str "&") kept) (join (str "&") rest)
    → (rest ≡ [] → kept ≡ [])
    → Sub (join (str "&") kept) (join (str "&") (item ∷ rest))
unfolding join
join-Sub_of_dropped item kept [] h none_left =
    subst (λ k. Sub (join (str "&") k) item) (sym (none_left refl)) (Sub-empty item)
join-Sub_of_dropped item kept (q ∷ ps) h none_left = Sub-skip item (sub_skip b'&' h)

join-Sub_of_kept :
    (item : Str) (kept rest : List Str)
    → Sub (join (str "&") kept) (join (str "&") rest)
    → (rest ≡ [] → kept ≡ [])
    → Sub (join (str "&") (item ∷ kept)) (join (str "&") (item ∷ rest))
unfolding join
join-Sub_of_kept item [] [] h none_left = Sub-refl item
join-Sub_of_kept item (k ∷ ks) [] h none_left = let no = none_left refl in absurd cc
join-Sub_of_kept item [] (q ∷ ps) h none_left = Sub-prefix item _
join-Sub_of_kept item (k ∷ ks) (q ∷ ps) h none_left = Sub-keep item (sub_keep b'&' h)

others-empty : (name : Str) (items : List Str) → items ≡ [] → others name items ≡ []
others-empty name items h = rw h refl

join-others :
    (name : Str) (items : List Str)
    → Sub (join (str "&") (others name items)) (join (str "&") items)
unfolding join
join-others name [] = sub_nil
join-others name (item ∷ items) =
    let rest = join-others name items in
    let dropped =
      join-Sub_of_dropped item (others name items) items rest (others-empty name items) in
    let kept = join-Sub_of_kept item (others name items) items rest (others-empty name items) in
    elim (Option-cases (split_once b'=' item)) [
      | inl single ↦ elim (Bool-cases (str_eq item name)) [
        | inl same ↦ rw (others, single, same) dropped
        | inr stays ↦ rw (others, single, stays) kept
      ]
      | inr ((k, v), pair) ↦ elim (Bool-cases (str_eq k name)) [
        | inl same ↦ rw (others, pair, same) dropped
        | inr stays ↦ rw (others, pair, stays) kept
      ]
    ]

-- What the parser of URIs makes of the path of a URI that it read, alone and with what is left of its
-- query: both consist of characters that it takes there.
pub record IsUriParser (http : HttpLib) (uri : Uri) : Type 0 where
  pub plain : http.parse_uri uri.path ≡ some (none, uri.path, none)
  pub with_query :
      (query kept : Str)
      → uri.query ≡ some query
      → Sub kept query
      → kept ≢ []
      → http.parse_uri (uri.path ++ (b'?' ∷ kept)) ≡ some (none, uri.path, some kept)

module _ (http : HttpLib) (header : RequestHeader) (laws : IsUriParser http header.uri)
    (query : Str) (there : header.uri.query ≡ some query) where
  -- The value under which a name is found in a query.
  abbrev find_value : Str → Option Str → Option Str
  find_value key none = none
  find_value key (some query) = find_pair key (split b'&' query)

  find_value-parsed :
      (items : List Str)
      → All (IsFree b'&') items
      → Sub (join (str "&") items) query
      → (left : Option Str) × (http.parse_uri (new_path header.uri.path (join (str "&") items))
          ≡ some (none, header.uri.path, left))
        × ((key : Str) → find_value key left ≡ find_pair key items)
  unfolding join find_pair split_once
  find_value-parsed [] free part = (none, laws.plain, λ key. refl)
  find_value-parsed ([] ∷ []) free part = (none, laws.plain, λ key. refl)
  find_value-parsed ((c ∷ p) ∷ []) free part = (
    some (c ∷ p),
    laws.with_query query (c ∷ p) there part (λ h. cc),
    λ key. ap (find_pair key) (split-join b'&' (c ∷ p) [] free),
  )
  find_value-parsed ([] ∷ q ∷ ps) free part =
      let left = join (str "&") ([] ∷ q ∷ ps) in
      (
        some left,
        laws.with_query query left there part (λ h. cc),
        λ key. ap (find_pair key) (split-join b'&' [] (q ∷ ps) free),
      )
  find_value-parsed ((c ∷ p) ∷ q ∷ ps) free part =
      let left = join (str "&") ((c ∷ p) ∷ q ∷ ps) in
      (
        some left,
        laws.with_query query left there part (λ h. cc),
        λ key. ap (find_pair key) (split-join b'&' (c ∷ p) (q ∷ ps) free),
      )

-- After a parameter was removed from a query, it is not found any more, and every other parameter is
-- found with the value that it had. The parser of URIs reads the path back, alone and with each part of
-- the query that is left when characters are taken out of it.
pub get_query_value-remove_query_from_header :
    (http : HttpLib) (header : RequestHeader) (name other : Str)
    → IsUriParser http header.uri
    → let (header', result) = remove_query_from_header http header name in
      (result ≡ ok tt)
      × (get_query_value header' name ≡ none)
      × (name ≢ other → get_query_value header' other ≡ get_query_value header other)
unfolding remove_query_from_header get_query_value
get_query_value-remove_query_from_header http header name other laws =
    elim (Option-cases header.uri.query) [
      | inl none_there ↦
          rw (remove_query_from_header, none_there, get_query_value)
            (refl, rw none_there refl, λ h. rw none_there refl)
      | inr (query, there) ↦
          let items = split b'&' query in
          let (query', parsed, found) =
            find_value-parsed http header laws query there (others name items)
              (others-All b'&' name items (split-IsFree b'&' query))
              (subst (Sub (join (str "&") (others name items))) (join-split b'&' query)
                (join-others name items)) in
          let read =
            ap (λ kept. http.parse_uri (new_path header.uri.path (join (str "&") kept)))
              (kept_items-others name items)
            ∙ parsed in
          rw (remove_query_from_header, there, read, get_query_value)
            (
              refl,
              found name ∙ find_pair-others name items,
              λ differs. found other ∙ find_pair-others_of_other name other items differs,
            )
    ]
