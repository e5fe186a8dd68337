-- ===== src/Http/Query.antt =====
-- The removal of a query parameter: `remove_query_from_header` of pingap-core/src/http_header.rs.
pub mod Items
pub mod Removal
use pingap.Common.{ℕ, Bool, true, false, not, Option, none, some, List, [], ◌∷◌, ◌++◌}
use pingap.Common.Tests.{if◌then◌else◌}
use pingap.Common.Text.{Str, str, str_eq, is_empty, split, split_once, join}
use pingap.Common.Results.{Result, ok, err}
use pingap.External.{HttpLib}
use pingap.Http.Header.{Uri, RequestHeader}

-- The items that stay, in the text in which they stay.
unfoldable pub kept_items : Str → List Str → List Str
kept_items name [] = []
kept_items name (item ∷ items) =
    let rest = kept_items name items in
    elim (split_once b'=' item) [
      | some (k, v) ↦ if not (str_eq k name) then (k ++ (b'=' ∷ v)) ∷ rest else rest
      | none ↦ if not (str_eq item name) then item ∷ rest else rest
    ]

abbrev pub new_path : Str → Str → Str
new_path path query = if is_empty query then path else path ++ (b'?' ∷ query)

-- The header after the call, and whether the new path is a URI.
unfoldable pub remove_query_from_header :
    HttpLib → RequestHeader → Str → RequestHeader × Result (Unit {0}) (Unit {0})
remove_query_from_header http req_header name = elim req_header.uri.query [
  | none ↦ (req_header, ok tt)
  | some query ↦
      let path =
        new_path req_header.uri.path (join (str "&") (kept_items name (split b'&' query))) in
      elim (http.parse_uri path) [
        | none ↦ (req_header, err tt)
        | some (host, path, query) ↦
            (record req_header { uri = record { host = host; path = path; query = query } }, ok tt)
      ]
]
