-- ===== src/Http/Header.antt =====
-- The request header as pingap reads it, and the helpers of pingap-core/src/http_header.rs.
-- Header names are kept in lower case, as the crate http keeps them; the header list is in order.
use pingap.Common.{ℕ, ◌+◌, ◌-◌, ◌*◌, ◌^◌, ◌&&◌, Option, none, some, List, [], ◌∷◌}
use pingap.Common.Tests.{ltb, leb, ◌==◌, if◌then◌else◌}
use pingap.Common.Text.{Str, str, str_eq, is_empty, split, split_once, trim}
use pingap.Common.Results.{Result, ok, err, ◌>>=◌}
use pingap.Common.Map.{get}
use pingap.External.{HttpLib}

pub record Uri : Type 0 where
  pub host : Option Str
  pub path : Str
  pub query : Option Str

pub record RequestHeader : Type 0 where
  pub method : Str
  pub uri : Uri
  pub headers : List (Str × Str)

pub data HeaderError : Type 0 where
  invalid_header_name invalid_header_value : Str → Str → HeaderError

abbrev pub HttpHeader : Type 0
HttpHeader = Str × Str

abbrev with_source {ℓ} :
    {A : Type ℓ} → (Str → Str → HeaderError) → Str → Result Str A → Result HeaderError A
with_source e value (ok a) = ok a
with_source e value (err source) = err (e value source)

-- `<usize as FromStr>::from_str`: an optional plus, then digits, on 64 bits.
parse_digits : ℕ → Str → Option ℕ
parse_digits n [] = some n
parse_digits n (c ∷ s) =
    let rest = parse_digits (n * 10 + (c - b'0')) s in
    if leb b'0' c && leb c b'9' && ltb (n * 10 + (c - b'0')) (2 ^ 64) then rest else none

unfoldable pub parse_usize : Str → Option ℕ
unfolding parse_digits
parse_usize [] = none
parse_usize (c ∷ s) =
    if c == b'+' then (if is_empty s then none else parse_digits 0 s) else parse_digits 0 (c ∷ s)

module _ (http : HttpLib) where
  unfoldable pub get_host : RequestHeader → Option Str
  unfolding split get
  get_host header = elim header.uri.host [
    | some host ↦ some host
    | none ↦ elim (get (str "host") header.headers) [
      | none ↦ none
      | some value ↦ elim (http.to_str value) [
        | none ↦ none
        | some host ↦ elim (split b':' host) [ [] ↦ none | first ∷ _ ↦ some first ]
      ]
    ]
  ]

  unfoldable pub convert_header : Str → Result HeaderError (Option HttpHeader)
  unfolding split_once trim
  convert_header value = elim (split_once b':' value) [
    | none ↦ ok none
    | some (k, v) ↦ do
      name ← with_source invalid_header_name k (http.header_name (trim k))
      value ← with_source invalid_header_value v (http.header_value (trim v))
      ok (some (name, value))
  ]

  abbrev push_header : Option HttpHeader → List HttpHeader → List HttpHeader
  push_header none arr = arr
  push_header (some item) arr = item ∷ arr

  unfoldable pub convert_headers : List Str → Result HeaderError (List HttpHeader)
  unfolding convert_header
  convert_headers [] = ok []
  convert_headers (item ∷ header_values) = do
    found ← convert_header item
    arr ← convert_headers header_values
    ok (push_header found arr)

  -- `headers.get(key)` looks the name up in lower case, and finds nothing under an invalid name.
  unfoldable pub get_req_header_value : RequestHeader → Str → Option Str
  unfolding get
  get_req_header_value header key = elim (http.header_name key) [
    | err _ ↦ none
    | ok name ↦ elim (get name header.headers) [ none ↦ none | some value ↦ http.to_str value ]
  ]

-- The first `k=v` of a list of items whose name is the given one.
unfoldable pub find_pair : Str → List Str → Option Str
unfolding split_once str_eq trim
find_pair name [] = none
find_pair name (item ∷ items) =
    let rest = find_pair name items in
    elim (split_once b'=' item) [
      | none ↦ rest
      | some (k, v) ↦ if str_eq k name then some (trim v) else rest
    ]

unfoldable pub get_cookie_value : HttpLib → RequestHeader → Str → Option Str
unfolding get_req_header_value find_pair split
get_cookie_value http header cookie_name = elim (get_req_header_value http header (str "Cookie")) [
  | none ↦ none
  | some cookie_value ↦ find_pair cookie_name (split b';' cookie_value)
]

unfoldable pub get_query_value : RequestHeader → Str → Option Str
unfolding find_pair split
get_query_value header name = elim header.uri.query [
  | none ↦ none
  | some query ↦ find_pair name (split b'&' query)
]
