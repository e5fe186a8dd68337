-- ===== src/Location/Route.antt =====
-- `Location` of pingap-location/src/location.rs: the record, its construction from the
-- configuration, and its methods. `processing` and `max_processing` are the bit patterns of `i32`.
pub mod Matching
pub mod Limits
use pingap.Common.{
  ℕ, zero, suc, ◌-◌, Bool, true, false, not, ◌&&◌, ◌||◌, Option, none, some, List, [], ◌∷◌, ◌++◌,
}
use pingap.Common.Tests.{ltb, ◌==◌, if◌then◌else◌}
use pingap.Common.Text.{
  Str, str, str_eq, is_empty, starts_with, contains, split, trim, unwrap_or_default,
}
use pingap.Common.Lists.{length}
use pingap.Common.Map.{get}
use pingap.Common.Results.{Result, ok, err, ◌>>=◌}
use pingap.Common.Words.{inc32, dec32, inc64, lt_i32}
use pingap.Config.Conf.{LocationConf}
use pingap.External.{RegexLib, HttpLib}
use pingap.Http.Header.{RequestHeader, Uri, HttpHeader, HeaderError, parse_usize, convert_headers}
use pingap.Location.Capture
use pingap.Location.Selector.{
  Error, invalid, too_many_request, body_too_large, PathSelector, regex_path, prefix_path,
  equal_path, any_path, HostSelector, regex_host, equal_host, new_path_selector, new_host_selector,
}

abbrev or_default {ℓ} : {A : Type ℓ} → A → Option A → A
or_default d none = d
or_default d (some a) = a

unfoldable pub get_content_length : HttpLib → RequestHeader → Option ℕ
unfolding get parse_usize
get_content_length http header = elim (get (str "content-length") header.headers) [
  | none ↦ none
  | some content_length ↦ parse_usize (unwrap_or_default (http.to_str content_length))
]

pub record Location (rx : RegexLib) : Type 0 where
  pub name : Str
  pub key : Str
  pub upstream : Str
  pub path : Str
  pub path_selector : PathSelector rx
  pub hosts : List (HostSelector rx)
  pub reg_rewrite : Option (rx.Regex × Str)
  pub proxy_add_headers : Option (List HttpHeader)
  pub proxy_set_headers : Option (List HttpHeader)
  pub plugins : Option (List Str)
  pub accepted : ℕ
  pub processing : ℕ
  pub max_processing : ℕ
  pub grpc_web : Bool
  pub client_max_body_size : ℕ
  pub enable_reverse_proxy_headers : Bool

module _ (rx : RegexLib) (http : HttpLib) (show : HeaderError → Str) where
  unfoldable pub format_headers : Option (List Str) → Result Error (Option (List HttpHeader))
  unfolding convert_headers
  format_headers none = ok none
  format_headers (some header_values) = elim (convert_headers http header_values) [
    | ok arr ↦ ok (some arr)
    | err e ↦ err (invalid (show e))
  ]

  abbrev compiled : Str → Str → Option (rx.Regex × Str)
  compiled pattern value = elim (rx.new pattern) [ ok re ↦ some (re, value) | err _ ↦ none ]

  -- The words of the rewrite rule: a single word with a dollar sign is the replacement.
  abbrev rewrite_rule : List Str → Option (rx.Regex × Str)
  rewrite_rule [] = compiled [] []
  rewrite_rule (word ∷ []) =
      if contains word (str "$") then compiled (str ".*") word else compiled word []
  rewrite_rule (pattern ∷ value ∷ []) = compiled pattern value
  rewrite_rule (pattern ∷ _ ∷ _ ∷ _) = compiled pattern []

  unfoldable pub new_reg_rewrite : Option Str → Option (rx.Regex × Str)
  unfolding split contains
  new_reg_rewrite none = none
  new_reg_rewrite (some value) = rewrite_rule (split b' ' value)

  unfoldable pub new_hosts : List Str → Result Error (List (HostSelector rx))
  unfolding trim new_host_selector
  new_hosts [] = ok []
  new_hosts (item ∷ items) =
      let rest = new_hosts items in
      let host = trim item in
      if is_empty host
      then rest
      else (do selector ← new_host_selector rx host; hosts ← rest; ok (selector ∷ hosts))

  unfoldable pub new : (LocationConf → Str) → Str → LocationConf → Result Error (Location rx)
  unfolding new_hosts new_path_selector format_headers new_reg_rewrite split
  new hash_key name conf = if is_empty name then err (invalid (str "Name is required")) else (do
    hosts ← new_hosts (split b',' (unwrap_or_default conf.host))
    path_selector ← new_path_selector rx (unwrap_or_default conf.path)
    proxy_add_headers ← format_headers conf.proxy_add_headers
    proxy_set_headers ← format_headers conf.proxy_set_headers
    ok (record {
      name = name;
      key = hash_key conf;
      upstream = unwrap_or_default conf.upstream;
      path = unwrap_or_default conf.path;
      path_selector = path_selector;
      hosts = hosts;
      reg_rewrite = new_reg_rewrite conf.rewrite;
      proxy_add_headers = proxy_add_headers;
      proxy_set_headers = proxy_set_headers;
      plugins = conf.plugins;
      accepted = 0;
      processing = 0;
      max_processing = or_default 0 conf.max_processing;
      grpc_web = or_default false conf.grpc_web;
      client_max_body_size = or_default 0 conf.client_max_body_size;
      enable_reverse_proxy_headers = or_default false conf.enable_reverse_proxy_headers;
    }))

module _ (rx : RegexLib) where
  unfoldable pub client_body_size_limit : Location rx → ℕ → Result Error (Unit {0})
  client_body_size_limit self payload_size =
      if self.client_max_body_size == 0
      then ok tt
      else if ltb self.client_max_body_size payload_size
      then err (body_too_large self.client_max_body_size)
      else ok tt

  unfoldable pub validate_content_length :
      HttpLib → Location rx → RequestHeader → Result Error (Unit {0})
  unfolding get_content_length
  validate_content_length http self header =
      if self.client_max_body_size == 0
      then ok tt
      else if ltb self.client_max_body_size (or_default 0 (get_content_length http header))
      then err (body_too_large self.client_max_body_size)
      else ok tt

  -- The location after the call, and its result.
  unfoldable pub add_processing : Location rx → Location rx × Result Error (ℕ × ℕ)
  add_processing self =
      let accepted = inc64 self.accepted in
      let processing = inc32 self.processing in
      (
        record self { accepted = accepted; processing = processing },
        if not (self.max_processing == 0) && lt_i32 self.max_processing processing
            then err (too_many_request self.max_processing)
            else ok (accepted, processing),
      )

  unfoldable pub sub_processing : Location rx → Location rx
  sub_processing self = record self { processing = dec32 self.processing }

  -- `if let (true, Some(vars)) = …`: the variables to add.
  abbrev found : Bool × Option (List (Str × Str)) → List (Str × Str)
  found (true, some vars) = vars
  found (true, none) = []
  found (false, _) = []

  match_path : PathSelector rx → Str → Bool × List (Str × Str)
  unfolding Capture.captures str_eq starts_with
  match_path (equal_path value) path = (str_eq value path, [])
  match_path (regex_path value) path =
      let result = Capture.captures rx value path in (result.0, found result)
  match_path (prefix_path value) path = (starts_with path value, [])
  match_path any_path path = (true, [])

  -- `hosts.iter().any(…)`, which adds to the variables on the way.
  match_hosts : List (HostSelector rx) → Str → List (Str × Str) → Bool × List (Str × Str)
  unfolding Capture.captures str_eq
  match_hosts [] host variables = (false, variables)
  match_hosts (regex_host value ∷ hosts) host variables =
      let result = Capture.captures rx value host in
      let rest = match_hosts hosts host (variables ++ found result) in
      if result.0 then (true, variables ++ found result) else rest
  match_hosts (equal_host value ∷ hosts) host variables =
      let rest = match_hosts hosts host variables in
      if is_empty value || str_eq value host then (true, variables) else rest

  abbrev some_variables : Bool × List (Str × Str) → Bool × Option (List (Str × Str))
  some_variables (matched, []) = (matched, none)
  some_variables (matched, v ∷ variables) = (matched, some (v ∷ variables))

  -- What follows when the path matches.
  match_host : Location rx → Str → List (Str × Str) → Bool × Option (List (Str × Str))
  unfolding match_hosts
  match_host self host variables =
      if is_empty self.hosts
      then (true, none)
      else some_variables (match_hosts self.hosts host variables)

  unfoldable pub match_host_path : Location rx → Str → Str → Bool × Option (List (Str × Str))
  unfolding match_path match_host
  match_host_path self host path =
      if is_empty self.path
      then match_host self host []
      else (let (matched, variables) = match_path self.path_selector path in
          if matched then match_host self host variables else (false, none))

-- `str::replace` of a pattern that is not empty; the first argument counts the code points of an
-- occurrence that are still to be passed over.
replace_from : ℕ → Str → Str → Str → Str
unfolding starts_with
replace_from skip k v [] = []
replace_from (suc skip) k v (c ∷ s) = replace_from skip k v s
replace_from zero k v (c ∷ s) =
    let hit = v ++ replace_from (length k - 1) k v s in
    let miss = c ∷ replace_from zero k v s in if starts_with (c ∷ s) k then hit else miss

-- The keys are never empty: `Ctx::add_variable` puts a dollar sign in front.
unfoldable pub replace_variables : List (Str × Str) → Str → Str
unfolding replace_from
replace_variables [] value = value
replace_variables ((k, v) ∷ variables) value =
    replace_variables variables (replace_from zero k v value)

module _ (rx : RegexLib) (http : HttpLib) where
  abbrev with_query : Option Str → Str → Str
  with_query none path = path
  with_query (some query) path = path ++ (b'?' ∷ query)

  set_uri : RequestHeader → Str → RequestHeader
  set_uri header new_path = elim (http.parse_uri new_path) [
    | none ↦ header
    | some (host, path, query) ↦ record header {
      uri = record { host = host; path = path; query = query };
    }
  ]

  abbrev or_no_variables : Option (List (Str × Str)) → List (Str × Str)
  or_no_variables none = []
  or_no_variables (some variables) = variables

  new_path_of : rx.Regex → Str → Option (List (Str × Str)) → Str → Str
  unfolding replace_variables str_eq
  new_path_of re value variables path =
      let replace_value = replace_variables (or_no_variables variables) value in
      if str_eq (rx.as_str re) (str ".*") then replace_value else rx.replace re path replace_value

  -- The header after the call, and whether the path was rewritten.
  unfoldable pub rewrite :
      Location rx → RequestHeader → Option (List (Str × Str)) → RequestHeader × Bool
  unfolding set_uri new_path_of str_eq
  rewrite self header variables = elim self.reg_rewrite [
    | none ↦ (header, false)
    | some (re, value) ↦
        let new_path = new_path_of re value variables header.uri.path in
        if str_eq header.uri.path new_path
        then (header, false)
        else (set_uri header (with_query header.uri.query new_path), true)
  ]
