-- ===== src/Plugin/ResponseHeaders.antt =====
-- The plugin response_headers of pingap-plugin/src/response_headers.rs. `new` takes the lists that
-- the plugin's configuration gives; its errors are those of a header.
use pingap.Common.{ℕ, true, false, not, none, some, List, [], ◌∷◌}
use pingap.Common.Tests.{if◌then◌else◌}
use pingap.Common.Text.{Str, trim, split_once}
use pingap.Common.Map.{get, remove}
use pingap.Common.Results.{Result, ok, err, ◌>>=◌}
use pingap.Core.Ctx.{Ctx}
use pingap.Core.Plugin.{PluginStep, response, step_eq, Session, ResponseHeader, Responded}
use pingap.External.{HttpLib}
use pingap.Http.Header.{HttpHeader, HeaderError, invalid_header_name, convert_headers}
use pingap.Http.Values.{System}
use pingap.Server.Proxy.{append_header, insert_header, append_all, set_all, converted}

pub record ResponseHeaders : Type 0 where
  pub plugin_step : PluginStep
  pub add_headers : List HttpHeader
  pub remove_headers : List Str
  pub set_headers : List HttpHeader
  pub rename_headers : List (Str × Str)
  pub set_headers_not_exists : List HttpHeader

module _ (http : HttpLib) where
  abbrev name_of : Str → Result HeaderError Str
  name_of item = elim (http.header_name item) [
    | ok name ↦ ok name
    | err source ↦ err (invalid_header_name item source)
  ]

  unfoldable pub names_of : List Str → Result HeaderError (List Str)
  names_of [] = ok []
  names_of (item ∷ items) = do name ← name_of item; names ← names_of items; ok (name ∷ names)

  -- The pairs of names; an item without a colon is left out.
  unfoldable pub renames_of : List Str → Result HeaderError (List (Str × Str))
  unfolding split_once trim
  renames_of [] = ok []
  renames_of (item ∷ items) = elim (split_once b':' item) [
    | none ↦ renames_of items
    | some (k, v) ↦ do
      original_name ← name_of (trim k)
      new_name ← name_of (trim v)
      names ← renames_of items
      ok ((original_name, new_name) ∷ names)
  ]

  -- From the lists of headers to add, set, remove, rename and set if they do not exist.
  unfoldable pub new :
      List Str → List Str → List Str → List Str → List Str → Result HeaderError ResponseHeaders
  unfolding convert_headers names_of renames_of
  new add set remove rename set_not_exists = do
    add_headers ← convert_headers http add
    set_headers ← convert_headers http set
    remove_headers ← names_of remove
    rename_headers ← renames_of rename
    set_headers_not_exists ← convert_headers http set_not_exists
    ok (record {
      plugin_step = response;
      add_headers = add_headers;
      remove_headers = remove_headers;
      set_headers = set_headers;
      rename_headers = rename_headers;
      set_headers_not_exists = set_headers_not_exists;
    })

unfoldable pub remove_all : List Str → List (Str × Str) → List (Str × Str)
unfolding remove
remove_all [] headers = headers
remove_all (name ∷ names) headers = remove_all names (remove name headers)

-- `remove_header` returns the first value of the name and removes all of them.
unfoldable pub rename_all : List (Str × Str) → List (Str × Str) → List (Str × Str)
unfolding get remove append_header
rename_all [] headers = headers
rename_all ((original_name, new_name) ∷ names) headers = elim (get original_name headers) [
  | none ↦ rename_all names headers
  | some value ↦ rename_all names (append_header new_name value (remove original_name headers))
]

module _ (http : HttpLib) (system : System) (now_ms : ℕ) where
  abbrev pub set_missing : Session → Ctx → List HttpHeader → List (Str × Str) → List (Str × Str)
  set_missing session ctx [] headers = headers
  set_missing session ctx ((name, value) ∷ arr) headers = elim (get name headers) [
    | some there ↦ set_missing session ctx arr headers
    | none ↦
        set_missing session ctx arr
          (insert_header name (converted http system now_ms session ctx value) headers)
  ]

  -- The headers after the five steps, in their order.
  unfoldable pub changed : ResponseHeaders → Session → Ctx → List (Str × Str) → List (Str × Str)
  unfolding remove_all rename_all insert_header append_header get
  changed self session ctx headers =
      let added = append_all http system now_ms session ctx self.add_headers headers in
      let kept = remove_all self.remove_headers added in
      let set = set_all http system now_ms session ctx self.set_headers kept in
      rename_all self.rename_headers (set_missing session ctx self.set_headers_not_exists set)

  unfoldable pub handle_response :
      ResponseHeaders → PluginStep → Session → Ctx → ResponseHeader → Responded
  unfolding changed
  handle_response self step session ctx upstream_response =
      if not (step_eq step self.plugin_step) then (session, ctx, upstream_response, ok false) else (
        session,
        ctx,
        record upstream_response { headers = changed self session ctx upstream_response.headers },
        ok true,
      )
