-- ===== src/Plugin/AcceptEncoding.antt =====
-- The plugin accept_encoding of pingap-plugin/src/accept_encoding.rs. `new` takes the values that
-- the plugin's configuration gives.
use pingap.Common.{Bool, true, false, not, Option, none, some, List, [], ◌∷◌, ◌++◌}
use pingap.Common.Tests.{if◌then◌else◌}
use pingap.Common.Text.{Str, str, is_empty, contains, split, trim, join, unwrap_or_default}
use pingap.Common.Map.{get}
use pingap.Common.Map
use pingap.Common.Results.{Result, ok}
use pingap.Core.Ctx.{Ctx}
use pingap.Core.Plugin.{PluginStep, early_request, step_eq, HttpResponse, Failure, Session}
use pingap.External.{HttpLib}
use pingap.Http.Header.{RequestHeader}

pub record AcceptEncoding : Type 0 where
  pub encodings : List Str
  pub only_one_encoding : Option Bool
  pub plugin_step : PluginStep

-- The names that are not empty.
unfoldable pub encodings_of : List Str → List Str
unfolding trim
encodings_of [] = []
encodings_of (encoding ∷ encodings) =
    let rest = encodings_of encodings in
    if is_empty (trim encoding) then rest else trim encoding ∷ rest

unfoldable pub new : Str → Bool → AcceptEncoding
unfolding encodings_of split
new encodings only_one_encoding = record {
  encodings = encodings_of (split 0x2c encodings);
  only_one_encoding = some only_one_encoding;
  plugin_step = early_request;
}

-- The configured encodings that the text of the header contains, or only the first one.
unfoldable pub accepted : Str → Bool → List Str → List Str
unfolding contains
accepted accept_encoding only_one [] = []
accepted accept_encoding only_one (encoding ∷ encodings) =
    let rest = accepted accept_encoding only_one encodings in
    if contains accept_encoding encoding
    then (if only_one then encoding ∷ [] else encoding ∷ rest)
    else rest

abbrev is_true : Option Bool → Bool
is_true none = false
is_true (some b) = b

abbrev put_encodings : List Str → RequestHeader → RequestHeader
put_encodings [] header = record header {
  headers = Map.remove (str "accept-encoding") header.headers;
}
put_encodings (encoding ∷ encodings) header = record header {
  headers =
      Map.remove (str "accept-encoding") header.headers
      ++ ((str "accept-encoding", join (str ", ") (encoding ∷ encodings)) ∷ []);
}

module _ (http : HttpLib) where
  unfoldable pub handle_request :
      AcceptEncoding
      → PluginStep
      → Session
      → Ctx
      → Session × Ctx × Result Failure (Bool × Option HttpResponse)
  unfolding accepted get Map.remove
  handle_request self step session ctx =
      if not (step_eq step self.plugin_step)
      then (session, ctx, ok (false, none))
      else elim (get (str "accept-encoding") session.req_header.headers) [
        | none ↦ (session, ctx, ok (false, none))
        | some value ↦
            let found =
              accepted (unwrap_or_default (http.to_str value)) (is_true self.only_one_encoding)
                self.encodings in
            (
              record session { req_header = put_encodings found session.req_header },
              ctx,
              ok (true, none),
            )
      ]
