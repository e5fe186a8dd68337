-- ===== src/Location/Selector.antt =====
-- Path and host selectors: the first part of pingap-location/src/location.rs.
use pingap.Common.{ℕ, [], ◌∷◌}
use pingap.Common.Tests.{◌==◌, if◌then◌else◌}
use pingap.Common.Text.{Str, trim}
use pingap.Common.Results.{Result, ok, err, ◌>>=◌}
use pingap.External.{RegexLib}
use pingap.Location.Capture
use pingap.Location.Capture.{RegexCapture}

pub data Error : Type 0 where
  invalid : Str → Error
  regex : Str → Str → Error
  too_many_request : ℕ → Error
  body_too_large : ℕ → Error

module _ (rx : RegexLib) where
  pub data PathSelector : Type 0 where
    regex_path : RegexCapture rx → PathSelector
    prefix_path : Str → PathSelector
    equal_path : Str → PathSelector
    any_path : PathSelector

  pub data HostSelector : Type 0 where
    regex_host : RegexCapture rx → HostSelector
    equal_host : Str → HostSelector

  abbrev compile : Str → Result Error (RegexCapture rx)
  unfolding Capture.new
  compile value = elim (Capture.new rx value) [
    | ok re ↦ ok re
    | err source ↦ err (regex value source)
  ]

  -- The path without its surrounding white space; `last` is what follows the first character.
  path_selector_of : Str → Result Error PathSelector
  unfolding trim compile
  path_selector_of [] = ok any_path
  path_selector_of (first ∷ rest) =
      let last = trim rest in
      if first == b'~'
      then (do re ← compile last; ok (regex_path re))
      else if first == b'='
      then ok (equal_path last)
      else ok (prefix_path (first ∷ rest))

  unfoldable pub new_path_selector : Str → Result Error PathSelector
  unfolding path_selector_of trim
  new_path_selector path = path_selector_of (trim path)

  host_selector_of : Str → Result Error HostSelector
  unfolding trim compile
  host_selector_of [] = ok (equal_host [])
  host_selector_of (first ∷ rest) =
      let last = trim rest in
      if first == b'~'
      then (do re ← compile last; ok (regex_host re))
      else ok (equal_host (first ∷ rest))

  unfoldable pub new_host_selector : Str → Result Error HostSelector
  unfolding host_selector_of trim
  new_host_selector host = host_selector_of (trim host)
