-- ===== src/Location/Capture.antt =====
-- Named captures of a regular expression: pingap-location/src/regex.rs.
use pingap.Common.{Bool, true, false, Option, none, some, List, [], ◌∷◌, map}
use pingap.Common.Tests.{if◌then◌else◌}
use pingap.Common.Text.{Str, is_empty, unwrap_or_default}
use pingap.Common.Results.{Result, ◌>>=◌, ok}
use pingap.External.{RegexLib}

module _ (rx : RegexLib) where
  pub record RegexCapture : Type 0 where
    pub re : rx.Regex
    pub keys : List Str

  unfoldable pub new : Str → Result Str RegexCapture
  new value = do
    re ← rx.new value
    ok (record { re = re; keys = map unwrap_or_default (rx.capture_names re) })

  -- The loop over the groups of a match, each beside the name at its index.
  unfoldable pub named : List Str → List (Option Str) → List (Str × Str)
  named keys [] = []
  named [] (_ ∷ cap) = []
  named (key ∷ keys) (none ∷ cap) = named keys cap
  named (key ∷ keys) (some value ∷ cap) =
      let rest = named keys cap in if is_empty key then rest else (key, value) ∷ rest

  unfoldable pub captures : RegexCapture → Str → Bool × Option (List (Str × Str))
  unfolding named
  captures self value =
      if rx.is_match self.re value
      then elim (rx.captures self.re value) [
        | none ↦ (true, some [])
        | some cap ↦ (true, some (named self.keys cap))
      ]
      else (false, none)
