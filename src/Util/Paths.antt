-- ===== src/Util/Paths.antt =====
-- Paths and certificates as text: pingap-util/src/lib.rs.
use pingap.Common.{ℕ, Bool, ◌&&◌, ◌||◌, none, some, List, [], ◌++◌}
use pingap.Common.Tests.{if◌then◌else◌}
use pingap.Common.Text.{Str, str, is_empty, starts_with, ends_with, as_bytes}
use pingap.Common.Lists.{drop}
use pingap.Common.Results.{Result, ok, err}
use pingap.External.{PemLib}

-- `path_join`.
unfoldable pub path_join : Str → Str → Str
path_join value1 value2 =
    let end_slash = ends_with value1 (str "/") in
    let start_slash = starts_with value2 (str "/") in
    if end_slash && start_slash
    then value1 ++ drop 1 value2
    else if end_slash || start_slash
    then value1 ++ value2
    else value1 ++ (str "/" ++ value2)

abbrev pub is_pem : Str → Bool
is_pem value = starts_with value (str "-----")

module _ (pem : PemLib) where
  abbrev expanded : Str → Str
  expanded path =
      if starts_with path (str "~")
      then elim pem.home_dir [ none ↦ path | some home ↦ home ++ drop 1 path ]
      else path

  abbrev pub resolve_path : Str → Str
  resolve_path path =
      if is_empty path
      then []
      else let p = expanded path in elim (pem.absolutize p) [ none ↦ p | some absolute ↦ absolute ]

  -- The bytes of a certificate or a key, or the text of an error.
  abbrev pub convert_pem : Str → Result Str (List ℕ)
  convert_pem value =
      if is_pem value
      then ok (as_bytes value)
      else if pem.is_file (resolve_path value)
      then elim (pem.read (resolve_path value)) [
        | ok buf ↦ ok buf
        | err source ↦ err (str "Io error " ++ (source ++ (str ", " ++ value)))
      ]
      else elim (pem.base64_decode value) [
        | ok buf ↦ ok buf
        | err source ↦ err (str "Base64 decode " ++ source)
      ]
