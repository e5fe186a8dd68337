-- ===== src/Config/Weight/Priority.antt =====
-- The order of priority that `LocationConf::get_weight` of pingap-config/src/common.rs gives.
use pingap.Common.{ℕ, ◌+◌, ◌^◌, ◌≤◌, ◌<◌, ◌≡◌, true, false, Option, none, some, ◌∷◌, [], arith}
use pingap.Common.Tests.{ltb, if◌then◌else◌}
use pingap.Common.Text.{Str, str, str_len, starts_with, unwrap_or_default}
use pingap.Config.Conf.{LocationConf}
use pingap.Config.Weight.{path_weight, host_weight, has_regex_host, get_weight}

-- The ways in which the path of a location can match, as far as its weight tells them apart: a
-- path of one byte weighs nothing.
pub data PathKind : Type 0 where
  anything regex prefix exact : PathKind

abbrev pub rank : PathKind → ℕ
rank anything = 0
rank regex = 1
rank prefix = 2
rank exact = 3

unfoldable pub kind : LocationConf → PathKind
unfolding starts_with str_len
kind c =
    let path = unwrap_or_default c.path in
    if ltb 1 (str_len path)
    then if starts_with path (str "=")
      then exact
      else if starts_with path (str "~")
      then regex
      else prefix
    else anything

-- Neither a manual weight nor a regular expression among the hosts.
pub record IsPlain (c : LocationConf) : Type 0 where
  pub computed : c.weight ≡ none
  pub named : has_regex_host (unwrap_or_default c.host) ≡ false

-- The bounds of the weight for each kind of path.
abbrev least : PathKind → ℕ
least anything = 0
least regex = 258
least prefix = 514
least exact = 1026

abbrev largest : PathKind → ℕ
largest anything = 0
largest regex = 320
largest prefix = 576
largest exact = 1088

largest-le : (k : PathKind) → largest k ≤ 1088
largest-le k = ground arith

path_weight_bounds :
    (c : LocationConf)
    → (least (kind c) ≤ path_weight (unwrap_or_default c.path))
      × (path_weight (unwrap_or_default c.path) ≤ largest (kind c))
unfolding path_weight kind
path_weight_bounds c = ground arith

host_weight-le :
    (h : Option Str) → has_regex_host (unwrap_or_default h) ≡ false → host_weight h ≤ 128
unfolding host_weight str_len
host_weight-le none e = omega arith
host_weight-le (some []) e = ground arith
host_weight-le (some (c ∷ host)) e = ground arith

-- Where the weight is computed, the sum of its two parts does not wrap around.
get_weight-sum :
    (c : LocationConf)
    → IsPlain c
    → get_weight c ≡ path_weight (unwrap_or_default c.path) + host_weight c.host
unfolding get_weight kind
get_weight-sum c p = ground (arith, path_weight_bounds c, host_weight-le c.host p.named)

kinds_apart : (k l : PathKind) → rank k < rank l → largest k + 128 < least l
kinds_apart k l h = ground arith

-- A location whose path matches in a stricter way has the larger weight, whatever the lengths of
-- the paths and whether hosts are given: exact before prefix before regular expression before
-- no path, where a path of one byte, as /, counts as no path. It holds where the weights are
-- computed and no host is a regular expression.
pub get_weight-rank :
    (a b : LocationConf)
    → IsPlain a
    → IsPlain b
    → rank (kind a) < rank (kind b)
    → get_weight a < get_weight b
get_weight-rank a b p q h = omega (
  arith,
  get_weight-sum a p,
  get_weight-sum b q,
  host_weight-le a.host p.named,
  path_weight_bounds a,
  path_weight_bounds b,
  kinds_apart (kind a) (kind b) h,
)

host_weight_of_regex :
    (h : Option Str)
    → has_regex_host (unwrap_or_default h) ≡ true
    → str_len (unwrap_or_default h) < 2 ^ 15
    → host_weight h ≡ str_len (unwrap_or_default h)
unfolding host_weight has_regex_host
host_weight_of_regex none e b = cc
host_weight_of_regex (some host) e b = ground arith

-- A host that is a regular expression counts with its length, so that a location of any kind with
-- such a host, if that is long enough and shorter than 32768 bytes, goes before every location
-- whose weight is computed and whose hosts are plain, also before an exact path.
pub get_weight-regex_host :
    (a b : LocationConf)
    → IsPlain a
    → b.weight ≡ none
    → has_regex_host (unwrap_or_default b.host) ≡ true
    → 1216 < str_len (unwrap_or_default b.host)
    → str_len (unwrap_or_default b.host) < 2 ^ 15
    → get_weight a < get_weight b
unfolding get_weight
get_weight-regex_host a b p computed found long bound = ground (
  arith,
  get_weight-sum a p,
  host_weight-le a.host p.named,
  path_weight_bounds a,
  path_weight_bounds b,
  largest-le (kind a),
  largest-le (kind b),
  host_weight_of_regex b.host found,
)
