-- ===== src/Config/Weight.antt =====
-- `LocationConf::get_weight` of pingap-config/src/common.rs.
pub mod Priority
use pingap.Common.{ℕ, ◌+◌, ◌%◌, ◌^◌, min, Bool, true, false, not, ◌&&◌, Option, none, some, List}
use pingap.Common.Tests.{ltb, if◌then◌else◌}
use pingap.Common.Text.{Str, str, str_len, is_empty, starts_with, split, unwrap_or_default}
use pingap.Common.Lists.{any}
use pingap.Config.Conf.{LocationConf}

-- What the path adds to the weight.
unfoldable pub path_weight : Str → ℕ
unfolding starts_with str_len
path_weight path =
    if ltb 1 (str_len path)
    then (if starts_with path (str "=")
        then 1024
        else if starts_with path (str "~")
        then 256
        else 512)
      + min (str_len path) 64
    else 0

unfoldable pub has_regex_host : Str → Bool
unfolding split starts_with
has_regex_host host = any (λ item. starts_with item (str "~")) (split b',' host)

-- What the host adds to the weight: `host.len() as u16` keeps the low 16 bits.
unfoldable pub host_weight : Option Str → ℕ
unfolding has_regex_host str_len
host_weight none = 0
host_weight (some host) =
    if not (has_regex_host host) && not (is_empty host) then 128 else str_len host % 2 ^ 16

abbrev weight_or : Option ℕ → ℕ → ℕ
weight_or none w = w
weight_or (some weight) w = weight

-- The sum is taken on `u16`.
unfoldable pub get_weight : LocationConf → ℕ
unfolding path_weight host_weight
get_weight c =
    weight_or c.weight ((path_weight (unwrap_or_default c.path) + host_weight c.host) % 2 ^ 16)
