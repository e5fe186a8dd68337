-- ===== src/Plugin/RefererRestriction/Hosts.antt =====
-- Which hosts of referers the plugin referer_restriction knows:
-- pingap-plugin/src/referer_restriction.rs.
use pingap.Common.{◌≡◌, refl, Bool, List, [], ◌∷◌, arith}
use pingap.Common.Tests.{◌==◌, if◌then◌else◌}
use pingap.Common.Text.{Str, str_eq, ends_with, includes}
use pingap.Common.Lists.{any}
use pingap.Plugin.RefererRestriction.{read_list, new, has_host}

-- Whether an item of the configured list stands for a host.
abbrev pub stands_for : Str → Str → Bool
stands_for host [] = str_eq [] host
stands_for host (c ∷ item) = if c == b'*' then ends_with host item else str_eq (c ∷ item) host

-- The plugin knows a host exactly when an item of the configured list stands for it: as the same
-- text, or as an end of it that is written behind a star.
pub has_host-new :
    (items : List Str) (category message host : Str)
    → has_host (new items category message) host ≡ any (stands_for host) items
unfolding has_host new read_list includes
has_host-new [] category message host = refl
has_host-new ([] ∷ items) category message host =
    ground (arith, has_host-new items category message host)
has_host-new ((c ∷ item) ∷ items) category message host =
    ground (arith, has_host-new items category message host)
