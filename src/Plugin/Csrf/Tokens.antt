-- ===== src/Plugin/Csrf/Tokens.antt =====
-- The tokens of the plugin csrf: pingap-plugin/src/csrf.rs.
use pingap.Common.{
  ℕ, ◌+◌, ◌≤◌, ◌<◌, ◌^◌, ◌≡◌, ap, ◌∙◌, ◌⊎◌, true, false, ◌&&◌, List, [], ◌∷◌, ◌++◌, arith,
}
use mathlib.Core.List.{append_assoc}
use pingap.Common.Tests.{ltb}
use pingap.Common.Text.{Str, str_eq_refl, split}
use pingap.Common.Lists.{All-map}
use pingap.Common.Words.{sub64}
use pingap.Common.Digits.{show, from_str_radix-show, show-IsDigit}
use pingap.Common.Splits.{IsFree, split-append, split_of_free}
use pingap.Plugin.Csrf.{TokenLib, signature, generate_token, time_of, is_valid, validate_token}

split-token :
    (id time signed : Str)
    → IsFree b'.' id
    → IsFree b'.' time
    → IsFree b'.' signed
    → split b'.' ((id ++ (b'.' ∷ time)) ++ (b'.' ∷ signed)) ≡ id ∷ time ∷ signed ∷ []
split-token id time signed free_id free_time free_signed =
    ap (split b'.') (append_assoc id (b'.' ∷ time) (b'.' ∷ signed))
    ∙ split-append b'.' id (time ++ (b'.' ∷ signed)) free_id
    ∙ ap (λ t. id ∷ t) (split-append b'.' time signed free_time)
    ∙ ap (λ t. id ∷ time ∷ t) (split_of_free b'.' signed free_signed)

IsFree-show : (n : ℕ) → IsFree b'.' (show 16 n)
IsFree-show n =
    All-map (λ c (d, below, is). (ground (arith, is))) (show 16 n)
      (show-IsDigit 16 (omega arith) (omega arith) n)

-- A token is valid as long as its time to live, or for good if there is none. Its random id and the
-- texts of digests have no point in them.
pub validate_token-generate_token :
    (lib : TokenLib) (id key : Str) (ttl now later : ℕ)
    → IsFree b'.' id
    → ((bytes : List ℕ) → IsFree b'.' (lib.base64_encode bytes))
    → now ≤ later
    → later < 2 ^ 64
    → (ttl ≡ 0) ⊎ (later ≤ now + ttl)
    → validate_token lib key ttl later (generate_token lib id now key) ≡ true
unfolding validate_token generate_token
validate_token-generate_token lib id key ttl now later free_id free after bound alive =
    let time = show 16 now in
    let signed = signature lib key (id ++ (b'.' ∷ time)) in
    let parts =
      split-token id time signed free_id (IsFree-show now)
        (free (lib.sha256 ((id ++ (b'.' ∷ time)) ++ key))) in
    let read = from_str_radix-show 16 (omega arith) (omega arith) now (omega arith) in
    let elapsed : (ltb 0 ttl && ltb ttl (sub64 later now)) ≡ false = ground (arith, alive) in
    rw (validate_token, generate_token, parts, is_valid, time_of, read, elapsed)
      (str_eq_refl signed)
