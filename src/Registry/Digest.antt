-- ===== src/Registry/Digest.antt =====
-- `digests_equal` of src/registry/mod.rs, and the digest tests of src/registry/manifests.rs.
use ruskery.Common.{
  ℕ, Bool, false, not, ◌&&◌, Option, none, some, [], Str, codes, str_eq, str_contains, split_once,
  lower, ◌==◌, if◌then◌else◌, all, and_then, length,
}
use ruskery.Auth.Scope.{is_hex}

want_len : Str → Option ℕ
want_len algo =
    if str_eq algo (codes "sha256")
    then some 64
    else if str_eq algo (codes "sha512")
    then some 128
    else none

parsed : Str → Option (Str × Str)
unfolding want_len
parsed d = and_then (split_once b':' d) (λ p. and_then (want_len (lower p.0)) (λ n.
    if length (lower p.1) == n && all is_hex (lower p.1)
    then some (lower p.0, lower p.1)
    else none))

both_equal : Option (Str × Str) → Option (Str × Str) → Bool
both_equal (some (a, x)) (some (b, y)) = str_eq a b && str_eq x y
both_equal _ _ = false

unfoldable pub digests_equal : Str → Str → Bool
unfolding parsed both_equal
digests_equal a b = both_equal (parsed a) (parsed b)

unfoldable pub is_digest : Str → Bool
is_digest reference = str_contains b':' reference

unfoldable pub is_valid_digest : Str → Bool
is_valid_digest d = elim (split_once b':' d) [
  | none ↦ false
  | some (algo, hex) ↦ not (str_eq algo []) && (not (str_eq hex []) && all is_hex hex)
]
