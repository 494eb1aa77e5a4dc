-- ===== src/Auth/Scope.antt =====
-- `Scope` of src/auth/rbac.rs, and the query's scopes of src/registry/mod.rs.
use ruskery.Common.{
  ℕ, ◌+◌, ◌-◌, ◌*◌, Bool, not, ◌&&◌, ◌||◌, Option, none, some, List, [], ◌∷◌, map, Str, codes,
  str_eq, split_once, rfind, split, from_utf8_lossy, leb, ◌==◌, if◌then◌else◌, filter, filter_map,
  and_then,
}

pub record Scope : Type 0 where
  pub kind : Str
  pub name : Str
  pub actions : List Str

-- The type is before the first colon and the actions after the last, which must be another one.
unfoldable pub parse : Str → Option Scope
parse raw = and_then (split_once b':' raw) (λ p. and_then (rfind (codes ":") p.1) (λ q.
    some (record {
      kind = p.0;
      name = q.0;
      actions = filter (λ s. not (str_eq s [])) (split b',' q.1);
    })))

unfoldable pub is_hex : ℕ → Bool
is_hex c = leb b'0' c && leb c b'9' || (leb b'a' c && leb c b'f' || leb b'A' c && leb c b'F')

hex_value : ℕ → ℕ
hex_value c = if leb c b'9' then c - b'0' else if leb c b'F' then c - b'A' + 10 else c - b'a' + 10

-- The loop of `percent_decode`; an escape needs two more bytes.
percent_bytes : Str → Str
unfolding is_hex hex_value
percent_bytes [] = []
percent_bytes (x ∷ []) = x ∷ []
percent_bytes (x ∷ y ∷ []) = x ∷ y ∷ []
percent_bytes (x ∷ y ∷ z ∷ s) =
    let decoded = percent_bytes s in
    let plain = percent_bytes (y ∷ z ∷ s) in
    if x == b'%' && (is_hex y && is_hex z)
    then (hex_value y * 16 + hex_value z) ∷ decoded
    else x ∷ plain

unfoldable pub percent_decode : Str → Str
unfolding percent_bytes
percent_decode s = from_utf8_lossy (percent_bytes (map (λ c. if c == b'+' then b' ' else c) s))

-- One `k=v` pair of the query.
scope_of_pair : Str → Option Scope
scope_of_pair pair =
    and_then (split_once b'=' pair)
      (λ p. if str_eq p.0 (codes "scope") then parse (percent_decode p.1) else none)

unfoldable pub parse_scopes : Str → List Scope
unfolding scope_of_pair
parse_scopes query = filter_map scope_of_pair (split b'&' query)
