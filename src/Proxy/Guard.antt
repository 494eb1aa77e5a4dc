-- ===== src/Proxy/Guard.antt =====
-- The tests of src/proxy.rs on URLs: origins, token realms, and the addresses of a host.
use ruskery.Common.{
  ℕ, ◌/◌, ◌*◌, Bool, false, not, ◌&&◌, ◌||◌, Option, none, some, List, [], ◌∷◌, reverse, Str, codes,
  str_eq, lower, ◌==◌, any, if◌then◌else◌, and_then, option_map, unwrap_or,
}
use ruskery.Proxy.{IpAddr, v4, v6, Urls, eq_ignore_ascii_case, upstream_error}
use ruskery.Proxy.Fetch.{Fetch, done, fail, lookup}

-- 169.254.0.0/16 and fe80::/10
abbrev pub is_link_local : IpAddr → Bool
is_link_local (v4 a b c d) = a == 169 && b == 254
is_link_local (v6 a b c d e f g h) = a / 0x40 * 0x40 == 0xfe80

abbrev pub is_unspecified : IpAddr → Bool
is_unspecified (v4 a b c d) = a == 0 && (b == 0 && (c == 0 && d == 0))
is_unspecified (v6 a b c d e f g h) =
    a == 0 && (b == 0 && (c == 0 && (d == 0 && (e == 0 && (f == 0 && (g == 0 && h == 0))))))

abbrev pub is_loopback : IpAddr → Bool
is_loopback (v4 a b c d) = a == 127
is_loopback (v6 a b c d e f g h) =
    a == 0 && (b == 0 && (c == 0 && (d == 0 && (e == 0 && (f == 0 && (g == 0 && h == 1))))))

abbrev pub is_refused : IpAddr → Bool
is_refused ip = is_link_local ip || is_unspecified ip

-- `s.trim_start_matches(c)`
trim_start_matches : ℕ → Str → Str
trim_start_matches c [] = []
trim_start_matches c (x ∷ xs) = if x == c then trim_start_matches c xs else x ∷ xs

trim_end_matches : ℕ → Str → Str
unfolding trim_start_matches
trim_end_matches c s = reverse (trim_start_matches c (reverse s))

abbrev registries : List Str
registries = codes "registry-1.docker.io" ∷ codes "index.docker.io" ∷ codes "docker.io" ∷ []

abbrev pub well_known_realm_pairs : List (List Str × Str)
well_known_realm_pairs = (registries, codes "auth.docker.io") ∷ []

abbrev pub check_addresses : Option (List IpAddr) → Fetch (Unit {0})
check_addresses none = fail (upstream_error (codes "cannot resolve upstream host"))
check_addresses (some ips) =
    if any is_refused ips
    then fail (
        upstream_error
          (codes "refusing to follow the upstream to a link-local/unspecified address"))
    else done tt

module _ {Url Origin : Type 0} (urls : Urls Url Origin) where
  abbrev pub same_origin : Origin → Url → Bool
  same_origin o next = urls.origin_eq o (urls.origin next)

  unfoldable pub is_loopback_hostish : Str → Bool
  unfolding trim_end_matches trim_start_matches
  is_loopback_hostish host =
      eq_ignore_ascii_case host (codes "localhost")
      || unwrap_or
          (option_map is_loopback
            (urls.parse_ip (trim_end_matches b']' (trim_start_matches b'[' host))))
          false

  abbrev pub host_of : Str → Option Str
  host_of text = option_map lower (and_then (urls.parse text) urls.host_str)

  -- The built-in pairs of a registry and its authentication host.
  unfoldable pub is_paired : Str → Str → List (List Str × Str) → Bool
  is_paired realm_host up_host [] = false
  is_paired realm_host up_host ((hosts, realm_h) ∷ pairs) =
      (eq_ignore_ascii_case realm_h realm_host && any (λ r. eq_ignore_ascii_case r up_host) hosts)
      || is_paired realm_host up_host pairs

  unfoldable pub trusted_host : Str → Option Str → List Str → Bool
  unfolding is_paired is_loopback_hostish
  trusted_host realm_host up_host extra =
      unwrap_or (option_map (λ up. str_eq up realm_host) up_host) false
      || (is_loopback_hostish realm_host
          || (unwrap_or (option_map (λ up. is_paired realm_host up well_known_realm_pairs) up_host)
                false
              || any (λ h. eq_ignore_ascii_case h realm_host) extra))

  unfoldable pub realm_is_trusted : Str → Str → List Str → Bool
  unfolding trusted_host
  realm_is_trusted realm upstream_url extra = elim (host_of realm) [
    | none ↦ false
    | some realm_host ↦ trusted_host realm_host (host_of upstream_url) extra
  ]

  -- Whether credentials would go over cleartext to a host that is not this machine.
  unfoldable pub is_cleartext_public : Str → Bool
  is_cleartext_public realm =
      unwrap_or
        (option_map
          (λ u.
            str_eq (urls.scheme u) (codes "http")
            && not (unwrap_or (option_map is_loopback_hostish (urls.host_str u)) false))
          (urls.parse realm))
        false

  abbrev pub port_of : Url → ℕ
  port_of u = unwrap_or (urls.port_or_known_default u) 443

  unfoldable pub guard_fetch_target : Str → Fetch (Unit {0})
  guard_fetch_target text = elim (urls.parse text) [
    | none ↦ fail (upstream_error (codes "invalid upstream URL"))
    | some u ↦ elim (urls.host_str u) [
      | none ↦ fail (upstream_error (codes "upstream URL is missing a host"))
      | some host ↦ lookup host (port_of u) check_addresses
    ]
  ]
