-- ===== src/RateLimit/Clients.antt =====
-- The keys that src/rate_limit.rs limits clients by.
use ruskery.Common.{
  ◌≡◌, ◌≢◌, refl, ap, Bool, true, false, Option, none, some, [], map, Str, codes, str_eq_iff, split,
  trim, arith, find_row-In, and_then, or_else, unwrap_or, Option-cases, Bool-cases, inl, inr,
}
use ruskery.RateLimit.{Client, nonempty, first_hop, trimmed, client_ip}

first_hop-nonempty : (xff ip : Str) → first_hop xff ≡ some ip → nonempty ip ≡ true
unfolding first_hop
first_hop-nonempty xff ip h = (find_row-In nonempty ip (map trim (split b',' xff)) h).1

trimmed-nonempty : (rip ip : Str) → trimmed rip ≡ some ip → nonempty ip ≡ true
unfolding trimmed
trimmed-nonempty rip ip h = elim (Bool-cases (nonempty (trim rip))) [
  | inl e ↦ ground arith
  | inr e ↦ absurd (ground arith)
]

-- An address that the headers give is not empty.
forwarded-nonempty :
    (xff rip : Option Str) (ip : Str)
    → or_else (and_then xff first_hop) (and_then rip trimmed) ≡ some ip
    → nonempty ip ≡ true
forwarded-nonempty none none ip h = absurd (ground arith)
forwarded-nonempty none (some r) ip h = trimmed-nonempty r ip h
forwarded-nonempty (some x) rip ip h = elim (Option-cases (first_hop x)) [
  | inr (hop, e) ↦ first_hop-nonempty x ip (ground arith)
  | inl e ↦ elim (Option-cases rip) [
    | inl f ↦ absurd (ground arith)
    | inr (r, f) ↦ trimmed-nonempty r ip (ground arith)
  ]
]

nonempty_ne : (ip : Str) → nonempty ip ≡ true → ip ≢ []
nonempty_ne ip h e = absurd (ground (arith, str_eq_iff ip []))

direct_ne : (peer : Option Str) → peer ≢ some [] → unwrap_or peer (codes "unknown") ≢ []
direct_ne none h e = absurd (ground arith)
direct_ne (some p) h e = h (ap some e)

either_ne :
    (found : Option Str) (direct : Str)
    → ((ip : Str) → found ≡ some ip → nonempty ip ≡ true)
    → direct ≢ []
    → unwrap_or found direct ≢ []
either_ne none direct f h = h
either_ne (some ip) direct f h = nonempty_ne ip (f ip refl)

-- No client is limited by the empty key, whatever its headers are, and whether or not they are
-- trusted, if the address of its socket is not an empty text.
pub client_ip-nonempty :
    (trust_proxy : Bool) (c : Client) → c.peer ≢ some [] → client_ip trust_proxy c ≢ []
unfolding client_ip
client_ip-nonempty true c h =
    either_ne (or_else (and_then c.forwarded_for first_hop) (and_then c.real_ip trimmed)) _
      (forwarded-nonempty c.forwarded_for c.real_ip) (direct_ne c.peer h)
client_ip-nonempty false c h = direct_ne c.peer h
