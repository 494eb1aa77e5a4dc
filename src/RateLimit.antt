-- ===== src/RateLimit.antt =====
-- src/rate_limit.rs: which limiter guards a path, the key of a client, and the answers. The
-- limiters are the `governor` crate's: `check` says whether a key may go on.
pub mod Clients
use ruskery.Common.{
  Bool, true, false, not, Option, none, some, List, [], ◌∷◌, map, Str, codes, str_eq, split, trim,
  find_row, if◌then◌else◌, and_then, or_else, unwrap_or,
}
use ruskery.Error.{Response, oci_errors, plain_error}

pub data Guard : Type 0 where
  login_guard token_guard no_guard : Guard

unfoldable pub guard_for : Str → Guard
guard_for path =
    if str_eq path (codes "/v2/token")
    then token_guard
    else if str_eq path (codes "/api/v1/auth/login")
    then login_guard
    else if str_eq path (codes "/api/v1/setup")
    then login_guard
    else no_guard

pub record Client : Type 0 where
  pub forwarded_for : Option Str
  pub real_ip : Option Str
  -- The address of the socket.
  pub peer : Option Str

abbrev pub nonempty : Str → Bool
nonempty s = not (str_eq s [])

unfoldable pub first_hop : Str → Option Str
first_hop xff = find_row nonempty (map trim (split b',' xff))

unfoldable pub trimmed : Str → Option Str
trimmed rip = if nonempty (trim rip) then some (trim rip) else none

unfoldable pub client_ip : Bool → Client → Str
client_ip trust_proxy c =
    let direct = unwrap_or c.peer (codes "unknown") in
    if trust_proxy
    then unwrap_or (or_else (and_then c.forwarded_for first_hop) (and_then c.real_ip trimmed))
        direct
    else direct

unfoldable pub too_many_oci : Response
too_many_oci = record {
  status = 429;
  headers = (codes "retry-after", codes "1") ∷ [];
  body = oci_errors (codes "TOOMANYREQUESTS") (codes "rate limit exceeded");
}

unfoldable pub too_many_login : Response
too_many_login = record {
  status = 429;
  headers = (codes "retry-after", codes "1") ∷ [];
  body = plain_error (codes "rate_limited") (codes "rate limit exceeded");
}

-- `none` lets the request go on.
unfoldable pub middleware : (Guard → Str → Bool) → Bool → Str → Client → Option Response
middleware check trust_proxy path c = elim (guard_for path) [
  | token_guard ↦ if check token_guard (client_ip trust_proxy c) then none else some too_many_oci
  | login_guard ↦ if check login_guard (client_ip trust_proxy c) then none else some too_many_login
  | no_guard ↦ none
]
