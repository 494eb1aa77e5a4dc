-- ===== src/Proxy/Send/Safe.antt =====
-- Where the requests of Proxy/Send go, and which credentials they carry.
pub mod Realm
pub mod Token
use ruskery.Common.{
  ℕ, zero, suc, ◌≡◌, refl, sym, ◌∙◌, ap, subst, ◌++◌, Bool, true, false, ◌&&◌, Option, none, some,
  List, [], ◌∷◌, Str, codes, arith, inl, inr, ◌⊎◌, ◌==◌, Bool-cases, Option-cases, unwrap_or,
  option_map, any, In, if◌then◌else◌, is_some,
}
use ruskery.Error.{Error, Result, ok, err}
use ruskery.Db.Orgs.{OrgUpstream}
use ruskery.Registry.Manifests.Json.{Value}
use ruskery.Proxy.{IpAddr, Urls, Auth, no_auth, bearer, basic, Request, Reply, header}
use ruskery.Proxy.Fetch.{Fetch, done, fail, lookup, request, ◌>>=◌, ◌>>◌, lift}
use ruskery.Proxy.Fetch.Holds.{
  Cleared, clear, Grown, Grown-clear, Holds, Holds-map, Holds->>=, Holds-lift,
}
use ruskery.Proxy.Guard.{
  is_refused, guard_fetch_target, check_addresses, port_of, same_origin, realm_is_trusted,
  is_cleartext_public,
}
use ruskery.Proxy.Send.{
  answered, follow, hop, send_get, check_realm, realm_auth, realm_request, read_token, bearer_token,
  parsed_realm, send_authed, retry,
}
use ruskery.Proxy.Send.Cases.{
  answered_cases, guard_fetch_target_cases, follow_cases, bearer_token_cases,
}

abbrev pub Any {ℓ} : {A : Type ℓ} → Cleared → A → Type 0
Any c a = Unit

module _ {Url Origin : Type 0} (urls : Urls Url Origin) where
  -- The host of a URL resolved, and to no address that is refused.
  pub record IsCleared (c : Cleared) (text : Str) : Type 0 where
    pub target : Url
    pub host : Str
    pub is_target : urls.parse text ≡ some target
    pub is_host : urls.host_str target ≡ some host
    pub resolved : In (host, port_of urls target) c

  pub IsCleared-Grown :
      (c d : Cleared) (text : Str) → Grown c d → IsCleared c text → IsCleared d text
  IsCleared-Grown c d text g h = record {
    target = h.target;
    host = h.host;
    is_target = h.is_target;
    is_host = h.is_host;
    resolved = g _ h.resolved;
  }

  -- The second URL has the origin of the first, or is the first.
  pub data SameOrigin (first text : Str) : Type 0 where
    itself : text ≡ first → SameOrigin first text
    origin_kept :
        (u v : Url)
        → urls.parse first ≡ some u
        → urls.parse text ≡ some v
        → urls.origin_eq (urls.origin u) (urls.origin v) ≡ true
        → SameOrigin first text

  -- The guard lets only a cleared URL pass.
  pub guard_fetch_target-Holds :
      (P : Cleared → Request → Type 0) (c : Cleared) (text : Str)
      → Holds P (λ d _. IsCleared d text) c (guard_fetch_target urls text)
  guard_fetch_target-Holds P c text =
      guard_fetch_target_cases urls (λ t. Holds P (λ d _. IsCleared d text) c t) text (λ e. tt)
        checked
    where
      checked :
          (u : Url) (host : Str)
          → urls.parse text ≡ some u
          → urls.host_str u ≡ some host
          → (ips : Option (List IpAddr))
          → Holds P
              (λ d _. IsCleared d text)
              (clear host (port_of urls u) ips c)
              (check_addresses ips)
      checked u host p h none = tt
      checked u host p h (some ips) = elim (Bool-cases (any is_refused ips)) [
        | inl e ↦ rw e tt
        | inr e ↦
            rw e
              (record { target = u; host = host; is_target = p; is_host = h; resolved = inl refl })
      ]

  -- A request of `send_get first accept auth`: it goes to the first URL or to a cleared one, and
  -- carries no credentials or `auth` to the first URL's origin.
  pub record Sent (first : Str) (auth : Auth) (c : Cleared) (r : Request) : Type 0 where
    pub reach : (r.url ≡ first) ⊎ IsCleared c r.url
    pub secret : (r.auth ≡ no_auth) ⊎ ((r.auth ≡ auth) × SameOrigin first r.url)

  -- Where a hop may go, and whether it may carry credentials.
  abbrev MayGo : Str → Cleared → Str → Type 0
  MayGo first c current = (current ≡ first) ⊎ IsCleared c current

  module _ (first : Str) (accept : Option Str) (auth : Auth) where
    origin : Option Origin
    origin = option_map urls.origin (urls.parse first)

    asked : Bool → Str → Request
    asked attach current = record {
      url = current;
      accept = accept;
      auth = if attach then auth else no_auth;
    }

    asked-Sent :
        (c : Cleared) (attach : Bool) (current : Str)
        → MayGo first c current
        → (attach ≡ true → SameOrigin first current)
        → Sent first auth c (asked attach current)
    unfolding asked
    asked-Sent c true current reach same = record { reach = reach; secret = inr (refl, same refl) }
    asked-Sent c false current reach same = record { reach = reach; secret = inl refl }

    kept_origin :
        (attach : Bool) (next : Url)
        → (attach && unwrap_or (option_map (λ o. same_origin urls o next) origin) false) ≡ true
        → SameOrigin first (urls.to_string next)
    unfolding origin
    kept_origin attach next h = elim (Option-cases (urls.parse first)) [
      | inl e ↦ absurd (ground (arith, e, h))
      | inr (u, e) ↦ origin_kept u next e (urls.parse-to_string next) (ground (arith, e, h))
    ]

    follow-Sent :
        (c : Cleared) (attach : Bool) (current : Str) (onward : Option (Bool → Str → Fetch Reply))
        (reply : Reply)
        → ((go : Bool → Str → Fetch Reply)
            → onward ≡ some go
            → (d : Cleared) (a : Bool) (s : Str) → MayGo first d s
            → (a ≡ true → SameOrigin first s)
            → Holds (Sent first auth) Any d (go a s))
        → Holds (Sent first auth) Any c (follow urls origin attach current onward reply)
    follow-Sent c attach current onward reply next_hop =
        follow_cases urls (λ t. Holds (Sent first auth) Any c t) origin attach current onward reply
          tt (λ e. tt)
          (λ go next o.
            Holds->>= (Sent first auth) (λ d _. IsCleared d (urls.to_string next)) Any c c
              (guard_fetch_target urls (urls.to_string next)) _ (λ x i. i)
              (guard_fetch_target-Holds (Sent first auth) c (urls.to_string next))
              (λ d _ _ cleared. next_hop go o d _ _ (inr cleared) (kept_origin attach next)))

    hop-Sent :
        (left : ℕ) (c : Cleared) (attach : Bool) (current : Str)
        → MayGo first c current
        → (attach ≡ true → SameOrigin first current)
        → Holds (Sent first auth) Any c (hop urls accept auth left origin attach current)
    unfolding hop asked
    hop-Sent zero c attach current reach same = (
      asked-Sent c attach current reach same,
      λ r.
          answered_cases (λ t. Holds (Sent first auth) Any c t) _ r (λ e. tt)
            (λ reply. follow-Sent c attach current none reply (λ go o. absurd (ground arith))),
    )
    hop-Sent (suc left) c attach current reach same = (
      asked-Sent c attach current reach same,
      λ r.
          answered_cases (λ t. Holds (Sent first auth) Any c t) _ r (λ e. tt)
            (λ reply.
              follow-Sent c attach current (some (hop urls accept auth left origin)) reply
                (λ go o d a s near safe.
                  subst (λ g. Holds (Sent first auth) Any d (g a s))
                    (ap (λ x. unwrap_or x (hop urls accept auth left origin)) o)
                    (hop-Sent left d a s near safe))),
    )

    -- Every redirect that is followed leads to a URL whose host was just resolved, to no link-local
    -- or unspecified address, and the credentials go to the first URL and its origin only.
    pub send_get-Sent :
        (c : Cleared) → Holds (Sent first auth) Any c (send_get urls first accept auth)
    unfolding send_get origin
    send_get-Sent c = hop-Sent 10 c true first (inl refl) (λ _. itself refl)
