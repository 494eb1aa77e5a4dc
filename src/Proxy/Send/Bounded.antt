-- ===== src/Proxy/Send/Bounded.antt =====
-- How many requests the functions of Proxy/Send make.
use ruskery.Common.{
  ℕ, zero, suc, ◌≡◌, Bool, true, Option, none, some, List, Str, arith, inl, inr, ◌==◌, Bool-cases,
  unwrap_or, any, subst, ap,
}
use ruskery.Db.Orgs.{OrgUpstream}
use ruskery.Registry.Manifests.Json.{Value}
use ruskery.Proxy.{IpAddr, Urls, Auth, no_auth, bearer, Reply}
use ruskery.Proxy.Fetch.{Fetch, lift}
use ruskery.Proxy.Fetch.Holds.{AtMost, AtMost-lift, AtMost->>=, AtMost->>=_free}
use ruskery.Proxy.Guard.{is_refused, guard_fetch_target, check_addresses}
use ruskery.Proxy.Send.{
  follow, hop, send_get, check_realm, bearer_token, parsed_realm, realm_auth, send_authed, retry,
}
use ruskery.Proxy.Send.Cases.{
  answered_cases, guard_fetch_target_cases, follow_cases, bearer_token_cases,
}

module _ {Url Origin : Type 0} (urls : Urls Url Origin) where
  check_addresses-AtMost : (ips : Option (List IpAddr)) → AtMost 0 (check_addresses ips)
  check_addresses-AtMost none = tt
  check_addresses-AtMost (some ips) = elim (Bool-cases (any is_refused ips)) [
    | inl e ↦ rw e tt
    | inr e ↦ rw e tt
  ]

  pub guard_fetch_target-AtMost : (text : Str) → AtMost 0 (guard_fetch_target urls text)
  guard_fetch_target-AtMost text =
      guard_fetch_target_cases urls (λ t. AtMost 0 t) text (λ e. tt)
        (λ u host p h. check_addresses-AtMost)

  follow-AtMost :
      (n : ℕ) (origin : Option Origin) (attach : Bool) (current : Str)
      (onward : Option (Bool → Str → Fetch Reply)) (reply : Reply)
      → ((go : Bool → Str → Fetch Reply)
          → onward ≡ some go
          → (a : Bool) (s : Str) → AtMost n (go a s))
      → AtMost n (follow urls origin attach current onward reply)
  follow-AtMost n origin attach current onward reply h =
      follow_cases urls (λ t. AtMost n t) origin attach current onward reply tt (λ e. tt)
        (λ go next o.
          AtMost->>=_free n (guard_fetch_target urls (urls.to_string next)) _
            (guard_fetch_target-AtMost (urls.to_string next)) (λ _. h go o _ _))

  module _ (accept : Option Str) (auth : Auth) (origin : Option Origin) where
    hop-AtMost :
        (left : ℕ) (attach : Bool) (current : Str)
        → AtMost (suc left) (hop urls accept auth left origin attach current)
    unfolding hop
    hop-AtMost zero attach current = λ r.
        answered_cases (λ t. AtMost 0 t) _ r (λ e. tt)
          (λ reply.
            follow-AtMost 0 origin attach current none reply (λ go o. absurd (ground arith)))
    hop-AtMost (suc left) attach current = λ r.
        answered_cases (λ t. AtMost (suc left) t) _ r (λ e. tt)
          (λ reply.
            follow-AtMost (suc left) origin attach current (some (hop urls accept auth left origin))
              reply
              (λ go o a s.
                subst (λ g. AtMost (suc left) (g a s))
                  (ap (λ x. unwrap_or x (hop urls accept auth left origin)) o)
                  (hop-AtMost left a s)))

  pub send_get-AtMost :
      (url : Str) (accept : Option Str) (auth : Auth) → AtMost 11 (send_get urls url accept auth)
  unfolding send_get
  send_get-AtMost url accept auth = hop-AtMost accept auth _ 10 true url

  module _ (parse_json : Str → Option Value) (up : OrgUpstream) where
    bearer_token-AtMost :
        (challenge scope : Str) → AtMost 11 (bearer_token urls parse_json up challenge scope)
    bearer_token-AtMost challenge scope =
        bearer_token_cases urls parse_json (λ t. AtMost 11 t) up challenge scope tt
          (λ realm.
            AtMost->>=_free 11 (guard_fetch_target urls realm) _ (guard_fetch_target-AtMost realm)
              (λ _. AtMost->>=_free 11 (lift (check_realm urls up realm)) _ (AtMost-lift 0 _) (λ _.
                AtMost->>=_free 11 (lift (parsed_realm urls realm)) _ (AtMost-lift 0 _) (λ u.
                  AtMost->>= 11 0 (send_get urls _ none (realm_auth urls up)) _
                    (send_get-AtMost _ none _) (λ reply. AtMost-lift 0 _)))))

    retry-AtMost :
        (url : Str) (accept : Option Str) (reply : Reply) (token : Option Str)
        → AtMost 11 (retry urls parse_json url accept reply token)
    retry-AtMost url accept reply none = tt
    retry-AtMost url accept reply (some token) = send_get-AtMost url accept (bearer token)

    -- A request with its redirects, the token dance and the retry send at most 33 requests, whatever
    -- the upstream answers.
    pub send_authed-AtMost :
        (url : Str) (accept : Option Str) (scope : Str)
        → AtMost 33 (send_authed urls parse_json up url accept scope)
    unfolding send_authed
    send_authed-AtMost url accept scope =
        AtMost->>= 11 22 (send_get urls url accept no_auth) _ (send_get-AtMost url accept no_auth)
          (λ reply. elim (Bool-cases (reply.status == 401)) [
            | inr e ↦ rw e tt
            | inl e ↦ rw e (
                AtMost->>= 11 11 (bearer_token urls parse_json up _ scope) _
                  (bearer_token-AtMost _ scope) (retry-AtMost url accept reply))
          ])
