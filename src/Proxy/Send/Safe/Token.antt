-- ===== src/Proxy/Send/Safe/Token.antt =====
-- The requests of `bearer_token` and `send_authed`.
use ruskery.Common.{
  ◌≡◌, Option, none, some, Str, codes, arith, inl, inr, ◌==◌, Bool-cases, Option-cases, unwrap_or,
}
use ruskery.Error.{ok}
use ruskery.Db.Orgs.{OrgUpstream}
use ruskery.Registry.Manifests.Json.{Value}
use ruskery.Proxy.{Urls, no_auth, bearer, Reply, header}
use ruskery.Proxy.Fetch.{◌>>=◌, lift}
use ruskery.Proxy.Fetch.Holds.{Cleared, Holds, Holds->>=, Holds-lift, Holds-requests}
use ruskery.Proxy.Guard.{guard_fetch_target}
use ruskery.Proxy.Send.{
  send_get, check_realm, realm_auth, realm_request, read_token, bearer_token, parsed_realm,
  send_authed, retry, challenge_param,
}
use ruskery.Proxy.Send.Cases.{bearer_token_cases}
use ruskery.Proxy.Send.Safe.{
  Any, IsCleared, IsCleared-Grown, guard_fetch_target-Holds, Sent, send_get-Sent,
}
use ruskery.Proxy.Send.Safe.Realm.{
  nothing, token, Allowed, check_realm_lem, realm_request-IsCleared, realm-Allowed,
}

module _ {Url Origin : Type 0} (urls : Urls Url Origin) (parse_json : Str → Option Value)
    (up : OrgUpstream) (start : Str) where
  parsed_realm_lem :
      (realm : Str) (u : Url) → parsed_realm urls realm ≡ ok u → urls.parse realm ≡ some u
  unfolding parsed_realm
  parsed_realm_lem realm u h = elim (Option-cases (urls.parse realm)) [
    | inl e ↦ absurd (ground (arith, h, e))
    | inr (v, e) ↦ ground (arith, h, e)
  ]

  -- The requests of the token dance.
  bearer_token-Allowed :
      (c : Cleared) (challenge scope : Str)
      → Holds (Allowed urls up start) Any c (bearer_token urls parse_json up challenge scope)
  bearer_token-Allowed c challenge scope =
      bearer_token_cases urls parse_json (λ t. Holds (Allowed urls up start) Any c t) up challenge
        scope tt
        (λ realm.
          Holds->>= (Allowed urls up start) (λ d _. IsCleared urls d realm) Any c c
            (guard_fetch_target urls realm) _ (λ x i. i)
            (guard_fetch_target-Holds urls (Allowed urls up start) c realm)
            (λ d _ _ near.
              Holds->>= (Allowed urls up start) (λ d' _. check_realm urls up realm ≡ ok tt) Any d d
                (lift (check_realm urls up realm)) _ (λ x i. i)
                (Holds-lift (Allowed urls up start) _ d (check_realm urls up realm) (λ _ e. e))
                (λ d1 _ g1 checked.
                  Holds->>= (Allowed urls up start) (λ d' u. parsed_realm urls realm ≡ ok u) Any d1
                    d1 (lift (parsed_realm urls realm)) _ (λ x i. i)
                    (Holds-lift (Allowed urls up start) _ d1 (parsed_realm urls realm) (λ _ e. e))
                    (λ d2 u g2 read.
                      asked realm u d2 (IsCleared-Grown urls d d2 realm (λ x i. g2 x (g1 x i)) near)
                        checked (parsed_realm_lem realm u read)))))
    where
      asked :
          (realm : Str) (u : Url) (d : Cleared)
          → IsCleared urls d realm
          → check_realm urls up realm ≡ ok tt
          → urls.parse realm ≡ some u
          → Holds (Allowed urls up start) Any d (
              send_get urls
                (urls.to_string
                  (realm_request urls (challenge_param challenge (codes "service")) scope u))
                none
                (realm_auth urls up)
              >>= (λ reply. lift (read_token urls parse_json reply)))
      asked realm u d near checked p =
          let service = challenge_param challenge (codes "service") in
          let first = urls.to_string (realm_request urls service scope u) in
          let near' = realm_request-IsCleared urls service scope d realm u p near in
          Holds->>= (Allowed urls up start) Any Any d d
            (send_get urls first none (realm_auth urls up)) _ (λ x i. i)
            (Holds-requests (Sent urls first (realm_auth urls up)) (Allowed urls up start) Any d d
              (send_get urls first none (realm_auth urls up)) (λ x i. i)
              (λ d' r g s.
                realm-Allowed urls up start service scope u d' r
                  (check_realm_lem urls up realm u checked p)
                  (IsCleared-Grown urls d d' first g near') s)
              (send_get-Sent urls first none (realm_auth urls up) d))
            (λ d' reply _ _.
              Holds-lift (Allowed urls up start) Any d' (read_token urls parse_json reply)
                (λ _ _. tt))

  retry-Allowed :
      (c : Cleared) (accept : Option Str) (reply : Reply) (answer : Option Str)
      → Holds (Allowed urls up start) Any c (retry urls parse_json start accept reply answer)
  retry-Allowed c accept reply none = tt
  retry-Allowed c accept reply (some t) =
      Holds-requests (Sent urls start (bearer t)) (Allowed urls up start) Any c c
        (send_get urls start accept (bearer t)) (λ x i. i)
        (λ d r _ s. record {
          reach = s.reach;
          secret = elim s.secret [ inl e ↦ nothing e | inr (e, same) ↦ token t e same ];
        })
        (send_get-Sent urls start accept (bearer t) c)

  -- Whatever the upstream answers, a request made on behalf of `start` goes there or to a URL whose
  -- host was just resolved to no link-local or unspecified address. It carries a token only to the
  -- origin of `start`, and the organization's password only to a realm that is trusted and not in
  -- cleartext on a public host, or to its origin.
  pub send_authed-Allowed :
      (c : Cleared) (accept : Option Str) (scope : Str)
      → Holds (Allowed urls up start) Any c (send_authed urls parse_json up start accept scope)
  unfolding send_authed
  send_authed-Allowed c accept scope =
      Holds->>= (Allowed urls up start) Any Any c c (send_get urls start accept no_auth) _
        (λ x i. i)
        (Holds-requests (Sent urls start no_auth) (Allowed urls up start) Any c c
          (send_get urls start accept no_auth) (λ x i. i)
          (λ d r _ s. record {
            reach = s.reach;
            secret = elim s.secret [ inl e ↦ nothing e | inr (e, _) ↦ nothing e ];
          })
          (send_get-Sent urls start accept no_auth c))
        (λ d reply g _. elim (Bool-cases (reply.status == 401)) [
          | inr e ↦ rw e tt
          | inl e ↦ rw e (
              Holds->>= (Allowed urls up start) Any Any d d
                (bearer_token urls parse_json up
                  (unwrap_or (header (codes "www-authenticate") reply) (codes "")) scope)
                _ (λ x i. i) (bearer_token-Allowed d _ scope)
                (λ d' answer _ _. retry-Allowed d' accept reply answer))
        ])
