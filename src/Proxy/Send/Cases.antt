-- ===== src/Proxy/Send/Cases.antt =====
-- The branches of the guard, of a hop and of the token dance.
use ruskery.Common.{
  ◌≡◌, Bool, false, ◌&&◌, Option, none, some, Str, codes, inl, inr, Bool-cases, Option-cases,
  and_then, option_map, unwrap_or,
}
use ruskery.Error.{Error}
use ruskery.Db.Orgs.{OrgUpstream}
use ruskery.Registry.Manifests.Json.{Value}
use ruskery.Proxy.{Urls, Reply, header, is_redirection}
use ruskery.Proxy.Fetch.{Fetch, done, fail, lookup, ◌>>=◌, ◌>>◌, lift}
use ruskery.Proxy.Guard.{guard_fetch_target, check_addresses, port_of, same_origin}
use ruskery.Proxy.Send.{
  answered, challenge_param, follow, send_get, check_realm, realm_auth, realm_request, read_token,
  bearer_token, parsed_realm,
}

pub answered_cases {ℓ} :
    (P : Fetch Reply → Type ℓ) (k : Reply → Fetch Reply) (r : Option Reply)
    → ((e : Error) → P (fail e))
    → ((reply : Reply) → P (k reply))
    → P (answered r >>= k)
answered_cases P k none failed got = failed _
answered_cases P k (some reply) failed got = got reply

module _ {Url Origin : Type 0} (urls : Urls Url Origin) where
  pub guard_fetch_target_cases {ℓ} :
      (P : Fetch (Unit {0}) → Type ℓ) (text : Str)
      → ((e : Error) → P (fail e))
      → ((u : Url) (host : Str)
          → urls.parse text ≡ some u
          → urls.host_str u ≡ some host
          → P (lookup host (port_of urls u) check_addresses))
      → P (guard_fetch_target urls text)
  unfolding guard_fetch_target
  guard_fetch_target_cases P text failed looked = elim (Option-cases (urls.parse text)) [
    | inl e ↦ rw (guard_fetch_target, e) (failed _)
    | inr (u, e) ↦ elim (Option-cases (urls.host_str u)) [
      | inl h ↦ rw (guard_fetch_target, e, h) (failed _)
      | inr (host, h) ↦ rw (guard_fetch_target, e, h) (looked u host e h)
    ]
  ]

  pub follow_cases {ℓ} :
      (P : Fetch Reply → Type ℓ) (origin : Option Origin) (attach : Bool) (current : Str)
      (onward : Option (Bool → Str → Fetch Reply)) (reply : Reply)
      → P (done reply)
      → ((e : Error) → P (fail e))
      → ((go : Bool → Str → Fetch Reply) (next : Url)
          → onward ≡ some go
          → P (
              guard_fetch_target urls (urls.to_string next)
              >> go
                  (attach && unwrap_or (option_map (λ o. same_origin urls o next) origin) false)
                  (urls.to_string next)))
      → P (follow urls origin attach current onward reply)
  unfolding follow
  follow_cases P origin attach current onward reply same failed moved =
      elim (Bool-cases (is_redirection reply.status)) [
        | inr e ↦ rw (follow, e) same
        | inl e ↦ elim (Option-cases onward) [
          | inl o ↦ rw (follow, e, o) (failed _)
          | inr (go, o) ↦ elim (Option-cases (header (codes "location") reply)) [
            | inl l ↦ rw (follow, e, o, l) same
            | inr (loc, l) ↦
                elim (Option-cases (and_then (urls.parse current) (λ base. urls.join base loc))) [
                  | inl j ↦ rw (follow, e, o, l, j) (failed _)
                  | inr (next, j) ↦ rw (follow, e, o, l, j) (moved go next o)
                ]
          ]
        ]
      ]

  pub bearer_token_cases {ℓ} :
      (parse_json : Str → Option Value) (P : Fetch (Option Str) → Type ℓ) (up : OrgUpstream)
      (challenge scope : Str)
      → P (done none)
      → ((realm : Str)
          → P (
              guard_fetch_target urls realm
              >> (lift (check_realm urls up realm)
                  >> (lift (parsed_realm urls realm) >>= (λ u.
                      send_get urls
                        (urls.to_string (
                          realm_request urls (challenge_param challenge (codes "service")) scope u))
                        none
                        (realm_auth urls up)
                      >>= (λ reply. lift (read_token urls parse_json reply)))))))
      → P (bearer_token urls parse_json up challenge scope)
  unfolding bearer_token parsed_realm
  bearer_token_cases parse_json P up challenge scope nothing asked =
      elim (Option-cases (challenge_param challenge (codes "realm"))) [
        | inl e ↦ rw (bearer_token, e) nothing
        | inr (realm, e) ↦ rw (bearer_token, e) (asked realm)
      ]
