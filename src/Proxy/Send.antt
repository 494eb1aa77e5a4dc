-- ===== src/Proxy/Send.antt =====
-- The requests of src/proxy.rs: `send_get` with its redirects, the token of a Bearer challenge, and
-- `send_authed`. `parse_json` is `serde_json`'s parser.
mod Cases
pub mod Bounded
pub mod Safe
pub mod Capped
use ruskery.Common.{
  ℕ, zero, suc, ◌++◌, Bool, true, false, not, ◌&&◌, Option, none, some, List, [], ◌∷◌, Str, codes,
  ltb, ◌==◌, if◌then◌else◌, and_then, option_map, unwrap_or, or_else, is_some, find, length,
  decimal,
}
use ruskery.Error.{Error, Result, ok, err}
use ruskery.Db.Orgs.{OrgUpstream}
use ruskery.Registry.Manifests.Json.{Value, field, as_str}
use ruskery.Proxy.{
  Urls, Auth, no_auth, bearer, basic, Request, Reply, header, is_success, is_redirection,
  upstream_error, max_redirects, max_token_bytes,
}
use ruskery.Proxy.Fetch.{Fetch, done, fail, request, ◌>>=◌, ◌>>◌, lift}
use ruskery.Proxy.Guard.{
  same_origin, host_of, realm_is_trusted, is_cleartext_public, guard_fetch_target,
}

-- The body loop: no more than `max` bytes are held.
unfoldable pub read_chunks : ℕ → Str → List (Option Str) → Str → Result Str
read_chunks max what [] buf = ok buf
read_chunks max what (none ∷ body) buf = err (upstream_error (codes "reading upstream " ++ what))
read_chunks max what (some chunk ∷ body) buf =
    let rest = read_chunks max what body (buf ++ chunk) in
    if ltb max (length (buf ++ chunk))
    then err (
        upstream_error
          (codes "upstream " ++ (what ++ (codes " exceeded " ++ (decimal max ++ codes " bytes")))))
    else rest

too_large : Str → ℕ → ℕ → Error
too_large what len max = upstream_error (
    codes "upstream "
    ++ (what
        ++ (codes " too large ("
            ++ (decimal len ++ (codes " bytes, limit " ++ (decimal max ++ codes ")"))))))

unfoldable pub read_capped : Reply → ℕ → Str → Result Str
unfolding read_chunks too_large
read_capped reply max what =
    if unwrap_or (option_map (ltb max) reply.content_length) false
    then err (too_large what (unwrap_or reply.content_length 0) max)
    else read_chunks max what reply.body []

unfoldable pub challenge_param : Str → Str → Option Str
challenge_param challenge key =
    and_then (find (key ++ codes "=\"") challenge)
      (λ p. option_map (λ q. q.0) (find (codes "\"") p.1))

abbrev answered : Option Reply → Fetch Reply
answered none = fail (upstream_error (codes "upstream request failed"))
answered (some reply) = done reply

unfoldable pub token_of : Value → Option Str
token_of body =
    and_then (or_else (field (codes "token") body) (field (codes "access_token") body)) as_str

module _ {Url Origin : Type 0} (urls : Urls Url Origin) where
  -- What follows a response, where `onward` takes the next hop, if one is left.
  unfoldable pub follow :
      Option Origin → Bool → Str → Option (Bool → Str → Fetch Reply) → Reply → Fetch Reply
  follow origin attach current onward reply =
      if not (is_redirection reply.status) then done reply else elim onward [
        | none ↦ fail (upstream_error (codes "too many redirects from upstream"))
        | some go ↦ elim (header (codes "location") reply) [
          | none ↦ done reply
          | some loc ↦ elim (and_then (urls.parse current) (λ base. urls.join base loc)) [
            | none ↦ fail (upstream_error (codes "invalid redirect location from upstream"))
            | some next ↦
                guard_fetch_target urls (urls.to_string next)
                >> go (attach && unwrap_or (option_map (λ o. same_origin urls o next) origin) false)
                    (urls.to_string next)
          ]
        ]
      ]

  module _ (accept : Option Str) (auth : Auth) where
    -- The loop, by the redirects that are left.
    unfoldable pub hop : ℕ → Option Origin → Bool → Str → Fetch Reply
    unfolding follow
    hop zero origin attach current =
        request (record { url = current; accept = accept; auth = if attach then auth else no_auth })
          (λ answer. answered answer >>= follow origin attach current none)
    hop (suc left) origin attach current =
        request (record { url = current; accept = accept; auth = if attach then auth else no_auth })
          (λ answer. answered answer >>= follow origin attach current (some (hop left origin)))

  unfoldable pub send_get : Str → Option Str → Auth → Fetch Reply
  unfolding hop
  send_get url accept auth =
      hop accept auth max_redirects (option_map urls.origin (urls.parse url)) true url

  -- With credentials, the realm must be trusted and not in cleartext on a public host.
  unfoldable pub check_realm : OrgUpstream → Str → Result (Unit {0})
  check_realm up realm =
      if not (is_some up.username)
      then ok tt
      else if not (realm_is_trusted urls realm up.url up.trusted_realm_hosts)
      then err (
          upstream_error (
            codes "refusing to send upstream credentials to untrusted token-realm host '"
            ++ (unwrap_or (and_then (urls.parse realm) urls.host_str) (codes "?")
                ++ codes "'; add it to import.trusted_realm_hosts if it is legitimate")))
      else if is_cleartext_public urls realm
      then err (
          upstream_error (codes "refusing to send upstream credentials to a non-HTTPS token realm"))
      else ok tt

  unfoldable pub realm_request : Option Str → Str → Url → Url
  realm_request service scope u =
      urls.append_pair (codes "scope") scope
        (elim service [ none ↦ u | some s ↦ urls.append_pair (codes "service") s u ])

  unfoldable pub realm_auth : OrgUpstream → Auth
  realm_auth up = elim up.username [ none ↦ no_auth | some user ↦ basic user up.password ]

  unfoldable pub parsed_realm : Str → Result Url
  parsed_realm realm = elim (urls.parse realm) [
    | none ↦ err (upstream_error (codes "invalid token realm URL"))
    | some u ↦ ok u
  ]

  module _ (parse_json : Str → Option Value) where
    -- The token that a response of the token endpoint carries.
    unfoldable pub read_token : Reply → Result (Option Str)
    read_token reply =
        if not (is_success reply.status)
        then err (upstream_error (codes "upstream token endpoint status"))
        else elim (read_capped reply max_token_bytes (codes "token response")) [
          | err e ↦ err e
          | ok raw ↦ elim (parse_json raw) [
            | none ↦ err (upstream_error (codes "upstream token response"))
            | some body ↦ ok (token_of body)
          ]
        ]

    unfoldable pub bearer_token : OrgUpstream → Str → Str → Fetch (Option Str)
    unfolding parsed_realm
    bearer_token up challenge scope = elim (challenge_param challenge (codes "realm")) [
      | none ↦ done none
      | some realm ↦ do
        guard_fetch_target urls realm
        lift (check_realm up realm)
        u ← lift (parsed_realm realm)
        reply ←
            send_get
              (urls.to_string (realm_request (challenge_param challenge (codes "service")) scope u))
              none (realm_auth up)
        lift (read_token reply)
    ]

    abbrev retry : Str → Option Str → Reply → Option Str → Fetch Reply
    retry url accept reply none = done reply
    retry url accept reply (some token) = send_get url accept (bearer token)

    unfoldable pub send_authed : OrgUpstream → Str → Option Str → Str → Fetch Reply
    send_authed up url accept scope = do
      reply ← send_get url accept no_auth
      if not (reply.status == 401) then done reply else do
        token ←
            bearer_token up (unwrap_or (header (codes "www-authenticate") reply) (codes "")) scope
        retry url accept reply token
