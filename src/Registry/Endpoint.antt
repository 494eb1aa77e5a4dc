-- ===== src/Registry/Endpoint.antt =====
-- `token_endpoint` of src/registry/mod.rs: who is asking, what is granted, and the claims to sign.
-- Password checking (Argon2), the hash of a token (SHA-256), base64 and signing are the crates'.
pub mod Issue
use ruskery.Common.{
  Bool, true, false, Option, none, some, List, [], ◌∷◌, Str, codes, str_eq, if◌then◌else◌,
  filter_map, and_then, unwrap_or,
}
use ruskery.Common.Int.{ℤ}
use ruskery.Models.{User, TokenScope, all, org, repo}
use ruskery.Models.Perm.{Permission, full}
use ruskery.Error.{Response, Result, ok, err, token_json, into_response}
use ruskery.Db.{Db}
use ruskery.Db.Users.{find_by_login, user_for_pat}
use ruskery.Auth.Header.{BasicCredentials, parse_basic}
use ruskery.Auth.Scope.{Scope, parse_scopes}
use ruskery.Auth.Token.{
  AccessEntry, ScopeClaim, Claims, scope_claim_all, scope_claim_org, scope_claim_repo,
  issued_claims,
}
use ruskery.Auth.Rbac.{grant_repository}
use ruskery.Registry.Auth.{Headers, challenge, service_name}

-- The functions of other packages that the endpoint calls.
pub record Crypto : Type 0 where
  pub verify_password : Str → Str → Bool
  pub pat_hash : Str → Str
  pub decode_base64 : Str → Option Str
  pub sign : Claims → Result Str

-- An account password, or else a personal access token.
unfoldable pub resolve_user :
    Crypto → Db → Str → Str → Str → Option (User × TokenScope × Permission) × Db
resolve_user crypto db now username secret =
    let by_token = user_for_pat db now (crypto.pat_hash secret) in
    elim (if str_eq username [] then none else find_by_login db username) [
      | none ↦ by_token
      | some u ↦
          if crypto.verify_password secret u.password_hash
          then (some (u, TokenScope.all, full), db)
          else by_token
    ]

-- The entry of one requested scope, if it is a repository's and something is granted.
unfoldable pub access_entry : Db → Str → TokenScope → Permission → Scope → Option AccessEntry
access_entry db user_id scope cap s =
    if str_eq s.kind (codes "repository")
    then elim (grant_repository db user_id s.name s.actions scope cap) [
      | [] ↦ none
      | a ∷ rest ↦ some (record { kind = codes "repository"; name = s.name; actions = a ∷ rest })
    ]
    else none

unfoldable pub access_entries : Db → Str → TokenScope → Permission → List Scope → List AccessEntry
unfolding access_entry
access_entries db user_id scope cap requested =
    filter_map (access_entry db user_id scope cap) requested

unfoldable pub scope_claim : TokenScope → ScopeClaim
scope_claim all = scope_claim_all
scope_claim (org id) = scope_claim_org id
scope_claim (repo id) = scope_claim_repo id

-- The time of the clock, the same instant as text and as seconds, and a fresh identifier.
pub record Moment : Type 0 where
  pub now : Str
  pub unix : ℤ
  pub jti : Str

-- The claims for an authenticated user.
unfoldable pub claims_for : Moment → Db → User → TokenScope → Permission → Str → Str → ℤ → Claims
unfolding access_entries scope_claim
claims_for at db user scope cap service query ttl =
    issued_claims at.unix at.jti user.id service
      (access_entries db user.id scope cap (parse_scopes query)) (scope_claim scope) ttl

unfoldable pub token_endpoint : Crypto → Moment → Db → Str → ℤ → Headers → Str → Response × Db
token_endpoint crypto at db public_url ttl h query =
    elim (and_then h.authorization (parse_basic crypto.decode_base64)) [
      | none ↦ (challenge public_url h none, db)
      | some creds ↦
          let (found, db') = resolve_user crypto db at.now creds.username creds.password in
          elim found [
            | none ↦ (challenge public_url h none, db')
            | some (user, scope, cap) ↦
                elim (crypto.sign
                  (claims_for at db' user scope cap (service_name public_url h) query ttl)) [
                    | ok jwt ↦ (
                      record { status = 200; headers = []; body = token_json jwt ttl at.now },
                      db',
                    )
                    | err e ↦ (into_response e, db')
                  ]
          ]
    ]
