-- ===== src/Api/Accounts.antt =====
-- Users and personal access tokens in src/api/mod.rs.
pub mod Tokens
use ruskery.Common.{
  ℕ, Bool, not, Option, none, some, Str, codes, str_eq, ltb, length, if◌then◌else◌,
}
use ruskery.Models.{User}
use ruskery.Error.{Error, forbidden, bad_request, Result, ok, err, guard, ◌>>=◌, ◌>>◌}
use ruskery.Db.{Db}
use ruskery.Db.Orgs.{find_repo}
use ruskery.Db.Users
use ruskery.Db.Users.{list_all, create, create_pat, delete_pat, list_pats}
use ruskery.Api.{Shown, done, users, created_user, token, tokens, Handled, Env}
use ruskery.Api.Guards.{ok_or, member_of}

unfoldable pub list_users : User → Db → Handled
list_users user db = do guard user.is_admin forbidden; ok (users (list_all db), db)

unfoldable pub create_user : Env → User → Str → Str → Str → Bool → Db → Handled
create_user env user email username password is_admin db = do
  guard user.is_admin forbidden
  guard (not (ltb (length password) 8))
      (bad_request (codes "password must be at least 8 characters"))
  hash ← env.hash_password password
  (created, db') ← create db env.id env.now email username hash is_admin
  ok (created_user created, db')

pub record Scope : Type 0 where
  pub kind : Str
  pub org_id : Option Str
  pub repo_id : Option Str

-- The scope that is asked for. Without an organization it is everything.
unfoldable pub token_scope : User → Option Str → Option Str → Db → Result Scope
token_scope user (some slug) (some repo_name) db = do
  (org, role) ← member_of db user.id slug
  repo ← ok_or (find_repo db org.id repo_name) (bad_request (codes "no such repository"))
  ok (record { kind = codes "repo"; org_id = none; repo_id = some repo.id })
token_scope user (some slug) none db = do
  (org, role) ← member_of db user.id slug
  ok (record { kind = codes "org"; org_id = some org.id; repo_id = none })
token_scope user none repo_name db =
    ok (record { kind = codes "all"; org_id = none; repo_id = none })

unfoldable pub max_perm_of : Option Str → Result Str
max_perm_of none = ok (codes "admin")
max_perm_of (some p) =
    if str_eq p (codes "admin")
    then ok (codes "admin")
    else if str_eq p (codes "push")
    then ok (codes "push")
    else if str_eq p (codes "pull")
    then ok (codes "pull")
    else err (bad_request (codes "invalid permission (pull|push|admin)"))

unfoldable pub create_token : Env → User → Str → Option Str → Option Str → Option Str → Db → Handled
unfolding token_scope max_perm_of
create_token env user name org repo permission db = do
  scope ← token_scope user org repo db
  max_perm ← max_perm_of permission
  (plaintext, db') ←
      create_pat db env.id env.now env.generated user.id name scope.kind scope.org_id scope.repo_id
        max_perm
  ok (token plaintext user.username, db')

unfoldable pub list_tokens : User → Db → Handled
list_tokens user db = ok (tokens (list_pats db user.id), db)

unfoldable pub delete_token : User → Str → Db → Handled
delete_token user id db = ok (done, delete_pat db user.id id)
