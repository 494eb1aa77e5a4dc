-- ===== src/Api/Accounts/Tokens.antt =====
-- The scope of a token that is created through src/api/mod.rs.
use ruskery.Common.{
  ◌≡◌, refl, ◌∙◌, ap, Option, none, some, Str, codes, str_eq, arith, sym, str_eq_iff, unwrap_or,
}
use ruskery.Models.{User, TokenScope}
use ruskery.Models.Perm
use ruskery.Models.Perm.{full}
use ruskery.Models.Role.{OrgRole}
use ruskery.Error.{ok, >>=-ok}
use ruskery.Db.{Db, Org, Repository}
use ruskery.Db.Orgs.{find_org_by_slug, org_role, find_repo}
use ruskery.Db.Users.{find_by_id, create_pat, user_for_pat}
use ruskery.Db.Users.Tokens.{scope_of, user_for_pat-create_pat}
use ruskery.Api.{Shown, token, Env}
use ruskery.Api.Guards.{ok_or, member_of}
use ruskery.Api.Accounts.{Scope, token_scope, max_perm_of, create_token}
use ruskery.Api.Handle.Checked.{ok_injective, ok_or-ok, after_ok}

max_perm_of_lem :
    (permission : Option Str) (cap : Str)
    → max_perm_of permission ≡ ok cap
    → cap ≡ unwrap_or permission (codes "admin")
unfolding max_perm_of
max_perm_of_lem none cap h = sym (ok_injective {b = cap} (codes "admin") h)
max_perm_of_lem (some p) cap h = ground (
  arith,
  h,
  str_eq_iff p (codes "admin"),
  str_eq_iff p (codes "push"),
  str_eq_iff p (codes "pull"),
)

-- An organization that the user belongs to, under a slug.
pub record IsMember (db : Db) (user : User) (slug : Str) (org : Org) : Type 0 where
  pub role : OrgRole
  pub stands : find_org_by_slug db slug ≡ some org
  pub has_role : org_role db org.id user.id ≡ some role

-- What a token reaches, for the organization and the repository that were asked for.
pub data Confined (db : Db) (user : User) (asked_org asked_repo : Option Str) (reach : TokenScope)
    : Type 0 where
  to_org :
      (slug : Str) (o : Org)
      → asked_org ≡ some slug
      → asked_repo ≡ none
      → IsMember db user slug o
      → reach ≡ TokenScope.org o.id
      → Confined db user asked_org asked_repo reach
  to_repo :
      (slug name : Str) (o : Org) (r : Repository)
      → asked_org ≡ some slug
      → asked_repo ≡ some name
      → IsMember db user slug o
      → find_repo db o.id name ≡ some r
      → reach ≡ TokenScope.repo r.id
      → Confined db user asked_org asked_repo reach
  to_all : asked_org ≡ none → reach ≡ TokenScope.all → Confined db user asked_org asked_repo reach

member_of-IsMember :
    (db : Db) (user : User) (slug : Str) (found : Org × OrgRole)
    → member_of db user.id slug ≡ ok found
    → IsMember db user slug found.0
unfolding member_of
member_of-IsMember db user slug found h =
    let (o, e, k) = >>=-ok (ok_or (find_org_by_slug db slug) _) _ found h in
    let (r, f, k') = >>=-ok (ok_or (org_role db o.id user.id) _) _ found k in
    let same : (o, r) ≡ found = ok_injective {b = found} (o, r) k' in
    rw (← ap (λ p. p.0) same) (record {
      role = r;
      stands = ok_or-ok (find_org_by_slug db slug) _ o e;
      has_role = ok_or-ok (org_role db o.id user.id) _ r f;
    })

abbrev reach_of : Scope → TokenScope
reach_of s = scope_of s.kind s.org_id s.repo_id

token_scope-Confined :
    (db : Db) (user : User) (asked_org asked_repo : Option Str) (scope : Scope)
    → token_scope user asked_org asked_repo db ≡ ok scope
    → Confined db user asked_org asked_repo (reach_of scope)
unfolding token_scope scope_of str_eq
token_scope-Confined db user (some slug) (some name) scope h =
    let (found, a, k) = >>=-ok (member_of db user.id slug) _ scope h in
    let (r, f, k') = >>=-ok (ok_or (find_repo db found.0.id name) _) _ scope k in
    let same : scope ≡ record { kind = codes "repo"; org_id = none; repo_id = some r.id } =
      sym (ok_injective {b = scope} _ k') in
    to_repo slug name found.0 r refl refl (member_of-IsMember db user slug found a)
      (ok_or-ok (find_repo db found.0.id name) _ r f) (rw same refl)
token_scope-Confined db user (some slug) none scope h =
    let (found, a, k) = >>=-ok (member_of db user.id slug) _ scope h in
    let same : scope ≡ record { kind = codes "org"; org_id = some found.0.id; repo_id = none } =
      sym (ok_injective {b = scope} _ k) in
    to_org slug found.0 refl refl (member_of-IsMember db user slug found a) (rw same refl)
token_scope-Confined db user none repo scope h =
    let same : scope ≡ record { kind = codes "all"; org_id = none; repo_id = none } =
      sym (ok_injective {b = scope} _ h) in
    to_all refl (rw same refl)

-- A token that was created is accepted: as its owner, with the permission that was asked for (or
-- admin) as its cap, and confined to the organization or the repository that was asked for, of which
-- the owner is a member. A repository without an organization confines it to nothing.
pub create_token-user_for_pat :
    (env : Env) (user : User) (name : Str) (asked_org asked_repo permission : Option Str)
    (db db' : Db) (v : Shown) (later : Str)
    → create_token env user name asked_org asked_repo permission db ≡ ok (v, db')
    → (owner : User) × (reach : TokenScope) × (cap : Str) × (find_by_id db user.id ≡ some owner)
      × Confined db user asked_org asked_repo reach
      × (cap ≡ unwrap_or permission (codes "admin"))
      × ((user_for_pat db' later env.generated.2).0
          ≡ some (owner, reach, unwrap_or (Perm.parse cap) full))
unfolding create_token
create_token-user_for_pat env user name asked_org asked_repo permission db db' v later h =
    let (scope, s, k) = >>=-ok (token_scope user asked_org asked_repo db) _ (v, db') h in
    let (cap, m, k') = >>=-ok (max_perm_of permission) _ (v, db') k in
    let (made, c, k2) =
      >>=-ok
        (create_pat db env.id env.now env.generated user.id name scope.kind scope.org_id
          scope.repo_id cap)
        _ (v, db') k' in
    let (owner, o, u) =
      user_for_pat-create_pat db env.id env.now env.generated user.id name scope.kind scope.org_id
        scope.repo_id cap made later c in
    (
      owner,
      reach_of scope,
      cap,
      o,
      token_scope-Confined db user asked_org asked_repo scope s,
      max_perm_of_lem permission cap m,
      ap (λ d. (user_for_pat d later env.generated.2).0)
            (after_ok made.1 db' (token made.0 user.username) v k2)
          ∙ u,
    )
