-- ===== src/Auth/Rbac.antt =====
-- `grant_repository` of src/auth/rbac.rs.
pub mod Grants
use ruskery.Common.{
  Bool, true, false, ◌&&◌, Option, none, some, List, [], ◌∷◌, Str, codes, str_eq, split_once,
  if◌then◌else◌, filter, option_map, unwrap_or,
}
use ruskery.Models.{TokenScope, all, org, repo}
use ruskery.Models.Role
use ruskery.Models.Role.{admin}
use ruskery.Models.Perm
use ruskery.Models.Perm.{Permission, no_access, pull, push, full, min_perm}
use ruskery.Db.{Db, Org, Repository}
use ruskery.Db.Orgs.{find_org_by_slug, find_repo, org_role, repo_permission}

-- The permission that an action needs; an unknown action is passed over.
unfoldable pub required : Str → Option Permission
required action =
    if str_eq action (codes "pull")
    then some pull
    else if str_eq action (codes "push")
    then some push
    else if str_eq action (codes "delete")
    then some full
    else none

-- Whether the token may touch the repository at all.
unfoldable pub in_scope : TokenScope → Str → Option Repository → Bool
in_scope all org_id found = true
in_scope (org oid) org_id found = str_eq oid org_id
in_scope (repo rid) org_id found = unwrap_or (option_map (λ r. str_eq r.id rid) found) false

-- The owner's capability; a repository that does not exist yet may be created by an org admin.
unfoldable pub capability : Db → Str → Str → Option Repository → Permission
capability db org_id user_id (some r) = repo_permission db r.id org_id user_id
capability db org_id user_id none =
    if unwrap_or (option_map (λ r. Role.ge r admin) (org_role db org_id user_id)) false
    then push
    else no_access

unfoldable pub allows : Permission → Str → Bool
unfolding required
allows effective action = unwrap_or (option_map (Perm.ge effective) (required action)) false

-- From the organization on: the scope, the capability, and the filter on the requested actions.
grant_in_org : Db → Str → Org → Str → List Str → TokenScope → Permission → List Str
grant_in_org db user_id o repo_name requested scope cap =
    let found = find_repo db o.id repo_name in
    if in_scope scope o.id found
    then filter (allows (min_perm (capability db o.id user_id found) cap)) requested
    else []

unfoldable pub grant_repository : Db → Str → Str → List Str → TokenScope → Permission → List Str
unfolding grant_in_org
grant_repository db user_id name requested scope cap = elim (split_once b'/' name) [
  | none ↦ []
  | some (org_slug, repo_name) ↦ elim (find_org_by_slug db org_slug) [
    | none ↦ []
    | some o ↦ grant_in_org db user_id o repo_name requested scope cap
  ]
]
