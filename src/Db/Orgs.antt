-- ===== src/Db/Orgs.antt =====
-- src/db/orgs.rs: organizations, memberships, repositories, and the resolution of permissions.
pub mod Permissions
pub mod Repositories
pub mod Teams
pub mod Catalog
pub mod Memberships
pub mod Views
pub mod Outside
use ruskery.Common.{
  Bool, true, false, not, ◌&&◌, ◌++◌, Option, none, some, List, [], ◌∷◌, map, Str, codes, str_eq,
  str_ltb, lower, trim_end_slashes, if◌then◌else◌, any, filter, find_row, filter_map, and_then,
  option_map, unwrap_or, is_some,
}
use ruskery.Common.Int.{ℤ}
use ruskery.Models.{User}
use ruskery.Models.Role.{OrgRole, admin}
use ruskery.Models.Role
use ruskery.Models.Perm.{Permission, no_access, full, max_perm}
use ruskery.Models.Perm
use ruskery.Error.{Result, ok, err, database, not_found}
use ruskery.Db.{Db, Org, OrgMember, Repository, TeamMember, TeamRepoPerm, ImagePull}

unfoldable pub find_org_by_slug : Db → Str → Option Org
find_org_by_slug db slug = find_row (λ o. str_eq (lower o.slug) (lower slug)) db.orgs

-- The unique index on `lower(slug)` and the primary key make the insert fail.
unfoldable pub create_org : Db → Str → Str → Str → Str → Result (Org × Db)
create_org db id now slug name =
    let row : Org = record {
      id = id;
      slug = slug;
      name = name;
      created_at = now;
      storage_quota_bytes = none;
      upstream_url = none;
      upstream_username = none;
      upstream_password = none;
    } in
    if any (λ (o : Org). str_eq (lower o.slug) (lower slug)) db.orgs
    then err database
    else if any (λ (o : Org). str_eq o.id id) db.orgs
    then err database
    else ok (row, record db { orgs = row ∷ db.orgs })

pub record OrgUpstream : Type 0 where
  pub url : Str
  pub username : Option Str
  pub password : Option Str
  pub trusted_realm_hosts : List Str

abbrev nonempty : Option Str → Option Str
nonempty none = none
nonempty (some []) = none
nonempty (some (c ∷ s)) = some (c ∷ s)

unfoldable pub org_upstream : Db → Str → Option OrgUpstream
org_upstream db org_id = and_then (find_row (λ o. str_eq o.id org_id) db.orgs) (λ o.
    option_map
      (λ url. record {
        url = trim_end_slashes url;
        username = nonempty o.upstream_username;
        password = nonempty o.upstream_password;
        trusted_realm_hosts = [];
      })
      (nonempty o.upstream_url))

unfoldable pub org_is_proxy : Db → Str → Bool
org_is_proxy db org_id =
    unwrap_or
      (option_map (λ (u : Str). not (str_eq u []))
        (and_then (find_row (λ o. str_eq o.id org_id) db.orgs) (λ o. o.upstream_url)))
      false

abbrev update_org : (Org → Org) → Str → List Org → List Org
update_org f id = map (λ o. if str_eq o.id id then f o else o)

unfoldable pub set_org_upstream : Db → Str → Option Str → Option Str → Option Str → Db
set_org_upstream db org_id url username password = record db {
  orgs =
      update_org
        (λ o. record o {
          upstream_url = url;
          upstream_username = username;
          upstream_password = password;
        })
        org_id db.orgs;
}

unfoldable pub org_quota_bytes : Db → Str → Option ℤ
org_quota_bytes db org_id =
    and_then (find_row (λ o. str_eq o.id org_id) db.orgs) (λ o. o.storage_quota_bytes)

unfoldable pub set_org_quota : Db → Str → Option ℤ → Db
set_org_quota db org_id bytes = record db {
  orgs = update_org (λ o. record o { storage_quota_bytes = bytes }) org_id db.orgs;
}

abbrev pub is_member_row : Str → Str → OrgMember → Bool
is_member_row org_id user_id m = str_eq m.org_id org_id && str_eq m.user_id user_id

-- `ON CONFLICT(org_id, user_id) DO UPDATE SET role`
unfoldable pub upsert_member : Str → Str → Str → List OrgMember → List OrgMember
upsert_member org_id user_id role [] =
    record { org_id = org_id; user_id = user_id; role = role } ∷ []
upsert_member org_id user_id role (m ∷ ms) =
    if is_member_row org_id user_id m
    then record m { role = role } ∷ ms
    else m ∷ upsert_member org_id user_id role ms

unfoldable pub put_member : Db → Str → Str → OrgRole → Db
unfolding upsert_member
put_member db org_id user_id role = record db {
  org_members = upsert_member org_id user_id (Role.as_str role) db.org_members;
}

-- The rows that the foreign keys of `org_members` refer to.
unfoldable pub has_parents : Db → Str → Str → Bool
has_parents db org_id user_id =
    any (λ (o : Org). str_eq o.id org_id) db.orgs
    && any (λ (u : User). str_eq u.id user_id) db.users

unfoldable pub add_org_member : Db → Str → Str → OrgRole → Result Db
unfolding put_member has_parents
add_org_member db org_id user_id role =
    if has_parents db org_id user_id then ok (put_member db org_id user_id role) else err database

unfoldable pub set_member_role : Db → Str → Str → OrgRole → Result Db
unfolding add_org_member
set_member_role db org_id user_id role = add_org_member db org_id user_id role

unfoldable pub remove_member : Db → Str → Str → Db
remove_member db org_id user_id = record db {
  org_members = filter (λ m. not (is_member_row org_id user_id m)) db.org_members;
}

unfoldable pub org_role : Db → Str → Str → Option OrgRole
org_role db org_id user_id =
    and_then (find_row (is_member_row org_id user_id) db.org_members) (λ m. Role.parse m.role)

unfoldable pub find_repo : Db → Str → Str → Option Repository
find_repo db org_id name =
    find_row (λ r. str_eq r.org_id org_id && str_eq r.name name) db.repositories

-- `ON CONFLICT(org_id, name) DO NOTHING`, then the row that stands there.
unfoldable pub create_repo : Db → Str → Str → Str → Str → Result (Repository × Db)
unfolding find_repo
create_repo db id now org_id name =
    let row : Repository = record {
      id = id;
      org_id = org_id;
      name = name;
      created_at = now;
      updated_at = now;
    } in
    elim (find_repo db org_id name) [
      | some r ↦ ok (r, db)
      | none ↦
          if any (λ (r : Repository). str_eq r.id id) db.repositories
          then err database
          else ok (row, record db { repositories = row ∷ db.repositories })
    ]

-- The join of the team grants on a repository with the teams of a user.
team_grants : Str → Str → List TeamRepoPerm → List TeamMember → List Str
team_grants repo_id user_id perms members =
    map (λ p. p.permission)
      (filter
        (λ p.
          str_eq p.repo_id repo_id
          && any (λ tm. str_eq tm.team_id p.team_id && str_eq tm.user_id user_id) members)
        perms)

-- `iter().filter_map(Permission::parse).max().unwrap_or(Permission::None)`
max_grant : List Str → Permission
unfolding max_perm
max_grant [] = no_access
max_grant (s ∷ rest) = elim (Perm.parse s) [
  | none ↦ max_grant rest
  | some p ↦ max_perm p (max_grant rest)
]

unfoldable pub repo_permission : Db → Str → Str → Str → Permission
unfolding team_grants max_grant
repo_permission db repo_id org_id user_id = elim (org_role db org_id user_id) [
  | none ↦ no_access
  | some role ↦
      if Role.ge role admin
      then full
      else max_grant (team_grants repo_id user_id db.team_repo_perms db.team_members)
]
