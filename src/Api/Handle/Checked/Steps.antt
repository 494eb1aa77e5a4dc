-- ===== src/Api/Handle/Checked/Steps.antt =====
-- Every handler of src/api/mod.rs changes only what it may.
use ruskery.Common.{
  ◌≡◌, refl, ◌∙◌, Option, some, none, Str, codes, ◌∷◌, ◌||◌, any, Bool-cases, Option-cases, inl,
  inr, str_eq, str_eq_refl, str_eq_iff, arith, trim,
}
use ruskery.Models.{User}
use ruskery.Models.Role
use ruskery.Models.Role.{OrgRole, owner}
use ruskery.Error.{ok, >>=-ok, >>-ok}
use ruskery.Db.{Db, Org, Repository, Team}
use ruskery.Db.Audit.{record_event}
use ruskery.Db.Orgs
use ruskery.Db.Orgs.{
  find_org_by_slug, org_role, put_member, add_org_member, set_member_role, find_repo,
}
use ruskery.Db.Orgs.Memberships.{org_role-put_member, org_role-remove_member, add_org_member-ok}
use ruskery.Db.Orgs.Outside.{
  outside, outside-put_member, outside-remove_member, outside-record_event, outside-delete_repo,
  outside-remove_team_member, outside-add_team_member, outside-set_team_repo_perm,
  own_team-find_team, own_repo-find_repo,
}
use ruskery.Db.Orgs.Teams
use ruskery.Db.Orgs.Teams.{find_team, has_slug, set_team_repo_perm}
use ruskery.Db.Orgs.Views
use ruskery.Db.Users.{find_by_login}
use ruskery.Api.{Shown, done, Env}
use ruskery.Api.Guards.{ok_or, admin_of}
use ruskery.Api.Orgs.{create_repo, delete_repo}
use ruskery.Api.Members.{add_member, set_role, remove_member}
use ruskery.Api.Teams.{create_team, add_team_member, remove_team_member, set_team_perm}
use ruskery.Api.Handle.Checked.{
  admin_of-IsAdmin, Elsewhere, Elsewhere-same_members, Permitted, by_admin, after_ok, ok_or-ok,
}

-- The tables that a new team or repository leaves alone.
abbrev Keeps : Str → Db → Db → Type 0
Keeps org_id before after =
    (after.users ≡ before.users)
    × (after.orgs ≡ before.orgs)
    × (after.org_members ≡ before.org_members)
    × (outside before org_id after ≡ outside before org_id before)

create_team-Keeps :
    (db : Db) (id now org_id slug name : Str) (made : Team × Db)
    → Teams.create_team db id now org_id slug name ≡ ok made
    → Keeps org_id db made.1
unfolding Teams.create_team outside
create_team-Keeps db id now org_id slug name made h =
    elim (Bool-cases (any (λ (t : Team). str_eq t.id id || has_slug org_id slug t) db.teams)) [
      | inl t ↦ absurd (ground (arith, h, t))
      | inr f ↦
          let row : Team = record {
            id = id;
            org_id = org_id;
            slug = slug;
            name = name;
            created_at = now;
          } in
          let same : made.1 ≡ record db { teams = row ∷ db.teams } = ground (arith, h, f) in
          rw (same) (refl, refl, refl, rw (outside, str_eq_refl org_id) refl)
    ]

create_repo-Keeps :
    (db : Db) (id now org_id name : Str) (made : Repository × Db)
    → Orgs.create_repo db id now org_id name ≡ ok made
    → Keeps org_id db made.1
unfolding Orgs.create_repo outside
create_repo-Keeps db id now org_id name made h = elim (Option-cases (find_repo db org_id name)) [
  | inr (r, e) ↦ let same : made.1 ≡ db = ground (arith, h, e) in rw (same) (refl, refl, refl, refl)
  | inl e ↦ elim (Bool-cases (any (λ (r : Repository). str_eq r.id id) db.repositories)) [
    | inl t ↦ absurd (ground (arith, h, e, t))
    | inr f ↦
        let row : Repository = record {
          id = id;
          org_id = org_id;
          name = name;
          created_at = now;
          updated_at = now;
        } in
        let same : made.1 ≡ record db { repositories = row ∷ db.repositories } =
          ground (arith, h, e, f) in
        rw (same) (refl, refl, refl, rw (outside, str_eq_refl org_id) refl)
  ]
]

module _ (db : Db) (org_id : Str) where
  added : (user_id : Str) (role : OrgRole) → Elsewhere org_id db (put_member db org_id user_id role)
  unfolding put_member
  added user_id role = record {
    rest = outside-put_member db org_id db user_id role;
    users = refl;
    orgs = refl;
    roles = λ other_org other h.
        org_role-put_member db org_id user_id role other_org other
        ∙ ground (arith, str_eq_iff org_id other_org, h);
  }

  removed : (user_id : Str) → Elsewhere org_id db (Orgs.remove_member db org_id user_id)
  unfolding Orgs.remove_member
  removed user_id = record {
    rest = outside-remove_member db org_id db user_id;
    users = refl;
    orgs = refl;
    roles = λ other_org other h.
        org_role-remove_member db org_id user_id other_org other
        ∙ ground (arith, str_eq_iff org_id other_org, h);
  }

-- An audit record is no change of these.
Elsewhere-record_event :
    (org_id : Str) (before after : Db) (now : Str) (actor : Option Str) (action : Str)
    (target detail : Option Str)
    → Elsewhere org_id before after
    → Elsewhere org_id before (record_event after now actor (some org_id) action target detail)
unfolding org_role
Elsewhere-record_event org_id before after now actor action target detail e = record {
  users = e.users;
  orgs = e.orgs;
  roles = e.roles;
  rest = outside-record_event before org_id after now actor action target detail ∙ e.rest;
}

module _ (user : User) (db db' : Db) (v : Shown) where
  -- One organization's tables were changed by `change`.
  changed_by_admin :
      (slug : Str) (found : Org × OrgRole) (shown : Shown) (change : Db)
      → admin_of db user.id slug ≡ ok found
      → Elsewhere found.0.id db change
      → db' ≡ change
      → Permitted user db db'
  changed_by_admin slug found shown change a e same =
      rw same (by_admin slug found.0 (admin_of-IsAdmin db user slug found a) e)

  pub set_role-Permitted :
      (slug user_id role_text : Str)
      → set_role user slug user_id role_text db ≡ ok (v, db')
      → Permitted user db db'
  unfolding set_role set_member_role
  set_role-Permitted slug user_id role_text h =
      let (found, a, k) = >>=-ok (admin_of db user.id slug) _ (v, db') h in
      let (role, r, k') = >>=-ok (ok_or (Role.parse role_text) _) _ (v, db') k in
      let (joined, j, k2) = >>=-ok (add_org_member db found.0.id user_id role) _ (v, db') k' in
      changed_by_admin slug found done (put_member db found.0.id user_id role) a
        (added db found.0.id user_id role)
        (after_ok joined db' done v k2 ∙ (add_org_member-ok db found.0.id user_id role joined j).1)

  pub add_member-Permitted :
      (env : Env) (slug login role_text : Str)
      → add_member env user slug login role_text db ≡ ok (v, db')
      → Permitted user db db'
  unfolding add_member
  add_member-Permitted env slug login role_text h =
      let (found, a, k) = >>=-ok (admin_of db user.id slug) _ (v, db') h in
      let (role, r, k') = >>=-ok (ok_or (Role.parse role_text) _) _ (v, db') k in
      let (target, t, k2) = >>=-ok (ok_or (find_by_login db login) _) _ (v, db') k' in
      let (joined, j, k3) = >>=-ok (add_org_member db found.0.id target.id role) _ (v, db') k2 in
      let inserted = (add_org_member-ok db found.0.id target.id role joined j).1 in
      changed_by_admin slug found done _ a
        (Elsewhere-record_event found.0.id db joined env.now (some user.id) (codes "member.add")
          (some target.username) (some (Role.as_str role))
          (rw (inserted) (added db found.0.id target.id role)))
        (after_ok _ db' done v k3)

  pub remove_member-Permitted :
      (env : Env) (slug user_id : Str)
      → remove_member env user slug user_id db ≡ ok (v, db')
      → Permitted user db db'
  unfolding remove_member
  remove_member-Permitted env slug user_id h =
      let (found, a, k) = >>=-ok (admin_of db user.id slug) _ (v, db') h in
      changed_by_admin slug found done _ a
        (Elsewhere-record_event found.0.id db (Orgs.remove_member db found.0.id user_id) env.now
          (some user.id) (codes "member.remove") (some user_id) none
          (removed db found.0.id user_id))
        (after_ok _ db' done v k)

  -- The rest of an organization's tables.
  same_members_by_admin :
      (slug : Str) (found : Org × OrgRole) (shown : Shown) (change : Db)
      → admin_of db user.id slug ≡ ok found
      → change.users ≡ db.users
      → change.orgs ≡ db.orgs
      → change.org_members ≡ db.org_members
      → outside db found.0.id change ≡ outside db found.0.id db
      → db' ≡ change
      → Permitted user db db'
  same_members_by_admin slug found shown change a u o m rest same =
      changed_by_admin slug found shown change a
        (Elsewhere-same_members found.0.id db change u o m rest) same

  pub delete_repo-Permitted :
      (env : Env) (slug name : Str)
      → delete_repo env user slug name db ≡ ok (v, db')
      → Permitted user db db'
  unfolding delete_repo Views.delete_repo
  delete_repo-Permitted env slug name h =
      let (found, a, k) = >>=-ok (admin_of db user.id slug) _ (v, db') h in
      same_members_by_admin slug found done _ a refl refl refl
        (outside-record_event db found.0.id (Views.delete_repo db found.0.id name) env.now
            (some user.id) (codes "repo.delete") (some name) none
          ∙ outside-delete_repo db found.0.id name)
        (after_ok _ db' done v k)

  pub remove_team_member-Permitted :
      (slug team_slug user_id : Str)
      → remove_team_member user slug team_slug user_id db ≡ ok (v, db')
      → Permitted user db db'
  unfolding remove_team_member Teams.remove_team_member
  remove_team_member-Permitted slug team_slug user_id h =
      let (found, a, k) = >>=-ok (admin_of db user.id slug) _ (v, db') h in
      let (team, t, k') = >>=-ok (ok_or (find_team db found.0.id team_slug) _) _ (v, db') k in
      same_members_by_admin slug found done (Teams.remove_team_member db team.id user_id) a refl
        refl refl
        (outside-remove_team_member db found.0.id db team.id user_id
          (own_team-find_team db found.0.id team_slug team (ok_or-ok _ _ team t)))
        (after_ok _ db' done v k')

  pub add_team_member-Permitted :
      (slug team_slug login role : Str)
      → add_team_member user slug team_slug login role db ≡ ok (v, db')
      → Permitted user db db'
  unfolding add_team_member Teams.add_team_member
  add_team_member-Permitted slug team_slug login role h =
      let (found, a, k) = >>=-ok (admin_of db user.id slug) _ (v, db') h in
      let (team, t, k') = >>=-ok (ok_or (find_team db found.0.id team_slug) _) _ (v, db') k in
      let (target, g, k2) = >>=-ok (ok_or (find_by_login db login) _) _ (v, db') k' in
      same_members_by_admin slug found done (Teams.add_team_member db team.id target.id role) a refl
        refl refl
        (outside-add_team_member db found.0.id db team.id target.id role
          (own_team-find_team db found.0.id team_slug team (ok_or-ok _ _ team t)))
        (after_ok _ db' done v k2)

  pub set_team_perm-Permitted :
      (slug team_slug repo_name permission : Str)
      → set_team_perm user slug team_slug repo_name permission db ≡ ok (v, db')
      → Permitted user db db'
  unfolding set_team_perm set_team_repo_perm
  set_team_perm-Permitted slug team_slug repo_name permission h =
      let (found, a, k) = >>=-ok (admin_of db user.id slug) _ (v, db') h in
      let (team, t, k') = >>=-ok (ok_or (find_team db found.0.id team_slug) _) _ (v, db') k in
      let (g, k2) = >>-ok _ _ (v, db') k' in
      let (repo, r, k3) = >>=-ok (ok_or (find_repo db found.0.id repo_name) _) _ (v, db') k2 in
      same_members_by_admin slug found done (set_team_repo_perm db team.id repo.id permission) a
        refl refl refl
        (outside-set_team_repo_perm db found.0.id db team.id repo.id permission
          (own_repo-find_repo db found.0.id repo_name repo (ok_or-ok _ _ repo r)))
        (after_ok _ db' done v k3)

  pub create_team-Permitted :
      (env : Env) (slug team_slug name : Str)
      → create_team env user slug team_slug name db ≡ ok (v, db')
      → Permitted user db db'
  unfolding create_team
  create_team-Permitted env slug team_slug name h =
      let (found, a, k) = >>=-ok (admin_of db user.id slug) _ (v, db') h in
      let (g, k') = >>-ok _ _ (v, db') k in
      let (made, t, k2) =
        >>=-ok (Teams.create_team db env.id env.now found.0.id team_slug name) _ (v, db') k' in
      let (u, o, m, rest) = create_team-Keeps db env.id env.now found.0.id team_slug name made t in
      same_members_by_admin slug found done made.1 a u o m rest (after_ok made.1 db' _ v k2)

  pub create_repo-Permitted :
      (env : Env) (slug name : Str)
      → create_repo env user slug name db ≡ ok (v, db')
      → Permitted user db db'
  unfolding create_repo
  create_repo-Permitted env slug name h =
      let (found, a, k) = >>=-ok (admin_of db user.id slug) _ (v, db') h in
      let (g, k') = >>-ok _ _ (v, db') k in
      let (g', k2) = >>-ok _ _ (v, db') k' in
      let (made, t, k3) =
        >>=-ok (Orgs.create_repo db env.id env.now found.0.id (trim name)) _ (v, db') k2 in
      let (u, o, m, rest) = create_repo-Keeps db env.id env.now found.0.id (trim name) made t in
      same_members_by_admin slug found done _ a u o m
        (outside-record_event db found.0.id made.1 env.now (some user.id) (codes "repo.create")
            (some (trim name)) none
          ∙ rest)
        (after_ok _ db' _ v k3)
