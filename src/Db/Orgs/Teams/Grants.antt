-- ===== src/Db/Orgs/Teams/Grants.antt =====
-- What a team's permission on a repository comes to for its members (src/db/orgs.rs).
use ruskery.Common.{
  ◌≤◌, ◌≡◌, ◌≢◌, refl, ap, true, some, List, [], ◌∷◌, Str, str_eq_iff, arith, any, any-In, In, inl,
  inr, Bool-cases, sym, Option-cases,
}
use ruskery.Models.Role
use ruskery.Models.Role.{OrgRole, admin}
use ruskery.Models.Perm
use ruskery.Models.Perm.{Permission, full}
use ruskery.Db.{Db, TeamMember, TeamRepoPerm}
use ruskery.Db.Orgs.{org_role, repo_permission, team_grants, max_grant}
use ruskery.Db.Orgs.Permissions.{
  TeamGrant, outsider, by_role, by_teams, repo_permission-IsPermission,
}
use ruskery.Db.Orgs.Teams.{is_team_member, is_team_perm, upsert_team_perm, set_team_repo_perm}

rank-le_full : (p : Permission) → Perm.rank p ≤ Perm.rank full
rank-le_full p = ground arith

In-upsert_team_perm :
    (team_id repo_id permission : Str) (ps : List TeamRepoPerm)
    → (p : TeamRepoPerm) × In p (upsert_team_perm team_id repo_id permission ps)
      × (p.team_id ≡ team_id)
      × (p.repo_id ≡ repo_id)
      × (p.permission ≡ permission)
unfolding upsert_team_perm
In-upsert_team_perm team_id repo_id permission [] = (
  record { team_id = team_id; repo_id = repo_id; permission = permission },
  inl refl,
  refl,
  refl,
  refl,
)
In-upsert_team_perm team_id repo_id permission (p ∷ ps) =
    elim (Bool-cases (is_team_perm team_id repo_id p)) [
      | inl e ↦ rw e (
        record p { permission = permission },
        inl refl,
        ground (arith, e, str_eq_iff p.team_id team_id),
        ground (arith, e, str_eq_iff p.repo_id repo_id),
        refl,
      )
      | inr e ↦
          let (q, i, t, r, l) = In-upsert_team_perm team_id repo_id permission ps in
          rw e (q, inr i, t, r, l)
    ]

team_grants-upsert_team_perm :
    (team_id repo_id permission other user_id : Str) (ps : List TeamRepoPerm) (ms : List TeamMember)
    → other ≢ repo_id
    → team_grants other user_id (upsert_team_perm team_id repo_id permission ps) ms
      ≡ team_grants other user_id ps ms
unfolding team_grants upsert_team_perm
team_grants-upsert_team_perm team_id repo_id permission other user_id [] ms h =
    ground (arith, str_eq_iff repo_id other, λ (e : repo_id ≡ other). h (sym e))
team_grants-upsert_team_perm team_id repo_id permission other user_id (p ∷ ps) ms h = ground (
  arith,
  str_eq_iff repo_id other,
  str_eq_iff p.repo_id other,
  str_eq_iff p.repo_id repo_id,
  team_grants-upsert_team_perm team_id repo_id permission other user_id ps ms h,
)

repo_permission_level :
    (db : Db) (repo_id org_id user_id : Str) (role : OrgRole) (level : Permission)
    → org_role db org_id user_id ≡ some role
    → TeamGrant db repo_id user_id level
    → Perm.rank level ≤ Perm.rank (repo_permission db repo_id org_id user_id)
repo_permission_level db repo_id org_id user_id role level is_role grant =
    elim (repo_permission-IsPermission db repo_id org_id user_id) [
      | outsider n _ ↦ absurd (ground (arith, n, is_role))
      | by_role _ _ _ e ↦ rw e (rank-le_full level)
      | by_teams _ _ _ le _ ↦ le level grant
    ]

repo_permission_other :
    (db : Db) (team_id repo_id permission other org_id user_id : Str)
    → other ≢ repo_id
    → repo_permission (set_team_repo_perm db team_id repo_id permission) other org_id user_id
      ≡ repo_permission db other org_id user_id
unfolding repo_permission set_team_repo_perm org_role
repo_permission_other db team_id repo_id permission other org_id user_id h =
    elim (Option-cases (org_role db org_id user_id)) [
      | inl e ↦ rw (repo_permission, e) refl
      | inr (role, e) ↦ elim (Bool-cases (Role.ge role admin)) [
        | inl a ↦ rw (repo_permission, e, a) refl
        | inr m ↦
            rw (repo_permission, e, m)
              (ap max_grant (
                team_grants-upsert_team_perm team_id repo_id permission other user_id
                  db.team_repo_perms db.team_members h))
      ]
    ]

module _ (db : Db) (team_id repo_id permission : Str) where
  -- After a team was given a permission on a repository, a member of the team who belongs to the
  -- organization has at least it there, and every user has what they had on every other repository.
  pub repo_permission-set_team_repo_perm :
      (org_id user_id : Str) (role : OrgRole) (level : Permission)
      → org_role db org_id user_id ≡ some role
      → any (is_team_member team_id user_id) db.team_members ≡ true
      → Perm.parse permission ≡ some level
      → (Perm.rank level
          ≤ Perm.rank (
              repo_permission
                (set_team_repo_perm db team_id repo_id permission)
                repo_id
                org_id
                user_id))
        × ((other any_user : Str)
            → other ≢ repo_id
            → repo_permission
                (set_team_repo_perm db team_id repo_id permission)
                other
                org_id
                any_user
              ≡ repo_permission db other org_id any_user)
  unfolding set_team_repo_perm org_role
  repo_permission-set_team_repo_perm org_id user_id role level is_role in_team parsed =
      let (tm, i, e) = any-In (is_team_member team_id user_id) db.team_members in_team in
      let (row, j, t, r, l) = In-upsert_team_perm team_id repo_id permission db.team_repo_perms in
      let grant : TeamGrant (set_team_repo_perm db team_id repo_id permission) repo_id user_id
          level =
        record {
          row = row;
          member = tm;
          granted = j;
          belongs = i;
          on_repo = r;
          same_team = ground (arith, e, t, str_eq_iff tm.team_id team_id);
          is_user = ground (arith, e, str_eq_iff tm.user_id user_id);
          level = rw l parsed;
        } in
      (
        repo_permission_level (set_team_repo_perm db team_id repo_id permission) repo_id org_id
            user_id role level is_role grant,
        λ other any_user h.
            repo_permission_other db team_id repo_id permission other org_id any_user h,
      )
