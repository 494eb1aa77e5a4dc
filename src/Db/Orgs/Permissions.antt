-- ===== src/Db/Orgs/Permissions.antt =====
-- The resolution of a permission on a repository (src/db/orgs.rs).
use ruskery.Common.{
  ◌≤◌, ◌≡◌, refl, ◌⊎◌, inl, inr, Bool, true, false, ◌&&◌, none, some, List, [], ◌∷◌, Str, str_eq,
  str_eq_iff, arith, any, map, In, In-filter, In-filter_of, any-In, any_of-In, Option-cases,
  Bool-cases,
}
use ruskery.Models.Role
use ruskery.Models.Role.{OrgRole, admin}
use ruskery.Models.Perm
use ruskery.Models.Perm.{Permission, no_access, full, max_perm, rank-max_perm, max_perm-cases}
use ruskery.Db.{Db, TeamRepoPerm, TeamMember}
use ruskery.Db.Orgs.{org_role, repo_permission, team_grants, max_grant}

max_grant-le :
    (s : Str) (p : Permission) (xs : List Str)
    → In s xs
    → Perm.parse s ≡ some p
    → Perm.rank p ≤ Perm.rank (max_grant xs)
unfolding max_grant
max_grant-le s p [] i h = elim i [ ]
max_grant-le s p (x ∷ xs) i h = elim (Option-cases (Perm.parse x)) [
  | inl e ↦ rw (e, max_grant) (max_grant-le s p xs (ground (arith, e)) h)
  | inr (q, e) ↦
      rw (e, max_grant) (ground (arith, rank-max_perm q (max_grant xs), max_grant-le s p xs))
]

max_grant-attained :
    (xs : List Str)
    → (max_grant xs ≡ no_access) ⊎ ((s : Str) × In s xs × (Perm.parse s ≡ some (max_grant xs)))
unfolding max_grant
max_grant-attained [] = inl refl
max_grant-attained (x ∷ xs) = elim (Option-cases (Perm.parse x)) [
  | inl e ↦
      rw (e, max_grant)
        (elim (max_grant-attained xs) [ inl z ↦ inl z | inr (s, i, h) ↦ inr (s, inr i, h) ])
  | inr (p, e) ↦
      rw (e, max_grant)
        (elim (max_perm-cases p (max_grant xs)) [
          | inl m ↦ inr (x, inl refl, rw m e)
          | inr m ↦
              rw m
                (elim (max_grant-attained xs) [ inl z ↦ inl z | inr (s, i, h) ↦ inr (s, inr i, h) ])
        ])
]

-- A team's grant that reaches the user: the team has the permission on the repository, and the user
-- is in the team.
pub record TeamGrant (db : Db) (repo_id user_id : Str) (p : Permission) : Type 0 where
  pub row : TeamRepoPerm
  pub member : TeamMember
  pub granted : In row db.team_repo_perms
  pub belongs : In member db.team_members
  pub on_repo : row.repo_id ≡ repo_id
  pub same_team : member.team_id ≡ row.team_id
  pub is_user : member.user_id ≡ user_id
  pub level : Perm.parse row.permission ≡ some p

abbrev reaches : Db → Str → Str → TeamRepoPerm → Bool
reaches db repo_id user_id p =
    str_eq p.repo_id repo_id
    && any (λ tm. str_eq tm.team_id p.team_id && str_eq tm.user_id user_id) db.team_members

In-permission :
    (s : Str) (rows : List TeamRepoPerm)
    → In s (map (λ r. r.permission) rows)
    → (r : TeamRepoPerm) × In r rows × (s ≡ r.permission)
In-permission s [] i = elim i [ ]
In-permission s (r ∷ rs) i = elim i [
  | inl e ↦ (r, inl refl, e)
  | inr j ↦ let (q, k, e) = In-permission s rs j in (q, inr k, e)
]

In-permission_of :
    (r : TeamRepoPerm) (rows : List TeamRepoPerm)
    → In r rows
    → In r.permission (map (λ q. q.permission) rows)
In-permission_of r [] i = elim i [ ]
In-permission_of r (q ∷ qs) i = ground (arith, In-permission_of r qs)

module _ (db : Db) (repo_id user_id : Str) where
  grants_of : List Str
  grants_of = team_grants repo_id user_id db.team_repo_perms db.team_members

  TeamGrant-In :
      (s : Str) (p : Permission)
      → In s grants_of
      → Perm.parse s ≡ some p
      → TeamGrant db repo_id user_id p
  unfolding grants_of team_grants
  TeamGrant-In s p i h =
      let (r, j, e) = In-permission s _ i in
      let (k, t) = In-filter (reaches db repo_id user_id) r db.team_repo_perms j in
      let (tm, m, q) =
        any-In (λ tm. str_eq tm.team_id r.team_id && str_eq tm.user_id user_id) db.team_members
          (ground arith) in
      record {
        row = r;
        member = tm;
        granted = k;
        belongs = m;
        on_repo = ground (arith, str_eq_iff r.repo_id repo_id);
        same_team = ground (arith, str_eq_iff tm.team_id r.team_id);
        is_user = ground (arith, str_eq_iff tm.user_id user_id);
        level = rw (← e) h;
      }

  In-TeamGrant :
      (p : Permission) (g : TeamGrant db repo_id user_id p) → In g.row.permission grants_of
  unfolding grants_of team_grants
  In-TeamGrant p g = In-permission_of g.row _ (
      In-filter_of (reaches db repo_id user_id) g.row db.team_repo_perms g.granted (
        ground (
          arith,
          str_eq_iff g.row.repo_id repo_id,
          any_of-In (λ tm. str_eq tm.team_id g.row.team_id && str_eq tm.user_id user_id) g.member
              db.team_members g.belongs,
          str_eq_iff g.member.team_id g.row.team_id,
          str_eq_iff g.member.user_id user_id,
        )))

-- What a permission on a repository must be: that of the role, or the greatest of the team grants.
pub data IsPermission (db : Db) (repo_id org_id user_id : Str) (p : Permission) : Type 0 where
  outsider :
      org_role db org_id user_id ≡ none → p ≡ no_access → IsPermission db repo_id org_id user_id p
  by_role :
      (r : OrgRole)
      → org_role db org_id user_id ≡ some r
      → Role.ge r admin ≡ true
      → p ≡ full
      → IsPermission db repo_id org_id user_id p
  by_teams :
      (r : OrgRole)
      → org_role db org_id user_id ≡ some r
      → Role.ge r admin ≡ false
      → ((q : Permission) → TeamGrant db repo_id user_id q → Perm.rank q ≤ Perm.rank p)
      → (p ≡ no_access) ⊎ TeamGrant db repo_id user_id p
      → IsPermission db repo_id org_id user_id p

-- The permission of a user on a repository: none for a user with no role in the organization, full
-- for an admin or owner, and for a member the greatest permission that a team of theirs is granted
-- on the repository (none if there is no such grant).
pub repo_permission-IsPermission :
    (db : Db) (repo_id org_id user_id : Str)
    → IsPermission db repo_id org_id user_id (repo_permission db repo_id org_id user_id)
unfolding repo_permission grants_of
repo_permission-IsPermission db repo_id org_id user_id =
    elim (Option-cases (org_role db org_id user_id)) [
      | inl e ↦ outsider e (ground arith)
      | inr (r, e) ↦ elim (Bool-cases (Role.ge r admin)) [
        | inl a ↦ by_role r e a (ground arith)
        | inr m ↦
            let greatest : repo_permission db repo_id org_id user_id
                ≡ max_grant (grants_of db repo_id user_id) =
              ground arith in
            by_teams r e m
              (λ q g.
                rw greatest
                  (max_grant-le g.row.permission q _ (In-TeamGrant db repo_id user_id q g) g.level))
              (rw greatest (elim (max_grant-attained (grants_of db repo_id user_id)) [
                | inl z ↦ inl z
                | inr (s, i, h) ↦ inr (TeamGrant-In db repo_id user_id s _ i h)
              ]))
      ]
    ]
