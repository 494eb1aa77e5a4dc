-- ===== src/Db/Orgs/Teams.antt =====
-- The teams of src/db/orgs.rs, their members and their permissions on repositories.
pub mod Grants
use ruskery.Common.{
  Bool, true, false, not, ◌&&◌, ◌||◌, Option, none, some, List, [], ◌∷◌, map, Str, str_eq, str_ltb,
  lower, if◌then◌else◌, any, filter, filter_map, find_row, option_map, sort_by,
}
use ruskery.Models.{User}
use ruskery.Error.{Result, ok, err, database}
use ruskery.Db.{Db, Team, TeamMember, TeamRepoPerm, Repository}

-- `ORDER BY name`
unfoldable pub list_teams : Db → Str → List Team
unfolding sort_by
list_teams db org_id =
    sort_by (λ (a b : Team). str_ltb a.name b.name)
      (filter (λ (t : Team). str_eq t.org_id org_id) db.teams)

abbrev pub has_slug : Str → Str → Team → Bool
has_slug org_id slug t = str_eq t.org_id org_id && str_eq (lower t.slug) (lower slug)

unfoldable pub find_team : Db → Str → Str → Option Team
find_team db org_id slug = find_row (has_slug org_id slug) db.teams

-- The primary key and the unique index make the insert fail.
unfoldable pub create_team : Db → Str → Str → Str → Str → Str → Result (Team × Db)
create_team db id now org_id slug name =
    let row : Team = record {
      id = id;
      org_id = org_id;
      slug = slug;
      name = name;
      created_at = now;
    } in
    if any (λ (t : Team). str_eq t.id id || has_slug org_id slug t) db.teams
    then err database
    else ok (row, record db { teams = row ∷ db.teams })

abbrev pub is_team_member : Str → Str → TeamMember → Bool
is_team_member team_id user_id m = str_eq m.team_id team_id && str_eq m.user_id user_id

-- `ON CONFLICT(team_id, user_id) DO UPDATE SET role`
unfoldable pub upsert_team_member : Str → Str → Str → List TeamMember → List TeamMember
upsert_team_member team_id user_id role [] =
    record { team_id = team_id; user_id = user_id; role = role } ∷ []
upsert_team_member team_id user_id role (m ∷ ms) =
    if is_team_member team_id user_id m
    then record m { role = role } ∷ ms
    else m ∷ upsert_team_member team_id user_id role ms

unfoldable pub add_team_member : Db → Str → Str → Str → Db
unfolding upsert_team_member
add_team_member db team_id user_id role = record db {
  team_members = upsert_team_member team_id user_id role db.team_members;
}

unfoldable pub remove_team_member : Db → Str → Str → Db
remove_team_member db team_id user_id = record db {
  team_members = filter (λ m. not (is_team_member team_id user_id m)) db.team_members;
}

pub record MemberRow : Type 0 where
  pub user_id : Str
  pub username : Str
  pub email : Str
  pub role : Str

-- The join with `users`, whose primary key gives at most one row.
abbrev pub member_row : List User → Str → Str → Option MemberRow
member_row users user_id role =
    option_map
      (λ (u : User). record { user_id = u.id; username = u.username; email = u.email; role = role })
      (find_row (λ (u : User). str_eq u.id user_id) users)

abbrev pub by_username : List MemberRow → List MemberRow
by_username = sort_by (λ (a b : MemberRow). str_ltb a.username b.username)

unfoldable pub list_team_members : Db → Str → List MemberRow
unfolding sort_by
list_team_members db team_id = by_username (
    filter_map (λ (m : TeamMember). member_row db.users m.user_id m.role)
      (filter (λ (m : TeamMember). str_eq m.team_id team_id) db.team_members))

abbrev pub is_team_perm : Str → Str → TeamRepoPerm → Bool
is_team_perm team_id repo_id p = str_eq p.team_id team_id && str_eq p.repo_id repo_id

-- `ON CONFLICT(team_id, repo_id) DO UPDATE SET permission`
unfoldable pub upsert_team_perm : Str → Str → Str → List TeamRepoPerm → List TeamRepoPerm
upsert_team_perm team_id repo_id permission [] =
    record { team_id = team_id; repo_id = repo_id; permission = permission } ∷ []
upsert_team_perm team_id repo_id permission (p ∷ ps) =
    if is_team_perm team_id repo_id p
    then record p { permission = permission } ∷ ps
    else p ∷ upsert_team_perm team_id repo_id permission ps

unfoldable pub set_team_repo_perm : Db → Str → Str → Str → Db
unfolding upsert_team_perm
set_team_repo_perm db team_id repo_id permission = record db {
  team_repo_perms = upsert_team_perm team_id repo_id permission db.team_repo_perms;
}

pub record TeamPermRow : Type 0 where
  pub repo : Str
  pub permission : Str

-- `ORDER BY r.name`
unfoldable pub list_team_perms : Db → Str → List TeamPermRow
unfolding sort_by
list_team_perms db team_id =
    sort_by (λ (a b : TeamPermRow). str_ltb a.repo b.repo)
      (filter_map
        (λ (p : TeamRepoPerm).
          option_map (λ (r : Repository). record { repo = r.name; permission = p.permission })
            (find_row (λ (r : Repository). str_eq r.id p.repo_id) db.repositories))
        (filter (λ (p : TeamRepoPerm). str_eq p.team_id team_id) db.team_repo_perms))
