-- ===== src/Api/Teams.antt =====
-- The teams of an organization in src/api/mod.rs.
use ruskery.Common.{Str, codes, is_some}
use ruskery.Models.{User}
use ruskery.Models.Perm
use ruskery.Error.{not_found, bad_request, ok, guard, ◌>>=◌, ◌>>◌}
use ruskery.Db.{Db}
use ruskery.Db.Orgs.{find_repo}
use ruskery.Db.Orgs.Teams
use ruskery.Db.Orgs.Teams.{find_team, set_team_repo_perm, list_team_members, list_team_perms}
use ruskery.Db.Users.{find_by_login}
use ruskery.Api.{done, members, teams, created_team, team_perms, Handled, Env}
use ruskery.Api.Guards.{ok_or, valid_slug, member_of, admin_of}

unfoldable pub list_teams : User → Str → Db → Handled
list_teams user slug db = do
  (org, role) ← member_of db user.id slug
  ok (teams (Teams.list_teams db org.id), db)

unfoldable pub create_team : Env → User → Str → Str → Str → Db → Handled
create_team env user slug team_slug name db = do
  (org, role) ← admin_of db user.id slug
  guard (valid_slug team_slug) (bad_request (codes "invalid team slug"))
  (team, db') ← Teams.create_team db env.id env.now org.id team_slug name
  ok (created_team team, db')

unfoldable pub team_members : User → Str → Str → Db → Handled
team_members user slug team_slug db = do
  (org, role) ← member_of db user.id slug
  team ← ok_or (find_team db org.id team_slug) not_found
  ok (members (list_team_members db team.id), db)

-- The role in the team is any text.
unfoldable pub add_team_member : User → Str → Str → Str → Str → Db → Handled
add_team_member user slug team_slug login role db = do
  (org, mine) ← admin_of db user.id slug
  team ← ok_or (find_team db org.id team_slug) not_found
  target ← ok_or (find_by_login db login) (bad_request (codes "no such user"))
  ok (done, Teams.add_team_member db team.id target.id role)

unfoldable pub remove_team_member : User → Str → Str → Str → Db → Handled
remove_team_member user slug team_slug user_id db = do
  (org, mine) ← admin_of db user.id slug
  team ← ok_or (find_team db org.id team_slug) not_found
  ok (done, Teams.remove_team_member db team.id user_id)

unfoldable pub show_team_perms : User → Str → Str → Db → Handled
show_team_perms user slug team_slug db = do
  (org, role) ← member_of db user.id slug
  team ← ok_or (find_team db org.id team_slug) not_found
  ok (team_perms (list_team_perms db team.id), db)

unfoldable pub set_team_perm : User → Str → Str → Str → Str → Db → Handled
set_team_perm user slug team_slug repo_name permission db = do
  (org, mine) ← admin_of db user.id slug
  team ← ok_or (find_team db org.id team_slug) not_found
  guard (is_some (Perm.parse permission)) (bad_request (codes "invalid permission"))
  repo ← ok_or (find_repo db org.id repo_name) (bad_request (codes "no such repository"))
  ok (done, set_team_repo_perm db team.id repo.id permission)
