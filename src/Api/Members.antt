-- ===== src/Api/Members.antt =====
-- The members of an organization in src/api/mod.rs.
pub mod Roles
use ruskery.Common.{Option, none, some, Str, codes}
use ruskery.Models.{User}
use ruskery.Models.Role
use ruskery.Error.{Error, bad_request, Result, ok, err, ◌>>=◌}
use ruskery.Db.{Db}
use ruskery.Db.Audit.{record_event}
use ruskery.Db.Orgs
use ruskery.Db.Orgs.{add_org_member, set_member_role}
use ruskery.Db.Orgs.Views
use ruskery.Db.Users.{find_by_login}
use ruskery.Api.{Shown, done, members, Handled, Env}
use ruskery.Api.Guards.{ok_or, member_of, admin_of}

unfoldable pub list_members : User → Str → Db → Handled
list_members user slug db = do
  (org, role) ← member_of db user.id slug
  ok (members (Views.list_members db org.id), db)

unfoldable pub add_member : Env → User → Str → Str → Str → Db → Handled
add_member env user slug login role_text db = do
  (org, mine) ← admin_of db user.id slug
  role ← ok_or (Role.parse role_text) (bad_request (codes "invalid role"))
  target ← ok_or (find_by_login db login) (bad_request (codes "no such user"))
  joined ← add_org_member db org.id target.id role
  ok (
    done,
    record_event joined env.now (some user.id) (some org.id) (codes "member.add")
        (some target.username) (some (Role.as_str role)),
  )

unfoldable pub set_role : User → Str → Str → Str → Db → Handled
set_role user slug user_id role_text db = do
  (org, mine) ← admin_of db user.id slug
  role ← ok_or (Role.parse role_text) (bad_request (codes "invalid role"))
  changed ← set_member_role db org.id user_id role
  ok (done, changed)

unfoldable pub remove_member : Env → User → Str → Str → Db → Handled
remove_member env user slug user_id db = do
  (org, mine) ← admin_of db user.id slug
  ok (
    done,
    record_event (Orgs.remove_member db org.id user_id) env.now (some user.id) (some org.id)
        (codes "member.remove") (some user_id) none,
  )
