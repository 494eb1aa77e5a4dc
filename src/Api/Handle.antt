-- ===== src/Api/Handle.antt =====
-- The routes of src/api/mod.rs on organizations, users and tokens.
pub mod Checked
use ruskery.Common.{Bool, Option, none, some, Str}
use ruskery.Models.{User}
use ruskery.Db.{Db}
use ruskery.Api.{Handled, Env}
use ruskery.Api.Orgs
use ruskery.Api.Members
use ruskery.Api.Teams
use ruskery.Api.Accounts

pub data Call : Type 0 where
  list_users list_orgs list_all_orgs list_tokens : Call
  -- E-mail address, user name, password, and whether the user is an instance admin.
  create_user : Str → Str → Str → Bool → Call
  -- The organization's slug comes first from here on.
  create_org : Str → Str → Call
  get_org list_repos list_members list_teams list_audit : Str → Call
  create_repo get_repo delete_repo : Str → Str → Call
  add_member set_role : Str → Str → Str → Call
  remove_member : Str → Str → Call
  create_team : Str → Str → Str → Call
  team_members team_perms : Str → Str → Call
  add_team_member : Str → Str → Str → Str → Call
  remove_team_member : Str → Str → Str → Call
  set_team_perm : Str → Str → Str → Str → Call
  -- A token's name, then the organization, repository and permission that it is confined to.
  create_token : Str → Option Str → Option Str → Option Str → Call
  delete_token : Str → Call

unfoldable pub handle : Env → User → Call → Db → Handled
handle env user list_users db = Accounts.list_users user db
handle env user list_orgs db = Orgs.list_orgs user db
handle env user list_all_orgs db = Orgs.list_all_orgs user db
handle env user list_tokens db = Accounts.list_tokens user db
handle env user (create_user email username password is_admin) db =
    Accounts.create_user env user email username password is_admin db
handle env user (create_org slug name) db = Orgs.create_org env user slug name db
handle env user (get_org slug) db = Orgs.get_org user slug db
handle env user (list_repos slug) db = Orgs.list_repos user slug db
handle env user (list_members slug) db = Members.list_members user slug db
handle env user (list_teams slug) db = Teams.list_teams user slug db
handle env user (list_audit slug) db = Orgs.list_audit user slug db
handle env user (create_repo slug name) db = Orgs.create_repo env user slug name db
handle env user (get_repo slug name) db = Orgs.get_repo env user slug name db
handle env user (delete_repo slug name) db = Orgs.delete_repo env user slug name db
handle env user (add_member slug login role) db = Members.add_member env user slug login role db
handle env user (set_role slug user_id role) db = Members.set_role user slug user_id role db
handle env user (remove_member slug user_id) db = Members.remove_member env user slug user_id db
handle env user (create_team slug team name) db = Teams.create_team env user slug team name db
handle env user (team_members slug team) db = Teams.team_members user slug team db
handle env user (team_perms slug team) db = Teams.show_team_perms user slug team db
handle env user (add_team_member slug team login role) db =
    Teams.add_team_member user slug team login role db
handle env user (remove_team_member slug team user_id) db =
    Teams.remove_team_member user slug team user_id db
handle env user (set_team_perm slug team repo permission) db =
    Teams.set_team_perm user slug team repo permission db
handle env user (create_token name org repo permission) db =
    Accounts.create_token env user name org repo permission db
handle env user (delete_token id) db = Accounts.delete_token user id db
