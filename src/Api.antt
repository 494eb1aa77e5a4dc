-- ===== src/Api.antt =====
-- src/api/mod.rs: the dashboard's handlers on organizations, members, teams, repositories, users and
-- tokens. A handler that fails leaves the tables alone. What a response shows is a value; its JSON
-- text is left out.
pub mod Guards
pub mod Orgs
pub mod Members
pub mod Teams
pub mod Accounts
pub mod Handle
pub mod Signin
use ruskery.Common.{ℕ, Bool, Option, none, List, Str, codes}
use ruskery.Models.{User}
use ruskery.Models.Role.{OrgRole}
use ruskery.Error.{Result}
use ruskery.Db.{Db, Org, Repository, Team, AuditRow}
use ruskery.Db.Users.{PatRow}
use ruskery.Db.Orgs.Teams.{MemberRow, TeamPermRow}
use ruskery.Db.Orgs.Views.{OrgSummary, RepoSummary, TagDetail, OrgStats}

pub data Shown : Type 0 where
  done : Shown
  -- An organization with the caller's role and its counts.
  org_page : Org → OrgRole → OrgStats → Shown
  created_org : Org → Shown
  orgs : List (Org × OrgRole) → Shown
  all_orgs : List OrgSummary → Shown
  repos : List RepoSummary → Shown
  created_repo : Repository → Shown
  -- A repository with its tags and the prefix of the pull command.
  repo_page : Repository → List TagDetail → Str → Shown
  members : List MemberRow → Shown
  teams : List Team → Shown
  created_team : Team → Shown
  team_perms : List TeamPermRow → Shown
  entries : List AuditRow → Shown
  tokens : List PatRow → Shown
  users : List User → Shown
  created_user : User → Shown
  -- A token's text and its owner's name.
  token : Str → Str → Shown

abbrev pub Handled : Type 0
Handled = Result (Shown × Db)

-- Fresh identifiers, the clock, and the configuration and the other packages' functions.
pub record Env : Type 0 where
  pub id : Str
  pub now : Str
  pub public_url : Str
  pub hash_password : Str → Result Str
  -- `pat::generate()`: plaintext, prefix and hash.
  pub generated : Str × Str × Str
