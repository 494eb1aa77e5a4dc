-- ===== src/Tests/Dashboard.antt =====
-- The dashboard's handlers and the catalog at a small database.
use ruskery.Common.{
  ℕ, ◌≤◌, ◌≡◌, ◌≢◌, ◌↔◌, refl, Bool, true, false, Option, none, some, List, [], ◌∷◌, Str, codes, In,
  unwrap_or, str_eq, ◌&&◌, if◌then◌else◌, ◌⊎◌,
}
use ruskery.Common.Int.{pos}
use ruskery.Models.{User, TokenScope}
use ruskery.Models.Role.{OrgRole, admin, member, owner}
use ruskery.Models.Perm
use ruskery.Models.Perm.{full, push}
use ruskery.Error.{ok, err, database}
use ruskery.Db.{Db, Repository}
use ruskery.Db.Orgs.{repo_permission, org_role, has_parents, put_member}
use ruskery.Db.Orgs.Teams.{set_team_repo_perm}
use ruskery.Db.Orgs.Teams.Grants.{repo_permission-set_team_repo_perm}
use ruskery.Db.Orgs.Catalog.Visible.{IsVisible}
use ruskery.Db.Orgs.Memberships.Refinement.{
  Change, add, set, remove, apply_all, roles_of, steps, roles_of-apply_all,
}
use ruskery.Db.Users.{find_by_id, user_for_pat}
use ruskery.Auth.Token.{Claims, scope_claim_org}
use ruskery.Registry.Catalog.{visible_to}
use ruskery.Registry.Catalog.Scoped.{InScope, In-visible_to}
use ruskery.Api.{Shown, done, Handled, Env}
use ruskery.Api.Members.{set_role}
use ruskery.Api.Members.Roles.{set_role-org_role}
use ruskery.Api.Accounts.{create_token}
use ruskery.Api.Accounts.Tokens.{Confined, create_token-user_for_pat}
use ruskery.Api.Handle.{Call, create_org, handle}
use ruskery.Api.Handle.Checked.{Permitted}
use ruskery.Api.Handle.Checked.All.{handle-Permitted}
use ruskery.Tests.Access.{db, alice, acme}

abbrev env : Env
env = record {
  id = codes "n1";
  now = codes "t";
  public_url = [];
  hash_password = λ p. ok p;
  generated = (codes "rsk_x", codes "rsk", codes "hash");
}

abbrev outcome : Handled → Shown × Db
outcome (ok p) = p
outcome (err e) = (done, db)

abbrev new_org : Call
new_org = create_org (codes "labs") (codes "Labs")

handle-Permitted_example : Permitted alice db (outcome (handle env alice new_org db)).1
unfolding handle ruskery.Api.Orgs.create_org ruskery.Api.Guards.valid_slug str_eq
    ruskery.Common.starts_with ruskery.Common.strip_suffix ruskery.Db.Orgs.find_org_by_slug
    ruskery.Common.lower ruskery.Db.Orgs.create_org ruskery.Db.Orgs.add_org_member
handle-Permitted_example =
    handle-Permitted env alice new_org db (outcome (handle env alice new_org db)).1
      (outcome (handle env alice new_org db)).0 refl

repo_permission-set_team_repo_perm_example :
    (Perm.rank full
      ≤ Perm.rank (
          repo_permission
            (set_team_repo_perm db (codes "t1") (codes "r1") (codes "admin"))
            (codes "r1")
            (codes "o1")
            (codes "u1")))
    × ((other any_user : Str)
        → other ≢ codes "r1"
        → repo_permission
            (set_team_repo_perm db (codes "t1") (codes "r1") (codes "admin"))
            other
            (codes "o1")
            any_user
          ≡ repo_permission db other (codes "o1") any_user)
unfolding org_role str_eq ruskery.Models.Role.parse Perm.parse
repo_permission-set_team_repo_perm_example =
    repo_permission-set_team_repo_perm db (codes "t1") (codes "r1") (codes "admin") (codes "o1")
      (codes "u1") member full refl refl refl

abbrev claims : Claims
claims = record {
  sub = codes "u1";
  iss = codes "ruskery";
  aud = codes "reg";
  iat = pos 0;
  exp = pos 1;
  jti = codes "j";
  access = [];
  scope = scope_claim_org (codes "o1");
}

In-visible_to_example : In (codes "acme/app") (visible_to db claims) ↔ (
    (r : Repository) × InScope claims.scope.kind claims.scope.id r
    × IsVisible db (codes "u1") (codes "acme/app") r)
In-visible_to_example = In-visible_to db claims (codes "acme/app")

abbrev new_token : Handled
new_token =
    create_token env alice (codes "ci") (some (codes "acme")) (some (codes "app"))
      (some (codes "push")) db

create_token-user_for_pat_example :
    (found : User) × (reach : TokenScope) × (cap : Str) × (find_by_id db alice.id ≡ some found)
    × Confined db alice (some (codes "acme")) (some (codes "app")) reach
    × (cap ≡ codes "push")
    × ((user_for_pat (outcome new_token).1 (codes "t2") (codes "hash")).0
        ≡ some (found, reach, unwrap_or (Perm.parse cap) full))
unfolding create_token str_eq ruskery.Api.Guards.member_of ruskery.Db.Orgs.find_org_by_slug
    ruskery.Common.lower org_role ruskery.Models.Role.parse ruskery.Db.Orgs.find_repo
    ruskery.Db.Users.create_pat find_by_id
create_token-user_for_pat_example =
    create_token-user_for_pat env alice (codes "ci") (some (codes "acme")) (some (codes "app"))
      (some (codes "push")) db (outcome new_token).1 (outcome new_token).0 (codes "t2") refl

-- Alice as an admin.
abbrev run_by_alice : Db
run_by_alice = put_member db (codes "o1") (codes "u1") admin

set_role-org_role_example :
    ((has_parents run_by_alice (codes "o1") (codes "u1") ≡ false)
      × (set_role alice (codes "acme") (codes "u1") (codes "owner") run_by_alice ≡ err database))
    ⊎ ((has_parents run_by_alice (codes "o1") (codes "u1") ≡ true)
        × ((changed : Db) × (set_role alice (codes "acme") (codes "u1") (codes "owner") run_by_alice
              ≡ ok (done, changed))
            × ((other_org other : Str)
                → org_role changed other_org other ≡ (
                    if str_eq (codes "o1") other_org && str_eq (codes "u1") other
                    then some owner
                    else org_role run_by_alice other_org other))))
unfolding org_role str_eq put_member ruskery.Db.Orgs.find_org_by_slug ruskery.Common.lower
    ruskery.Models.Role.parse ruskery.Models.Role.as_str
set_role-org_role_example =
    set_role-org_role alice (codes "acme") (codes "u1") (codes "owner") run_by_alice acme admin
      owner refl refl refl refl

-- Alice becomes an admin and an owner, an unknown user is set, and Alice leaves.
abbrev changes : List Change
changes =
    add (codes "o1") (codes "u1") admin
    ∷ set (codes "o1") (codes "u1") owner
    ∷ set (codes "o1") (codes "u404") owner
    ∷ remove (codes "o1") (codes "u1")
    ∷ []

roles_of-apply_all_example :
    roles_of (apply_all db changes) ≡ steps (has_parents db) (roles_of db) changes
roles_of-apply_all_example = roles_of-apply_all db changes
