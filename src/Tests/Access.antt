-- ===== src/Tests/Access.antt =====
-- Who may do what, at a small database.
use ruskery.Common.{
  ◌≡◌, ◌≢◌, ◌↔◌, refl, Bool, true, false, Option, none, some, List, [], ◌∷◌, Str, codes, In, inl,
  ◌⊎◌,
}
use ruskery.Common.Int.{pos}
use ruskery.Models.{User, all}
use ruskery.Models.Perm.{full}
use ruskery.Db.{Db, Org, Repository}
use ruskery.Db.Orgs.{repo_permission, find_org_by_slug, org_role}
use ruskery.Db.Orgs.Permissions.{IsPermission, repo_permission-IsPermission}
use ruskery.Auth.Token.{grants}
use ruskery.Auth.Rbac.{grant_repository}
use ruskery.Auth.Rbac.Grants.{Grant, grant_repository-Grant, grant_repository_outsider}
use ruskery.Registry.Endpoint.{Moment, claims_for}
use ruskery.Registry.Endpoint.Issue.{Asked, claims_for-Asked}

abbrev pub alice : User
alice = record {
  id = codes "u1";
  email = codes "a@x";
  username = codes "alice";
  password_hash = codes "h";
  is_admin = false;
  created_at = codes "t";
}

abbrev pub acme : Org
acme = record {
  id = codes "o1";
  slug = codes "acme";
  name = codes "Acme";
  created_at = codes "t";
  storage_quota_bytes = none;
  upstream_url = none;
  upstream_username = none;
  upstream_password = none;
}

abbrev app : Repository
app = record {
  id = codes "r1";
  org_id = codes "o1";
  name = codes "app";
  created_at = codes "t";
  updated_at = codes "t";
}

-- Alice is a member of the organization, and of a team that may push to its one repository.
abbrev pub db : Db
db = record {
  users = alice ∷ [];
  sessions = [];
  access_tokens = [];
  orgs = acme ∷ [];
  org_members = (record { org_id = codes "o1"; user_id = codes "u1"; role = codes "member" }) ∷ [];
  repositories = app ∷ [];
  teams = [];
  team_members =
      (record { team_id = codes "t1"; user_id = codes "u1"; role = codes "member" }) ∷ [];
  team_repo_perms =
      (record { team_id = codes "t1"; repo_id = codes "r1"; permission = codes "push" }) ∷ [];
  blobs = [];
  manifests = [];
  manifest_blobs = [];
  manifest_manifests = [];
  manifest_referrers = [];
  tags = [];
  image_pulls = [];
  audit_log = [];
  settings = [];
}

repo_permission-IsPermission_example :
    IsPermission db
      (codes "r1")
      (codes "o1")
      (codes "u1")
      (repo_permission db (codes "r1") (codes "o1") (codes "u1"))
repo_permission-IsPermission_example =
    repo_permission-IsPermission db (codes "r1") (codes "o1") (codes "u1")

grant_repository-Grant_example :
    In (codes "push") (
      grant_repository db
        (codes "u1")
        (codes "acme/app")
        (codes "pull" ∷ codes "push" ∷ [])
        all
        full)
    ↔ (In (codes "push") (codes "pull" ∷ codes "push" ∷ [])
        × Grant db (codes "u1") (codes "acme/app") all full (codes "push"))
grant_repository-Grant_example =
    grant_repository-Grant db (codes "u1") (codes "acme/app") (codes "pull" ∷ codes "push" ∷ []) all
      full (codes "push")

grant_repository_outsider_example :
    In
      (codes "pull")
      (grant_repository db (codes "u2") (codes "acme/app") (codes "pull" ∷ []) all full)
    → ⊥
unfolding find_org_by_slug org_role ruskery.Common.split_once ruskery.Common.str_eq
    ruskery.Common.lower
grant_repository_outsider_example =
    grant_repository_outsider db (codes "u2") (codes "acme/app") (codes "pull" ∷ []) all full
      (codes "pull") (codes "acme") (codes "app") acme refl refl refl

abbrev at : Moment
at = record { now = codes "2026-01-01T00:00:00Z"; unix = pos 0; jti = codes "j" }

claims_for-Asked_example :
    (grants
        (claims_for at db alice all full
          (codes "svc")
          (codes "scope=repository:acme/app:pull,push")
          (pos 300))
        (codes "acme/app")
        (codes "push")
      ≡ true)
    ↔ Asked db alice all full
        (codes "scope=repository:acme/app:pull,push")
        (codes "acme/app")
        (codes "push")
claims_for-Asked_example =
    claims_for-Asked at db alice all full (codes "svc")
      (codes "scope=repository:acme/app:pull,push") (pos 300) (codes "acme/app") (codes "push")
