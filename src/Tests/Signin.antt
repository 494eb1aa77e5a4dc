-- ===== src/Tests/Signin.antt =====
-- Setup and sign-in at an empty database and at a small one.
use ruskery.Common.{
  ◌≡◌, ◌≢◌, refl, Bool, true, Option, none, some, List, [], ◌∷◌, Str, codes, str_eq,
}
use ruskery.Common.Int.{pos}
use ruskery.Models.{User}
use ruskery.Error.{conflict, Result, ok, err}
use ruskery.Db.{Db}
use ruskery.Db.Users.{count}
use ruskery.Auth.Session.{Cookie, clear_cookie}
use ruskery.Api.Signin.{Env, SetupReq, Created, setup, login}
use ruskery.Api.Signin.Once.{Outcome, setup-Once}
use ruskery.Api.Signin.Signed.{Signed, login-Signed}

abbrev env : Env
env = record {
  user_id = codes "u1";
  org_id = codes "o1";
  session_id = codes "s1";
  now = codes "t1";
  expires_at = codes "t3";
  session_ttl_secs = pos 60;
  cookie_secure = true;
  hash_password = λ p. ok p;
  verify_password = str_eq;
}

abbrev req : SetupReq
req = record {
  email = codes "a@b.c";
  username = codes "alice";
  password = codes "password";
  org_slug = codes "acme";
  org_name = codes "Acme";
}

abbrev empty : Db
empty = record {
  users = [];
  sessions = [];
  access_tokens = [];
  orgs = [];
  org_members = [];
  repositories = [];
  teams = [];
  team_members = [];
  team_repo_perms = [];
  blobs = [];
  manifests = [];
  manifest_blobs = [];
  manifest_manifests = [];
  manifest_referrers = [];
  tags = [];
  image_pulls = [];
  audit_log = [];
  settings = [];
}

setup-Once_example :
    Outcome env empty (setup env req empty).0 (setup env req empty).1
    × (count empty ≢ 0
        → setup env req empty ≡ (err (conflict (codes "setup already completed")), empty))
setup-Once_example = setup-Once env req empty

abbrev ready : Db
ready = (setup env req empty).1

abbrev again : Env
again = record env { session_id = codes "s2" }

abbrev nobody : (Cookie × User) × Db
nobody = (
  (
    clear_cookie true,
    record {
      id = [];
      email = [];
      username = [];
      password_hash = [];
      is_admin = true;
      created_at = [];
    },
  ),
  empty,
)

abbrev outcome : Result ((Cookie × User) × Db) → (Cookie × User) × Db
outcome (ok p) = p
outcome (err e) = nobody

abbrev signed : (Cookie × User) × Db
signed = outcome (login again (codes "ALICE") (codes "password") ready)

login-Signed_example :
    Signed again (codes "ALICE") (codes "password") ready signed.1 signed.0.0 signed.0.1
unfolding login setup ruskery.Api.Signin.verified ruskery.Db.Users.find_by_login count
    ruskery.Api.Guards.valid_slug str_eq ruskery.Common.starts_with ruskery.Common.strip_suffix
    ruskery.Db.Users.create_first_admin ruskery.Db.Orgs.create_org ruskery.Db.Users.create_session
    ruskery.Db.Settings.set ruskery.Db.Orgs.add_org_member ruskery.Db.Users.find_by_id
    ruskery.Common.lower
login-Signed_example =
    login-Signed again (codes "ALICE") (codes "password") ready signed.1 signed.0.0 signed.0.1 refl
