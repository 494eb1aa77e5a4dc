-- ===== src/Api/Signin.antt =====
-- Setup, sign-in and sign-out of the dashboard in src/api/mod.rs, and the user of a session in
-- src/auth/mod.rs. A request gives the value of its session cookie, if it has one.
pub mod Once
pub mod Signed
use ruskery.Common.{
  ℕ, Bool, not, Option, none, some, List, Str, codes, length, ltb, ◌==◌, if◌then◌else◌, filter,
}
use ruskery.Common.Int.{ℤ}
use ruskery.Models.{User}
use ruskery.Models.Role.{OrgRole, owner}
use ruskery.Error.{unauthorized, bad_request, conflict, Result, ok, err, ◌>>=◌}
use ruskery.Db.{Db, Org}
use ruskery.Db.Orgs.{create_org, add_org_member}
use ruskery.Db.Orgs.Views.{orgs_for_user}
use ruskery.Db.Settings
use ruskery.Db.Users.{
  count, find_by_login, create_first_admin, create_session, user_for_session, delete_session,
}
use ruskery.Auth.Session.{Cookie, build_cookie, clear_cookie}
use ruskery.Api.Guards.{ok_or, valid_slug}

-- Fresh identifiers, the clock, the configuration, and Argon2.
pub record Env : Type 0 where
  pub user_id : Str
  pub org_id : Str
  pub session_id : Str
  pub now : Str
  -- `rfc3339_in(session_ttl_secs)`
  pub expires_at : Str
  pub session_ttl_secs : ℤ
  pub cookie_secure : Bool
  pub hash_password : Str → Result Str
  pub verify_password : Str → Str → Bool

pub record SetupReq : Type 0 where
  pub email : Str
  pub username : Str
  pub password : Str
  pub org_slug : Str
  pub org_name : Str

pub record Created : Type 0 where
  pub cookie : Cookie
  pub user : User
  pub org : Org

unfoldable pub setup_status : Db → Bool
setup_status db = count db == 0

-- The cookie of the first user's session.
abbrev pub signed_in : Env → User → Org → Db → Result (Str × Db) → Result Created × Db
signed_in env user org db (err e) = (err e, db)
signed_in env user org db (ok (sid, db')) = (
  ok (record {
    cookie = build_cookie sid env.session_ttl_secs env.cookie_secure;
    user = user;
    org = org;
  }),
  db',
)

-- The user is the owner of the first organization.
abbrev pub with_owner : Env → User → Org → Db → Result Db → Result Created × Db
with_owner env user org db (err e) = (err e, db)
with_owner env user org db (ok joined) =
    let ready = Settings.set joined (codes "setup_complete") (codes "1") in
    signed_in env user org ready
      (create_session ready env.session_id env.now env.expires_at user.id)

abbrev pub founded : Env → User → Db → Result (Org × Db) → Result Created × Db
founded env user db (err e) = (err e, db)
founded env user db (ok (org, db')) =
    with_owner env user org db' (add_org_member db' org.id user.id owner)

abbrev pub first_user : Env → SetupReq → Option User × Db → Result Created × Db
first_user env req (none, db) = (err (conflict (codes "setup already completed")), db)
first_user env req (some user, db) =
    founded env user db (create_org db env.org_id env.now req.org_slug req.org_name)

-- A setup that fails halfway keeps what it has written.
unfoldable pub setup : Env → SetupReq → Db → Result Created × Db
setup env req db =
    if not (count db == 0)
    then (err (conflict (codes "setup already completed")), db)
    else if not (valid_slug req.org_slug)
    then (err (bad_request (codes "invalid org slug")), db)
    else if ltb (length req.password) 8
    then (err (bad_request (codes "password must be at least 8 characters")), db)
    else elim (env.hash_password req.password) [
      | err e ↦ (err e, db)
      | ok hash ↦
          first_user env req (create_first_admin db env.user_id env.now req.email req.username hash)
    ]

abbrev if_verified : Bool → User → Option User
if_verified b u = if b then some u else none

-- `find_by_login(…).filter(verify_password)`
unfoldable pub verified : Env → Str → Str → Db → Option User
verified env login password db = elim (find_by_login db login) [
  | none ↦ none
  | some u ↦ if_verified (env.verify_password password u.password_hash) u
]

unfoldable pub login : Env → Str → Str → Db → Result ((Cookie × User) × Db)
login env name password db = do
  user ← ok_or (verified env name password db) unauthorized
  (sid, db') ← create_session db env.session_id env.now env.expires_at user.id
  ok ((build_cookie sid env.session_ttl_secs env.cookie_secure, user), db')

unfoldable pub logout : Bool → Option Str → Db → Cookie × Db
logout cookie_secure none db = (clear_cookie cookie_secure, db)
logout cookie_secure (some sid) db = (clear_cookie cookie_secure, delete_session db sid)

-- `SessionUser`: whom a request of the dashboard comes from.
unfoldable pub session_user : Str → Option Str → Db → Result User
session_user now jar db = do
  sid ← ok_or jar unauthorized
  ok_or (user_for_session db now sid) unauthorized

unfoldable pub me : User → Db → User × List (Org × OrgRole)
me user db = (user, orgs_for_user db user.id)
