-- ===== src/Api/Signin/Signed.antt =====
-- A session from sign-in to sign-out (src/api/mod.rs).
use ruskery.Common.{
  ◌≡◌, refl, subst, if◌then◌else◌, ◌∙◌, ap, Bool, true, not, ◌&&◌, Option, none, some, List, [],
  ◌∷◌, Str, str_eq, str_eq_iff, str_eq_refl, str_ltb, arith, any, filter, find_row, Option-cases,
  Bool-cases, inl, inr,
}
use ruskery.Models.{User}
use ruskery.Error.{unauthorized, ok, err, >>=-ok}
use ruskery.Db.{Db, Session}
use ruskery.Db.Users.{find_by_id, find_by_login, create_session, user_for_session, delete_session}
use ruskery.Auth.Session.{Cookie, build_cookie}
use ruskery.Api.Guards.{ok_or}
use ruskery.Api.Handle.Checked.{ok_injective, ok_or-ok}
use ruskery.Api.Signin.{Env, verified, login, logout, session_user}

abbrev session_row : Str → Str → List Session → Option Session
session_row now sid = find_row (λ (s : Session). str_eq s.id sid && str_ltb now s.expires_at)

verified-login :
    (env : Env) (name password : Str) (db : Db) (user : User)
    → verified env name password db ≡ some user
    → (find_by_login db name ≡ some user) × (env.verify_password password user.password_hash ≡ true)
unfolding verified
verified-login env name password db user h = elim (Option-cases (find_by_login db name)) [
  | inl n ↦ absurd (ground (arith, h, n))
  | inr (u, e) ↦ elim (Bool-cases (env.verify_password password u.password_hash)) [
    | inr f ↦ absurd (ground (arith, h, e, f))
    | inl t ↦
        let same : u ≡ user = ground (arith, h, e, t) in
        (e ∙ ap some same, subst (λ x. env.verify_password password x.password_hash ≡ true) same t)
  ]
]

-- A row that was created, and its owner.
pub create_session_row :
    (db : Db) (id now expires_at user_id : Str) (made : Str × Db)
    → create_session db id now expires_at user_id ≡ ok made
    → (owner : User) × (find_by_id db user_id ≡ some owner)
      × (made ≡ (
        id,
        record db {
          sessions =
              record { id = id; user_id = user_id; created_at = now; expires_at = expires_at }
              ∷ db.sessions;
        },
      ))
unfolding create_session
create_session_row db id now expires_at user_id made h =
    elim (Bool-cases (any (λ (s : Session). str_eq s.id id) db.sessions)) [
      | inl t ↦ absurd (ground (arith, h, t))
      | inr t ↦ elim (Option-cases (find_by_id db user_id)) [
        | inl n ↦ absurd (ground (arith, h, t, n))
        | inr (owner, e) ↦ (owner, e, ground (arith, h, t, e))
      ]
    ]

session_row-deleted :
    (now sid other : Str) (ss : List Session)
    → session_row now other (filter (λ s. not (str_eq s.id sid)) ss)
      ≡ (if str_eq sid other then none else session_row now other ss)
session_row-deleted now sid other [] = ground arith
session_row-deleted now sid other (s ∷ ss) = ground (
  arith,
  session_row-deleted now sid other ss,
  str_eq_iff s.id sid,
  str_eq_iff s.id other,
  str_eq_iff sid other,
)

-- Signing out ends the session that the cookie names, and no other.
pub user_for_session-logout :
    (secure : Bool) (db : Db) (now sid other : Str)
    → user_for_session (logout secure (some sid) db).1 now other
      ≡ (if str_eq sid other then none else user_for_session db now other)
unfolding logout delete_session user_for_session find_by_id
user_for_session-logout secure db now sid other =
    rw (session_row-deleted now sid other db.sessions) (ground arith)

-- A session under a fresh identifier.
pub record Opened (db db' : Db) (sid user_id expires_at : Str) : Type 0 where
  pub owner : User
  pub owned : find_by_id db user_id ≡ some owner
  pub found :
      (later other : Str)
      → user_for_session db' later other ≡ (
          if str_eq sid other && str_ltb later expires_at
          then some owner
          else user_for_session db later other)

pub create_session-Opened :
    (db : Db) (id now expires_at user_id : Str) (made : Str × Db)
    → create_session db id now expires_at user_id ≡ ok made
    → Opened db made.1 made.0 user_id expires_at
unfolding user_for_session find_by_id
create_session-Opened db id now expires_at user_id made h =
    let (owner, e, same) = create_session_row db id now expires_at user_id made h in
    rw (same) (record { owner = owner; owned = e; found = λ later other. ground (arith, e) })

-- Who has signed in, and what the cookie stands for.
pub record Signed (env : Env) (name password : Str) (db db' : Db) (cookie : Cookie) (user : User)
    : Type 0 where
  pub named : find_by_login db name ≡ some user
  pub proved : env.verify_password password user.password_hash ≡ true
  pub owner : User
  pub owned : find_by_id db user.id ≡ some owner
  pub found :
      (later other : Str)
      → user_for_session db' later other ≡ (
          if str_eq cookie.value other && str_ltb later env.expires_at
          then some owner
          else user_for_session db later other)
  pub ended :
      (later : Str) (secure : Bool)
      → session_user later (some cookie.value) (logout secure (some cookie.value) db').1
        ≡ err unauthorized

-- Who signs in has given the password of the account that the login names. The cookie then stands
-- for the owner of that account's identifier until it expires, every other cookie for whom it stood
-- before, and after a sign-out the cookie stands for nobody.
pub login-Signed :
    (env : Env) (name password : Str) (db db' : Db) (cookie : Cookie) (user : User)
    → login env name password db ≡ ok ((cookie, user), db')
    → Signed env name password db db' cookie user
unfolding login session_user
login-Signed env name password db db' cookie user h =
    let (u, v, k) = >>=-ok (ok_or (verified env name password db) unauthorized) _ _ h in
    let (made, c, k') =
      >>=-ok (create_session db env.session_id env.now env.expires_at u.id) _ _ k in
    let opened = create_session-Opened db env.session_id env.now env.expires_at u.id made c in
    let (e, t) = verified-login env name password db u (ok_or-ok _ _ u v) in
    subst (λ p. Signed env name password db p.1 p.0.0 p.0.1)
      (ok_injective ((build_cookie made.0 env.session_ttl_secs env.cookie_secure, u), made.1) k')
      (record {
        named = e;
        proved = t;
        owner = opened.owner;
        owned = opened.owned;
        found = opened.found;
        ended = λ later secure.
            rw (user_for_session-logout secure made.1 later made.0 made.0, str_eq_refl made.0) refl;
      })
