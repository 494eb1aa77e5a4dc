-- ===== src/Api/Signin/Once.antt =====
-- Setup in src/api/mod.rs, from an empty database to a database with an admin.
use ruskery.Common.{
  ==_iff, ◌≡◌, ◌≢◌, refl, ◌∙◌, ap, subst, true, ◌==◌, Option, some, List, [], ◌∷◌, Str, codes,
  str_ltb, str_eq_refl, length, ltb, arith, Bool-cases, inl, inr,
}
use ruskery.Models.{User}
use ruskery.Models.Role.{owner}
use ruskery.Error.{Error, conflict, bad_request, Result, Result-cases, ok, err}
use ruskery.Db.{Db, Org}
use ruskery.Db.Orgs.{org_role, create_org, add_org_member, put_member}
use ruskery.Db.Orgs.Memberships.{org_role-put_member, add_org_member-ok}
use ruskery.Db.Settings
use ruskery.Db.Users.{count, find_by_id, create_first_admin, create_session, user_for_session}
use ruskery.Api.Guards.{valid_slug}
use ruskery.Api.Handle.Checked.{ok_injective}
use ruskery.Api.Signin.{Env, SetupReq, Created, signed_in, with_owner, founded, first_user, setup}
use ruskery.Api.Signin.Signed.{create_session_row, create_session-Opened}

-- What the answer of a setup that was completed promises: its user is the admin, owns the new
-- organization, and is signed in by the cookie.
pub record Completed (env : Env) (admin : User) (made : Created) (after : Db) : Type 0 where
  pub same : made.user ≡ admin
  pub owns : org_role after made.org.id admin.id ≡ some owner
  pub signed_in :
      (later : Str)
      → str_ltb later env.expires_at ≡ true
      → user_for_session after later made.cookie.value ≡ some admin

pub data Outcome (env : Env) (before : Db) (result : Result Created) (after : Db) : Type 0 where
  refused : (e : Error) → result ≡ err e → after ≡ before → Outcome env before result after
  begun :
      count before ≡ 0
      → (admin : User) → after.users ≡ admin ∷ []
      → admin.is_admin ≡ true
      → ((made : Created) → result ≡ ok made → Completed env admin made after)
      → Outcome env before result after

-- What is left to do once the admin is there.
module _ (env : Env) (before : Db) (admin : User) (empty : count before ≡ 0)
    (promoted : admin.is_admin ≡ true) where
  failed : (e : Error) (db : Db) → db.users ≡ admin ∷ [] → Outcome env before (err e) db
  failed e db users = begun empty admin users promoted (λ made h. absurd (ground (arith, h)))

  signed_in-Outcome :
      (org : Org) (db : Db) (r : Result (Str × Db))
      → db.users ≡ admin ∷ []
      → org_role db org.id admin.id ≡ some owner
      → create_session db env.session_id env.now env.expires_at admin.id ≡ r
      → Outcome env before (signed_in env admin org db r).0 (signed_in env admin org db r).1
  unfolding org_role find_by_id
  signed_in-Outcome org db (err e) users owns h = failed e db users
  signed_in-Outcome org db (ok (sid, db')) users owns h =
      let (o, owned, same) =
        create_session_row db env.session_id env.now env.expires_at admin.id (sid, db') h in
      let opened =
        create_session-Opened db env.session_id env.now env.expires_at admin.id (sid, db') h in
      let kept : db'.users ≡ db.users = ap (λ p. p.1.users) same in
      let members : db'.org_members ≡ db.org_members = ap (λ p. p.1.org_members) same in
      begun empty admin (kept ∙ users) promoted (λ made answer.
        subst (λ m. Completed env admin m db') (ok_injective _ answer)
          (record {
            same = refl;
            owns = rw (members) owns;
            signed_in = λ later soon.
                opened.found later sid
                ∙ ground (arith, str_eq_refl sid, soon, opened.owned, users, str_eq_refl admin.id);
          }))

  with_owner-Outcome :
      (org : Org) (db : Db) (r : Result Db)
      → db.users ≡ admin ∷ []
      → add_org_member db org.id admin.id owner ≡ r
      → Outcome env before (with_owner env admin org db r).0 (with_owner env admin org db r).1
  unfolding Settings.set org_role put_member
  with_owner-Outcome org db (err e) users h = failed e db users
  with_owner-Outcome org db (ok joined) users h =
      let same = (add_org_member-ok db org.id admin.id owner joined h).1 in
      signed_in-Outcome org (Settings.set joined (codes "setup_complete") (codes "1")) _
        (ap (λ d. d.users) same ∙ users)
        (ap (λ d. org_role d org.id admin.id) same
          ∙ (org_role-put_member db org.id admin.id owner org.id admin.id
              ∙ ground (arith, str_eq_refl org.id, str_eq_refl admin.id)))
        refl

  founded-Outcome :
      (db : Db) (r : Result (Org × Db)) (name slug : Str)
      → db.users ≡ admin ∷ []
      → create_org db env.org_id env.now slug name ≡ r
      → Outcome env before (founded env admin db r).0 (founded env admin db r).1
  unfolding create_org
  founded-Outcome db (err e) name slug users h = failed e db users
  founded-Outcome db (ok (org, db')) name slug users h =
      let kept : db'.users ≡ db.users = ground (arith, h) in
      with_owner-Outcome org db' _ (kept ∙ users) refl

  first_user-Outcome :
      (req : SetupReq) (made : Option User × Db) (db : Db)
      → made ≡ (some admin, db)
      → db.users ≡ admin ∷ []
      → Outcome env before (first_user env req made).0 (first_user env req made).1
  first_user-Outcome req made db h users =
      rw (h) (founded-Outcome db _ req.org_name req.org_slug users refl)

no_users : (us : List User) → (length us == 0) ≡ true → us ≡ []
no_users [] h = refl
no_users (u ∷ us) h = absurd (ground (arith, h))

refusal :
    (env : Env) (before : Db) (e : Error) (answer : Result Created × Db)
    → answer ≡ (err e, before)
    → Outcome env before answer.0 answer.1
refusal env before e answer h = refused e (ap (λ p. p.0) h) (ap (λ p. p.1) h)

-- A setup is refused and changes nothing, or there was no account: then the only account afterwards
-- is an admin, also if the setup fails, and if it succeeds the admin owns the new organization and
-- is signed in by the cookie. Once there is an account, every setup is refused.
pub setup-Once :
    (env : Env) (req : SetupReq) (db : Db)
    → Outcome env db (setup env req db).0 (setup env req db).1
      × (count db ≢ 0 → setup env req db ≡ (err (conflict (codes "setup already completed")), db))
unfolding setup count create_first_admin
setup-Once env req db = (
  elim (Bool-cases (count db == 0)) [
    | inr f ↦
        refusal env db (conflict (codes "setup already completed")) (setup env req db)
          (rw (setup, count, f) refl)
    | inl t ↦ elim (Bool-cases (valid_slug req.org_slug)) [
      | inr f ↦
          refusal env db (bad_request (codes "invalid org slug")) (setup env req db)
            (rw (setup, count, t, f) refl)
      | inl valid ↦ elim (Bool-cases (ltb (length req.password) 8)) [
        | inl short ↦
            refusal env db (bad_request (codes "password must be at least 8 characters"))
              (setup env req db) (rw (setup, count, t, valid, short) refl)
        | inr long ↦ elim (Result-cases (env.hash_password req.password)) [
          | inr (e, f) ↦
              refusal env db e (setup env req db) (rw (setup, count, t, valid, long, f) refl)
          | inl (hash, f) ↦
              let admin : User = record {
                id = env.user_id;
                email = req.email;
                username = req.username;
                password_hash = hash;
                is_admin = true;
                created_at = env.now;
              } in
              rw (setup, count, t, valid, long, f)
                (first_user-Outcome env db admin ((==_iff (count db) 0).0 t) refl req
                  (create_first_admin db env.user_id env.now req.email req.username hash)
                  (record db { users = admin ∷ [] })
                  (rw (create_first_admin, no_users db.users t) refl) refl)
        ]
      ]
    ]
  ],
  λ h. elim (Bool-cases (count db == 0)) [
    | inl t ↦ absurd (h ((==_iff (count db) 0).0 t))
    | inr f ↦ rw (setup, count, f) refl
  ],
)
