-- ===== src/Api/Handle/Checked.antt =====
-- Who may change what through src/api/mod.rs.
pub mod Steps
pub mod All
use ruskery.Common.{
  ◌≡◌, ◌≢◌, refl, sym, ◌∙◌, ap, Bool, true, false, not, Option, none, some, List, [], ◌∷◌, Str,
  codes, str_eq, arith, inl, inr, ◌⊎◌, Option-cases, Bool-cases, is_some, ◌↔◌, In, and_then,
  find_row,
}
use ruskery.Models.{User}
use ruskery.Models.Role
use ruskery.Models.Role.{OrgRole, admin, owner}
use ruskery.Error.{
  Error, Result, ok, err, guard, ◌>>=◌, ◌>>◌, >>=-ok, >>-ok, guard-ok, Result-cases,
}
use ruskery.Db.{Db, Org, AccessToken, OrgMember}
use ruskery.Db.Orgs.{find_org_by_slug, org_role, is_member_row}
use ruskery.Db.Orgs.Outside.{outside}
use ruskery.Api.{Shown, done, Handled, Env}
use ruskery.Api.Guards.{ok_or, member_of, admin_of}
use ruskery.Api.Orgs.{create_repo}

pub ok_injective {ℓ} : {A : Type ℓ} {b : A} (a : A) → ok a ≡ ok b → a ≡ b
ok_injective a h = ap (λ r. elim r [ ok x ↦ x | err _ ↦ a ]) h

pub ok_or-ok {ℓ} : {A : Type ℓ} (o : Option A) (e : Error) (a : A) → ok_or o e ≡ ok a → o ≡ some a
ok_or-ok none e a h = absurd (ground arith)
ok_or-ok (some b) e a h = ap some (ok_injective b h)

-- The user is an admin or owner of the organization under a slug.
pub record IsAdmin (db : Db) (user : User) (slug : Str) (org : Org) : Type 0 where
  pub role : OrgRole
  pub stands : find_org_by_slug db slug ≡ some org
  pub has_role : org_role db org.id user.id ≡ some role
  pub enough : Role.ge role admin ≡ true

pub admin_of-IsAdmin :
    (db : Db) (user : User) (slug : Str) (found : Org × OrgRole)
    → admin_of db user.id slug ≡ ok found
    → IsAdmin db user slug found.0
unfolding admin_of member_of
admin_of-IsAdmin db user slug found h = elim (Option-cases (find_org_by_slug db slug)) [
  | inl n ↦ absurd (ground (arith, h, n))
  | inr (o, e) ↦ elim (Option-cases (org_role db o.id user.id)) [
    | inl n ↦ absurd (ground (arith, h, e, n))
    | inr (r, q) ↦ elim (Bool-cases (Role.ge r admin)) [
      | inr low ↦ absurd (ground (arith, h, e, q, low))
      | inl high ↦
          let same : found ≡ (o, r) = ground (arith, h, e, q, high) in
          rw (ap (λ p. p.0) same) (record { role = r; stands = e; has_role = q; enough = high })
    ]
  ]
]

abbrev pub role_from : List OrgMember → Str → Str → Option OrgRole
role_from ms org_id user_id =
    and_then (find_row (is_member_row org_id user_id) ms) (λ m. Role.parse m.role)

-- What stays when something of one organization changes: every row of every table that is not the
-- organization's own or of one of its repositories or teams, and with it the accounts, the
-- organizations, and every role in another organization.
pub record Elsewhere (org_id : Str) (before after : Db) : Type 0 where
  pub users : after.users ≡ before.users
  pub orgs : after.orgs ≡ before.orgs
  pub roles :
      (other_org other : Str)
      → org_id ≢ other_org
      → org_role after other_org other ≡ org_role before other_org other
  pub rest : outside before org_id after ≡ outside before org_id before

-- What a call may have changed.
pub data Permitted (user : User) (before after : Db) : Type 0 where
  unchanged : after ≡ before → Permitted user before after
  -- Something of an organization that the user is an admin of, and nothing else.
  by_admin :
      (slug : Str) (org : Org)
      → IsAdmin before user slug org
      → Elsewhere org.id before after
      → Permitted user before after
  -- A new account, by an instance admin.
  by_instance_admin :
      user.is_admin ≡ true
      → (created : User) → after ≡ record before { users = created ∷ before.users }
      → Permitted user before after
  -- A new organization, whose owner is the user.
  founded :
      (org : Org)
      → find_org_by_slug before org.slug ≡ none
      → after.orgs ≡ org ∷ before.orgs
      → org_role after org.id user.id ≡ some owner
      → ((other_org other : Str)
          → org.id ≢ other_org
          → org_role after other_org other ≡ org_role before other_org other)
      → record after { orgs = before.orgs; org_members = before.org_members } ≡ before
      → Permitted user before after
  -- Tokens of the user.
  own_tokens :
      record after { access_tokens = before.access_tokens } ≡ before
      → ((t : AccessToken)
          → t.user_id ≢ user.id
          → In t after.access_tokens ↔ In t before.access_tokens)
      → Permitted user before after

abbrev finished : Shown → Db → Handled
finished v db = ok (v, db)

-- The tables after a handler that ends with `ok`.
pub after_ok :
    (changed db' : Db) (v w : Shown) → finished v changed ≡ finished w db' → db' ≡ changed
after_ok changed db' v w h = sym (ap (λ p. p.1) (ok_injective {b = (w, db')} (v, changed) h))

pub Elsewhere-same_members :
    (org_id : Str) (before after : Db)
    → after.users ≡ before.users
    → after.orgs ≡ before.orgs
    → after.org_members ≡ before.org_members
    → outside before org_id after ≡ outside before org_id before
    → Elsewhere org_id before after
unfolding org_role
Elsewhere-same_members org_id before after u o m rest = record {
  rest = rest;
  users = u;
  orgs = o;
  roles = λ other_org other h. ap (λ ms. role_from ms other_org other) m;
}
