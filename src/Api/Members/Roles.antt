-- ===== src/Api/Members/Roles.antt =====
-- Roles that are given through src/api/mod.rs.
use ruskery.Common.{
  ◌≡◌, ◌⊎◌, inl, inr, refl, true, false, ◌&&◌, some, Str, str_eq, if◌then◌else◌, Bool-cases,
}
use ruskery.Models.{User}
use ruskery.Models.Role
use ruskery.Models.Role.{OrgRole, admin}
use ruskery.Error.{ok, err, database}
use ruskery.Db.{Db, Org}
use ruskery.Db.Orgs.{
  find_org_by_slug, org_role, put_member, has_parents, add_org_member, set_member_role,
}
use ruskery.Db.Orgs.Memberships.{org_role-put_member}
use ruskery.Api.{done}
use ruskery.Api.Guards.{member_of, admin_of}
use ruskery.Api.Members.{set_role}

-- An admin who sets a role, their own or an owner's included, is obeyed: if there is an account
-- under the identifier it has that role afterwards, and every other role is as before; if there is
-- none, the answer is a database error.
pub set_role-org_role :
    (user : User) (slug user_id role_text : Str) (db : Db) (org : Org) (mine role : OrgRole)
    → find_org_by_slug db slug ≡ some org
    → org_role db org.id user.id ≡ some mine
    → Role.ge mine admin ≡ true
    → Role.parse role_text ≡ some role
    → ((has_parents db org.id user_id ≡ false)
        × (set_role user slug user_id role_text db ≡ err database))
      ⊎ ((has_parents db org.id user_id ≡ true)
          × ((changed : Db) × (set_role user slug user_id role_text db ≡ ok (done, changed))
              × ((other_org other : Str)
                  → org_role changed other_org other ≡ (
                      if str_eq org.id other_org && str_eq user_id other
                      then some role
                      else org_role db other_org other))))
unfolding set_role admin_of member_of set_member_role add_org_member
set_role-org_role user slug user_id role_text db org mine role stands has_role enough parsed =
    elim (Bool-cases (has_parents db org.id user_id)) [
      | inr f ↦ inl (
        f,
        rw
            (
              set_role, admin_of, member_of, stands, has_role, enough, parsed, set_member_role,
              add_org_member, f,
            )
            refl,
      )
      | inl t ↦ inr (
        t,
        (
          put_member db org.id user_id role,
          rw
              (
                set_role, admin_of, member_of, stands, has_role, enough, parsed, set_member_role,
                add_org_member, t,
              )
              refl,
          org_role-put_member db org.id user_id role,
        ),
      )
    ]
