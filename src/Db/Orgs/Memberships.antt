-- ===== src/Db/Orgs/Memberships.antt =====
-- The role of a user after members were added and removed (src/db/orgs.rs).
pub mod Refinement
use ruskery.Common.{
  ◌≡◌, true, not, ◌&&◌, Option, Bool-cases, inl, inr, none, some, List, [], ◌∷◌, Str, str_eq,
  str_eq_iff, arith, filter, find_row, and_then, if◌then◌else◌,
}
use ruskery.Models.Role
use ruskery.Models.Role.{OrgRole, parse-as_str}
use ruskery.Db.{Db, OrgMember}
use ruskery.Error.{Result, ok, err, database}
use ruskery.Db.Orgs.{
  is_member_row, upsert_member, put_member, has_parents, add_org_member, remove_member, org_role,
}

role_in : List OrgMember → Str → Str → Option OrgRole
role_in ms org_id user_id =
    and_then (find_row (is_member_row org_id user_id) ms) (λ m. Role.parse m.role)

role_in-upsert_member :
    (org_id user_id : Str) (role : OrgRole) (ms : List OrgMember) (other_org other : Str)
    → role_in (upsert_member org_id user_id (Role.as_str role) ms) other_org other ≡ (
        if str_eq org_id other_org && str_eq user_id other
        then some role
        else role_in ms other_org other)
unfolding role_in upsert_member
role_in-upsert_member org_id user_id role [] other_org other = ground (arith, parse-as_str role)
role_in-upsert_member org_id user_id role (m ∷ ms) other_org other = ground (
  arith,
  parse-as_str role,
  role_in-upsert_member org_id user_id role ms other_org other,
  str_eq_iff m.org_id org_id,
  str_eq_iff m.user_id user_id,
  str_eq_iff m.org_id other_org,
  str_eq_iff m.user_id other,
  str_eq_iff org_id other_org,
  str_eq_iff user_id other,
)

role_in-filter :
    (org_id user_id : Str) (ms : List OrgMember) (other_org other : Str)
    → role_in (filter (λ m. not (is_member_row org_id user_id m)) ms) other_org other ≡ (
        if str_eq org_id other_org && str_eq user_id other
        then none
        else role_in ms other_org other)
unfolding role_in
role_in-filter org_id user_id [] other_org other = ground arith
role_in-filter org_id user_id (m ∷ ms) other_org other = ground (
  arith,
  role_in-filter org_id user_id ms other_org other,
  str_eq_iff m.org_id org_id,
  str_eq_iff m.user_id user_id,
  str_eq_iff m.org_id other_org,
  str_eq_iff m.user_id other,
  str_eq_iff org_id other_org,
  str_eq_iff user_id other,
)

pub org_role-put_member :
    (db : Db) (org_id user_id : Str) (role : OrgRole) (other_org other : Str)
    → org_role (put_member db org_id user_id role) other_org other ≡ (
        if str_eq org_id other_org && str_eq user_id other
        then some role
        else org_role db other_org other)
unfolding org_role put_member role_in
org_role-put_member db org_id user_id role other_org other =
    role_in-upsert_member org_id user_id role db.org_members other_org other

pub org_role-remove_member :
    (db : Db) (org_id user_id other_org other : Str)
    → org_role (remove_member db org_id user_id) other_org other ≡ (
        if str_eq org_id other_org && str_eq user_id other
        then none
        else org_role db other_org other)
unfolding org_role remove_member role_in
org_role-remove_member db org_id user_id other_org other =
    role_in-filter org_id user_id db.org_members other_org other

-- What an insert that the foreign keys allow has done.
pub add_org_member-ok :
    (db : Db) (org_id user_id : Str) (role : OrgRole) (db' : Db)
    → add_org_member db org_id user_id role ≡ ok db'
    → (has_parents db org_id user_id ≡ true) × (db' ≡ put_member db org_id user_id role)
unfolding add_org_member
add_org_member-ok db org_id user_id role db' h = elim (Bool-cases (has_parents db org_id user_id)) [
  | inl t ↦ (t, ground (arith, h, t))
  | inr f ↦ absurd (ground (arith, h, f))
]
