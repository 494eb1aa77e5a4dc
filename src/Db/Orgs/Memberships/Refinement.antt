-- ===== src/Db/Orgs/Memberships/Refinement.antt =====
-- The statements on members in src/db/orgs.rs, and the map from organizations and users to roles
-- that they stand for.
use ruskery.Common.{
  ◌≡◌, refl, ◌∙◌, ap, fun_ext, Bool, ◌&&◌, Option, none, some, List, [], ◌∷◌, Str, str_eq,
  if◌then◌else◌, Bool-cases, inl, inr,
}
use ruskery.Models.Role.{OrgRole}
use ruskery.Error.{Result, ok, err}
use ruskery.Db.{Db}
use ruskery.Db.Orgs.{
  org_role, put_member, has_parents, add_org_member, set_member_role, remove_member,
}
use ruskery.Db.Orgs.Memberships.{org_role-put_member, org_role-remove_member}

-- A statement, with its organization and user.
pub data Change : Type 0 where
  add set : Str → Str → OrgRole → Change
  remove : Str → Str → Change

-- A statement that the foreign keys refuse changes nothing.
abbrev pub or_kept : Db → Result Db → Db
or_kept db (err e) = db
or_kept db (ok db') = db'

unfoldable pub apply : Db → Change → Db
apply db (add org_id user_id role) = or_kept db (add_org_member db org_id user_id role)
apply db (set org_id user_id role) = or_kept db (set_member_role db org_id user_id role)
apply db (remove org_id user_id) = remove_member db org_id user_id

unfoldable pub apply_all : Db → List Change → Db
unfolding apply
apply_all db [] = db
apply_all db (c ∷ cs) = apply_all (apply db c) cs

-- The abstract view: a role for every organization and user, or none.
abbrev pub Roles : Type 0
Roles = Str → Str → Option OrgRole

unfoldable pub roles_of : Db → Roles
roles_of db = λ org_id user_id. org_role db org_id user_id

abbrev pub put : Str → Str → Option OrgRole → Roles → Roles
put org_id user_id value roles = λ other_org other.
    if str_eq org_id other_org && str_eq user_id other then value else roles other_org other

-- `known` says which organizations and users there are.
abbrev pub step : (Str → Str → Bool) → Roles → Change → Roles
step known roles (add org_id user_id role) =
    if known org_id user_id then put org_id user_id (some role) roles else roles
step known roles (set org_id user_id role) =
    if known org_id user_id then put org_id user_id (some role) roles else roles
step known roles (remove org_id user_id) = put org_id user_id none roles

unfoldable pub steps : (Str → Str → Bool) → Roles → List Change → Roles
steps known roles [] = roles
steps known roles (c ∷ cs) = steps known (step known roles c) cs

put_or_kept :
    (db : Db) (org_id user_id : Str) (role : OrgRole)
    → (roles_of (or_kept db (add_org_member db org_id user_id role))
        ≡ step (has_parents db) (roles_of db) (add org_id user_id role))
      × (has_parents (or_kept db (add_org_member db org_id user_id role)) ≡ has_parents db)
unfolding roles_of add_org_member has_parents put_member
put_or_kept db org_id user_id role = elim (Bool-cases (has_parents db org_id user_id)) [
  | inr f ↦ (rw (add_org_member, f) refl, rw (add_org_member, f) refl)
  | inl t ↦ (
    rw (add_org_member, t)
        (fun_ext (λ other_org. fun_ext (org_role-put_member db org_id user_id role other_org))),
    rw (add_org_member, t) refl,
  )
]

removed :
    (db : Db) (org_id user_id : Str)
    → (roles_of (remove_member db org_id user_id)
        ≡ step (has_parents db) (roles_of db) (remove org_id user_id))
      × (has_parents (remove_member db org_id user_id) ≡ has_parents db)
unfolding roles_of has_parents remove_member
removed db org_id user_id =
    (fun_ext (λ other_org. fun_ext (org_role-remove_member db org_id user_id other_org)), refl)

roles_of-apply :
    (db : Db) (c : Change)
    → (roles_of (apply db c) ≡ step (has_parents db) (roles_of db) c)
      × (has_parents (apply db c) ≡ has_parents db)
unfolding apply set_member_role
roles_of-apply db (add org_id user_id role) = put_or_kept db org_id user_id role
roles_of-apply db (set org_id user_id role) = put_or_kept db org_id user_id role
roles_of-apply db (remove org_id user_id) = removed db org_id user_id

-- Whatever statements on members run one after another, the roles that are read from the table are
-- those of a map in which each of them sets or clears one entry, but that nothing is set for an
-- organization or a user that does not exist.
pub roles_of-apply_all :
    (db : Db) (cs : List Change)
    → roles_of (apply_all db cs) ≡ steps (has_parents db) (roles_of db) cs
unfolding apply_all steps
roles_of-apply_all db [] = refl
roles_of-apply_all db (c ∷ cs) =
    let (same, kept) = roles_of-apply db c in
    roles_of-apply_all (apply db c) cs
    ∙ (ap (λ k. steps k (roles_of (apply db c)) cs) kept
        ∙ ap (λ r. steps (has_parents db) r cs) same)
