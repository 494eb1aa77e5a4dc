-- ===== src/Auth/Rbac/Grants.antt =====
-- What `grant_repository` of src/auth/rbac.rs grants, against a description of a rightful grant.
use ruskery.Common.{
  ◌≤◌, ◌≡◌, refl, ◌↔◌, inl, inr, true, Option, none, some, List, Str, str_eq_iff, split_once, arith,
  In, In-filter, In-filter_of, Option-cases, Bool-cases, subst, ap,
}
use ruskery.Models.{TokenScope, all, org, repo}
use ruskery.Models.Perm
use ruskery.Models.Perm.{Permission, min_perm, no_access, ge-min_perm}
use ruskery.Db.{Db, Org, Repository}
use ruskery.Db.Orgs.{find_org_by_slug, find_repo, org_role, repo_permission}
use ruskery.Auth.Rbac.{required, in_scope, capability, allows, grant_in_org, grant_repository}

-- The resource scope of a token reaches a repository of an organization.
pub data InScope (org_id : Str) (found : Option Repository) : TokenScope → Type 0 where
  everything : InScope org_id found all
  one_org : {oid : Str} → oid ≡ org_id → InScope org_id found (org oid)
  one_repo :
      {rid : Str} (r : Repository) → found ≡ some r → r.id ≡ rid → InScope org_id found (repo rid)

InScope-in_scope :
    (s : TokenScope) (org_id : Str) (found : Option Repository)
    → in_scope s org_id found ≡ true
    → InScope org_id found s
unfolding in_scope
InScope-in_scope all org_id found h = everything
InScope-in_scope (org oid) org_id found h = one_org ((str_eq_iff oid org_id).0 h)
InScope-in_scope (repo rid) org_id none h = ground arith
InScope-in_scope (repo rid) org_id (some r) h = one_repo r refl ((str_eq_iff r.id rid).0 h)

in_scope-InScope :
    {s : TokenScope} {org_id : Str} {found : Option Repository}
    → InScope org_id found s
    → in_scope s org_id found ≡ true
unfolding in_scope
in_scope-InScope everything = refl
in_scope-InScope (one_org e) = (str_eq_iff _ _).1 e
in_scope-InScope (one_repo r f e) = rw f ((str_eq_iff _ _).1 e)

-- A rightful grant of an action: the name leads to an organization, the token's scope reaches the
-- repository, and both the owner's capability and the token's cap are at least what the action needs.
pub record Grant (db : Db) (user_id name : Str) (scope : TokenScope) (cap : Permission)
    (action : Str) : Type 0 where
  pub organization : Org
  pub slug : Str
  pub repo_name : Str
  pub level : Permission
  pub named : split_once b'/' name ≡ some (slug, repo_name)
  pub found : find_org_by_slug db slug ≡ some organization
  pub scoped : InScope organization.id (find_repo db organization.id repo_name) scope
  pub needs : required action ≡ some level
  pub by_owner :
      Perm.rank level
      ≤ Perm.rank (capability db organization.id user_id (find_repo db organization.id repo_name))
  pub by_cap : Perm.rank level ≤ Perm.rank cap

allows_lem :
    (p : Permission) (action : Str)
    → allows p action ≡ true
    → (level : Permission) × (required action ≡ some level) × (Perm.ge p level ≡ true)
unfolding allows
allows_lem p action h = elim (Option-cases (required action)) [
  | inl e ↦ ground (arith, e)
  | inr (level, e) ↦ (level, e, ground (arith, e))
]

allows_of :
    (p q level : Permission) (action : Str)
    → required action ≡ some level
    → Perm.rank level ≤ Perm.rank p
    → Perm.rank level ≤ Perm.rank q
    → allows (min_perm p q) action ≡ true
unfolding allows min_perm
allows_of p q level action e h k = ground arith

required-pos :
    (action : Str) (level : Permission) → required action ≡ some level → 1 ≤ Perm.rank level
unfolding required
required-pos action level h = ground arith

capability_outsider :
    (db : Db) (org_id user_id : Str) (found : Option Repository)
    → org_role db org_id user_id ≡ none
    → capability db org_id user_id found ≡ no_access
unfolding capability repo_permission
capability_outsider db org_id user_id none h = ground arith
capability_outsider db org_id user_id (some r) h = ground arith

same_org :
    {db : Db} {user_id name slug repo_name action : Str} {scope : TokenScope} {cap : Permission}
    {o : Org}
    → split_once b'/' name ≡ some (slug, repo_name)
    → find_org_by_slug db slug ≡ some o
    → (g : Grant db user_id name scope cap action) → g.organization ≡ o
same_org {db} {slug} e f g =
    let p : g.slug ≡ slug = ground (arith, g.named, e) in
    ground (arith, ap (find_org_by_slug db) p, f, g.found)

module _ (db : Db) (user_id name : Str) (requested : List Str) (scope : TokenScope)
    (cap : Permission) (action : Str) where
  granted : List Str
  granted = grant_repository db user_id name requested scope cap

  granted_in :
      (slug repo_name : Str) (o : Org)
      → split_once b'/' name ≡ some (slug, repo_name)
      → find_org_by_slug db slug ≡ some o
      → granted ≡ grant_in_org db user_id o repo_name requested scope cap
  unfolding granted grant_repository
  granted_in slug repo_name o e f = ground arith

  Grant-In_org :
      (slug repo_name : Str) (o : Org)
      → split_once b'/' name ≡ some (slug, repo_name)
      → find_org_by_slug db slug ≡ some o
      → In action (grant_in_org db user_id o repo_name requested scope cap)
      → In action requested × Grant db user_id name scope cap action
  unfolding grant_in_org
  Grant-In_org slug repo_name o e f i =
      let found = find_repo db o.id repo_name in
      let p = min_perm (capability db o.id user_id found) cap in
      elim (Bool-cases (in_scope scope o.id found)) [
        | inl s ↦
            let (j, a) = In-filter (allows p) action requested (ground arith) in
            let (level, needs, enough) = allows_lem p action a in
            let (owned, capped) = ge-min_perm _ cap level enough in
            (
              j,
              record {
                organization = o;
                slug = slug;
                repo_name = repo_name;
                level = level;
                named = e;
                found = f;
                scoped = InScope-in_scope scope o.id found s;
                needs = needs;
                by_owner = owned;
                by_cap = capped;
              },
            )
        | inr s ↦ absurd (ground arith)
      ]

  Grant-In : In action granted → In action requested × Grant db user_id name scope cap action
  unfolding granted grant_repository
  Grant-In i = elim (Option-cases (split_once b'/' name)) [
    | inl e ↦ absurd (ground arith)
    | inr ((slug, repo_name), e) ↦ elim (Option-cases (find_org_by_slug db slug)) [
      | inl f ↦ absurd (ground arith)
      | inr (o, f) ↦
          Grant-In_org slug repo_name o e f (subst (In action) (granted_in slug repo_name o e f) i)
    ]
  ]

  In-Grant : In action requested → Grant db user_id name scope cap action → In action granted
  unfolding grant_in_org
  In-Grant i g = rw (granted_in g.slug g.repo_name g.organization g.named g.found) (
      rw (in_scope-InScope g.scoped) (
        In-filter_of _ action requested i
          (allows_of _ cap g.level action g.needs g.by_owner g.by_cap)))

  -- An action is granted on a repository exactly when it was requested and the grant is rightful:
  -- the token's scope reaches the repository, and the owner's capability on it and the token's cap
  -- are both at least the permission that the action needs.
  pub grant_repository-Grant :
      In action (grant_repository db user_id name requested scope cap)
      ↔ (In action requested × Grant db user_id name scope cap action)
  unfolding granted
  grant_repository-Grant = (Grant-In, λ g. In-Grant g.0 g.1)

  -- A user with no role in the organization that the name leads to is granted nothing.
  pub grant_repository_outsider :
      (slug repo_name : Str) (o : Org)
      → split_once b'/' name ≡ some (slug, repo_name)
      → find_org_by_slug db slug ≡ some o
      → org_role db o.id user_id ≡ none
      → In action (grant_repository db user_id name requested scope cap)
      → ⊥
  grant_repository_outsider slug repo_name o e f r i =
      let (_, g) = grant_repository-Grant.0 i in
      let same : g.organization ≡ o = same_org e f g in
      let none_left = capability_outsider db o.id user_id (find_repo db o.id g.repo_name) r in
      let pos = required-pos action g.level g.needs in
      let bound : Perm.rank g.level
          ≤ Perm.rank (capability db o.id user_id (find_repo db o.id g.repo_name)) =
        subst
          (λ (q : Org).
            Perm.rank g.level
            ≤ Perm.rank (capability db q.id user_id (find_repo db q.id g.repo_name)))
          same g.by_owner in
      absurd (omega (arith, ap Perm.rank none_left))
