-- ===== src/Registry/Catalog/Scoped.antt =====
-- What a token's catalog lists.
use ruskery.Common.{
  ◌≡◌, ◌≢◌, refl, ◌↔◌, ◌⊎◌, true, Option, none, some, Str, codes, str_eq, str_eq_iff, str_eq_refl,
  In, Bool-cases, inl, inr, arith, ap, sym, subst, unwrap_or,
}
use ruskery.Db.{Db, Repository}
use ruskery.Db.Orgs.Catalog.{catalog_for_user, catalog_for_user_in_org, catalog_for_user_repo}
use ruskery.Db.Orgs.Catalog.Visible.{IsVisible, In-catalog_where}
use ruskery.Auth.Token.{Claims}
use ruskery.Registry.Catalog.{for_scope, visible_to}

-- The repositories that a scope claim reaches.
pub data InScope (kind : Str) (id : Option Str) (r : Repository) : Type 0 where
  of_org : kind ≡ codes "org" → id ≡ some r.org_id → InScope kind id r
  itself : kind ≡ codes "repo" → id ≡ some r.id → InScope kind id r
  unlimited : (id ≡ none) ⊎ ((kind ≢ codes "org") × (kind ≢ codes "repo")) → InScope kind id r

org-ne-repo : codes "org" ≢ codes "repo"
org-ne-repo e = absurd (ground (arith, e))

unwrapped : (a b : Str) → some a ≡ some b → a ≡ b
unwrapped a b e = ap (λ o. unwrap_or o a) e

module _ (db : Db) (sub name : Str) where
  -- The names that a user sees among the repositories of a scope.
  Seen : Str → Option Str → Type 0
  Seen kind id = (r : Repository) × InScope kind id r × IsVisible db sub name r

  all_Seen :
      (kind : Str) (id : Option Str)
      → (id ≡ none) ⊎ ((kind ≢ codes "org") × (kind ≢ codes "repo"))
      → In name (catalog_for_user db sub) ↔ Seen kind id
  unfolding catalog_for_user Seen
  all_Seen kind id free =
      let (down, back) = In-catalog_where db sub (λ r. true) name in
      (
        (λ i. let (r, _, v) = down i in (r, unlimited free, v)),
        (λ seen. let (r, _, v) = seen in back (r, refl, v)),
      )

  org_Seen : (id : Str) → In name (catalog_for_user_in_org db sub id) ↔ Seen (codes "org") (some id)
  unfolding catalog_for_user_in_org Seen
  org_Seen id =
      let (down, back) = In-catalog_where db sub (λ r. str_eq r.org_id id) name in
      (
        (λ i.
            let (r, e, v) = down i in
            (r, of_org refl (ap some (sym ((str_eq_iff r.org_id id).0 e))), v)),
        (λ seen.
            let (r, scope, v) = seen in
            back (
              r,
              elim scope [
                | of_org _ e ↦ rw (← unwrapped id r.org_id e) (str_eq_refl id)
                | itself e _ ↦ absurd (org-ne-repo e)
                | unlimited free ↦ elim free [
                  | inl e ↦ absurd (ground (arith, e))
                  | inr (n, _) ↦ absurd (n refl)
                ]
              ],
              v,
            )),
      )

  repo_Seen : (id : Str) → In name (catalog_for_user_repo db sub id) ↔ Seen (codes "repo") (some id)
  unfolding catalog_for_user_repo Seen
  repo_Seen id =
      let (down, back) = In-catalog_where db sub (λ r. str_eq r.id id) name in
      (
        (λ i.
            let (r, e, v) = down i in
            (r, itself refl (ap some (sym ((str_eq_iff r.id id).0 e))), v)),
        (λ seen.
            let (r, scope, v) = seen in
            back (
              r,
              elim scope [
                | itself _ e ↦ rw (← unwrapped id r.id e) (str_eq_refl id)
                | of_org e _ ↦ absurd (org-ne-repo (sym e))
                | unlimited free ↦ elim free [
                  | inl e ↦ absurd (ground (arith, e))
                  | inr (_, n) ↦ absurd (n refl)
                ]
              ],
              v,
            )),
      )

  for_scope-Seen :
      (kind : Str) (id : Option Str) → In name (for_scope db sub kind id) ↔ Seen kind id
  for_scope-Seen kind none = all_Seen kind none (inl refl)
  for_scope-Seen kind (some id) = elim (Bool-cases (str_eq kind (codes "org"))) [
    | inl e ↦ rw e (
        subst (λ k. In name (catalog_for_user_in_org db sub id) ↔ Seen k (some id))
          (sym ((str_eq_iff kind (codes "org")).0 e)) (org_Seen id))
    | inr e ↦ elim (Bool-cases (str_eq kind (codes "repo"))) [
      | inl f ↦
          rw (e, f)
            (subst (λ k. In name (catalog_for_user_repo db sub id) ↔ Seen k (some id))
              (sym ((str_eq_iff kind (codes "repo")).0 f)) (repo_Seen id))
      | inr f ↦
          rw (e, f)
            (all_Seen kind (some id) (
              inr (
                λ k. absurd (ground (arith, e, (str_eq_iff kind (codes "org")).1 k)),
                λ k. absurd (ground (arith, f, (str_eq_iff kind (codes "repo")).1 k)),
              )))
    ]
  ]

-- The catalog of a token lists a name exactly if it is that of a repository of an organization that
-- the token's owner belongs to, and the token's scope reaches the repository.
pub In-visible_to :
    (db : Db) (claims : Claims) (name : Str)
    → In name (visible_to db claims) ↔ (
        (r : Repository) × InScope claims.scope.kind claims.scope.id r
        × IsVisible db claims.sub name r)
unfolding visible_to Seen
In-visible_to db claims name = for_scope-Seen db claims.sub name claims.scope.kind claims.scope.id
