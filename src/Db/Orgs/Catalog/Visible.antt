-- ===== src/Db/Orgs/Catalog/Visible.antt =====
-- Which names the catalog statements of src/db/orgs.rs list.
use ruskery.Common.{
  ◌≡◌, refl, ◌∙◌, ap, ◌↔◌, Bool, true, some, Str, str_eq, any, find_row, filter_map, filter, In,
  In-filter, In-filter_of, In-filter_map, In-filter_map_of, In-sort_by, In-sort_by_of, In-map,
  In-map_of, Option-cases, Bool-cases, inl, inr, arith, sort_by,
}
use ruskery.Db.{Db, Org, Repository}
use ruskery.Db.Orgs.{is_member_row}
use ruskery.Db.Orgs.Catalog.{visible_row, row_ltb, qualified, catalog_where}

-- A repository of an organization that the user is a member of, under its full name.
pub record IsVisible (db : Db) (user_id name : Str) (r : Repository) : Type 0 where
  pub org : Org
  pub stands : In r db.repositories
  pub of_org : find_row (λ (o : Org). str_eq o.id r.org_id) db.orgs ≡ some org
  pub is_member : any (is_member_row org.id user_id) db.org_members ≡ true
  pub named : name ≡ qualified (org.slug, r.name)

module _ (db : Db) (user_id : Str) (p : Repository → Bool) where
  visible_row_lem :
      (name : Str) (r : Repository) (row : Str × Str)
      → In r db.repositories
      → visible_row db user_id r ≡ some row
      → name ≡ qualified row
      → IsVisible db user_id name r
  visible_row_lem name r row i e n =
      elim (Option-cases (find_row (λ (o : Org). str_eq o.id r.org_id) db.orgs)) [
        | inl f ↦ absurd (ground (arith, e, f))
        | inr (o, f) ↦ elim (Bool-cases (any (is_member_row o.id user_id) db.org_members)) [
          | inr m ↦ absurd (ground (arith, e, f, m))
          | inl m ↦ record {
            org = o;
            stands = i;
            of_org = f;
            is_member = m;
            named = n ∙ ap qualified (ground (arith, e, f, m));
          }
        ]
      ]

  visible_row_of :
      (name : Str) (r : Repository)
      → (v : IsVisible db user_id name r) → visible_row db user_id r ≡ some (v.org.slug, r.name)
  visible_row_of name r v = rw (v.of_org, v.is_member) refl

  -- A name is listed exactly if a repository that meets the condition, of an organization that the
  -- user belongs to, has it.
  pub In-catalog_where :
      (name : Str)
      → In name (catalog_where db user_id p)
        ↔ ((r : Repository) × (p r ≡ true) × IsVisible db user_id name r)
  unfolding catalog_where
  In-catalog_where name = (
    (λ i.
        let rows = filter_map (visible_row db user_id) (filter p db.repositories) in
        let (row, j, e) = In-map qualified name (sort_by row_ltb rows) i in
        let (r, k, v) =
          In-filter_map (visible_row db user_id) row (filter p db.repositories)
            (In-sort_by row_ltb row rows j) in
        let (stands, met) = In-filter p r db.repositories k in
        (r, met, visible_row_lem name r row stands v e)),
    (λ found.
        let (r, met, v) = found in
        let rows = filter_map (visible_row db user_id) (filter p db.repositories) in
        let row : Str × Str = (v.org.slug, r.name) in
        In-map_of qualified name row (sort_by row_ltb rows)
          (In-sort_by_of row_ltb row rows (
            In-filter_map_of (visible_row db user_id) row r (filter p db.repositories)
              (In-filter_of p r db.repositories v.stands met) (visible_row_of name r v)))
          v.named),
  )
