-- ===== src/Db/Orgs/Catalog.antt =====
-- The repositories that a user may see (src/db/orgs.rs), for the registry's catalog.
pub mod Visible
use ruskery.Common.{
  Bool, true, false, ◌&&◌, ◌||◌, ◌++◌, Option, none, some, List, [], ◌∷◌, map, Str, codes, str_eq,
  str_ltb, if◌then◌else◌, any, filter, filter_map, find_row, and_then, sort_by,
}
use ruskery.Db.{Db, Org, OrgMember, Repository}
use ruskery.Db.Orgs.{is_member_row}

-- One row of the join of `repositories`, `orgs` and `org_members`: the primary keys of the last two
-- give at most one partner each.
abbrev pub visible_row : Db → Str → Repository → Option (Str × Str)
visible_row db user_id r =
    and_then (find_row (λ (o : Org). str_eq o.id r.org_id) db.orgs)
      (λ o. if any (is_member_row o.id user_id) db.org_members then some (o.slug, r.name) else none)

abbrev pub row_ltb : Str × Str → Str × Str → Bool
row_ltb (a, x) (b, y) = str_ltb a b || (str_eq a b && str_ltb x y)

abbrev pub qualified : Str × Str → Str
qualified (slug, name) = slug ++ (codes "/" ++ name)

-- `ORDER BY o.slug, r.name`
unfoldable pub catalog_where : Db → Str → (Repository → Bool) → List Str
unfolding sort_by
catalog_where db user_id p =
    map qualified (sort_by row_ltb (filter_map (visible_row db user_id) (filter p db.repositories)))

unfoldable pub catalog_for_user : Db → Str → List Str
unfolding catalog_where
catalog_for_user db user_id = catalog_where db user_id (λ r. true)

-- `o.id` is the repository's `org_id` in the join.
unfoldable pub catalog_for_user_in_org : Db → Str → Str → List Str
unfolding catalog_where
catalog_for_user_in_org db user_id org_id = catalog_where db user_id (λ r. str_eq r.org_id org_id)

unfoldable pub catalog_for_user_repo : Db → Str → Str → List Str
unfolding catalog_where
catalog_for_user_repo db user_id repo_id = catalog_where db user_id (λ r. str_eq r.id repo_id)
