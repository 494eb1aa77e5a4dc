-- ===== src/Db/Orgs/Repositories.antt =====
-- Creating and finding repositories (src/db/orgs.rs).
use ruskery.Common.{◌≡◌, some, Str, str_eq_refl, arith}
use ruskery.Error.{ok}
use ruskery.Db.{Db, Repository}
use ruskery.Db.Orgs.{find_repo, create_repo}

-- A repository that was created, or stood there already, is found under its name.
pub find_repo-create_repo :
    (db : Db) (id now org_id name : Str) (repo : Repository) (db' : Db)
    → create_repo db id now org_id name ≡ ok (repo, db')
    → find_repo db' org_id name ≡ some repo
unfolding create_repo find_repo
find_repo-create_repo db id now org_id name repo db' h =
    ground (arith, str_eq_refl org_id, str_eq_refl name)
