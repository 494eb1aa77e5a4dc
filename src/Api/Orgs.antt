-- ===== src/Api/Orgs.antt =====
-- Organizations and repositories in src/api/mod.rs.
use ruskery.Common.{
  ℕ, not, ◌++◌, some, none, List, map, Str, codes, str_eq, trim, is_some, find_row, option_map,
  unwrap_or,
}
use ruskery.Models.{User}
use ruskery.Models.Role.{owner}
use ruskery.Error.{not_found, forbidden, bad_request, conflict, ok, guard, ◌>>=◌, ◌>>◌}
use ruskery.Db.{Db}
use ruskery.Db.Audit
use ruskery.Db.Audit.{record_event}
use ruskery.Db.Orgs
use ruskery.Db.Orgs.{find_org_by_slug, add_org_member, find_repo}
use ruskery.Db.Orgs.Views
use ruskery.Db.Orgs.Views.{
  TagDetail, orgs_for_user, list_all_with_counts, org_stats, repo_tag_details, image_pull_counts,
}
use ruskery.Api.{
  done, org_page, created_org, orgs, all_orgs, repos, created_repo, repo_page, entries, Handled,
  Env,
}
use ruskery.Api.Guards.{ok_or, valid_slug, valid_repo_name, member_of, admin_of, pull_host}

unfoldable pub list_orgs : User → Db → Handled
list_orgs user db = ok (orgs (orgs_for_user db user.id), db)

unfoldable pub list_all_orgs : User → Db → Handled
list_all_orgs user db = do
  guard user.is_admin forbidden
  ok (all_orgs (list_all_with_counts db), db)

-- The creator becomes the owner.
unfoldable pub create_org : Env → User → Str → Str → Db → Handled
create_org env user slug name db = do
  guard (valid_slug slug) (bad_request (codes "invalid slug (lowercase letters, digits, hyphens)"))
  guard (not (is_some (find_org_by_slug db slug))) (conflict (codes "org slug already taken"))
  (org, db') ← Orgs.create_org db env.id env.now slug name
  joined ← add_org_member db' org.id user.id owner
  ok (created_org org, joined)

unfoldable pub get_org : User → Str → Db → Handled
get_org user slug db = do
  (org, role) ← member_of db user.id slug
  ok (org_page org role (org_stats db org.id), db)

unfoldable pub list_repos : User → Str → Db → Handled
list_repos user slug db = do
  (org, role) ← member_of db user.id slug
  ok (repos (Views.list_repos db org.id), db)

unfoldable pub create_repo : Env → User → Str → Str → Db → Handled
create_repo env user slug raw_name db = do
  (org, role) ← admin_of db user.id slug
  let name = trim raw_name
  guard (valid_repo_name name) (
      bad_request (codes "invalid repository name (lowercase letters, digits, '.', '_', '-', '/')"))
  guard (not (is_some (find_repo db org.id name))) (conflict (codes "repository already exists"))
  (repo, db') ← Orgs.create_repo db env.id env.now org.id name
  ok (
    created_repo repo,
    record_event db' env.now (some user.id) (some org.id) (codes "repo.create") (some name) none,
  )

-- The pull counter of a tag's image.
abbrev with_count : List (Str × ℕ) → TagDetail → TagDetail
with_count counts t = record t {
  pull_count = unwrap_or (option_map (λ c. c.1) (find_row (λ c. str_eq c.0 t.digest) counts)) 0;
}

unfoldable pub get_repo : Env → User → Str → Str → Db → Handled
get_repo env user slug name db = do
  (org, role) ← member_of db user.id slug
  repo ← ok_or (find_repo db org.id name) not_found
  ok (
    repo_page repo
        (map (with_count (image_pull_counts db org.id name)) (repo_tag_details db repo.id))
        (codes "docker pull "
          ++ (pull_host env.public_url ++ (codes "/" ++ (slug ++ (codes "/" ++ name))))),
    db,
  )

unfoldable pub delete_repo : Env → User → Str → Str → Db → Handled
delete_repo env user slug name db = do
  (org, role) ← admin_of db user.id slug
  ok (
    done,
    record_event (Views.delete_repo db org.id name) env.now (some user.id) (some org.id)
        (codes "repo.delete") (some name) none,
  )

unfoldable pub list_audit : User → Str → Db → Handled
list_audit user slug db = do
  (org, role) ← admin_of db user.id slug
  ok (entries (Audit.list db org.id 200), db)
