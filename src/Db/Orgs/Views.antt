-- ===== src/Db/Orgs/Views.antt =====
-- The dashboard's statements of src/db/orgs.rs.
use ruskery.Common.{
  ℕ, ◌+◌, Bool, false, not, ◌&&◌, List, [], ◌∷◌, map, Str, str_eq, str_ltb, if◌then◌else◌, any,
  filter, filter_map, find_row, option_map, unwrap_or, length, sort_by,
}
use ruskery.Common.Int.{ℤ, pos, ◌+ℤ◌}
use ruskery.Models.Role.{OrgRole, member}
use ruskery.Models.Role
use ruskery.Db.{
  Db, Org, OrgMember, Repository, Team, TeamRepoPerm, Blob, Manifest, ManifestBlob,
  ManifestManifest, ManifestReferrer, Tag, ImagePull, AccessToken,
}
use ruskery.Db.Orgs.Teams.{MemberRow, member_row, by_username}

-- `ORDER BY o.created_at DESC`
unfoldable pub orgs_for_user : Db → Str → List (Org × OrgRole)
unfolding sort_by
orgs_for_user db user_id =
    sort_by (λ (a b : Org × OrgRole). str_ltb b.0.created_at a.0.created_at)
      (filter_map
        (λ (o : Org).
          option_map (λ (m : OrgMember). (o, unwrap_or (Role.parse m.role) member))
            (find_row (λ (m : OrgMember). str_eq m.org_id o.id && str_eq m.user_id user_id)
              db.org_members))
        db.orgs)

pub record OrgSummary : Type 0 where
  pub org : Org
  pub member_count : ℕ
  pub repo_count : ℕ

abbrev members_of : Db → Str → List OrgMember
members_of db org_id = filter (λ (m : OrgMember). str_eq m.org_id org_id) db.org_members

abbrev repos_of : Db → Str → List Repository
repos_of db org_id = filter (λ (r : Repository). str_eq r.org_id org_id) db.repositories

unfoldable pub list_all_with_counts : Db → List OrgSummary
unfolding sort_by
list_all_with_counts db =
    map
      (λ (o : Org). record {
        org = o;
        member_count = length (members_of db o.id);
        repo_count = length (repos_of db o.id);
      })
      (sort_by (λ (a b : Org). str_ltb b.created_at a.created_at) db.orgs)

unfoldable pub list_members : Db → Str → List MemberRow
unfolding sort_by
list_members db org_id =
    by_username
      (filter_map (λ (m : OrgMember). member_row db.users m.user_id m.role) (members_of db org_id))

pub record RepoSummary : Type 0 where
  pub name : Str
  pub tag_count : ℕ
  pub updated_at : Str

-- `ORDER BY r.updated_at DESC`
unfoldable pub list_repos : Db → Str → List RepoSummary
unfolding sort_by
list_repos db org_id =
    map
      (λ (r : Repository). record {
        name = r.name;
        tag_count = length (filter (λ (t : Tag). str_eq t.repo_id r.id) db.tags);
        updated_at = r.updated_at;
      })
      (sort_by (λ (a b : Repository). str_ltb b.updated_at a.updated_at) (repos_of db org_id))

pub record TagDetail : Type 0 where
  pub tag : Str
  pub digest : Str
  pub size : ℤ
  pub updated_at : Str
  pub pull_count : ℕ

-- The sizes of the blobs that a manifest references, in the repository's organization.
blob_sizes : List Blob → Str → List ManifestBlob → ℤ
blob_sizes blobs org_id [] = pos 0
blob_sizes blobs org_id (mb ∷ mbs) =
    unwrap_or
      (option_map (λ (b : Blob). b.size)
        (find_row (λ (b : Blob). str_eq b.org_id org_id && str_eq b.digest mb.blob_digest) blobs))
      (pos 0)
    +ℤ blob_sizes blobs org_id mbs

unfoldable pub image_size : Db → Str → Str → ℤ
unfolding blob_sizes
image_size db repo_id digest =
    unwrap_or
      (option_map (λ (m : Manifest). m.size)
        (find_row (λ (m : Manifest). str_eq m.repo_id repo_id && str_eq m.digest digest)
          db.manifests))
      (pos 0)
    +ℤ unwrap_or
        (option_map
          (λ (r : Repository). blob_sizes db.blobs r.org_id (
            filter
              (λ (mb : ManifestBlob). str_eq mb.repo_id repo_id && str_eq mb.manifest_digest digest)
              db.manifest_blobs))
          (find_row (λ (r : Repository). str_eq r.id repo_id) db.repositories))
        (pos 0)

-- `ORDER BY name`; the counter is the caller's.
unfoldable pub repo_tag_details : Db → Str → List TagDetail
unfolding sort_by image_size
repo_tag_details db repo_id =
    map
      (λ (t : Tag). record {
        tag = t.name;
        digest = t.manifest_digest;
        size = image_size db repo_id t.manifest_digest;
        updated_at = t.updated_at;
        pull_count = 0;
      })
      (sort_by (λ (a b : Tag). str_ltb a.name b.name)
        (filter (λ (t : Tag). str_eq t.repo_id repo_id) db.tags))

-- `ON CONFLICT(org_id, repo, digest) DO UPDATE SET count = count + 1`
bump_row : Str → Str → Str → List ImagePull → List ImagePull
bump_row org_id repo digest [] =
    record { org_id = org_id; repo = repo; digest = digest; count = 1 } ∷ []
bump_row org_id repo digest (p ∷ ps) =
    if str_eq p.org_id org_id && (str_eq p.repo repo && str_eq p.digest digest)
    then record p { count = p.count + 1 } ∷ ps
    else p ∷ bump_row org_id repo digest ps

unfoldable pub bump_image_pull : Db → Str → Str → Str → Db
unfolding bump_row
bump_image_pull db org_id repo digest = record db {
  image_pulls = bump_row org_id repo digest db.image_pulls;
}

unfoldable pub image_pull_counts : Db → Str → Str → List (Str × ℕ)
image_pull_counts db org_id repo =
    map (λ (p : ImagePull). (p.digest, p.count))
      (filter (λ (p : ImagePull). str_eq p.org_id org_id && str_eq p.repo repo) db.image_pulls)

pub record OrgStats : Type 0 where
  pub repos : ℕ
  pub members : ℕ
  pub teams : ℕ

unfoldable pub org_stats : Db → Str → OrgStats
org_stats db org_id = record {
  repos = length (repos_of db org_id);
  members = length (members_of db org_id);
  teams = length (filter (λ (t : Team). str_eq t.org_id org_id) db.teams);
}

abbrev pub gone : Str → Str → Repository → Bool
gone org_id name r = str_eq r.org_id org_id && str_eq r.name name

-- A row that refers to a repository that goes, by `ON DELETE CASCADE`.
abbrev pub refers : List Repository → Str → Str → Str → Bool
refers repos org_id name repo_id = any (λ r. gone org_id name r && str_eq r.id repo_id) repos

-- The two deletes, and what the second takes along.
unfoldable pub delete_repo : Db → Str → Str → Db
delete_repo db org_id name =
    let dangling = refers db.repositories org_id name in
    record db {
      image_pulls =
          filter (λ (p : ImagePull). not (str_eq p.org_id org_id && str_eq p.repo name))
            db.image_pulls;
      repositories = filter (λ r. not (gone org_id name r)) db.repositories;
      team_repo_perms = filter (λ (p : TeamRepoPerm). not (dangling p.repo_id)) db.team_repo_perms;
      manifests = filter (λ (m : Manifest). not (dangling m.repo_id)) db.manifests;
      manifest_blobs = filter (λ (mb : ManifestBlob). not (dangling mb.repo_id)) db.manifest_blobs;
      manifest_manifests =
          filter (λ (mm : ManifestManifest). not (dangling mm.repo_id)) db.manifest_manifests;
      manifest_referrers =
          filter (λ (mr : ManifestReferrer). not (dangling mr.repo_id)) db.manifest_referrers;
      tags = filter (λ (t : Tag). not (dangling t.repo_id)) db.tags;
      access_tokens =
          filter (λ (t : AccessToken). not (unwrap_or (option_map dangling t.scope_repo_id) false))
            db.access_tokens;
    }
