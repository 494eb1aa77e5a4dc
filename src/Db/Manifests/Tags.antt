-- ===== src/Db/Manifests/Tags.antt =====
-- What the statements on tags in src/db/content.rs change.
use ruskery.Common.{
  ◌≡◌, ◌&&◌, Option, some, List, [], ◌∷◌, Str, str_eq, str_eq_iff, arith, find_row, option_map,
  if◌then◌else◌,
}
use ruskery.Db.{Db, Tag}
use ruskery.Db.Manifests.{is_tag, tag_digest, upsert_tag, upsert_tag_row}

digest_of : List Tag → Str → Str → Option Str
digest_of ts repo_id name = option_map (λ t. t.manifest_digest) (find_row (is_tag repo_id name) ts)

digest_of-upsert_tag_row :
    (row : Tag) (ts : List Tag) (repo_id name : Str)
    → digest_of (upsert_tag_row row ts) repo_id name ≡ (
        if str_eq row.repo_id repo_id && str_eq row.name name
        then some row.manifest_digest
        else digest_of ts repo_id name)
unfolding digest_of upsert_tag_row
digest_of-upsert_tag_row row [] repo_id name = ground arith
digest_of-upsert_tag_row row (t ∷ ts) repo_id name = ground (
  arith,
  digest_of-upsert_tag_row row ts repo_id name,
  str_eq_iff t.repo_id row.repo_id,
  str_eq_iff t.name row.name,
  str_eq_iff t.repo_id repo_id,
  str_eq_iff t.name name,
  str_eq_iff row.repo_id repo_id,
  str_eq_iff row.name name,
)

-- What a tag resolves to after a tag was set: the new digest if it is that tag, else what it
-- resolved to before.
pub tag_digest-upsert_tag :
    (db : Db) (now repo_id tag digest other_repo other : Str)
    → tag_digest (upsert_tag db now repo_id tag digest) other_repo other ≡ (
        if str_eq repo_id other_repo && str_eq tag other
        then some digest
        else tag_digest db other_repo other)
unfolding tag_digest upsert_tag digest_of
tag_digest-upsert_tag db now repo_id tag digest other_repo other =
    digest_of-upsert_tag_row
      (record { repo_id = repo_id; name = tag; manifest_digest = digest; updated_at = now }) db.tags
      other_repo other
