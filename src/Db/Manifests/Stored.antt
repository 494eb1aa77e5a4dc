-- ===== src/Db/Manifests/Stored.antt =====
-- What the statements on manifests in src/db/content.rs store and delete.
use ruskery.Common.{
  ◌≡◌, not, ◌&&◌, Option, none, some, List, [], ◌∷◌, Str, str_eq, str_eq_iff, arith, filter,
  find_row, option_map, length, if◌then◌else◌,
}
use ruskery.Common.Int.{as_i64}
use ruskery.Db.{Db, Manifest}
use ruskery.Db.Manifests.{
  StoredManifest, ManifestLinks, is_manifest, upsert_manifest, put_manifest, get_manifest_by_digest,
  delete_manifest,
}

abbrev as_stored : Manifest → StoredManifest
as_stored m = record { media_type = m.media_type; size = m.size; content = m.content }

found : List Manifest → Str → Str → Option StoredManifest
found ms repo_id digest = option_map as_stored (find_row (is_manifest repo_id digest) ms)

found-upsert_manifest :
    (row : Manifest) (ms : List Manifest) (repo_id digest : Str)
    → found (upsert_manifest row ms) repo_id digest ≡ (
        if str_eq row.repo_id repo_id && str_eq row.digest digest
        then some (as_stored row)
        else found ms repo_id digest)
unfolding found upsert_manifest
found-upsert_manifest row [] repo_id digest = ground arith
found-upsert_manifest row (m ∷ ms) repo_id digest = ground (
  arith,
  found-upsert_manifest row ms repo_id digest,
  str_eq_iff m.repo_id row.repo_id,
  str_eq_iff m.digest row.digest,
  str_eq_iff m.repo_id repo_id,
  str_eq_iff m.digest digest,
  str_eq_iff row.repo_id repo_id,
  str_eq_iff row.digest digest,
)

-- What is read under a digest after a push: the pushed manifest under its own repository and digest,
-- and what was there before under any other.
pub get_manifest_by_digest-put_manifest :
    (db : Db) (now repo_id digest media_type content : Str) (links : ManifestLinks)
    (other_repo other : Str)
    → get_manifest_by_digest
        (put_manifest db now repo_id digest media_type content links)
        other_repo
        other
      ≡ (if str_eq repo_id other_repo && str_eq digest other
          then some (record {
            media_type = media_type;
            size = as_i64 (length content);
            content = content;
          })
          else get_manifest_by_digest db other_repo other)
unfolding get_manifest_by_digest put_manifest found
get_manifest_by_digest-put_manifest db now repo_id digest media_type content links other_repo
      other =
    found-upsert_manifest
      (record {
        repo_id = repo_id;
        digest = digest;
        media_type = media_type;
        size = as_i64 (length content);
        content = content;
        created_at = now;
      })
      db.manifests other_repo other

found-filter :
    (ms : List Manifest) (repo_id digest other_repo other : Str)
    → found (filter (λ m. not (is_manifest repo_id digest m)) ms) other_repo other ≡ (
        if str_eq repo_id other_repo && str_eq digest other
        then none
        else found ms other_repo other)
unfolding found
found-filter [] repo_id digest other_repo other = ground arith
found-filter (m ∷ ms) repo_id digest other_repo other = ground (
  arith,
  found-filter ms repo_id digest other_repo other,
  str_eq_iff m.repo_id repo_id,
  str_eq_iff m.digest digest,
  str_eq_iff m.repo_id other_repo,
  str_eq_iff m.digest other,
  str_eq_iff repo_id other_repo,
  str_eq_iff digest other,
)

-- After a delete the digest is not found in its repository, and all else as before.
pub get_manifest_by_digest-delete_manifest :
    (db : Db) (repo_id digest other_repo other : Str)
    → get_manifest_by_digest (delete_manifest db repo_id digest) other_repo other ≡ (
        if str_eq repo_id other_repo && str_eq digest other
        then none
        else get_manifest_by_digest db other_repo other)
unfolding get_manifest_by_digest delete_manifest found
get_manifest_by_digest-delete_manifest db repo_id digest other_repo other =
    found-filter db.manifests repo_id digest other_repo other
