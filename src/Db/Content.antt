-- ===== src/Db/Content.antt =====
-- The blobs of src/db/content.rs.
pub mod Records
use ruskery.Common.{
  Bool, true, false, not, ◌&&◌, Option, none, some, List, [], ◌∷◌, map, foldl, Str, str_eq, str_ltb,
  if◌then◌else◌, any, filter, find_row, and_then, option_map, is_some, length, sort_by,
}
use ruskery.Common.Int.{ℤ, pos, ◌+ℤ◌, as_i64}
use ruskery.Db.{
  Db, Blob, Manifest, ManifestBlob, ManifestManifest, ManifestReferrer, Tag, ImagePull, Repository,
}

abbrev pub is_blob : Str → Str → Blob → Bool
is_blob org_id digest b = str_eq b.org_id org_id && str_eq b.digest digest

unfoldable pub blob_size : Db → Str → Str → Option ℤ
blob_size db org_id digest = option_map (λ b. b.size) (find_row (is_blob org_id digest) db.blobs)

unfoldable pub blob_exists : Db → Str → Str → Bool
blob_exists db org_id digest = is_some (find_row (is_blob org_id digest) db.blobs)

-- `COALESCE(SUM(size), 0)`; SQLite reports an overflow of the sum as an error, which is left out.
used_from : Str → List Blob → ℤ
used_from org_id [] = pos 0
used_from org_id (b ∷ bs) =
    if str_eq b.org_id org_id then b.size +ℤ used_from org_id bs else used_from org_id bs

unfoldable pub org_storage_used : Db → Str → ℤ
unfolding used_from
org_storage_used db org_id = used_from org_id db.blobs

-- `ON CONFLICT(org_id, digest) DO NOTHING`
unfoldable pub record_blob : Db → Str → Str → Str → ℤ → Db
unfolding blob_exists
record_blob db now org_id digest size = if blob_exists db org_id digest then db else record db {
  blobs = record { org_id = org_id; digest = digest; size = size; created_at = now } ∷ db.blobs;
}

-- The join of `manifest_blobs` with `repositories`, for one blob of one organization.
abbrev pub references : List Repository → Str → Str → ManifestBlob → Bool
references repos org_id digest mb =
    str_eq mb.blob_digest digest
    && any (λ r. str_eq r.id mb.repo_id && str_eq r.org_id org_id) repos

unfoldable pub blob_referenced : Db → Str → Str → Bool
blob_referenced db org_id digest = any (references db.repositories org_id digest) db.manifest_blobs

unfoldable pub delete_blob : Db → Str → Str → Db
delete_blob db org_id digest = record db {
  blobs = filter (λ b. not (is_blob org_id digest b)) db.blobs;
}

unfoldable pub unreferenced_blobs : Db → Str → List (Str × Str)
unfolding blob_referenced
unreferenced_blobs db created_before =
    map (λ b. (b.org_id, b.digest))
      (filter
        (λ b. str_ltb b.created_at created_before && not (blob_referenced db b.org_id b.digest))
        db.blobs)
