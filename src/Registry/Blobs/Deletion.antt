-- ===== src/Registry/Blobs/Deletion.antt =====
-- What deleting a blob (src/registry/blobs.rs) leaves.
use ruskery.Common.{◌≡◌, true, false, ◌&&◌, Str, str_eq, if◌then◌else◌}
use ruskery.Error.{Result, err, Response}
use ruskery.Db.{Db}
use ruskery.Db.Content.{blob_exists, blob_referenced}
use ruskery.Storage.{ObjectStore}
use ruskery.Registry.Blobs.{Blobs, unknown_blob, still_referenced}

module _ {State : Type 0} (store : ObjectStore State) where
  -- What a deletion may do: only an existing blob that no manifest of the organization references is
  -- deleted, and any other blob exists as before; else there is an error and nothing changes.
  pub data Deleted (org_id digest : Str) (b : Blobs State) (r : Result Response × Blobs State)
      : Type 0 where
    deleted :
        blob_exists b.db org_id digest ≡ true
        → blob_referenced b.db org_id digest ≡ false
        → ((other_org other : Str)
            → blob_exists r.1.db other_org other ≡ (
                if str_eq org_id other_org && str_eq digest other
                then false
                else blob_exists b.db other_org other))
        → Deleted org_id digest b r
    missing :
        blob_exists b.db org_id digest ≡ false
        → r ≡ (err unknown_blob, b)
        → Deleted org_id digest b r
    kept :
        blob_referenced b.db org_id digest ≡ true
        → r ≡ (err still_referenced, b)
        → Deleted org_id digest b r
