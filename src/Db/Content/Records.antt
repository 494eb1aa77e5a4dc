-- ===== src/Db/Content/Records.antt =====
-- What `record_blob` and `delete_blob` of src/db/content.rs change.
use ruskery.Common.{◌≡◌, ◌&&◌, true, Str, str_eq, str_eq_iff, str_eq_refl, arith, if◌then◌else◌}
use ruskery.Common.Int.{ℤ}
use ruskery.Db.{Db}
use ruskery.Db.Content.{blob_exists, record_blob}

-- After a blob was recorded it exists in its organization, and every other blob exists exactly if it
-- existed before.
pub blob_exists-record_blob :
    (db : Db) (now org_id digest : Str) (size : ℤ) (other_org other : Str)
    → blob_exists (record_blob db now org_id digest size) other_org other ≡ (
        if str_eq org_id other_org && str_eq digest other
        then true
        else blob_exists db other_org other)
unfolding blob_exists record_blob
blob_exists-record_blob db now org_id digest size other_org other =
    ground (arith, str_eq_iff org_id other_org, str_eq_iff digest other)

pub record_blob-blob_exists :
    (db : Db) (now org_id digest : Str) (size : ℤ)
    → blob_exists (record_blob db now org_id digest size) org_id digest ≡ true
record_blob-blob_exists db now org_id digest size =
    rw (blob_exists-record_blob, str_eq_refl org_id, str_eq_refl digest)
