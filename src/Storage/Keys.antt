-- ===== src/Storage/Keys.antt =====
-- The keys of src/storage/mod.rs against each other.
use ruskery.Common.{◌≡◌, ◌≢◌, refl, ap, ◌++◌, List, [], ◌∷◌, Str, codes, arith, drop, length}
use ruskery.Storage.{blob_key, upload_key}

drop-append {ℓ} : {A : Type ℓ} (xs ys : List A) → drop (length xs) (xs ++ ys) ≡ ys
drop-append [] ys = refl
drop-append (x ∷ xs) ys = drop-append xs ys

append_cancel {ℓ} : {A : Type ℓ} (xs ys zs : List A) → xs ++ ys ≡ xs ++ zs → ys ≡ zs
append_cancel xs ys zs h = rw (drop-append xs ys, drop-append xs zs) at (ap (drop (length xs)) h)

-- The temporary key of an upload is never the key of a blob of the same organization, whatever the
-- upload's identifier and the blob's digest are.
pub upload_key-ne-blob_key :
    (org_id upload_id digest : Str) → upload_key org_id upload_id ≢ blob_key org_id digest
unfolding upload_key blob_key
upload_key-ne-blob_key org_id upload_id digest h =
    let same = append_cancel (codes "orgs/") _ _ h in
    let tails = append_cancel org_id _ _ same in ground (arith, tails)
