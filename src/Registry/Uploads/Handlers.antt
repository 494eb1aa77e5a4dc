-- ===== src/Registry/Uploads/Handlers.antt =====
-- The handlers of src/registry/uploads.rs. The clock, the new identifiers and the request's body, a
-- list of chunks of which a `none` is a read error, are arguments.
pub mod Bound
pub mod Calls
pub mod Admission
pub mod Start
pub mod Chunks
pub mod Finish
pub mod Commit
pub mod Outcome
use ruskery.Common.{
  ℕ, zero, ◌+◌, ◌-◌, ◌^◌, ◌++◌, min, Bool, true, false, not, ◌&&◌, Option, none, some, List, [],
  ◌∷◌, Str, codes, str_eq, split, trim, parse_u64, decimal, ltb, leb, ◌==◌, if◌then◌else◌, and_then,
  option_map, length,
}
use ruskery.Common.Int.{ℤ, pos_part, as_i64}
use ruskery.Error.{Error, oci, other, bad_request, Result, ok, err, Response, no_body}
use ruskery.Db.{Db}
use ruskery.Storage.{ObjectStore, upload_key}
use ruskery.Registry.Uploads.{UploadSession}
use ruskery.Registry.Uploads.Slots.{UploadRegistry}
use ruskery.Registry.Uploads.Slots

-- What the handlers change.
pub record World (State : Type 0) : Type 0 where
  pub uploads : UploadRegistry
  pub store : State
  pub db : Db

abbrev pub Answer : Type 0 → Type 0
Answer State = Result Response × World State

unfoldable pub unknown_upload : Error
unknown_upload = oci 404 (codes "BLOB_UPLOAD_UNKNOWN") (codes "unknown upload")

unfoldable pub blob_too_large : ℕ → Error
blob_too_large max =
    oci 413 (codes "SIZE_INVALID")
      (codes "blob exceeds the maximum allowed size of " ++ (decimal max ++ codes " bytes"))

unfoldable pub quota_exceeded : Error
quota_exceeded = oci 403 (codes "DENIED") (codes "organization storage quota exceeded")

unfoldable pub too_many_uploads : Error
too_many_uploads =
    oci 429 (codes "TOOMANYREQUESTS") (codes "too many concurrent uploads; retry shortly")

unfoldable pub locked_session : UploadRegistry → Str → Str → Result UploadSession
unfolding unknown_upload
locked_session r upload_id org_id = elim (Slots.get r upload_id) [
  | none ↦ err unknown_upload
  | some s ↦ if str_eq s.org_id org_id then ok s else err unknown_upload
]

abbrev upload_location : Str → Str → Str
upload_location name upload_id = codes "/v2/" ++ (name ++ (codes "/blobs/uploads/" ++ upload_id))

abbrev pub progress : ℕ → Str → Str → ℕ → List (Str × Str) → Response
progress status name upload_id total more = record {
  status = status;
  headers =
      (codes "location", upload_location name upload_id)
      ∷ (codes "range", codes "0-" ++ decimal (total - 1))
      ∷ (codes "docker-upload-uuid", upload_id)
      ∷ more;
  body = no_body;
}

abbrev content_length_0 : List (Str × Str)
content_length_0 = (codes "content-length", codes "0") ∷ []

unfoldable pub accepted_response : Str → Str → ℕ → Response
accepted_response name upload_id total = progress 202 name upload_id total content_length_0

unfoldable pub range_mismatch : Str → Str → ℕ → Response
range_mismatch name upload_id total = progress 416 name upload_id total []

abbrev pub blob_headers : Str → Str → List (Str × Str) → List (Str × Str)
blob_headers name digest more =
    (codes "location", codes "/v2/" ++ (name ++ (codes "/blobs/" ++ digest)))
    ∷ (codes "docker-content-digest", digest)
    ∷ more

unfoldable pub mounted_response : Str → Str → Response
mounted_response name digest = record {
  status = 201;
  headers = blob_headers name digest content_length_0;
  body = no_body;
}

unfoldable pub created_response : Str → Str → Response
created_response name digest = record {
  status = 201;
  headers = blob_headers name digest [];
  body = no_body;
}

module _ {State : Type 0} (store : ObjectStore State) where
  abbrev pub abort : UploadSession → State → State
  abort s st = (store.abort_multipart s.temp_key s.s3_upload_id st).1

  -- `status`
  unfoldable pub upload_status : Str → Str → Str → World State → Answer State
  upload_status org_id name upload_id w = elim (locked_session w.uploads upload_id org_id) [
    | err e ↦ (err e, w)
    | ok s ↦ (ok (progress 204 name upload_id s.total []), w)
  ]

  unfoldable pub cancel : Str → Str → World State → Answer State
  cancel org_id upload_id w =
      let done : Result Response = ok (record { status = 204; headers = []; body = no_body }) in
      elim (locked_session w.uploads upload_id org_id) [
        | err e ↦ (done, w)
        | ok s ↦
            (done, record w { store = abort s w.store; uploads = Slots.remove w.uploads upload_id })
      ]
