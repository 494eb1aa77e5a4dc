-- ===== src/Registry/Uploads/Handlers/Finish.antt =====
-- `finish` of src/registry/uploads.rs: verify the digest and the quota, and commit the blob.
use ruskery.Common.{
  ℕ, ◌+◌, ◌-◌, ◌^◌, ◌++◌, min, Bool, true, false, not, ◌&&◌, Option, none, some, List, [], ◌∷◌, Str,
  codes, ltb, if◌then◌else◌,
}
use ruskery.Common.Int.{ℤ, pos_part, as_i64}
use ruskery.Error.{Error, oci, other, ok, err}
use ruskery.Db.{Db}
use ruskery.Db.Content.{blob_exists, org_storage_used, record_blob}
use ruskery.Db.Orgs.{org_quota_bytes}
use ruskery.Storage.{ObjectStore, CompletedPart, blob_key}
use ruskery.Registry.Digest.{digests_equal}
use ruskery.Registry.Uploads.{UploadSession}
use ruskery.Registry.Uploads.Slots
use ruskery.Registry.Uploads.Handlers.{
  World, Answer, unknown_upload, blob_too_large, quota_exceeded, locked_session, created_response,
  abort,
}
use ruskery.Registry.Uploads.Handlers.Chunks.{Absorbed, taken, failed, oversize, absorb}

pub record Limits : Type 0 where
  pub max_blob_bytes : ℕ
  pub default_storage_bytes : ℕ

unfoldable pub digest_mismatch : Str → Str → Error
digest_mismatch computed expected =
    oci 400 (codes "DIGEST_INVALID")
      (codes "digest mismatch: got " ++ (computed ++ (codes ", expected " ++ expected)))

-- The quota in force: the organization's, else the instance's; 0 is no limit.
unfoldable pub effective_quota : Limits → Db → Str → ℕ
effective_quota limits db org_id = elim (org_quota_bytes db org_id) [
  | some bytes ↦ pos_part bytes
  | none ↦ limits.default_storage_bytes
]

-- `(used.max(0) as u64).saturating_add(total)`
unfoldable pub projected : ℤ → ℕ → ℕ
projected used total = min (pos_part used + total) (2 ^ 64 - 1)

unfoldable pub over_quota : Limits → Db → Str → Str → ℕ → Bool
unfolding effective_quota projected
over_quota limits db org_id digest total =
    let effective = effective_quota limits db org_id in
    not (blob_exists db org_id digest)
    && (ltb 0 effective && ltb effective (projected (org_storage_used db org_id) total))

module _ {State : Type 0} (store : ObjectStore State) where
  -- The parts, with the rest of the buffer uploaded as a last one.
  unfoldable pub last_part :
      UploadSession → State → Option (List CompletedPart) × UploadSession × State
  last_part s st = elim s.buffer [
    | [] ↦ (some s.parts, s, st)
    | b ∷ bs ↦
        let (answer, st') = store.upload_part s.temp_key s.s3_upload_id s.next_part (b ∷ bs) st in
        elim answer [
          | none ↦ (none, record s { buffer = [] }, st')
          | some tag ↦ (
            some (s.parts ++ record { part_number = s.next_part; e_tag = tag } ∷ []),
            record s { buffer = []; parts = [] },
            st',
          )
        ]
  ]

  -- The multipart upload is completed from these parts.
  unfoldable pub complete :
      Option (List CompletedPart) × UploadSession × State → Bool × UploadSession × State
  complete (none, s, st) = (false, s, st)
  complete (some parts, s, st) =
      let (done, st') = store.complete_multipart s.temp_key s.s3_upload_id parts st in
      (done, record s { parts = [] }, st')

  -- A small upload is one `PutObject` of the buffer; a larger one completes its multipart upload.
  unfoldable pub temp_object : UploadSession → State → Bool × UploadSession × State
  unfolding last_part complete
  temp_object s st = elim s.parts [
    | [] ↦
        let (done, st') = store.put s.temp_key s.buffer (abort store s st) in
        (done, record s { buffer = [] }, st')
    | p ∷ ps ↦ complete (last_part s st)
  ]

  -- Copy to the final key, drop the temporary object, record the blob, and forget the session.
  unfoldable pub publish :
      Str → Str → Str → Str → Bool × UploadSession × State → World State → Answer State
  publish now upload_id name digest (false, s, st) w =
      (err other, record w { uploads = Slots.update w.uploads upload_id s; store = st })
  publish now upload_id name digest (true, s, st) w =
      let (copied, st') = store.copy s.temp_key (blob_key s.org_id digest) st in
      if copied
      then (
        ok (created_response name digest),
        record w {
          uploads = Slots.remove w.uploads upload_id;
          store = (store.delete s.temp_key st').1;
          db = record_blob w.db now s.org_id digest (as_i64 s.total);
        },
      )
      else (err other, record w { uploads = Slots.update w.uploads upload_id s; store = st' })

  -- The upload is given up.
  unfoldable pub give_up : Str → Error → UploadSession → State → World State → Answer State
  give_up upload_id e s st w =
      (err e, record w { uploads = Slots.remove w.uploads upload_id; store = abort store s st })

unfoldable pub computed_digest : (Str → Str) → UploadSession → Str
computed_digest sha256_hex s = codes "sha256:" ++ sha256_hex s.hasher

module _ {State : Type 0} (store : ObjectStore State) (sha256_hex : Str → Str) where
  unfoldable pub verify :
      Limits → Str → Str → Str → Str → UploadSession → State → World State → Answer State
  unfolding temp_object publish give_up
  verify limits now name upload_id expected s st w =
      let digest = computed_digest sha256_hex s in
      if digests_equal digest expected
      then (if over_quota limits w.db s.org_id digest s.total
          then give_up store upload_id quota_exceeded s st w
          else publish store now upload_id name digest (temp_object store s st) w)
      else give_up store upload_id (digest_mismatch digest expected) s st w

  unfoldable pub after_body :
      Limits → Str → Str → Str → Str → Absorbed × State → World State → Answer State
  after_body limits now name upload_id expected (taken s, st) w =
      verify limits now name upload_id expected s st w
  after_body limits now name upload_id expected (failed e s, st) w =
      (err e, record w { uploads = Slots.update w.uploads upload_id s; store = st })
  after_body limits now name upload_id expected (oversize s, st) w = (
    err (blob_too_large limits.max_blob_bytes),
    record w { uploads = Slots.remove w.uploads upload_id; store = st },
  )

  -- `instant` is the monotonic clock's time and `now` the wall clock's.
  unfoldable pub finish :
      Limits → ℕ → Str → Str → Str → Str → Str → List (Option Str) → World State → Answer State
  unfolding after_body verify
  finish limits instant now org_id name upload_id expected body w =
      elim (locked_session w.uploads upload_id org_id) [
        | err e ↦ (err e, w)
        | ok s ↦
            if s.finalizing
            then (err unknown_upload, w)
            else after_body limits now name upload_id expected
                (absorb store instant limits.max_blob_bytes body (record s { finalizing = true })
                  w.store)
                w
      ]
