-- ===== src/Registry/Uploads/Handlers/Start.antt =====
-- `start` of src/registry/uploads.rs, and the sweep of idle sessions.
use ruskery.Common.{ℕ, false, Option, none, some, List, [], ◌∷◌, Str, if◌then◌else◌}
use ruskery.Error.{ok, err, other}
use ruskery.Db.Content.{blob_exists}
use ruskery.Storage.{ObjectStore, upload_key}
use ruskery.Registry.Uploads.{UploadSession, session_idle_ttl}
use ruskery.Registry.Uploads.Slots.{UploadRegistry}
use ruskery.Registry.Uploads.Slots
use ruskery.Registry.Uploads.Handlers.{
  World, Answer, too_many_uploads, accepted_response, mounted_response, abort,
}

module _ {State : Type 0} (store : ObjectStore State) where
  abort_all : List UploadSession → State → State
  abort_all [] st = st
  abort_all (s ∷ ss) st = abort_all ss (abort store s st)

  -- One round of `reap_loop`.
  unfoldable pub reap : ℕ → World State → World State
  unfolding abort_all
  reap now w =
      let (gone, uploads) = Slots.take_expired w.uploads now session_idle_ttl in
      record w { uploads = uploads; store = abort_all gone w.store }

  -- A permit, after a sweep if there is none at first; and the world in which it was refused.
  unfoldable pub admission : ℕ → World State → Option (World State) × World State
  admission now w = elim (Slots.acquire w.uploads) [
    | some r ↦ (some (record w { uploads = r }), w)
    | none ↦
        let w' = reap now w in
        elim (Slots.acquire w'.uploads) [
          | some r ↦ (some (record w' { uploads = r }), w')
          | none ↦ (none, w')
        ]
  ]

  unfoldable pub fresh_session : ℕ → Str → Str → Str → Str → UploadSession
  fresh_session now org_id name upload_id s3_upload_id = record {
    org_id = org_id;
    name = name;
    temp_key = upload_key org_id upload_id;
    s3_upload_id = s3_upload_id;
    hasher = [];
    buffer = [];
    parts = [];
    next_part = 1;
    total = 0;
    finalizing = false;
    last_activity = now;
  }

  -- After admission; the permit is released if the multipart upload cannot be created.
  unfoldable pub open_session : ℕ → Str → Str → Str → World State → Answer State
  open_session now upload_id org_id name w =
      let (answer, st) = store.create_multipart (upload_key org_id upload_id) w.store in
      elim answer [
        | none ↦ (err other, record w { uploads = Slots.release w.uploads; store = st })
        | some s3_upload_id ↦ (
          ok (accepted_response name upload_id 0),
          record w {
            uploads =
                Slots.insert w.uploads upload_id
                  (fresh_session now org_id name upload_id s3_upload_id);
            store = st;
          },
        )
      ]

  unfoldable pub start_session : ℕ → Str → Str → Str → World State → Answer State
  start_session now upload_id org_id name w =
      let (admitted, refused) = admission now w in
      elim admitted [
        | none ↦ (err too_many_uploads, refused)
        | some w' ↦ open_session now upload_id org_id name w'
      ]

  unfoldable pub start : ℕ → Str → Str → Str → Option Str → World State → Answer State
  unfolding admission open_session start_session
  start now upload_id org_id name none w = start_session now upload_id org_id name w
  start now upload_id org_id name (some digest) w =
      if blob_exists w.db org_id digest
      then (ok (mounted_response name digest), w)
      else start_session now upload_id org_id name w
