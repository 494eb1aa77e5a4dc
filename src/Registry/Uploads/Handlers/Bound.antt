-- ===== src/Registry/Uploads/Handlers/Bound.antt =====
-- The permits of the upload sessions under each handler of src/registry/uploads.rs.
use ruskery.Common.{
  ℕ, Bool, true, false, Option, none, some, List, Str, Option-cases, Bool-cases, inl, inr,
  if◌then◌else◌,
}
use ruskery.Error.{ok, err, Error, Result-cases}
use ruskery.Db.Content.{blob_exists}
use ruskery.Storage.{ObjectStore, upload_key, blob_key}
use ruskery.Registry.Digest.{digests_equal}
use ruskery.Registry.Uploads.{UploadSession, session_idle_ttl}
use ruskery.Registry.Uploads.Slots.{acquire, update, remove}
use ruskery.Registry.Uploads.Slots.Bound.{
  IsBalanced, remove-IsBalanced, insert-IsBalanced, update-IsBalanced, acquire-IsBalanced,
  release-IsBalanced, take_expired-IsBalanced,
}
use ruskery.Registry.Uploads.Handlers.{
  World, Answer, locked_session, cancel, too_many_uploads, quota_exceeded, accepted_response,
  blob_too_large,
}
use ruskery.Registry.Uploads.Handlers.Start.{
  reap, admission, fresh_session, open_session, start_session, start,
}
use ruskery.Registry.Uploads.Handlers.Chunks.{
  Absorbed, taken, failed, oversize, absorb, out_of_order, patch_body, patch,
}
use ruskery.Registry.Uploads.Handlers.Finish.{
  Limits, computed_digest, digest_mismatch, over_quota, temp_object, publish, give_up, verify,
  after_body, finish,
}

module _ {State : Type 0} (store : ObjectStore State) where
  unfoldable pub Balanced : World State → Type 0
  Balanced w = IsBalanced 0 w.uploads

  either :
      (t : Bool) (x y : Answer State)
      → Balanced x.1
      → Balanced y.1
      → Balanced (if t then x else y).1
  either true x y b c = b
  either false x y b c = c

  pub reap-Balanced : (now : ℕ) (w : World State) → Balanced w → Balanced (reap store now w)
  unfolding reap Balanced
  reap-Balanced now w b = take_expired-IsBalanced now session_idle_ttl b

  open_session-Balanced :
      (now : ℕ) (upload_id org_id name : Str) (w : World State)
      → IsBalanced 1 w.uploads
      → Balanced (open_session store now upload_id org_id name w).1
  unfolding open_session Balanced
  open_session-Balanced now upload_id org_id name w b =
      elim (Option-cases (store.create_multipart (upload_key org_id upload_id) w.store).0) [
        | inl e ↦ rw (open_session, e) (release-IsBalanced b)
        | inr (s3_upload_id, e) ↦
            rw (open_session, e)
              (insert-IsBalanced upload_id
                (fresh_session store now org_id name upload_id s3_upload_id) b)
      ]

  -- An admitted world has one permit taken.
  abbrev Admitted : Option (World State) × World State → Type 0
  Admitted (none, w) = Balanced w
  Admitted (some w', w) = IsBalanced 1 w'.uploads

  admission-Admitted : (now : ℕ) (w : World State) → Balanced w → Admitted (admission store now w)
  unfolding admission Balanced
  admission-Admitted now w b = elim (Option-cases (acquire w.uploads)) [
    | inr (r, e) ↦ rw (Admitted, admission, e) (acquire-IsBalanced b e)
    | inl e ↦
        rw (Admitted, admission, e)
          (elim (Option-cases (acquire (reap store now w).uploads)) [
            | inr (r, f) ↦
                rw (Admitted, admission, f) (acquire-IsBalanced (reap-Balanced now w b) f)
            | inl f ↦ rw (Admitted, admission, f) (reap-Balanced now w b)
          ])
  ]

  opened-Balanced :
      (now : ℕ) (upload_id org_id name : Str) (p : Option (World State) × World State)
      → Admitted p
      → Balanced
          (elim p.0 as (λ _. Answer State) [
            | none ↦ (err too_many_uploads, p.1)
            | some w' ↦ open_session store now upload_id org_id name w'
          ]).1
  opened-Balanced now upload_id org_id name (none, w) b = b
  opened-Balanced now upload_id org_id name (some w', w) b =
      open_session-Balanced now upload_id org_id name w' b

  start_session-Balanced :
      (now : ℕ) (upload_id org_id name : Str) (w : World State)
      → Balanced w
      → Balanced (start_session store now upload_id org_id name w).1
  unfolding start_session
  start_session-Balanced now upload_id org_id name w b =
      opened-Balanced now upload_id org_id name (admission store now w) (admission-Admitted now w b)

  pub start-Balanced :
      (now : ℕ) (upload_id org_id name : Str) (mount : Option Str) (w : World State)
      → Balanced w
      → Balanced (start store now upload_id org_id name mount w).1
  unfolding start
  start-Balanced now upload_id org_id name none w b =
      start_session-Balanced now upload_id org_id name w b
  start-Balanced now upload_id org_id name (some digest) w b =
      elim (Bool-cases (blob_exists w.db org_id digest)) [
        | inl e ↦ rw e b
        | inr e ↦ rw e (start_session-Balanced now upload_id org_id name w b)
      ]

  ended-Balanced :
      (max_blob : ℕ) (name upload_id : Str) (end : Absorbed) (st : State) (w : World State)
      → Balanced w
      → Balanced
          (elim end as (λ _. Answer State) [
            | taken s' ↦ (
              ok (accepted_response name upload_id s'.total),
              record w { uploads = update w.uploads upload_id s'; store = st },
            )
            | failed e s' ↦
                (err e, record w { uploads = update w.uploads upload_id s'; store = st })
            | oversize s' ↦ (
              err (blob_too_large max_blob),
              record w { uploads = remove w.uploads upload_id; store = st },
            )
          ]).1
  unfolding Balanced
  ended-Balanced max_blob name upload_id (taken s) st w b = update-IsBalanced upload_id s b
  ended-Balanced max_blob name upload_id (failed e s) st w b = update-IsBalanced upload_id s b
  ended-Balanced max_blob name upload_id (oversize s) st w b = remove-IsBalanced upload_id b

  pub patch-Balanced :
      (now max_blob : ℕ) (org_id name upload_id : Str) (range : Option Str)
      (body : List (Option Str)) (w : World State)
      → Balanced w
      → Balanced (patch store now max_blob org_id name upload_id range body w).1
  unfolding patch patch_body
  patch-Balanced now max_blob org_id name upload_id range body w b =
      elim (Result-cases (locked_session w.uploads upload_id org_id)) [
        | inr (e, h) ↦ rw (patch, h) b
        | inl (s, h) ↦
            rw (patch, h)
              (either s.finalizing _ _ b (
                either (out_of_order store range s) _ _ b (
                  ended-Balanced max_blob name upload_id
                    (absorb store now max_blob body s w.store).0
                    (absorb store now max_blob body s w.store).1 w b)))
      ]

  pub cancel-Balanced :
      (org_id upload_id : Str) (w : World State)
      → Balanced w
      → Balanced (cancel store org_id upload_id w).1
  unfolding cancel Balanced
  cancel-Balanced org_id upload_id w b =
      elim (Result-cases (locked_session w.uploads upload_id org_id)) [
        | inr (e, h) ↦ rw (cancel, h) b
        | inl (s, h) ↦ rw (cancel, h) (remove-IsBalanced upload_id b)
      ]

  publish-Balanced :
      (now upload_id name digest : Str) (r : Bool × UploadSession × State) (w : World State)
      → Balanced w
      → Balanced (publish store now upload_id name digest r w).1
  unfolding publish Balanced
  publish-Balanced now upload_id name digest (false, s, st) w b = update-IsBalanced upload_id s b
  publish-Balanced now upload_id name digest (true, s, st) w b =
      either (store.copy s.temp_key (blob_key s.org_id digest) st).0 _ _
        (remove-IsBalanced upload_id b) (update-IsBalanced upload_id s b)

  give_up-Balanced :
      (upload_id : Str) (e : Error) (s : UploadSession) (st : State) (w : World State)
      → Balanced w
      → Balanced (give_up store upload_id e s st w).1
  unfolding give_up Balanced
  give_up-Balanced upload_id e s st w b = remove-IsBalanced upload_id b

module _ {State : Type 0} (store : ObjectStore State) (sha256_hex : Str → Str)
    (limits : Limits) where
  after_body-Balanced :
      (now name upload_id expected : Str) (r : Absorbed × State) (w : World State)
      → Balanced store w
      → Balanced store (after_body store sha256_hex limits now name upload_id expected r w).1
  unfolding after_body verify Balanced
  after_body-Balanced now name upload_id expected (taken s, st) w b =
      let digest = computed_digest sha256_hex s in
      either store (digests_equal digest expected) _ _
        (either store (over_quota limits w.db s.org_id digest s.total) _ _
          (give_up-Balanced store upload_id quota_exceeded s st w b)
          (publish-Balanced store now upload_id name digest (temp_object store s st) w b))
        (give_up-Balanced store upload_id (digest_mismatch digest expected) s st w b)
  after_body-Balanced now name upload_id expected (failed e s, st) w b =
      update-IsBalanced upload_id s b
  after_body-Balanced now name upload_id expected (oversize s, st) w b =
      remove-IsBalanced upload_id b

  pub finish-Balanced :
      (instant : ℕ) (now org_id name upload_id expected : Str) (body : List (Option Str))
      (w : World State)
      → Balanced store w
      → Balanced store
          (finish store sha256_hex limits instant now org_id name upload_id expected body w).1
  unfolding finish
  finish-Balanced instant now org_id name upload_id expected body w b =
      elim (Result-cases (locked_session w.uploads upload_id org_id)) [
        | inr (e, h) ↦ rw (finish, h) b
        | inl (s, h) ↦
            rw (finish, h)
              (either store s.finalizing _ _ b (
                after_body-Balanced now name upload_id expected
                  (absorb store instant limits.max_blob_bytes body (record s { finalizing = true })
                    w.store)
                  w b))
      ]
