-- ===== src/Registry/Uploads/Handlers/Outcome.antt =====
-- What a successful `finish` of src/registry/uploads.rs leaves behind.
use ruskery.Common.{
  ℕ, ◌≡◌, ◌≢◌, refl, sym, ◌∙◌, ap, subst, ◌++◌, Bool, true, false, Option, none, some, List, Str,
  codes, Bool-cases, inl, inr, if◌then◌else◌,
}
use ruskery.Common.Int.{as_i64}
use ruskery.Error.{ok, err, Response}
use ruskery.Db.Content.{blob_exists, record_blob}
use ruskery.Db.Content.Records.{record_blob-blob_exists}
use ruskery.Storage.{ObjectStore, blob_key, upload_key}
use ruskery.Storage.Keys.{upload_key-ne-blob_key}
use ruskery.Registry.Digest.{digests_equal}
use ruskery.Registry.Uploads.{UploadSession}
use ruskery.Registry.Uploads.Slots
use ruskery.Registry.Uploads.Slots.Entries.{get-remove}
use ruskery.Registry.Uploads.Session.Bytes.{IsWhole}
use ruskery.Registry.Uploads.Handlers.{World, Answer, locked_session}
use ruskery.Registry.Uploads.Handlers.Chunks.{Absorbed, taken, failed, oversize}
use ruskery.Registry.Uploads.Handlers.Finish.{
  Limits, computed_digest, over_quota, temp_object, publish, give_up, verify, after_body, finish,
}
use ruskery.Registry.Uploads.Handlers.Commit.{
  body_bytes, TakenIf, absorb-TakenIf, StoredIf, temp_object-StoredIf,
}

module _ {State : Type 0} (store : ObjectStore State) (sha256_hex : Str → Str) where
  -- The blob stands complete under the key of its digest, which matches the digest that the client
  -- declared; the database has it, and the session is gone.
  pub record Committed (org_id upload_id expected content : Str) (w : World State) : Type 0 where
    pub object :
        store.object (blob_key org_id (codes "sha256:" ++ sha256_hex content)) w.store
        ≡ some content
    pub matches : digests_equal (codes "sha256:" ++ sha256_hex content) expected ≡ true
    pub recorded : blob_exists w.db org_id (codes "sha256:" ++ sha256_hex content) ≡ true
    pub gone : Slots.get w.uploads upload_id ≡ none

  abbrev CommittedIf : Str → Str → Str → Str → Answer State → Type 0
  CommittedIf org_id upload_id expected content (ok r, w) =
      Committed org_id upload_id expected content w
  CommittedIf org_id upload_id expected content (err e, w) = Unit

  publish-CommittedIf :
      (s : UploadSession) (r : Bool × UploadSession × State)
      (now org_id upload_id name expected : Str) (w : World State)
      → StoredIf store s r
      → s.org_id ≡ org_id
      → s.temp_key ≡ upload_key org_id upload_id
      → digests_equal (codes "sha256:" ++ sha256_hex s.hasher) expected ≡ true
      → CommittedIf org_id upload_id expected s.hasher
          (publish store now upload_id name (codes "sha256:" ++ sha256_hex s.hasher) r w)
  unfolding publish
  publish-CommittedIf s (false, s', st) now org_id upload_id name expected w t o k d = tt
  publish-CommittedIf s (true, s', st) now org_id upload_id name expected w
        (stored, key, org, total) o k d =
      let digest = codes "sha256:" ++ sha256_hex s.hasher in
      let target = blob_key s'.org_id digest in
      let org' : s'.org_id ≡ org_id = org ∙ o in
      let st' = (store.copy s'.temp_key target st).1 in
      elim (Bool-cases (store.copy s'.temp_key target st).0) [
        | inl done ↦
            let apart : s'.temp_key ≢ target = λ e.
              upload_key-ne-blob_key org_id upload_id digest
                (sym k ∙ sym key ∙ e ∙ ap (λ o. blob_key o digest) org') in
            let object : store.object (blob_key s'.org_id digest) (store.delete s'.temp_key st').1
                ≡ some s.hasher =
              store.delete_keeps s'.temp_key target st' apart
              ∙ store.copy_stored s'.temp_key target st done
              ∙ subst (λ t. store.object t st ≡ some s.hasher) (sym key) stored in
            rw done (record {
              object =
                  subst
                    (λ o.
                      store.object (blob_key o digest) (store.delete s'.temp_key st').1
                      ≡ some s.hasher)
                    org' object;
              matches = d;
              recorded =
                  subst
                    (λ o.
                      blob_exists (record_blob w.db now o digest (as_i64 s'.total)) org_id digest
                      ≡ true)
                    (sym org') (record_blob-blob_exists w.db now org_id digest (as_i64 s'.total));
              gone = get-remove w.uploads upload_id;
            })
        | inr broken ↦ rw broken tt
      ]

  verify-CommittedIf :
      (limits : Limits) (s : UploadSession) (st : State) (now name org_id upload_id expected : Str)
      (w : World State)
      → IsWhole store s st
      → s.org_id ≡ org_id
      → s.temp_key ≡ upload_key org_id upload_id
      → CommittedIf org_id upload_id expected s.hasher
          (verify store sha256_hex limits now name upload_id expected s st w)
  unfolding verify computed_digest give_up
  verify-CommittedIf limits s st now name org_id upload_id expected w h o k =
      let digest = codes "sha256:" ++ sha256_hex s.hasher in
      elim (Bool-cases (digests_equal digest expected)) [
        | inr differ ↦ rw differ tt
        | inl same ↦ rw same (elim (Bool-cases (over_quota limits w.db s.org_id digest s.total)) [
          | inl full ↦ rw full tt
          | inr room ↦ rw room (
              publish-CommittedIf s (temp_object store s st) now org_id upload_id name expected w
                (temp_object-StoredIf store s st s.parts h refl) o k same)
        ])
      ]

  after_body-CommittedIf :
      (limits : Limits) (s : UploadSession) (bytes : Str) (r : Absorbed × State)
      (now name org_id upload_id expected : Str) (w : World State)
      → TakenIf store s bytes r
      → s.org_id ≡ org_id
      → s.temp_key ≡ upload_key org_id upload_id
      → CommittedIf org_id upload_id expected
          (s.hasher ++ bytes)
          (after_body store sha256_hex limits now name upload_id expected r w)
  unfolding after_body
  after_body-CommittedIf limits s bytes (taken s', st') now name org_id upload_id expected w t o k =
      subst
        (λ c.
          CommittedIf org_id upload_id expected c
            (verify store sha256_hex limits now name upload_id expected s' st' w))
        t.fed
        (verify-CommittedIf limits s' st' now name org_id upload_id expected w t.is_whole
          (t.same.org_id ∙ o) (t.same.temp_key ∙ k))
  after_body-CommittedIf limits s bytes (failed e _, _) now name org_id upload_id expected w t o k =
      tt
  after_body-CommittedIf limits s bytes (oversize _, _) now name org_id upload_id expected w t o k =
      tt

  CommittedIf-if :
      (org_id upload_id expected content : Str) (b : Bool) (x y : Answer State)
      → CommittedIf org_id upload_id expected content x
      → CommittedIf org_id upload_id expected content y
      → CommittedIf org_id upload_id expected content (if b then x else y)
  CommittedIf-if org_id upload_id expected content true x y c d = c
  CommittedIf-if org_id upload_id expected content false x y c d = d

  CommittedIf-ok :
      (org_id upload_id expected content : Str) (a : Answer State) (r : Response)
      → CommittedIf org_id upload_id expected content a
      → a.0 ≡ ok r
      → Committed org_id upload_id expected content a.1
  CommittedIf-ok org_id upload_id expected content (ok _, w) r c e = c
  CommittedIf-ok org_id upload_id expected content (err _, w) r c e = cc

  -- A finalize that succeeds, of a session with all its bytes: the object under the key of the
  -- computed digest is every byte that the session and this body brought, the digest is that of these
  -- bytes and equals the one declared, the database has the blob, and the session is gone.
  pub finish-Committed :
      (limits : Limits) (instant : ℕ) (now org_id name upload_id expected : Str)
      (body : List (Option Str)) (w : World State) (s : UploadSession) (r : Response)
      → locked_session w.uploads upload_id org_id ≡ ok s
      → IsWhole store s w.store
      → s.org_id ≡ org_id
      → s.temp_key ≡ upload_key org_id upload_id
      → (finish store sha256_hex limits instant now org_id name upload_id expected body w).0 ≡ ok r
      → Committed org_id upload_id expected
          (s.hasher ++ body_bytes body)
          (finish store sha256_hex limits instant now org_id name upload_id expected body w).1
  unfolding finish
  finish-Committed limits instant now org_id name upload_id expected body w s r l h o k e =
      CommittedIf-ok org_id upload_id expected (s.hasher ++ body_bytes body) _ r
        (rw (l, finish)
          (CommittedIf-if org_id upload_id expected (s.hasher ++ body_bytes body) s.finalizing _ _
            tt
            (after_body-CommittedIf limits (record s { finalizing = true }) (body_bytes body) _ now
              name org_id upload_id expected w
              (absorb-TakenIf store instant limits.max_blob_bytes body
                (record s { finalizing = true }) w.store
                (record {
                  contents = h.contents;
                  stored = h.stored;
                  whole = h.whole;
                  numbered = h.numbered;
                }))
              o k)))
        e
