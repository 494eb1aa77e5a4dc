-- ===== src/Registry/Uploads/Handlers/Chunks.antt =====
-- The body loop that `patch` and `finish` of src/registry/uploads.rs share, and `patch`.
use ruskery.Common.{
  ℕ, Bool, false, not, ◌&&◌, Option, none, some, List, [], ◌∷◌, Str, codes, split, trim, parse_u64,
  ltb, ◌==◌, if◌then◌else◌, and_then,
}
use ruskery.Error.{Error, Result, ok, err, bad_request}
use ruskery.Storage.{ObjectStore}
use ruskery.Registry.Uploads.{UploadSession}
use ruskery.Registry.Uploads.Session.{write}
use ruskery.Registry.Uploads.Slots
use ruskery.Registry.Uploads.Handlers.{
  World, Answer, unknown_upload, blob_too_large, locked_session, accepted_response, range_mismatch,
  abort,
}

-- How the loop ends: with the whole body taken, by a read or store error, or over the size limit.
pub data Absorbed : Type 0 where
  taken : UploadSession → Absorbed
  failed : Error → UploadSession → Absorbed
  oversize : UploadSession → Absorbed

module _ {State : Type 0} (store : ObjectStore State) where
  unfoldable pub over : ℕ → UploadSession → Bool
  over max_blob s = ltb 0 max_blob && ltb max_blob s.total

  abbrev pub after_write :
      ℕ
      → (UploadSession → State → Absorbed × State)
      → Result (Unit {0}) × UploadSession × State
      → Absorbed × State
  after_write max_blob k (err e, s, st) = (failed e s, st)
  after_write max_blob k (ok _, s, st) =
      if over max_blob s then (oversize s, abort store s st) else k s st

  -- `while let Some(chunk) = stream.next().await`
  unfoldable pub absorb : ℕ → ℕ → List (Option Str) → UploadSession → State → Absorbed × State
  absorb now max_blob [] s st = (taken s, st)
  absorb now max_blob (none ∷ body) s st = (failed (bad_request (codes "body read")) s, st)
  absorb now max_blob (some chunk ∷ body) s st =
      after_write max_blob (absorb now max_blob body) (write store now chunk s st)

  -- The start of a `Content-Range`, where it can be read.
  range_start : Str → Option ℕ
  range_start cr = elim (split b'-' (trim cr)) [ [] ↦ none | n ∷ _ ↦ parse_u64 (trim n) ]

  unfoldable pub out_of_order : Option Str → UploadSession → Bool
  unfolding range_start
  out_of_order content_range s = elim (and_then content_range range_start) [
    | none ↦ false
    | some start ↦ not (start == s.total)
  ]

  unfoldable pub patch_body :
      ℕ → ℕ → Str → Str → List (Option Str) → UploadSession → World State → Answer State
  patch_body now max_blob name upload_id body s w =
      let (end, st) = absorb now max_blob body s w.store in
      elim end [
        | taken s' ↦ (
          ok (accepted_response name upload_id s'.total),
          record w { uploads = Slots.update w.uploads upload_id s'; store = st },
        )
        | failed e s' ↦
            (err e, record w { uploads = Slots.update w.uploads upload_id s'; store = st })
        | oversize s' ↦ (
          err (blob_too_large max_blob),
          record w { uploads = Slots.remove w.uploads upload_id; store = st },
        )
      ]

  unfoldable pub patch :
      ℕ → ℕ → Str → Str → Str → Option Str → List (Option Str) → World State → Answer State
  unfolding patch_body out_of_order
  patch now max_blob org_id name upload_id content_range body w =
      elim (locked_session w.uploads upload_id org_id) [
        | err e ↦ (err e, w)
        | ok s ↦
            if s.finalizing
            then (err unknown_upload, w)
            else if out_of_order content_range s
            then (ok (range_mismatch name upload_id s.total), w)
            else patch_body now max_blob name upload_id body s w
      ]
