-- ===== src/Proxy/Stream.antt =====
-- `stream_to_storage` of src/proxy.rs: a response's body goes into the object store in parts, and is
-- committed only if it has the expected digest. The running SHA-256 is the text it has been fed.
pub mod Whole
use ruskery.Common.{
  ℕ, zero, suc, ◌+◌, ◌*◌, ◌%◌, ◌^◌, ◌++◌, Bool, true, false, not, ◌&&◌, Option, none, some, List,
  [], ◌∷◌, Str, codes, take, drop, length, ltb, leb, if◌then◌else◌, decimal,
}
use ruskery.Common.Int.{ℤ, as_i64}
use ruskery.Error.{Error, oci, other, Result, ok, err}
use ruskery.Storage.{ObjectStore, CompletedPart}
use ruskery.Registry.Digest.{digests_equal}
use ruskery.Proxy.{upstream_error}

abbrev pub part_size : ℕ
part_size = 8 * 1024 * 1024

pub record Streaming : Type 0 where
  pub hasher : Str
  pub buffer : Str
  pub parts : List CompletedPart
  pub next_part : ℕ
  pub total : ℕ

abbrev pub nothing_yet : Streaming
nothing_yet = record { hasher = []; buffer = []; parts = []; next_part = 1; total = 0 }

unfoldable pub blob_too_large : ℕ → Error
blob_too_large max =
    oci 413 (codes "SIZE_INVALID") (
      codes "upstream blob exceeds the maximum allowed size of " ++ (decimal max ++ codes " bytes"))

unfoldable pub digest_mismatch : Str → Str → Error
digest_mismatch computed expected =
    upstream_error (
      codes "upstream blob digest mismatch: got "
      ++ (computed ++ (codes ", expected " ++ expected)))

module _ {State : Type 0} (store : ObjectStore State) (key upload_id : Str) where
  -- A failure is logged and else ignored.
  unfoldable pub abort_multipart_logged : State → State
  abort_multipart_logged st = (store.abort_multipart key upload_id st).1

  -- One part leaves the buffer.
  unfoldable pub upload_next : Streaming → State → Bool × Streaming × State
  upload_next s st =
      let drained = record s { buffer = drop part_size s.buffer } in
      let (answer, st') =
        store.upload_part key upload_id s.next_part (take part_size s.buffer) st in
      elim answer [
        | none ↦ (false, drained, st')
        | some tag ↦ (
          true,
          record drained {
            parts = s.parts ++ record { part_number = s.next_part; e_tag = tag } ∷ [];
            next_part = s.next_part + 1;
          },
          st',
        )
      ]

  abbrev pub onward :
      (Streaming → State → Bool × Streaming × State)
      → Bool × Streaming × State
      → Bool × Streaming × State
  onward k (true, s, st) = k s st
  onward k (false, s, st) = (false, s, st)

  -- `while buffer.len() >= PART_SIZE`; every round shortens the buffer, so its length is fuel enough.
  unfoldable pub upload_parts : ℕ → Streaming → State → Bool × Streaming × State
  unfolding upload_next
  upload_parts zero s st = (true, s, st)
  upload_parts (suc fuel) s st =
      if leb part_size (length s.buffer)
      then onward (upload_parts fuel) (upload_next s st)
      else (true, s, st)

  abbrev pub next_chunk :
      (Streaming → State → Option Error × Streaming × State)
      → Bool × Streaming × State
      → Option Error × Streaming × State
  next_chunk k (true, s, st) = k s st
  next_chunk k (false, s, st) = (some other, s, st)

  unfoldable pub fed : Str → Streaming → Streaming
  fed chunk s = record s { hasher = s.hasher ++ chunk; total = (s.total + length chunk) % 2 ^ 64 }

  unfoldable pub is_over : ℕ → Streaming → Bool
  is_over max_blob s = ltb 0 max_blob && ltb max_blob s.total

  -- `while let Some(chunk) = stream.next().await`
  unfoldable pub stream_body :
      ℕ → List (Option Str) → Streaming → State → Option Error × Streaming × State
  unfolding upload_parts fed is_over
  stream_body max_blob [] s st = (none, s, st)
  stream_body max_blob (none ∷ body) s st =
      (some (upstream_error (codes "reading upstream blob")), s, st)
  stream_body max_blob (some chunk ∷ body) s st =
      let s' = fed chunk s in
      let grown = record s' { buffer = s.buffer ++ chunk } in
      let rest =
        next_chunk (stream_body max_blob body) (upload_parts (length grown.buffer) grown st) in
      if is_over max_blob s' then (some (blob_too_large max_blob), s', st) else rest

  -- A buffer that is left becomes the last part.
  unfoldable pub last_part : Streaming → State → Option (List CompletedPart) × State
  last_part s st = elim s.buffer [
    | [] ↦ (some s.parts, st)
    | b ∷ bs ↦
        let (answer, st') = store.upload_part key upload_id s.next_part (b ∷ bs) st in
        elim answer [
          | none ↦ (none, abort_multipart_logged st')
          | some tag ↦
              (some (s.parts ++ record { part_number = s.next_part; e_tag = tag } ∷ []), st')
        ]
  ]

  unfoldable pub complete : Option (List CompletedPart) × State → Bool × State
  complete (none, st) = (false, st)
  complete (some parts, st) =
      let (finished, st') = store.complete_multipart key upload_id parts st in
      (finished, if finished then st' else abort_multipart_logged st')

  -- A body without a full part is one `PutObject`; a larger one completes its multipart upload.
  unfoldable pub commit : Streaming → State → Bool × State
  unfolding last_part complete
  commit s st = elim s.parts [
    | [] ↦ store.put key s.buffer (abort_multipart_logged st)
    | p ∷ ps ↦ complete (last_part s st)
  ]

  abbrev pub total_if : ℕ → Bool × State → Result ℤ × State
  total_if total (true, st) = (ok (as_i64 total), st)
  total_if total (false, st) = (err other, st)

  -- The end of the function, after the loop.
  unfoldable pub settle : (Str → Str) → Str → Option Error × Streaming × State → Result ℤ × State
  unfolding commit
  settle sha256_hex expected (some e, s, st) = (err e, abort_multipart_logged st)
  settle sha256_hex expected (none, s, st) =
      let computed = codes "sha256:" ++ sha256_hex s.hasher in
      if not (digests_equal computed expected)
      then (err (digest_mismatch computed expected), abort_multipart_logged st)
      else total_if s.total (commit s st)

unfoldable pub stream_to_storage :
    {State : Type 0}
    → ObjectStore State
    → (Str → Str)
    → Str
    → List (Option Str)
    → Str
    → ℕ
    → State
    → Result ℤ × State
unfolding stream_body settle
stream_to_storage store sha256_hex key body expected max_blob st =
    let (created, st') = store.create_multipart key st in
    elim created [
      | none ↦ (err other, st')
      | some id ↦
          settle store key id sha256_hex expected
            (stream_body store key id max_blob body nothing_yet st')
    ]
