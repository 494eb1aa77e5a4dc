-- ===== src/Registry/Uploads/Session.antt =====
-- `UploadSession::write`: append bytes, and flush full parts to the store.
pub mod Bytes
pub mod Torn
pub mod Same
use ruskery.Common.{
  ℕ, zero, suc, ◌+◌, ◌%◌, ◌^◌, ◌++◌, Bool, true, false, Option, none, some, List, [], ◌∷◌, Str,
  length, take, drop, leb, if◌then◌else◌,
}
use ruskery.Error.{Result, ok, err, other}
use ruskery.Storage.{ObjectStore, CompletedPart}
use ruskery.Registry.Uploads.{UploadSession, part_size}

-- `self.buffer.drain(..PART_SIZE)`: the part, and what stays.
unfoldable pub full_part : Str → Str
full_part buffer = take part_size buffer

unfoldable pub after_part : Str → Str
after_part buffer = drop part_size buffer

module _ {State : Type 0} (store : ObjectStore State) where
  -- One round of the loop: the part leaves the buffer before it is uploaded.
  unfoldable pub flush_part : UploadSession → State → Result (Unit {0}) × UploadSession × State
  flush_part s st =
      let drained = record s { buffer = after_part s.buffer } in
      let (answer, st') =
        store.upload_part s.temp_key s.s3_upload_id s.next_part (full_part s.buffer) st in
      elim answer [
        | none ↦ (err other, drained, st')
        | some tag ↦ (
          ok tt,
          record drained {
            parts = s.parts ++ record { part_number = s.next_part; e_tag = tag } ∷ [];
            next_part = s.next_part + 1;
          },
          st',
        )
      ]

  abbrev continue :
      (UploadSession → State → Result (Unit {0}) × UploadSession × State)
      → Result (Unit {0}) × UploadSession × State
      → Result (Unit {0}) × UploadSession × State
  continue k (ok _, s, st) = k s st
  continue k (err e, s, st) = (err e, s, st)

  -- `while self.buffer.len() >= PART_SIZE`
  flush_loop : ℕ → UploadSession → State → Result (Unit {0}) × UploadSession × State
  flush_loop zero s st = (ok tt, s, st)
  flush_loop (suc fuel) s st =
      if leb part_size (length s.buffer)
      then continue (flush_loop fuel) (flush_part s st)
      else (ok tt, s, st)

  -- Every round takes bytes from the buffer, so its length is fuel enough.
  unfoldable pub write : ℕ → Str → UploadSession → State → Result (Unit {0}) × UploadSession × State
  unfolding flush_loop flush_part
  write now chunk s st =
      flush_loop (length (s.buffer ++ chunk))
        (record s {
          last_activity = now;
          hasher = s.hasher ++ chunk;
          total = (s.total + length chunk) % 2 ^ 64;
          buffer = s.buffer ++ chunk;
        })
        st
