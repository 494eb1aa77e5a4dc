-- ===== src/Registry/Uploads/Session/Torn.antt =====
-- What a failed `UploadSession::write` leaves behind (src/registry/uploads.rs).
use ruskery.Common.{ℕ, zero, suc, ◌≤◌, ◌≡◌, refl, ◌++◌, true, none, Str, length, leb, arith}
use ruskery.Error.{err, other}
use ruskery.Storage.{ObjectStore}
use ruskery.Registry.Uploads.{UploadSession, part_size}
use ruskery.Registry.Uploads.Session.{full_part, flush_part, flush_loop, write}
use ruskery.Registry.Uploads.Session.{write}
use ruskery.Error.{Error}

flush_loop_refused :
    {State : Type 0} (store : ObjectStore State) (fuel : ℕ) (s : UploadSession) (st : State)
    → 1 ≤ fuel
    → leb part_size (length s.buffer) ≡ true
    → (store.upload_part s.temp_key s.s3_upload_id s.next_part (full_part s.buffer) st).0 ≡ none
    → ((flush_loop store fuel s st).0 ≡ err other)
      × ((flush_loop store fuel s st).1.parts ≡ s.parts)
unfolding flush_loop flush_part
flush_loop_refused store zero s st h big declined = absurd (omega arith)
flush_loop_refused store (suc fuel) s st h big declined =
    rw (big, flush_part, declined) (refl, refl)

-- A write whose first full part the store refuses is an error, and adds no part.
pub write_refused :
    {State : Type 0} (store : ObjectStore State) (now : ℕ) (chunk : Str) (s : UploadSession)
    (st : State)
    → leb part_size (length (s.buffer ++ chunk)) ≡ true
    → (store.upload_part s.temp_key s.s3_upload_id s.next_part (full_part (s.buffer ++ chunk)) st).0
      ≡ none
    → ((write store now chunk s st).0 ≡ err other)
      × ((write store now chunk s st).1.parts ≡ s.parts)
unfolding write
write_refused store now chunk s st big declined =
    flush_loop_refused store (length (s.buffer ++ chunk)) _ st (ground arith) big declined
