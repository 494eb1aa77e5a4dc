-- ===== src/Registry/Uploads/Session/Same.antt =====
-- What a write to an upload session leaves alone (src/registry/uploads.rs).
use ruskery.Common.{ℕ, zero, suc, ◌≡◌, ◌++◌, Str, length, arith}
use ruskery.Storage.{ObjectStore}
use ruskery.Registry.Uploads.{UploadSession}
use ruskery.Registry.Uploads.Session.{flush_part, flush_loop, write}

-- The same upload: its organization, keys and finalizing mark do not change.
pub record SameUpload (s s' : UploadSession) : Type 0 where
  pub org_id : s'.org_id ≡ s.org_id
  pub temp_key : s'.temp_key ≡ s.temp_key
  pub finalizing : s'.finalizing ≡ s.finalizing

flush_part-SameUpload :
    {State : Type 0} (store : ObjectStore State) (s : UploadSession) (st : State)
    → SameUpload s (flush_part store s st).1
unfolding flush_part
flush_part-SameUpload store s st = ground arith

flush_loop-SameUpload :
    {State : Type 0} (store : ObjectStore State) (fuel : ℕ) (s : UploadSession) (st : State)
    → SameUpload s (flush_loop store fuel s st).1
unfolding flush_loop
flush_loop-SameUpload store zero s st = ground arith
flush_loop-SameUpload store (suc fuel) s st =
    let r = flush_part store s st in
    ground (arith, flush_part-SameUpload store s st, flush_loop-SameUpload store fuel r.1 r.2)

pub write-SameUpload :
    {State : Type 0} (store : ObjectStore State) (now : ℕ) (chunk : Str) (s : UploadSession)
    (st : State)
    → SameUpload s (write store now chunk s st).1
unfolding write
write-SameUpload store now chunk s st =
    let t = flush_loop-SameUpload store (length (s.buffer ++ chunk)) _ st in
    record { org_id = t.org_id; temp_key = t.temp_key; finalizing = t.finalizing }
