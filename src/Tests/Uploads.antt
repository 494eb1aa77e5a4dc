-- ===== src/Tests/Uploads.antt =====
-- Blob uploads at a store that answers every call, and at one that refuses every part.
use ruskery.Common.{
  ℕ, zero, suc, ◌+◌, ◌%◌, ◌^◌, ◌≡◌, ◌≢◌, refl, sym, ◌∙◌, ap, ◌++◌, Bool, false, none, some, [], ◌∷◌,
  Str, codes, length, inl, inr, ◌⊎◌,
}
use ruskery.Error.{Result, err}
use ruskery.Storage.{upload_key}
use ruskery.Registry.Uploads.{UploadSession, max_active_sessions, session_idle_ttl, part_size}
use ruskery.Registry.Uploads.Slots
use ruskery.Registry.Uploads.Session.{write}
use ruskery.Registry.Uploads.Session.Bytes.{IsWhole, Written, write-Written}
use ruskery.Registry.Uploads.Handlers.{
  World, too_many_uploads, locked_session, created_response, cancel,
}
use ruskery.Registry.Uploads.Handlers.Start.{start, fresh_session}
use ruskery.Registry.Uploads.Handlers.Finish.{Limits, finish}
use ruskery.Registry.Uploads.Handlers.Outcome.{Committed, finish-Committed}
use ruskery.Registry.Uploads.Handlers.Calls.{Calls, none_yet, next, started, Calls-bounded}
use ruskery.Registry.Uploads.Handlers.Admission.{start-admitted}
use ruskery.Tests.Access.{db}
use ruskery.Tests.Instances.{Bucket, bucket_store, full_store}

abbrev session : UploadSession
session = record {
  org_id = codes "o1";
  name = codes "acme/app";
  temp_key = codes "orgs/o1/_uploads/s1";
  s3_upload_id = codes "m1";
  hasher = codes "he";
  buffer = codes "he";
  parts = [];
  next_part = 1;
  total = 2;
  finalizing = false;
  last_activity = 0;
}

abbrev bucket : Bucket
bucket = record { objects = []; parts = [] }

session-IsWhole : IsWhole bucket_store session bucket
session-IsWhole = record { contents = []; stored = refl; whole = refl; numbered = tt }

write-Written_example :
    Written bucket_store (codes "hello") (write bucket_store 7 (codes "llo") session bucket)
write-Written_example = write-Written bucket_store 7 (codes "llo") session bucket session-IsWhole

abbrev world : World Bucket
world = record {
  uploads = record { sessions = (codes "s1", session) ∷ []; slots = 4999 };
  store = bucket;
  db = db;
}

-- Sixty-four hexadecimal digits.
abbrev hex : Str
hex = codes "aaaaaaaaaaaaaaaaaaaaaaaaaaaaaaaaaaaaaaaaaaaaaaaaaaaaaaaaaaaaaaaa"

abbrev digest : Str
digest = codes "sha256:" ++ hex

abbrev limits : Limits
limits = record { max_blob_bytes = 0; default_storage_bytes = 0 }

finish-Committed_example :
    Committed bucket_store
      (λ s. hex)
      (codes "o1")
      (codes "s1")
      digest
      (codes "hello")
      (finish bucket_store
        (λ s. hex)
        limits
        7
        (codes "t")
        (codes "o1")
        (codes "acme/app")
        (codes "s1")
        digest
        (some (codes "llo") ∷ [])
        world).1
unfolding finish locked_session Slots.get upload_key ruskery.Common.str_eq
    ruskery.Registry.Uploads.Handlers.Chunks.absorb write
    ruskery.Registry.Uploads.Handlers.Chunks.over ruskery.Registry.Digest.digests_equal
    ruskery.Common.split_once ruskery.Registry.Uploads.Handlers.Finish.computed_digest
    ruskery.Common.lower ruskery.Auth.Scope.is_hex
    ruskery.Registry.Uploads.Handlers.Finish.over_quota ruskery.Db.Content.blob_exists
    ruskery.Db.Orgs.org_quota_bytes ruskery.Tests.Instances.copy_object ruskery.Tests.Instances.look
finish-Committed_example =
    finish-Committed bucket_store (λ s. hex) limits 7 (codes "t") (codes "o1") (codes "acme/app")
      (codes "s1") digest (some (codes "llo") ∷ []) world session
      (created_response (codes "acme/app") digest) refl session-IsWhole refl refl refl

abbrev idle : World Bucket
idle = record { uploads = record { sessions = []; slots = 5000 }; store = bucket; db = db }

abbrev opened : World Bucket
opened = (start bucket_store 7 (codes "s1") (codes "o1") (codes "acme/app") none idle).1

Calls-bounded_example : opened.uploads.slots + length opened.uploads.sessions ≡ max_active_sessions
unfolding Slots.new
Calls-bounded_example =
    Calls-bounded bucket_store (λ s. hex) limits refl
      (next none_yet (started 7 (codes "s1") (codes "o1") (codes "acme/app") none refl))

abbrev first_call : Calls bucket_store (λ s. hex) limits idle opened
first_call = next none_yet (started 7 (codes "s1") (codes "o1") (codes "acme/app") none refl)

abbrev first_entry : Str × UploadSession
first_entry = (
  codes "s1",
  fresh_session bucket_store 7 (codes "o1") (codes "acme/app") (codes "s1")
      (upload_key (codes "o1") (codes "s1")),
)

-- An hour later the session of the first call is idle.
start-admitted_example :
    (start bucket_store
      (7 + session_idle_ttl)
      (codes "s2")
      (codes "o1")
      (codes "acme/app")
      none
      opened).0
    ≢ err too_many_uploads
unfolding Slots.new start Slots.acquire Slots.insert fresh_session session_idle_ttl
start-admitted_example =
    start-admitted bucket_store (λ s. hex) limits (7 + session_idle_ttl) (codes "s2") (codes "o1")
      (codes "acme/app") none refl first_call (inr (first_entry, inl refl, refl))

unfoldable zeros : ℕ → Str
zeros zero = []
zeros (suc n) = 0 ∷ zeros n

abbrev fresh : UploadSession
fresh = record session { hasher = []; buffer = []; total = 0 }

-- A part of zeros, that the store refuses.
refused : Result (Unit {0}) × UploadSession × Bucket
refused = write full_store 7 (zeros part_size) fresh bucket
