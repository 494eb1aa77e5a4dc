-- ===== src/Registry/Uploads.antt =====
-- src/registry/uploads.rs: upload sessions. The state of the running SHA-256 is the text that it has
-- been fed; `sha256_hex` is the crates' digest in hexadecimal.
pub mod Session
pub mod Slots
pub mod Handlers
use ruskery.Common.{ℕ, ◌*◌, Bool, List, Str}
use ruskery.Storage.{CompletedPart}

abbrev pub part_size : ℕ
part_size = 8 * 1024 * 1024

abbrev pub session_idle_ttl : ℕ
session_idle_ttl = 3600

abbrev pub max_active_sessions : ℕ
max_active_sessions = 5000

pub record UploadSession : Type 0 where
  pub org_id : Str
  pub name : Str
  pub temp_key : Str
  pub s3_upload_id : Str
  pub hasher : Str
  pub buffer : Str
  pub parts : List CompletedPart
  pub next_part : ℕ
  pub total : ℕ
  pub finalizing : Bool
  pub last_activity : ℕ
