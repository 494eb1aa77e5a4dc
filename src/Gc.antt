-- ===== src/Gc.antt =====
-- src/gc.rs: one sweep over the blobs that no manifest references. `cutoff` is the time before which
-- a blob must have been recorded. The count of collected blobs is kept; the timer is left out.
pub mod Safety
use ruskery.Common.{ℕ, ◌+◌, Bool, true, false, List, [], ◌∷◌, Str, if◌then◌else◌}
use ruskery.Db.{Db}
use ruskery.Db.Content.{unreferenced_blobs, delete_blob}
use ruskery.Storage.{ObjectStore, blob_key}

pub record Swept (State : Type 0) : Type 0 where
  pub collected : ℕ
  pub db : Db
  pub store : State

module _ {State : Type 0} (store : ObjectStore State) where
  -- One blob: its row goes only if its object could be deleted.
  unfoldable pub collect_one : Str × Str → Swept State → Swept State
  collect_one (org_id, digest) s =
      let (done, st) = store.delete (blob_key org_id digest) s.store in
      if done
      then record { collected = s.collected + 1; db = delete_blob s.db org_id digest; store = st }
      else record s { store = st }

  unfoldable pub collect : List (Str × Str) → Swept State → Swept State
  collect [] s = s
  collect (b ∷ bs) s = collect bs (collect_one b s)

  unfoldable pub run : Str → Db → State → Swept State
  run cutoff db st =
      collect (unreferenced_blobs db cutoff) (record { collected = 0; db = db; store = st })
