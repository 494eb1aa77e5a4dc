-- ===== src/Registry/Uploads/Handlers/Calls.antt =====
-- Sequences of handler calls on upload sessions (src/registry/uploads.rs).
use ruskery.Common.{ℕ, ◌+◌, ◌≡◌, sym, subst, Option, List, Str, arith, length}
use ruskery.Storage.{ObjectStore}
use ruskery.Registry.Uploads.{max_active_sessions}
use ruskery.Registry.Uploads.Slots.{new}
use ruskery.Registry.Uploads.Slots.Bound.{IsBalanced, new-IsBalanced}
use ruskery.Registry.Uploads.Handlers.{World, cancel}
use ruskery.Registry.Uploads.Handlers.Start.{reap, start}
use ruskery.Registry.Uploads.Handlers.Chunks.{patch}
use ruskery.Registry.Uploads.Handlers.Finish.{Limits, finish}
use ruskery.Registry.Uploads.Handlers.Bound.{
  Balanced, start-Balanced, patch-Balanced, cancel-Balanced, reap-Balanced, finish-Balanced,
}

module _ {State : Type 0} (store : ObjectStore State) (sha256_hex : Str → Str)
    (limits : Limits) where
  -- One call of a handler, or one sweep of the idle sessions.
  pub data Call (w v : World State) : Type 0 where
    started :
        (now : ℕ) (upload_id org_id name : Str) (mount : Option Str)
        → v ≡ (start store now upload_id org_id name mount w).1
        → Call w v
    patched :
        (now max_blob : ℕ) (org_id name upload_id : Str) (range : Option Str)
        (body : List (Option Str))
        → v ≡ (patch store now max_blob org_id name upload_id range body w).1
        → Call w v
    finished :
        (instant : ℕ) (now org_id name upload_id expected : Str) (body : List (Option Str))
        → v ≡ (finish store sha256_hex limits instant now org_id name upload_id expected body w).1
        → Call w v
    cancelled : (org_id upload_id : Str) → v ≡ (cancel store org_id upload_id w).1 → Call w v
    reaped : (now : ℕ) → v ≡ reap store now w → Call w v

  pub data Calls (w : World State) : World State → Type 0 where
    none_yet : Calls w w
    next : {v u : World State} → Calls w v → Call v u → Calls w u

  Call-Balanced : {w v : World State} → Call w v → Balanced store w → Balanced store v
  Call-Balanced {w} (started now upload_id org_id name mount e) b =
      rw e (start-Balanced store now upload_id org_id name mount w b)
  Call-Balanced {w} (patched now max_blob org_id name upload_id range body e) b =
      rw e (patch-Balanced store now max_blob org_id name upload_id range body w b)
  Call-Balanced {w} (finished instant now org_id name upload_id expected body e) b =
      rw e (
        finish-Balanced store sha256_hex limits instant now org_id name upload_id expected body w b)
  Call-Balanced {w} (cancelled org_id upload_id e) b =
      rw e (cancel-Balanced store org_id upload_id w b)
  Call-Balanced {w} (reaped now e) b = rw e (reap-Balanced store now w b)

  Calls-Balanced : {w v : World State} → Calls w v → Balanced store w → Balanced store v
  Calls-Balanced none_yet b = b
  Calls-Balanced (next cs c) b = Call-Balanced c (Calls-Balanced cs b)

  -- From an empty registry, whatever the handlers and the sweep are called with and whatever the
  -- store answers: the free permits and the sessions always add up to the limit, so that at most
  -- that many sessions are held and no permit is lost.
  pub Calls-bounded :
      {w v : World State}
      → w.uploads ≡ new
      → Calls w v
      → v.uploads.slots + length v.uploads.sessions ≡ max_active_sessions
  unfolding Balanced
  Calls-bounded {w} e cs =
      let b = Calls-Balanced cs (subst (IsBalanced 0) (sym e) new-IsBalanced) in
      omega (arith, b.balance)
