-- ===== src/Registry/Uploads/Slots.antt =====
-- `UploadRegistry` of src/registry/uploads.rs, with the admission slots: a session holds a permit
-- from before its creation until it leaves the registry. No handler holds a session's lock between
-- two calls of this model, so `try_lock` of `take_expired` succeeds.
pub mod Bound
pub mod Entries
use ruskery.Common.{
  ℕ, zero, suc, ◌+◌, ◌-◌, Bool, true, false, not, ◌&&◌, Option, none, some, List, [], ◌∷◌, map, Str,
  str_eq, leb, if◌then◌else◌, filter, find_row, option_map, length,
}
use ruskery.Registry.Uploads.{UploadSession, max_active_sessions}

pub record UploadRegistry : Type 0 where
  pub sessions : List (Str × UploadSession)
  -- The permits of `SESSION_SLOTS` that are free.
  pub slots : ℕ

unfoldable pub new : UploadRegistry
new = record { sessions = []; slots = max_active_sessions }

abbrev pub has_id : Str → Str × UploadSession → Bool
has_id id e = str_eq e.0 id

unfoldable pub get : UploadRegistry → Str → Option UploadSession
get r id = option_map (λ e. e.1) (find_row (has_id id) r.sessions)

-- The sessions that go release their permits.
abbrev keep : (Str × UploadSession → Bool) → UploadRegistry → UploadRegistry
keep p r =
    let kept = filter p r.sessions in
    record { sessions = kept; slots = r.slots + (length r.sessions - length kept) }

unfoldable pub remove : UploadRegistry → Str → UploadRegistry
remove r id = keep (λ e. not (has_id id e)) r

-- A session under the same identifier is dropped. The permit was acquired before.
unfoldable pub insert : UploadRegistry → Str → UploadSession → UploadRegistry
unfolding remove
insert r id s = let r' = remove r id in record r' { sessions = (id, s) ∷ r'.sessions }

-- A session is changed in place, under its lock.
unfoldable pub update : UploadRegistry → Str → UploadSession → UploadRegistry
update r id s = record r { sessions = map (λ e. if has_id id e then (e.0, s) else e) r.sessions }

-- `try_acquire_owned`
unfoldable pub acquire : UploadRegistry → Option UploadRegistry
acquire r = elim r.slots [ zero ↦ none | suc n ↦ some (record r { slots = n }) ]

unfoldable pub release : UploadRegistry → UploadRegistry
release r = record r { slots = r.slots + 1 }

-- `duration_since` is 0 where the instant is later.
abbrev pub expired : ℕ → ℕ → Str × UploadSession → Bool
expired now ttl e = leb ttl (now - e.1.last_activity) && not e.1.finalizing

unfoldable pub take_expired : UploadRegistry → ℕ → ℕ → List UploadSession × UploadRegistry
take_expired r now ttl =
    (map (λ e. e.1) (filter (expired now ttl) r.sessions), keep (λ e. not (expired now ttl e)) r)
