-- ===== src/Registry/Uploads/Slots/Entries.antt =====
-- Which sessions the registry finds after a change.
use ruskery.Common.{◌≡◌, refl, not, none, List, [], ◌∷◌, Str, arith, filter, find_row}
use ruskery.Registry.Uploads.{UploadSession}
use ruskery.Registry.Uploads.Slots.{UploadRegistry, has_id, get, remove}

find-remove :
    (id : Str) (es : List (Str × UploadSession))
    → find_row (has_id id) (filter (λ e. not (has_id id e)) es) ≡ none
find-remove id [] = refl
find-remove id (e ∷ es) = ground (arith, find-remove id es)

pub get-remove : (r : UploadRegistry) (id : Str) → get (remove r id) id ≡ none
unfolding get remove
get-remove r id = ground (arith, find-remove id r.sessions)
