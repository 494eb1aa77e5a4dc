-- ===== src/Registry/Uploads/Slots/Bound.antt =====
-- The permits under each operation of `UploadRegistry` (src/registry/uploads.rs).
use ruskery.Common.{
  ℕ, suc, ◌+◌, ◌≤◌, ◌≡◌, refl, Bool, not, some, List, [], ◌∷◌, map, Str, arith, length, filter,
  if◌then◌else◌,
}
use ruskery.Registry.Uploads.{UploadSession, max_active_sessions}
use ruskery.Registry.Uploads.Slots.{
  UploadRegistry, has_id, new, remove, insert, update, acquire, release, take_expired, expired,
}

-- `held` permits are with handlers that have not yet inserted their session.
pub record IsBalanced (held : ℕ) (r : UploadRegistry) : Type 0 where
  pub balance : r.slots + length r.sessions + held ≡ max_active_sessions

pub length-filter-le {ℓ} :
    {A : Type ℓ} (p : A → Bool) (xs : List A) → length (filter p xs) ≤ length xs
length-filter-le p [] = omega arith
length-filter-le p (x ∷ xs) = ground (arith, length-filter-le p xs)

length-map {ℓ} : {A : Type ℓ} (f : A → A) (xs : List A) → length (map f xs) ≡ length xs
length-map f [] = refl
length-map f (x ∷ xs) = omega (arith, length-map f xs)

pub new-IsBalanced : IsBalanced 0 new
unfolding new
new-IsBalanced = omega arith

pub remove-IsBalanced :
    {held : ℕ} {r : UploadRegistry} (id : Str) → IsBalanced held r → IsBalanced held (remove r id)
unfolding remove
remove-IsBalanced {r} id b = omega (arith, length-filter-le (λ e. not (has_id id e)) r.sessions)

pub insert-IsBalanced :
    {held : ℕ} {r : UploadRegistry} (id : Str) (s : UploadSession)
    → IsBalanced (suc held) r
    → IsBalanced held (insert r id s)
unfolding insert
insert-IsBalanced {r} id s b = omega (arith, length-filter-le (λ e. not (has_id id e)) r.sessions)

pub update-IsBalanced :
    {held : ℕ} {r : UploadRegistry} (id : Str) (s : UploadSession)
    → IsBalanced held r
    → IsBalanced held (update r id s)
unfolding update
update-IsBalanced {r} id s b =
    omega (arith, length-map (λ e. if has_id id e then (e.0, s) else e) r.sessions)

pub acquire-IsBalanced :
    {held : ℕ} {r r' : UploadRegistry}
    → IsBalanced held r
    → acquire r ≡ some r'
    → IsBalanced (suc held) r'
unfolding acquire
acquire-IsBalanced b h = ground arith

pub release-IsBalanced :
    {held : ℕ} {r : UploadRegistry} → IsBalanced (suc held) r → IsBalanced held (release r)
unfolding release
release-IsBalanced b = omega arith

pub take_expired-IsBalanced :
    {held : ℕ} {r : UploadRegistry} (now ttl : ℕ)
    → IsBalanced held r
    → IsBalanced held (take_expired r now ttl).1
unfolding take_expired
take_expired-IsBalanced {r} now ttl b =
    omega (arith, length-filter-le (λ e. not (expired now ttl e)) r.sessions)
