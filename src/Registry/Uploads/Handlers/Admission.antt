-- ===== src/Registry/Uploads/Handlers/Admission.antt =====
-- When `start` of src/registry/uploads.rs turns an upload away.
use ruskery.Common.{
  ℕ, ◌≤◌, ◌<◌, ◌⊎◌, ◌≡◌, ◌≢◌, subst, ◌∙◌, ap, Bool, true, false, not, Option, none, some, List, [],
  ◌∷◌, Str, In, arith, length, filter, Option-cases, Bool-cases, inl, inr,
}
use ruskery.Error.{err}
use ruskery.Db.Content.{blob_exists}
use ruskery.Storage.{ObjectStore, upload_key}
use ruskery.Registry.Uploads.{UploadSession, session_idle_ttl, max_active_sessions}
use ruskery.Registry.Uploads.Slots.{UploadRegistry, new, acquire, take_expired, expired}
use ruskery.Registry.Uploads.Slots.Bound.{length-filter-le}
use ruskery.Registry.Uploads.Handlers.{World, Answer, too_many_uploads}
use ruskery.Registry.Uploads.Handlers.Start.{reap, admission, open_session, start_session, start}
use ruskery.Registry.Uploads.Handlers.Finish.{Limits}
use ruskery.Registry.Uploads.Handlers.Calls.{Calls, Calls-bounded}

kept_all {ℓ} :
    {A : Type ℓ} (p : A → Bool) (xs : List A)
    → length xs ≤ length (filter p xs)
    → (x : A) → In x xs
    → p x ≡ true
kept_all p [] h x i = elim i [ ]
kept_all p (y ∷ ys) h x i = elim (Bool-cases (p y)) [
  | inr f ↦ absurd (ground (arith, length-filter-le p ys, f, h))
  | inl t ↦ elim i [ inl e ↦ ap p e ∙ t | inr j ↦ kept_all p ys (ground (arith, t, h)) x j ]
]

acquire_none : (r : UploadRegistry) → acquire r ≡ none → r.slots ≡ 0
unfolding acquire
acquire_none r h = ground arith

-- No permit is free, and no session is idle.
pub record IsFull (now : ℕ) (r : UploadRegistry) : Type 0 where
  pub taken : r.slots ≡ 0
  pub busy : (e : Str × UploadSession) → In e r.sessions → expired now session_idle_ttl e ≡ false

module _ {State : Type 0} (store : ObjectStore State) where
  swept :
      (now : ℕ) (w : World State) → acquire (reap store now w).uploads ≡ none → IsFull now w.uploads
  unfolding reap take_expired
  swept now w h =
      let none_left = acquire_none (reap store now w).uploads h in
      record {
        taken = omega (arith, none_left);
        busy = λ e i. ground (
          arith,
          kept_all (λ x. not (expired now session_idle_ttl x)) w.uploads.sessions
              (omega (
                arith,
                none_left,
                length-filter-le (λ x. not (expired now session_idle_ttl x)) w.uploads.sessions,
              ))
              e i,
        );
      }

  admission-IsFull :
      (now : ℕ) (w : World State) → (admission store now w).0 ≡ none → IsFull now w.uploads
  unfolding admission
  admission-IsFull now w h = elim (Option-cases (acquire w.uploads)) [
    | inr (r, e) ↦ absurd (ground (arith, h, e))
    | inl e ↦ elim (Option-cases (acquire (reap store now w).uploads)) [
      | inl f ↦ swept now w f
      | inr (r, f) ↦ absurd (ground (arith, h, e, f))
    ]
  ]

  -- Opening a session fails for want of the store only.
  open_session-opened :
      (now : ℕ) (upload_id org_id name : Str) (w : World State)
      → (open_session store now upload_id org_id name w).0 ≢ err too_many_uploads
  unfolding open_session too_many_uploads
  open_session-opened now upload_id org_id name w h =
      elim (Option-cases (store.create_multipart (upload_key org_id upload_id) w.store).0) [
        | inl e ↦ ground (arith, h, e)
        | inr (s, e) ↦ ground (arith, h, e)
      ]

  start_session-IsFull :
      (now : ℕ) (upload_id org_id name : Str) (w : World State)
      → (start_session store now upload_id org_id name w).0 ≡ err too_many_uploads
      → IsFull now w.uploads
  unfolding start_session
  start_session-IsFull now upload_id org_id name w h =
      elim (Option-cases (admission store now w).0) [
        | inl e ↦ admission-IsFull now w e
        | inr (w', e) ↦ absurd (
            open_session-opened now upload_id org_id name w' (
              subst
                (λ o.
                  (elim o as (λ _. Answer State) [
                    | none ↦ (err too_many_uploads, (admission store now w).1)
                    | some x ↦ open_session store now upload_id org_id name x
                  ]).0
                  ≡ err too_many_uploads)
                e h))
      ]

  turned_away :
      (now : ℕ) (upload_id org_id name : Str) (mount : Option Str) (w : World State)
      → (start store now upload_id org_id name mount w).0 ≡ err too_many_uploads
      → IsFull now w.uploads
  unfolding start
  turned_away now upload_id org_id name none w h =
      start_session-IsFull now upload_id org_id name w h
  turned_away now upload_id org_id name (some digest) w h =
      elim (Bool-cases (blob_exists w.db org_id digest)) [
        | inl t ↦ absurd (ground (arith, h, t))
        | inr f ↦ start_session-IsFull now upload_id org_id name w (ground (arith, h, f))
      ]

  start-IsFull :
      (sha256_hex : Str → Str) (limits : Limits) {w v : World State} (now : ℕ)
      (upload_id org_id name : Str) (mount : Option Str)
      → w.uploads ≡ new
      → Calls store sha256_hex limits w v
      → (start store now upload_id org_id name mount v).0 ≡ err too_many_uploads
      → (length v.uploads.sessions ≡ max_active_sessions)
        × ((e : Str × UploadSession)
            → In e v.uploads.sessions
            → expired now session_idle_ttl e ≡ false)
  start-IsFull sha256_hex limits {v = v} now upload_id org_id name mount fresh calls h =
      let full = turned_away now upload_id org_id name mount v h in
      (omega (arith, Calls-bounded store sha256_hex limits fresh calls, full.taken), full.busy)

  -- After whatever calls from an empty registry, an upload is not turned away with `too many uploads`
  -- if fewer sessions than the limit are held, or one of them is idle past its time and not being
  -- finished.
  pub start-admitted :
      (sha256_hex : Str → Str) (limits : Limits) {w v : World State} (now : ℕ)
      (upload_id org_id name : Str) (mount : Option Str)
      → w.uploads ≡ new
      → Calls store sha256_hex limits w v
      → (length v.uploads.sessions < max_active_sessions)
        ⊎ ((e : Str × UploadSession) × In e v.uploads.sessions
            × (expired now session_idle_ttl e ≡ true))
      → (start store now upload_id org_id name mount v).0 ≢ err too_many_uploads
  start-admitted sha256_hex limits {v = v} now upload_id org_id name mount fresh calls room h =
      let (held, busy) =
        start-IsFull sha256_hex limits now upload_id org_id name mount fresh calls h in
      elim room [
        | inl few ↦ omega (arith, held, few)
        | inr (e, i, idle) ↦ ground (arith, busy e i, idle)
      ]
