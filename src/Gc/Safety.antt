-- ===== src/Gc/Safety.antt =====
-- What a sweep of src/gc.rs keeps.
use ruskery.Common.{
  ◌≡◌, ◌≢◌, refl, ◌∙◌, subst, Bool, filter, find_row, is_some, sym, ap, ◌⊎◌, inl, inr, true, false,
  not, ◌&&◌, List, [], ◌∷◌, map, Str, str_eq_iff, str_ltb, arith, Bool-cases, In, In-filter,
  In-filter_of,
}
use ruskery.Common.Int.{ℤ}
use ruskery.Db.{Db, Blob}
use ruskery.Db.Content.{
  unreferenced_blobs, delete_blob, blob_referenced, blob_exists, is_blob, record_blob,
}
use ruskery.Storage.{ObjectStore, blob_key}
use ruskery.Gc.{Swept, collect_one, collect, run}

module _ {State : Type 0} (store : ObjectStore State) where
  collect_one-In :
      (b : Blob) (key : Str × Str) (s : Swept State)
      → In b s.db.blobs
      → In b (collect_one store key s).db.blobs ⊎ (key ≡ (b.org_id, b.digest))
  unfolding collect_one delete_blob
  collect_one-In b (org_id, digest) s i =
      elim (Bool-cases (store.delete (blob_key org_id digest) s.store).0) [
        | inr e ↦ inl (rw e i)
        | inl e ↦ elim (Bool-cases (is_blob org_id digest b)) [
          | inl same ↦
              inr (ground (arith, same, str_eq_iff b.org_id org_id, str_eq_iff b.digest digest))
          | inr other ↦ inl (
              rw e
                (In-filter_of (λ c. not (is_blob org_id digest c)) b s.db.blobs i (ground arith)))
        ]
      ]

  collect-In :
      (b : Blob) (keys : List (Str × Str)) (s : Swept State)
      → In b s.db.blobs
      → In b (collect store keys s).db.blobs ⊎ In (b.org_id, b.digest) keys
  unfolding collect
  collect-In b [] s i = inl i
  collect-In b (k ∷ ks) s i = elim (collect_one-In b k s i) [
    | inr e ↦ inr (inl (sym e))
    | inl j ↦ elim (collect-In b ks (collect_one store k s) j) [
      | inl m ↦ inl m
      | inr m ↦ inr (inr m)
    ]
  ]

  In-map :
      (f : Blob → Str × Str) (y : Str × Str) (bs : List Blob)
      → In y (map f bs)
      → (b : Blob) × In b bs × (y ≡ f b)
  In-map f y [] i = elim i [ ]
  In-map f y (b ∷ bs) (inl e) = (b, inl refl, e)
  In-map f y (b ∷ bs) (inr i) = let (c, j, e) = In-map f y bs i in (c, inr j, e)

  -- What is listed is unreferenced and was recorded before the cutoff.
  In-unreferenced_blobs :
      (db : Db) (cutoff : Str) (key : Str × Str)
      → In key (unreferenced_blobs db cutoff)
      → (c : Blob) × In c db.blobs
        × (key ≡ (c.org_id, c.digest))
        × (str_ltb c.created_at cutoff ≡ true)
        × (blob_referenced db c.org_id c.digest ≡ false)
  unfolding unreferenced_blobs
  In-unreferenced_blobs db cutoff key i =
      let (c, j, e) = In-map (λ b. (b.org_id, b.digest)) key _ i in
      let (k, t) =
        In-filter (λ b. str_ltb b.created_at cutoff && not (blob_referenced db b.org_id b.digest)) c
          db.blobs j in
      (c, k, e, ground (arith, t), ground (arith, t))

  collect-object :
      (kept : Str) (keys : List (Str × Str)) (s : Swept State)
      → ((key : Str × Str) → In key keys → blob_key key.0 key.1 ≢ kept)
      → store.object kept (collect store keys s).store ≡ store.object kept s.store
  unfolding collect collect_one
  collect-object kept [] s apart = refl
  collect-object kept ((org_id, digest) ∷ ks) s apart =
      let one : store.object kept (collect_one store (org_id, digest) s).store
          ≡ store.object kept s.store =
        elim (Bool-cases (store.delete (blob_key org_id digest) s.store).0) [
          | inl e ↦
              rw (collect_one, e)
                (store.delete_keeps (blob_key org_id digest) kept s.store
                  (apart (org_id, digest) (inl refl)))
          | inr e ↦
              rw (collect_one, e)
                (store.delete_keeps (blob_key org_id digest) kept s.store
                  (apart (org_id, digest) (inl refl)))
        ] in
      collect-object kept ks (collect_one store (org_id, digest) s) (λ key i. apart key (inr i))
      ∙ one

  -- A blob that a manifest of its organization references, or whose rows are all younger.
  abbrev pub Protected : Db → Str → Blob → Type 0
  Protected db cutoff b =
      (blob_referenced db b.org_id b.digest ≡ true)
      ⊎ ((c : Blob)
          → In c db.blobs
          → c.org_id ≡ b.org_id
          → c.digest ≡ b.digest
          → str_ltb c.created_at cutoff ≡ false)

  not_listed :
      (cutoff : Str) (db : Db) (b c : Blob)
      → Protected db cutoff b
      → In c db.blobs
      → c.org_id ≡ b.org_id
      → c.digest ≡ b.digest
      → str_ltb c.created_at cutoff ≡ true
      → blob_referenced db c.org_id c.digest ≢ false
  not_listed cutoff db b c (inl referenced) j o d old free = ground (
    arith,
    referenced,
    ap (λ x. blob_referenced db x c.digest) o,
    ap (blob_referenced db b.org_id) d,
    free,
  )
  not_listed cutoff db b c (inr young) j o d old free = ground (arith, young c j o d, old)

  -- A sweep keeps the row and the object of every blob that a manifest of its organization
  -- references, and of every blob of which no row was recorded before the cutoff, whatever the store
  -- answers, if no other row's object has the same key.
  pub run-keeps :
      (cutoff : Str) (db : Db) (st : State) (b : Blob)
      → In b db.blobs
      → (blob_referenced db b.org_id b.digest ≡ true)
        ⊎ ((c : Blob)
            → In c db.blobs
            → c.org_id ≡ b.org_id
            → c.digest ≡ b.digest
            → str_ltb c.created_at cutoff ≡ false)
      → ((c : Blob)
          → In c db.blobs
          → blob_key c.org_id c.digest ≡ blob_key b.org_id b.digest
          → (c.org_id ≡ b.org_id) × (c.digest ≡ b.digest))
      → In b (run store cutoff db st).db.blobs
        × (store.object (blob_key b.org_id b.digest) (run store cutoff db st).store
            ≡ store.object (blob_key b.org_id b.digest) st)
  unfolding run
  run-keeps cutoff db st b i protected own =
      let safe : (key : Str × Str)
          → In key (unreferenced_blobs db cutoff)
          → blob_key key.0 key.1 ≢ blob_key b.org_id b.digest =
        λ key listed same.
          let (c, j, e, old, free) = In-unreferenced_blobs db cutoff key listed in
          let (o, d) = own c j (sym (ap (λ k. blob_key k.0 k.1) e) ∙ same) in
          not_listed cutoff db b c protected j o d old free in
      (
        elim (collect-In b (unreferenced_blobs db cutoff)
            (record { collected = 0; db = db; store = st }) i) [
              | inl kept ↦ kept
              | inr listed ↦ absurd (safe (b.org_id, b.digest) listed refl)
            ],
        collect-object (blob_key b.org_id b.digest) (unreferenced_blobs db cutoff)
            (record { collected = 0; db = db; store = st }) safe,
      )

  find_row-filter {ℓ} :
      {A : Type ℓ} (p q : A → Bool) (xs : List A)
      → is_some (find_row p xs) ≡ false
      → is_some (find_row p (filter q xs)) ≡ false
  find_row-filter p q [] h = refl
  find_row-filter p q (x ∷ xs) h = ground (arith, find_row-filter p q xs)

  find_row-filter-not {ℓ} :
      {A : Type ℓ} (p : A → Bool) (xs : List A)
      → is_some (find_row p (filter (λ x. not (p x)) xs)) ≡ false
  find_row-filter-not p [] = refl
  find_row-filter-not p (x ∷ xs) = ground (arith, find_row-filter-not p xs)

  find_row-In_of {ℓ} :
      {A : Type ℓ} (p : A → Bool) (x : A) (xs : List A)
      → In x xs
      → p x ≡ true
      → is_some (find_row p xs) ≡ true
  find_row-In_of p x [] i h = elim i [ ]
  find_row-In_of p x (y ∷ ys) i h = ground (arith, find_row-In_of p x ys)

  module _ (org_id digest : Str)
      (answers : (key : Str) (st : State) → (store.delete key st).0 ≡ true) where
    collect_one-absent :
        (key : Str × Str) (s : Swept State)
        → blob_exists s.db org_id digest ≡ false
        → blob_exists (collect_one store key s).db org_id digest ≡ false
    unfolding collect_one delete_blob blob_exists
    collect_one-absent (o, d) s h =
        rw (collect_one, answers (blob_key o d) s.store)
          (find_row-filter (is_blob org_id digest) (λ b. not (is_blob o d b)) s.db.blobs h)

    collect-absent :
        (keys : List (Str × Str)) (s : Swept State)
        → (blob_exists s.db org_id digest ≡ false) ⊎ In (org_id, digest) keys
        → blob_exists (collect store keys s).db org_id digest ≡ false
    unfolding collect collect_one delete_blob blob_exists
    collect-absent [] s (inl h) = h
    collect-absent [] s (inr i) = elim i [ ]
    collect-absent (k ∷ ks) s (inl h) =
        collect-absent ks (collect_one store k s) (inl (collect_one-absent k s h))
    collect-absent (k ∷ ks) s (inr (inr i)) = collect-absent ks (collect_one store k s) (inr i)
    collect-absent (k ∷ ks) s (inr (inl e)) = collect-absent ks (collect_one store k s) (
        inl (
          subst (λ x. blob_exists (collect_one store x s).db org_id digest ≡ false) e
            (rw (collect_one, answers (blob_key org_id digest) s.store)
              (find_row-filter-not (is_blob org_id digest) s.db.blobs))))

    -- Uploading a blob again does not save it: if it is unreferenced and its row was recorded before
    -- the cutoff, a sweep right after the upload was recorded, at whatever time, removes it, where
    -- the store answers every deletion.
    pub run-record_blob :
        (db : Db) (st : State) (cutoff now : Str) (size : ℤ)
        → In {A = Str × Str} (org_id, digest) (unreferenced_blobs db cutoff)
        → blob_exists (run store cutoff (record_blob db now org_id digest size) st).db org_id digest
          ≡ false
    unfolding record_blob run blob_exists
    run-record_blob db st cutoff now size i =
        let (c, j, e, old, free) = In-unreferenced_blobs db cutoff (org_id, digest) i in
        let there : is_some (find_row (is_blob org_id digest) db.blobs) ≡ true =
          find_row-In_of (is_blob org_id digest) c db.blobs j (
            ground (
              arith,
              str_eq_iff c.org_id org_id,
              str_eq_iff c.digest digest,
              ap (λ k. k.0) e,
              ap (λ k. k.1) e,
            )) in
        rw (there) (
          collect-absent (unreferenced_blobs db cutoff)
            (record { collected = 0; db = db; store = st }) (inr i))
