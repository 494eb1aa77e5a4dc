-- ===== src/Cache/Coherency/Steps.antt =====
-- The steps of readers and writers of the manifest cache, one lemma for each (src/cache.rs).
use ruskery.Common.{
  ℕ, ◌+◌, ◌%◌, ◌^◌, ◌<◌, ◌≡◌, ◌≢◌, ◌⊎◌, inl, inr, Option, some, List, [], ◌∷◌, Str, str_eq,
  starts_with, str_eq_iff, arith, All, Bool-cases, ◌==◌,
}
use ruskery.Cache.{
  Lru, CachedManifest, key, current_generation, get_manifest, put_manifest_if_current,
  invalidate_manifest, invalidate_repo_tags,
}
use ruskery.Cache.Coherency.{
  Reader, snapped, loaded, Change, changed, deleted, Touches, without, Shared, written, Removed,
  at_head, later, Pending, Fresh, ReaderFresh, Step, IsCoherent, commit, delete_repo, invalidate,
  invalidate_tags, snapshot, load, fill, look_up, leave,
}

Pending-Removed :
    {p : Change} {ps qs : List Change} (k : Str)
    → Removed p ps qs
    → Pending k ps
    → Touches k p ⊎ Pending k qs
Pending-Removed k at_head h = h
Pending-Removed k (later r) (inl e) = inr (inl e)
Pending-Removed k (later r) (inr h) = elim (Pending-Removed k r h) [
  | inl e ↦ inl e
  | inr i ↦ inr (inr i)
]

module _ {A : Type 0} (P : A → Type 0) where
  All-Removed : {x : A} {xs ys : List A} → Removed x xs ys → All P xs → P x × All P ys
  All-Removed at_head a = a
  All-Removed (later r) (p, a) = let (q, b) = All-Removed r a in (q, (p, b))

module _ {A : Type 0} (P Q : A → Type 0) (f : (x : A) → P x → Q x) where
  All-weaken : (xs : List A) → All P xs → All Q xs
  All-weaken [] a = tt
  All-weaken (x ∷ xs) (p, a) = (f x p, All-weaken xs a)

-- A commit changes one key, which is pending from then on.
Fresh-written :
    (stored : Str → Option CachedManifest) (pending : List Change) (repo_id digest : Str)
    (new_value : Option CachedManifest) (k : Str) (v : CachedManifest)
    → Fresh stored pending k v
    → Fresh (written stored (key repo_id digest) new_value) (changed repo_id digest ∷ pending) k v
Fresh-written stored pending repo_id digest new_value k v (inr h) = inr (inr h)
Fresh-written stored pending repo_id digest new_value k v (inl h) =
    elim (Bool-cases (str_eq k (key repo_id digest))) [
      | inl same ↦ inr (inl ((str_eq_iff _ _).0 same))
      | inr other ↦ inl (rw other h)
    ]

-- The deletion of a repository touches all of its keys.
Fresh-without :
    (stored : Str → Option CachedManifest) (pending : List Change) (repo_id : Str) (k : Str)
    (v : CachedManifest)
    → Fresh stored pending k v
    → Fresh (without stored repo_id) (deleted repo_id ∷ pending) k v
Fresh-without stored pending repo_id k v (inr h) = inr (inr h)
Fresh-without stored pending repo_id k v (inl h) =
    elim (Bool-cases (starts_with (key repo_id []) k)) [
      | inl gone ↦ inr (inl gone)
      | inr other ↦ inl (rw other h)
    ]

module _ {M T : Type 0} (ml : Lru CachedManifest M) (tl : Lru Str T) where
  IsCoherent-commit :
      (s : Shared M T) (repo_id digest : Str) (v : Option CachedManifest)
      → IsCoherent ml tl s
      → IsCoherent ml tl (record s {
        stored = written s.stored (key repo_id digest) v;
        pending = changed repo_id digest ∷ s.pending;
      })
  IsCoherent-commit s repo_id digest v c = record {
    on = c.on;
    cached = λ k w h. Fresh-written s.stored s.pending repo_id digest v k w (c.cached k w h);
    reading =
        All-weaken (ReaderFresh s.stored s.pending s.cache.generation)
          (ReaderFresh (written s.stored (key repo_id digest) v)
            (changed repo_id digest ∷ s.pending) s.cache.generation)
          (elim [
            | snapped g ↦ λ le. le
            | loaded g r d w ↦ λ p.
                (p.0, λ e. Fresh-written s.stored s.pending repo_id digest v (key r d) w (p.1 e))
          ])
          s.readers c.reading;
  }

  IsCoherent-delete_repo :
      (s : Shared M T) (repo_id : Str)
      → IsCoherent ml tl s
      → IsCoherent ml tl
          (record s { stored = without s.stored repo_id; pending = deleted repo_id ∷ s.pending })
  IsCoherent-delete_repo s repo_id c = record {
    on = c.on;
    cached = λ k w h. Fresh-without s.stored s.pending repo_id k w (c.cached k w h);
    reading =
        All-weaken (ReaderFresh s.stored s.pending s.cache.generation)
          (ReaderFresh (without s.stored repo_id) (deleted repo_id ∷ s.pending) s.cache.generation)
          (elim [
            | snapped g ↦ λ le. le
            | loaded g r d w ↦
                λ p. (p.0, λ e. Fresh-without s.stored s.pending repo_id (key r d) w (p.1 e))
          ])
          s.readers c.reading;
  }

  -- A reader that started before an invalidation can no longer fill.
  stale :
      (stored : Str → Option CachedManifest) (before after : List Change) (gen : ℕ)
      (rs : List Reader)
      → All (ReaderFresh stored before gen) rs
      → All (ReaderFresh stored after (gen + 1)) rs
  stale stored before after gen =
      All-weaken (ReaderFresh stored before gen) (ReaderFresh stored after (gen + 1)) (elim [
        | snapped g ↦ λ le. omega arith
        | loaded g r d w ↦ λ p. (omega (arith, p.0), λ e. absurd (omega (arith, p.0)))
      ])

  IsCoherent-invalidate :
      (s : Shared M T) (repo_id digest : Str) (rest : List Change)
      → Removed (changed repo_id digest) s.pending rest
      → s.cache.generation + 1 < 2 ^ 64
      → IsCoherent ml tl s
      → IsCoherent ml tl
          (record s { cache = invalidate_manifest ml tl s.cache repo_id digest; pending = rest })
  unfolding invalidate_manifest
  IsCoherent-invalidate s repo_id digest rest r small c =
      let k0 = key repo_id digest in
      let bumped : (s.cache.generation + 1) % 2 ^ 64 ≡ s.cache.generation + 1 = omega arith in
      let e : invalidate_manifest ml tl s.cache repo_id digest ≡ record s.cache {
        generation = s.cache.generation + 1;
        manifests = ml.pop k0 s.cache.manifests;
      } =
        ground (arith, c.on, bumped) in
      let remains : (k : Str) (v : CachedManifest)
          → ml.peek k (ml.pop k0 s.cache.manifests) ≡ some v
          → Fresh s.stored rest k v =
        λ k v h. elim (Bool-cases (str_eq k k0)) [
          | inl same ↦
              absurd
                (ground (arith, ml.peek-pop_self k0 s.cache.manifests, (str_eq_iff k k0).0 same, h))
          | inr other ↦
              let ne : k ≢ k0 = λ q. ground (arith, str_eq_iff k k0, q, other) in
              elim (c.cached k v (ground (arith, ml.peek-pop_ne k k0 s.cache.manifests ne, h))) [
                | inl f ↦ inl f
                | inr p ↦ elim (Pending-Removed k r p) [ inl q ↦ absurd (ne q) | inr q ↦ inr q ]
              ]
        ] in
      rw e (record {
        on = c.on;
        cached = remains;
        reading = stale s.stored s.pending rest s.cache.generation s.readers c.reading;
      })

  IsCoherent-invalidate_tags :
      (s : Shared M T) (repo_id : Str)
      → s.cache.generation + 1 < 2 ^ 64
      → IsCoherent ml tl s
      → IsCoherent ml tl (record s { cache = invalidate_repo_tags ml tl s.cache repo_id })
  unfolding invalidate_repo_tags
  IsCoherent-invalidate_tags s repo_id small c =
      let bumped : (s.cache.generation + 1) % 2 ^ 64 ≡ s.cache.generation + 1 = omega arith in
      let r = invalidate_repo_tags ml tl s.cache repo_id in
      let e : r ≡ record s.cache { generation = s.cache.generation + 1; tags = r.tags } =
        ground (arith, c.on, bumped) in
      rw e (record {
        on = c.on;
        cached = c.cached;
        reading = stale s.stored s.pending s.pending s.cache.generation s.readers c.reading;
      })

  IsCoherent-fill :
      (s : Shared M T) (g : ℕ) (repo_id digest : Str) (v : CachedManifest) (rest : List Reader)
      → Removed (loaded g repo_id digest v) s.readers rest
      → IsCoherent ml tl s
      → IsCoherent ml tl (record s {
        cache = put_manifest_if_current ml tl s.cache repo_id digest v g;
        readers = rest;
      })
  unfolding put_manifest_if_current
  IsCoherent-fill s g repo_id digest v rest r c =
      let k0 = key repo_id digest in
      let (mine, others) =
        All-Removed (ReaderFresh s.stored s.pending s.cache.generation) r c.reading in
      elim (Bool-cases (s.cache.generation == g)) [
        | inr old ↦
            let e : put_manifest_if_current ml tl s.cache repo_id digest v g ≡ s.cache =
              ground (arith, c.on) in
            rw e (record { on = c.on; cached = c.cached; reading = others })
        | inl now ↦
            let e : put_manifest_if_current ml tl s.cache repo_id digest v g
                ≡ record s.cache { manifests = ml.put k0 v s.cache.manifests } =
              ground (arith, c.on) in
            let fresh : Fresh s.stored s.pending k0 v = mine.1 (ground (arith, now)) in
            rw e (record {
              on = c.on;
              cached = λ k w h. elim (Bool-cases (str_eq k k0)) [
                | inl same ↦
                    let q : k ≡ k0 = (str_eq_iff k k0).0 same in
                    let one : v ≡ w =
                      ground (arith, ml.peek-put_self k0 v s.cache.manifests, q, h) in
                    rw q (rw (← one) fresh)
                | inr other ↦
                    let ne : k ≢ k0 = λ q. ground (arith, str_eq_iff k k0, q, other) in
                    c.cached k w (ml.peek-put_ne k k0 v w s.cache.manifests ne h)
              ];
              reading = others;
            })
      ]

  IsCoherent-snapshot :
      (s : Shared M T)
      → IsCoherent ml tl s
      → IsCoherent ml tl
          (record s { readers = snapped (current_generation ml tl s.cache) ∷ s.readers })
  unfolding current_generation
  IsCoherent-snapshot s c = record {
    on = c.on;
    cached = c.cached;
    reading = (ground (arith, c.on), c.reading);
  }

  IsCoherent-load :
      (s : Shared M T) (g : ℕ) (repo_id digest : Str) (v : CachedManifest) (rest : List Reader)
      → Removed (snapped g) s.readers rest
      → s.stored (key repo_id digest) ≡ some v
      → IsCoherent ml tl s
      → IsCoherent ml tl (record s { readers = loaded g repo_id digest v ∷ rest })
  IsCoherent-load s g repo_id digest v rest r f c =
      let (le, others) =
        All-Removed (ReaderFresh s.stored s.pending s.cache.generation) r c.reading in
      record { on = c.on; cached = c.cached; reading = ((le, λ _. inl f), others) }

  IsCoherent-look_up :
      (s : Shared M T) (repo_id digest : Str)
      → IsCoherent ml tl s
      → IsCoherent ml tl (record s { cache = (get_manifest ml tl s.cache repo_id digest).1 })
  unfolding get_manifest
  IsCoherent-look_up s repo_id digest c =
      let k0 = key repo_id digest in
      let e : (get_manifest ml tl s.cache repo_id digest).1
          ≡ record s.cache { manifests = (ml.get k0 s.cache.manifests).1 } =
        ground (arith, c.on) in
      rw e (record {
        on = c.on;
        cached = λ k v h. c.cached k v (ground (arith, ml.peek-get k k0 s.cache.manifests, h));
        reading = c.reading;
      })

  pub Step-IsCoherent :
      {s t : Shared M T} → Step ml tl s t → IsCoherent ml tl s → IsCoherent ml tl t
  Step-IsCoherent {s} (commit r d v e) c = rw e (IsCoherent-commit s r d v c)
  Step-IsCoherent {s} (delete_repo r e) c = rw e (IsCoherent-delete_repo s r c)
  Step-IsCoherent {s} (invalidate r d rest q n e) c = rw e (IsCoherent-invalidate s r d rest q n c)
  Step-IsCoherent {s} (invalidate_tags r n e) c = rw e (IsCoherent-invalidate_tags s r n c)
  Step-IsCoherent {s} (snapshot e) c = rw e (IsCoherent-snapshot s c)
  Step-IsCoherent {s} (load g r d v rest q f e) c = rw e (IsCoherent-load s g r d v rest q f c)
  Step-IsCoherent {s} (fill g r d v rest q e) c = rw e (IsCoherent-fill s g r d v rest q c)
  Step-IsCoherent {s} (look_up r d e) c = rw e (IsCoherent-look_up s r d c)
  Step-IsCoherent {s} (leave r rest q e) c = rw e (record {
    on = c.on;
    cached = c.cached;
    reading = (All-Removed (ReaderFresh s.stored s.pending s.cache.generation) q c.reading).1;
  })
