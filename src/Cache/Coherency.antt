-- ===== src/Cache/Coherency.antt =====
-- Readers and writers of the manifest cache (src/cache.rs, src/registry/manifests.rs), interleaved at
-- their database statements and cache calls. `stored` is the table of manifests under the cache's
-- keys. A writer commits and then invalidates; a reader snapshots the generation, reads, and fills.
-- The deletion of a repository in src/api/mod.rs takes its manifests along and never invalidates.
pub mod Steps
pub mod Hits
use ruskery.Common.{
  ℕ, ◌+◌, ◌%◌, ◌^◌, ◌≤◌, ◌<◌, ◌≡◌, ◌≢◌, refl, ◌⊎◌, inl, inr, Bool, true, Option, none, some, List,
  [], ◌∷◌, Str, str_eq, starts_with, str_eq_iff, arith, In, All, Bool-cases, ◌==◌, if◌then◌else◌,
  Nothing,
}
use ruskery.Cache.{
  Lru, CachedManifest, ManifestCache, key, new, current_generation, get_manifest,
  put_manifest_if_current, invalidate_manifest, invalidate_repo_tags,
}

pub data Reader : Type 0 where
  -- The generation is known.
  snapped : ℕ → Reader
  -- The row has been read: repository, digest, manifest.
  loaded : ℕ → Str → Str → CachedManifest → Reader

-- What has changed in the table: one key, that is still to be invalidated, or every key of a
-- repository that was deleted.
pub data Change : Type 0 where
  changed : Str → Str → Change
  deleted : Str → Change

abbrev pub Touches : Str → Change → Type 0
Touches k (changed repo_id digest) = k ≡ key repo_id digest
Touches k (deleted repo_id) = starts_with (key repo_id []) k ≡ true

pub record Shared (M T : Type 0) : Type 0 where
  pub cache : ManifestCache M T
  pub stored : Str → Option CachedManifest
  -- The changes that were committed and not invalidated.
  pub pending : List Change
  pub readers : List Reader

abbrev pub written :
    (Str → Option CachedManifest) → Str → Option CachedManifest → Str → Option CachedManifest
written stored k v j = if str_eq j k then v else stored j

-- What a list is without one of its elements.
pub data Removed {A : Type 0} (x : A) : List A → List A → Type 0 where
  at_head : {xs : List A} → Removed x (x ∷ xs) xs
  later : {y : A} {xs ys : List A} → Removed x xs ys → Removed x (y ∷ xs) (y ∷ ys)

-- The table without the manifests of a repository.
abbrev pub without : (Str → Option CachedManifest) → Str → Str → Option CachedManifest
without stored repo_id j = if starts_with (key repo_id []) j then none else stored j

abbrev pub Pending : Str → List Change → Type 0
Pending k [] = Nothing
Pending k (p ∷ ps) = Touches k p ⊎ Pending k ps

-- The value is what the table has, or a change of the key was not invalidated.
abbrev pub Fresh : (Str → Option CachedManifest) → List Change → Str → CachedManifest → Type 0
Fresh stored pending k v = (stored k ≡ some v) ⊎ Pending k pending

abbrev pub ReaderFresh : (Str → Option CachedManifest) → List Change → ℕ → Reader → Type 0
ReaderFresh stored pending gen (snapped g) = g ≤ gen
ReaderFresh stored pending gen (loaded g repo_id digest v) =
    (g ≤ gen) × (g ≡ gen → Fresh stored pending (key repo_id digest) v)

module _ {M T : Type 0} (ml : Lru CachedManifest M) (tl : Lru Str T) where
  pub data Step (s t : Shared M T) : Type 0 where
    commit :
        (repo_id digest : Str) (v : Option CachedManifest)
        → t ≡ record s {
          stored = written s.stored (key repo_id digest) v;
          pending = changed repo_id digest ∷ s.pending;
        }
        → Step s t
    delete_repo :
        (repo_id : Str)
        → t ≡ record s { stored = without s.stored repo_id; pending = deleted repo_id ∷ s.pending }
        → Step s t
    -- Fewer than 2 ^ 64 invalidations are made in a run.
    invalidate :
        (repo_id digest : Str) (rest : List Change)
        → Removed (changed repo_id digest) s.pending rest
        → s.cache.generation + 1 < 2 ^ 64
        → t ≡ record s { cache = invalidate_manifest ml tl s.cache repo_id digest; pending = rest }
        → Step s t
    invalidate_tags :
        (repo_id : Str)
        → s.cache.generation + 1 < 2 ^ 64
        → t ≡ record s { cache = invalidate_repo_tags ml tl s.cache repo_id }
        → Step s t
    snapshot :
        t ≡ record s { readers = snapped (current_generation ml tl s.cache) ∷ s.readers } → Step s t
    load :
        (g : ℕ) (repo_id digest : Str) (v : CachedManifest) (rest : List Reader)
        → Removed (snapped g) s.readers rest
        → s.stored (key repo_id digest) ≡ some v
        → t ≡ record s { readers = loaded g repo_id digest v ∷ rest }
        → Step s t
    fill :
        (g : ℕ) (repo_id digest : Str) (v : CachedManifest) (rest : List Reader)
        → Removed (loaded g repo_id digest v) s.readers rest
        → t ≡ record s {
          cache = put_manifest_if_current ml tl s.cache repo_id digest v g;
          readers = rest;
        }
        → Step s t
    look_up :
        (repo_id digest : Str)
        → t ≡ record s { cache = (get_manifest ml tl s.cache repo_id digest).1 }
        → Step s t
    leave :
        (r : Reader) (rest : List Reader)
        → Removed r s.readers rest
        → t ≡ record s { readers = rest }
        → Step s t

  pub data Reach (s : Shared M T) : Shared M T → Type 0 where
    here : Reach s s
    next : {t u : Shared M T} → Reach s t → Step t u → Reach s u

  -- The invariant: what is cached, and what a reader may still fill, is fresh.
  pub record IsCoherent (s : Shared M T) : Type 0 where
    pub on : s.cache.enabled ≡ true
    pub cached :
        (k : Str) (v : CachedManifest)
        → ml.peek k s.cache.manifests ≡ some v
        → Fresh s.stored s.pending k v
    pub reading : All (ReaderFresh s.stored s.pending s.cache.generation) s.readers
