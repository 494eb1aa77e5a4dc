-- ===== src/Cache/Coherency/Hits.antt =====
-- What a hit in the manifest cache says.
use ruskery.Common.{◌≡◌, refl, ◌⊎◌, true, Option, none, some, [], Str, arith}
use ruskery.Cache.{Lru, CachedManifest, ManifestCache, key, new, get_manifest}
use ruskery.Cache.Coherency.{Shared, Pending, Reach, here, next, IsCoherent}
use ruskery.Cache.Coherency.Steps.{Step-IsCoherent}

module _ {M T : Type 0} (ml : Lru CachedManifest M) (tl : Lru Str T) where
  Reach-IsCoherent : {s t : Shared M T} → IsCoherent ml tl s → Reach ml tl s t → IsCoherent ml tl t
  Reach-IsCoherent c here = c
  Reach-IsCoherent c (next r st) = Step-IsCoherent ml tl st (Reach-IsCoherent c r)

  -- An enabled cache with no manifest yet, whatever is stored.
  abbrev pub started : M → T → (Str → Option CachedManifest) → Shared M T
  started m t stored = record {
    cache = new ml tl true m t;
    stored = stored;
    pending = [];
    readers = [];
  }

  IsCoherent-started :
      (m : M) (t : T) (stored : Str → Option CachedManifest)
      → ((k : Str) → ml.peek k m ≡ none)
      → IsCoherent ml tl (started m t stored)
  unfolding new
  IsCoherent-started m t stored empty = record {
    on = refl;
    cached = λ k v h. absurd (ground (arith, empty k, h));
    reading = tt;
  }

  get_manifest-peek :
      (c : ManifestCache M T) (repo_id digest : Str) (v : CachedManifest)
      → (get_manifest ml tl c repo_id digest).0 ≡ some v
      → ml.peek (key repo_id digest) c.manifests ≡ some v
  unfolding get_manifest
  get_manifest-peek c repo_id digest v h =
      ground (arith, ml.get-peek (key repo_id digest) c.manifests)

  -- Whatever readers and writers do, in any order, after a start with an empty cache and within
  -- 2 ^ 64 invalidations: a hit for a manifest is what the table holds under its key, unless a writer
  -- that has committed a change of this key is still to invalidate it, or a repository that has the
  -- key was deleted.
  pub get_manifest-Fresh :
      (m : M) (t : T) (stored : Str → Option CachedManifest) (s : Shared M T) (repo_id digest : Str)
      (v : CachedManifest)
      → ((k : Str) → ml.peek k m ≡ none)
      → Reach ml tl (started m t stored) s
      → (get_manifest ml tl s.cache repo_id digest).0 ≡ some v
      → (s.stored (key repo_id digest) ≡ some v) ⊎ Pending (key repo_id digest) s.pending
  get_manifest-Fresh m t stored s repo_id digest v empty r h =
      (Reach-IsCoherent (IsCoherent-started m t stored empty) r).cached (key repo_id digest) v
        (get_manifest-peek s.cache repo_id digest v h)
