-- ===== src/Cache.antt =====
-- src/cache.rs: the caches of manifests and of tags behind one lock, with the generation that
-- cancels stale fills. The `lru` crate's map enters as an interface: its calls, a view, and the laws
-- that its documentation gives. A `put` may evict other keys, and a `get` changes only the order.
pub mod Tags
pub mod Stale
pub mod Coherency
use ruskery.Common.{
  ℕ, ◌+◌, ◌%◌, ◌^◌, ◌≡◌, ◌≢◌, ◌++◌, Bool, true, false, Option, none, some, List, [], ◌∷◌, Str,
  codes, ◌==◌, starts_with, if◌then◌else◌, filter, In,
}
use ruskery.Common.Int.{ℤ}

pub record Lru (V C : Type 0) : Type 0 where
  pub get : Str → C → Option V × C
  pub put : Str → V → C → C
  pub pop : Str → C → C
  pub keys : C → List Str
  pub peek : Str → C → Option V
  pub get-peek : (k : Str) (c : C) → (get k c).0 ≡ peek k c
  pub peek-get : (j k : Str) (c : C) → peek j (get k c).1 ≡ peek j c
  pub peek-put_self : (k : Str) (v : V) (c : C) → peek k (put k v c) ≡ some v
  pub peek-put_ne :
      (j k : Str) (v x : V) (c : C) → j ≢ k → peek j (put k v c) ≡ some x → peek j c ≡ some x
  pub peek-pop_self : (k : Str) (c : C) → peek k (pop k c) ≡ none
  pub peek-pop_ne : (j k : Str) (c : C) → j ≢ k → peek j (pop k c) ≡ peek j c
  pub In-keys : (k : Str) (v : V) (c : C) → peek k c ≡ some v → In k (keys c)

pub record CachedManifest : Type 0 where
  pub media_type : Str
  pub size : ℤ
  pub content : Str

pub record ManifestCache (M T : Type 0) : Type 0 where
  pub enabled : Bool
  pub generation : ℕ
  pub manifests : M
  pub tags : T

unfoldable pub key : Str → Str → Str
key repo_id value = repo_id ++ (codes "|" ++ value)

-- `generation.wrapping_add(1)` on a `u64`
abbrev pub wrapping_inc : ℕ → ℕ
wrapping_inc n = (n + 1) % 2 ^ 64

module _ {M T : Type 0} (ml : Lru CachedManifest M) (tl : Lru Str T) where
  unfoldable pub new : Bool → M → T → ManifestCache M T
  new enabled m t = record { enabled = enabled; generation = 0; manifests = m; tags = t }

  unfoldable pub current_generation : ManifestCache M T → ℕ
  current_generation c = if c.enabled then c.generation else 0

  unfoldable pub get_manifest :
      ManifestCache M T → Str → Str → Option CachedManifest × ManifestCache M T
  get_manifest c repo_id digest =
      let (found, m) = ml.get (key repo_id digest) c.manifests in
      if c.enabled then (found, record c { manifests = m }) else (none, c)

  unfoldable pub put_manifest_if_current :
      ManifestCache M T → Str → Str → CachedManifest → ℕ → ManifestCache M T
  put_manifest_if_current c repo_id digest m gen =
      if c.enabled
      then (if c.generation == gen
          then record c { manifests = ml.put (key repo_id digest) m c.manifests }
          else c)
      else c

  unfoldable pub invalidate_manifest : ManifestCache M T → Str → Str → ManifestCache M T
  invalidate_manifest c repo_id digest =
      if c.enabled
      then record c {
        generation = wrapping_inc c.generation;
        manifests = ml.pop (key repo_id digest) c.manifests;
      }
      else c

  unfoldable pub get_tag : ManifestCache M T → Str → Str → Option Str × ManifestCache M T
  get_tag c repo_id tag =
      let (found, t) = tl.get (key repo_id tag) c.tags in
      if c.enabled then (found, record c { tags = t }) else (none, c)

  unfoldable pub put_tag : ManifestCache M T → Str → Str → Str → ManifestCache M T
  put_tag c repo_id tag digest =
      if c.enabled then record c { tags = tl.put (key repo_id tag) digest c.tags } else c

  unfoldable pub put_tag_if_current : ManifestCache M T → Str → Str → Str → ℕ → ManifestCache M T
  put_tag_if_current c repo_id tag digest gen =
      if c.enabled
      then (if c.generation == gen
          then record c { tags = tl.put (key repo_id tag) digest c.tags }
          else c)
      else c

  -- `for k in stale`
  unfoldable pub pop_all : List Str → T → T
  pop_all [] t = t
  pop_all (k ∷ ks) t = pop_all ks (tl.pop k t)

  unfoldable pub invalidate_repo_tags : ManifestCache M T → Str → ManifestCache M T
  invalidate_repo_tags c repo_id =
      let stale = filter (starts_with (key repo_id [])) (tl.keys c.tags) in
      if c.enabled
      then record c { generation = wrapping_inc c.generation; tags = pop_all stale c.tags }
      else c
