-- ===== src/Cache/Stale.antt =====
-- Fills of src/cache.rs with a generation from before an invalidation.
use ruskery.Common.{
  ℕ, ◌+◌, ◌%◌, ◌^◌, ◌<◌, ◌≡◌, refl, ◌∙◌, true, false, List, [], ◌∷◌, Str, arith, Bool-cases, inl,
  inr, ◌==◌,
}
use ruskery.Cache.{
  Lru, CachedManifest, ManifestCache, current_generation, get_manifest, put_manifest_if_current,
  invalidate_manifest, get_tag, put_tag, put_tag_if_current, invalidate_repo_tags,
}

-- A call on the cache.
pub data CacheCall : Type 0 where
  manifest_gone : Str → Str → CacheCall
  tags_gone : Str → CacheCall
  manifest_filled : Str → Str → CachedManifest → ℕ → CacheCall
  tag_filled : Str → Str → Str → ℕ → CacheCall
  tag_put : Str → Str → Str → CacheCall
  manifest_asked tag_asked : Str → Str → CacheCall

-- One for an invalidation.
abbrev pub counted : CacheCall → ℕ
counted (manifest_gone repo_id digest) = 1
counted (tags_gone repo_id) = 1
counted _ = 0

abbrev pub invalidations : List CacheCall → ℕ
invalidations [] = 0
invalidations (x ∷ xs) = counted x + invalidations xs

module _ {M T : Type 0} (ml : Lru CachedManifest M) (tl : Lru Str T) where
  unfoldable pub call : ManifestCache M T → CacheCall → ManifestCache M T
  call c (manifest_gone repo_id digest) = invalidate_manifest ml tl c repo_id digest
  call c (tags_gone repo_id) = invalidate_repo_tags ml tl c repo_id
  call c (manifest_filled repo_id digest m gen) =
      put_manifest_if_current ml tl c repo_id digest m gen
  call c (tag_filled repo_id tag digest gen) = put_tag_if_current ml tl c repo_id tag digest gen
  call c (tag_put repo_id tag digest) = put_tag ml tl c repo_id tag digest
  call c (manifest_asked repo_id digest) = (get_manifest ml tl c repo_id digest).1
  call c (tag_asked repo_id tag) = (get_tag ml tl c repo_id tag).1

  unfoldable pub calls : ManifestCache M T → List CacheCall → ManifestCache M T
  unfolding call
  calls c [] = c
  calls c (x ∷ xs) = calls (call c x) xs

  call-enabled : (c : ManifestCache M T) (x : CacheCall) → (call c x).enabled ≡ c.enabled
  unfolding call invalidate_manifest invalidate_repo_tags put_manifest_if_current put_tag_if_current
      put_tag get_manifest get_tag
  call-enabled c (manifest_gone repo_id digest) = ground arith
  call-enabled c (tags_gone repo_id) = ground arith
  call-enabled c (manifest_filled repo_id digest m gen) = ground arith
  call-enabled c (tag_filled repo_id tag digest gen) = ground arith
  call-enabled c (tag_put repo_id tag digest) = ground arith
  call-enabled c (manifest_asked repo_id digest) = ground arith
  call-enabled c (tag_asked repo_id tag) = ground arith

  call-generation :
      (c : ManifestCache M T) (x : CacheCall)
      → c.enabled ≡ true
      → c.generation < 2 ^ 64
      → (call c x).generation ≡ (c.generation + counted x) % 2 ^ 64
  unfolding call invalidate_manifest invalidate_repo_tags put_manifest_if_current put_tag_if_current
      put_tag get_manifest get_tag
  call-generation c (manifest_gone repo_id digest) on small = ground (arith, on)
  call-generation c (tags_gone repo_id) on small = ground (arith, on)
  call-generation c (manifest_filled repo_id digest m gen) on small = ground (arith, on)
  call-generation c (tag_filled repo_id tag digest gen) on small = ground (arith, on)
  call-generation c (tag_put repo_id tag digest) on small = ground (arith, on)
  call-generation c (manifest_asked repo_id digest) on small = ground (arith, on)
  call-generation c (tag_asked repo_id tag) on small = ground (arith, on)

  calls-enabled : (c : ManifestCache M T) (xs : List CacheCall) → (calls c xs).enabled ≡ c.enabled
  unfolding calls
  calls-enabled c [] = refl
  calls-enabled c (x ∷ xs) = calls-enabled (call c x) xs ∙ call-enabled c x

  calls-generation :
      (c : ManifestCache M T) (xs : List CacheCall)
      → c.enabled ≡ true
      → c.generation < 2 ^ 64
      → (calls c xs).generation ≡ (c.generation + invalidations xs) % 2 ^ 64
  unfolding calls
  calls-generation c [] on small = omega (arith, small)
  calls-generation c (x ∷ xs) on small =
      let here = call-generation c x on small in
      let rest = calls-generation (call c x) xs (call-enabled c x ∙ on) (omega (arith, here)) in
      omega (arith, here, rest)

  -- A reader snapshots the generation, a number of 64 bits. Once a manifest or the tags of a
  -- repository were invalidated, and fewer than 2 ^ 64 times, whatever other calls were made before
  -- and after, its fill of a manifest or a tag changes nothing.
  pub put_if_current-stale :
      (c : ManifestCache M T) (xs : List CacheCall) (repo_id value resolved : Str)
      (m : CachedManifest)
      → c.generation < 2 ^ 64
      → 0 < invalidations xs
      → invalidations xs < 2 ^ 64
      → (put_tag_if_current ml tl (calls c xs) repo_id value resolved (current_generation ml tl c)
          ≡ calls c xs)
        × (put_manifest_if_current ml tl (calls c xs) repo_id value m (current_generation ml tl c)
            ≡ calls c xs)
  unfolding put_tag_if_current put_manifest_if_current current_generation
  put_if_current-stale c xs repo_id value resolved m small some_made few =
      let same = calls-enabled c xs in
      elim (Bool-cases c.enabled) [
        | inr off ↦ (ground (arith, off, same), ground (arith, off, same))
        | inl on ↦
            let moved : ((calls c xs).generation == c.generation) ≡ false =
              ground (arith, calls-generation c xs on small) in
            (ground (arith, on, same, moved), ground (arith, on, same, moved))
      ]
