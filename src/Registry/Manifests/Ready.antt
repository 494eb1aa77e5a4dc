-- ===== src/Registry/Manifests/Ready.antt =====
-- States in which a tag and its manifest are stored, for src/registry/manifests.rs.
use ruskery.Common.{
  ℕ, ◌≡◌, refl, sym, ◌∙◌, ap, Bool, true, false, none, some, Str, str_eq_refl, arith, Bool-cases,
  inl, inr, length,
}
use ruskery.Common.Int.{as_i64}
use ruskery.Db.{Db, Repository}
use ruskery.Db.Orgs.{find_repo}
use ruskery.Db.Manifests.{
  StoredManifest, ManifestLinks, put_manifest, upsert_tag, get_manifest_by_digest, tag_digest,
}
use ruskery.Db.Manifests.Stored.{get_manifest_by_digest-put_manifest}
use ruskery.Db.Manifests.Tags.{tag_digest-upsert_tag}
use ruskery.Cache.{
  Lru, CachedManifest, ManifestCache, key, current_generation, get_manifest, invalidate_manifest,
  get_tag, put_tag, put_tag_if_current,
}
use ruskery.Registry.Digest.{is_digest}
use ruskery.Registry.Manifests.{
  Local, served, audited, store_manifest, resolve_reference, read_manifest, serve_local,
}

module _ {M T : Type 0} (ml : Lru CachedManifest M) (tl : Lru Str T) where
  unfoldable pub as_row : CachedManifest → StoredManifest
  as_row m = record { media_type = m.media_type; size = m.size; content = m.content }

  -- A state in which a tag and its manifest are stored, and the cache does not say otherwise.
  pub record IsReady (repo_id reference digest : Str) (m : CachedManifest) (l : Local M T)
      : Type 0 where
    pub tag : tag_digest l.db repo_id reference ≡ some digest
    pub row : get_manifest_by_digest l.db repo_id digest ≡ some (as_row m)
    pub fresh_tag :
        l.cache.enabled ≡ true → tl.peek (key repo_id reference) l.cache.tags ≡ some digest
    pub uncached : l.cache.enabled ≡ true → ml.peek (key repo_id digest) l.cache.manifests ≡ none

  resolve_reference-IsReady :
      (gen : ℕ) (repo_id reference digest : Str) (m : CachedManifest) (l : Local M T)
      → is_digest reference ≡ false
      → IsReady repo_id reference digest m l
      → (c : ManifestCache M T) × (resolve_reference ml tl gen repo_id reference l
          ≡ (some digest, record l { cache = c }))
        × (c.enabled ≡ l.cache.enabled)
        × (c.manifests ≡ l.cache.manifests)
  unfolding resolve_reference get_tag put_tag_if_current
  resolve_reference-IsReady gen repo_id reference digest m l tagged ready =
      elim (Bool-cases l.cache.enabled) [
        | inl on ↦ (
          (get_tag ml tl l.cache repo_id reference).1,
          ground (arith, tl.get-peek (key repo_id reference) l.cache.tags, ready.fresh_tag on),
          ground arith,
          ground arith,
        )
        | inr off ↦ (l.cache, ground (arith, ready.tag), refl, refl)
      ]

  pub read_manifest-uncached :
      (gen : ℕ) (repo_id digest : Str) (m : CachedManifest) (l : Local M T)
      → get_manifest_by_digest l.db repo_id digest ≡ some (as_row m)
      → (l.cache.enabled ≡ true → ml.peek (key repo_id digest) l.cache.manifests ≡ none)
      → (read_manifest ml tl gen repo_id digest l).0 ≡ some m
  unfolding read_manifest get_manifest as_row
  read_manifest-uncached gen repo_id digest m l row uncached = elim (Bool-cases l.cache.enabled) [
    | inl on ↦ ground (arith, uncached on, ml.get-peek (key repo_id digest) l.cache.manifests)
    | inr off ↦ ground arith
  ]

  pub serve_local-IsReady :
      (org_id repo_name reference digest : Str) (head_only : Bool) (m : CachedManifest)
      (repo : Repository) (l : Local M T)
      → is_digest reference ≡ false
      → find_repo l.db org_id repo_name ≡ some repo
      → IsReady repo.id reference digest m l
      → (serve_local ml tl org_id repo_name reference head_only l).0
        ≡ some (served head_only digest m)
  unfolding serve_local
  serve_local-IsReady org_id repo_name reference digest head_only m repo l tagged listed ready =
      let gen = current_generation ml tl l.cache in
      let (c, resolved, same, kept) =
        resolve_reference-IsReady gen repo.id reference digest m l tagged ready in
      let read =
        read_manifest-uncached gen repo.id digest m (record l { cache = c }) ready.row
          (λ on. ap (ml.peek (key repo.id digest)) kept ∙ ready.uncached (sym same ∙ on)) in
      rw (serve_local, listed, ap (λ p. p.0) resolved, ap (λ p. p.1) resolved, read)

  -- The audit record of a push is not looked at.
  pub IsReady-audited :
      (now actor_user_id org_id name named pushed_digest repo_id reference digest : Str)
      (m : CachedManifest) (l : Local M T)
      → IsReady repo_id reference digest m l
      → IsReady repo_id reference digest m
          (audited ml tl now actor_user_id org_id name named pushed_digest l)
  unfolding tag_digest get_manifest_by_digest
  IsReady-audited now actor_user_id org_id name named pushed_digest repo_id reference digest m l
        ready =
      record {
        tag = ready.tag;
        row = ready.row;
        fresh_tag = ready.fresh_tag;
        uncached = ready.uncached;
      }

  pub tagged_db :
      (now repo_id reference digest media_type body : Str) (links : ManifestLinks) (db : Db)
      (cache : ManifestCache M T)
      → is_digest reference ≡ false
      → store_manifest ml tl now repo_id reference digest media_type body links db cache ≡ record {
        db =
            upsert_tag
              (put_manifest db now repo_id digest media_type body links)
              now
              repo_id
              reference
              digest;
        cache =
            put_tag ml tl (invalidate_manifest ml tl cache repo_id digest) repo_id reference digest;
      }
  unfolding store_manifest
  tagged_db now repo_id reference digest media_type body links db cache tagged = rw (tagged)

  cached_tag :
      (cache : ManifestCache M T) (repo_id reference digest : Str)
      → (put_tag ml tl cache repo_id reference digest).enabled ≡ true
      → tl.peek (key repo_id reference) (put_tag ml tl cache repo_id reference digest).tags
        ≡ some digest
  unfolding put_tag
  cached_tag cache repo_id reference digest on =
      ground (arith, tl.peek-put_self (key repo_id reference) digest cache.tags)

  popped :
      (cache : ManifestCache M T) (repo_id reference digest : Str)
      → (put_tag ml tl
          (invalidate_manifest ml tl cache repo_id digest)
          repo_id
          reference
          digest).enabled
        ≡ true
      → ml.peek
          (key repo_id digest)
          (put_tag ml tl
            (invalidate_manifest ml tl cache repo_id digest)
            repo_id
            reference
            digest).manifests
        ≡ none
  unfolding put_tag invalidate_manifest
  popped cache repo_id reference digest on =
      ground (arith, ml.peek-pop_self (key repo_id digest) cache.manifests)

  pub store_manifest-IsReady :
      (now repo_id reference digest media_type body : Str) (links : ManifestLinks) (db : Db)
      (cache : ManifestCache M T)
      → is_digest reference ≡ false
      → IsReady repo_id reference digest
          (record { media_type = media_type; size = as_i64 (length body); content = body })
          (store_manifest ml tl now repo_id reference digest media_type body links db cache)
  unfolding as_row upsert_tag get_manifest_by_digest
  store_manifest-IsReady now repo_id reference digest media_type body links db cache tagged =
      rw (tagged_db now repo_id reference digest media_type body links db cache tagged) (record {
        tag = rw (
          tag_digest-upsert_tag (put_manifest db now repo_id digest media_type body links) now
              repo_id reference digest repo_id reference,
          str_eq_refl repo_id,
          str_eq_refl reference,
        );
        row = rw (
          get_manifest_by_digest-put_manifest db now repo_id digest media_type body links repo_id
              digest,
          str_eq_refl repo_id,
          str_eq_refl digest,
        );
        fresh_tag =
            cached_tag (invalidate_manifest ml tl cache repo_id digest) repo_id reference digest;
        uncached = popped cache repo_id reference digest;
      })
