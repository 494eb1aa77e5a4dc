-- ===== src/Registry/Manifests/Delete.antt =====
-- A lookup after a deletion (src/registry/manifests.rs).
use ruskery.Common.{
  ℕ, ◌≡◌, ap, Bool, true, none, some, Str, str_eq_refl, arith, Option-cases, inl, inr,
}
use ruskery.Error.{ok, Response}
use ruskery.Db.{Db, Repository}
use ruskery.Db.Orgs.{find_repo}
use ruskery.Db.Manifests.{delete_manifest}
use ruskery.Db.Manifests.Stored.{get_manifest_by_digest-delete_manifest}
use ruskery.Cache.{
  Lru, CachedManifest, ManifestCache, key, get_manifest, invalidate_manifest, invalidate_repo_tags,
  current_generation,
}
use ruskery.Registry.Digest.{is_digest}
use ruskery.Registry.Manifests.{Local, resolve_reference, read_manifest, serve_local, delete}

module _ {M T : Type 0} (ml : Lru CachedManifest M) (tl : Lru Str T) where
  gone : Db → ManifestCache M T → Str → Str → Local M T
  gone db cache repo_id digest = record {
    db = delete_manifest db repo_id digest;
    cache = invalidate_repo_tags ml tl (invalidate_manifest ml tl cache repo_id digest) repo_id;
  }

  not_cached :
      (cache : ManifestCache M T) (repo_id digest : Str)
      → (get_manifest ml tl
          (invalidate_repo_tags ml tl (invalidate_manifest ml tl cache repo_id digest) repo_id)
          repo_id
          digest).0
        ≡ none
  unfolding get_manifest invalidate_manifest invalidate_repo_tags
  not_cached cache repo_id digest = ground (
    arith,
    ml.get-peek (key repo_id digest) (ml.pop (key repo_id digest) cache.manifests),
    ml.peek-pop_self (key repo_id digest) cache.manifests,
  )

  read_manifest-gone :
      (gen : ℕ) (db : Db) (cache : ManifestCache M T) (repo_id digest : Str)
      → (read_manifest ml tl gen repo_id digest (gone db cache repo_id digest)).0 ≡ none
  unfolding read_manifest gone
  read_manifest-gone gen db cache repo_id digest = rw (
    read_manifest,
    not_cached cache repo_id digest,
    get_manifest_by_digest-delete_manifest db repo_id digest repo_id digest,
    str_eq_refl repo_id,
    str_eq_refl digest,
  )

  find_repo-gone :
      (db : Db) (cache : ManifestCache M T) (org_id name : Str) (repo : Repository)
      → find_repo db org_id name ≡ some repo
      → (digest : Str) → find_repo (gone db cache repo.id digest).db org_id name ≡ some repo
  unfolding gone find_repo delete_manifest
  find_repo-gone db cache org_id name repo e digest = e

  resolve_reference-digest :
      (gen : ℕ) (repo_id reference : Str) (l : Local M T)
      → is_digest reference ≡ true
      → resolve_reference ml tl gen repo_id reference l ≡ (some reference, l)
  unfolding resolve_reference
  resolve_reference-digest gen repo_id reference l digest = ground arith

  -- After a manifest was deleted by its digest, looking it up by that digest in this server finds
  -- nothing: neither the cache nor the tables still have it.
  pub delete-serve_local :
      (org_id repo_name reference : Str) (head_only : Bool) (l : Local M T) (r : Response)
      (l' : Local M T)
      → is_digest reference ≡ true
      → delete ml tl org_id repo_name reference l ≡ ok (r, l')
      → (serve_local ml tl org_id repo_name reference head_only l').0 ≡ none
  unfolding delete gone serve_local
  delete-serve_local org_id repo_name reference head_only l r l' digest h =
      elim (Option-cases (find_repo l.db org_id repo_name)) [
        | inl none_listed ↦ absurd (ground arith)
        | inr (repo, listed) ↦
            let e : l' ≡ gone l.db l.cache repo.id reference = ground arith in
            rw e (
              rw (
                serve_local,
                find_repo-gone l.db l.cache org_id repo_name repo listed reference,
                ap (λ p. p.0)
                    (resolve_reference-digest
                      (current_generation ml tl (gone l.db l.cache repo.id reference).cache) repo.id
                      reference (gone l.db l.cache repo.id reference) digest),
                ap (λ p. p.1)
                    (resolve_reference-digest
                      (current_generation ml tl (gone l.db l.cache repo.id reference).cache) repo.id
                      reference (gone l.db l.cache repo.id reference) digest),
                read_manifest-gone
                    (current_generation ml tl (gone l.db l.cache repo.id reference).cache) l.db
                    l.cache repo.id reference,
              ))
      ]
