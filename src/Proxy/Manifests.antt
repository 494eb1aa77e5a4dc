-- ===== src/Proxy/Manifests.antt =====
-- `cache_manifest` and `store_manifest` of src/proxy.rs: record a fetched manifest and point its tag at
-- it.
pub mod Served
use ruskery.Common.{
  ℕ, ◌++◌, Bool, true, false, not, ◌&&◌, Option, none, some, Str, codes, if◌then◌else◌,
}
use ruskery.Error.{Result, ok, err, guard, ◌>>=◌, ◌>>◌}
use ruskery.Db.{Db}
use ruskery.Db.Orgs.{OrgUpstream}
use ruskery.Db.Manifests.{ManifestLinks, put_manifest, upsert_tag}
use ruskery.Cache.{Lru, CachedManifest, ManifestCache, put_tag, invalidate_manifest}
use ruskery.Registry.Digest.{digests_equal, is_digest}
use ruskery.Registry.Manifests.{Local, Codec, manifest_digest, links_of, find_or_create}
use ruskery.Proxy.{Urls, upstream_error}
use ruskery.Proxy.Fetch.{Net, run}
use ruskery.Proxy.Listing.{fetch_manifest}

module _ {M T : Type 0} (ml : Lru CachedManifest M) (tl : Lru Str T) where
  -- The statements, and the cache: the tag is set before the manifest is invalidated.
  unfoldable pub record_fetched :
      Str → Str → Str → Str → Str → Str → ManifestLinks → Db → ManifestCache M T → Local M T
  record_fetched now repo_id reference digest media_type content links db cache =
      let db' = put_manifest db now repo_id digest media_type content links in
      if is_digest reference
      then record { db = db'; cache = invalidate_manifest ml tl cache repo_id digest }
      else record {
        db = upsert_tag db' now repo_id reference digest;
        cache =
            invalidate_manifest ml tl (put_tag ml tl cache repo_id reference digest) repo_id digest;
      }

  unfoldable pub store_manifest :
      Codec → Str → Str → Str → Str → Str → Str → Str → Local M T → Result (Str × Local M T)
  unfolding record_fetched
  store_manifest codec id now org_id repo_name reference content media_type l = do
    let digest = manifest_digest codec content
    guard (not (is_digest reference && not (digests_equal reference digest)))
        (upstream_error (codes "upstream manifest digest did not match the requested digest"))
    doc ← (elim (codec.parse_json content) [
      | none ↦ err (upstream_error (codes "upstream manifest is not valid JSON"))
      | some v ↦ ok v
    ])
    (repo, db) ← find_or_create l.db id now org_id repo_name
    ok (
      digest,
      record_fetched now repo.id reference digest media_type content (links_of doc) db l.cache,
    )

  abbrev stored : Local M T → Result (Str × Local M T) → Result (Unit {0}) × Local M T
  stored l (err e) = (err e, l)
  stored l (ok (digest, l')) = (ok tt, l')

  -- What follows the upstream's answer; a 404 caches nothing.
  unfoldable pub keep_manifest :
      Codec
      → Str
      → Str
      → Str
      → Str
      → Str
      → Result (Option (Str × Str))
      → Local M T
      → Result (Unit {0}) × Local M T
  unfolding store_manifest
  keep_manifest codec id now org_id repo_name reference (err e) l = (err e, l)
  keep_manifest codec id now org_id repo_name reference (ok none) l = (ok tt, l)
  keep_manifest codec id now org_id repo_name reference (ok (some (content, media_type))) l =
      stored l (store_manifest codec id now org_id repo_name reference content media_type l)

  unfoldable pub cache_manifest :
      {Url Origin N : Type 0}
      → Urls Url Origin
      → Codec
      → Net N
      → N
      → Str
      → Str
      → Str
      → Str
      → Str
      → OrgUpstream
      → Local M T
      → Result (Unit {0}) × Local M T
  unfolding keep_manifest
  cache_manifest urls codec net n id now org_id repo_name reference up l =
      keep_manifest codec id now org_id repo_name reference
        (run net (fetch_manifest urls codec.parse_json up repo_name reference) n).0 l
