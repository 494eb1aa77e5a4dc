-- ===== src/Registry/Manifests/RoundTrip.antt =====
-- A pull after a push (src/registry/manifests.rs).
use ruskery.Common.{◌≡◌, ◌∙◌, Bool, false, Option, Str, length, unwrap_or}
use ruskery.Common.Int.{as_i64}
use ruskery.Error.{Result, ok, Response}
use ruskery.Db.{Db}
use ruskery.Db.Orgs.{find_repo, OrgUpstream}
use ruskery.Db.Manifests.{ManifestLinks, put_manifest, upsert_tag}
use ruskery.Cache.{Lru, CachedManifest, ManifestCache}
use ruskery.Registry.Digest.{is_digest}
use ruskery.Registry.Manifests.{
  Local, Codec, default_media_type, manifest_digest, served, store_manifest, put, get,
}
use ruskery.Registry.Manifests.Pushed.{Pushed-put}
use ruskery.Registry.Manifests.Ready.{
  serve_local-IsReady, store_manifest-IsReady, IsReady-audited, tagged_db,
}

module _ {M T : Type 0} (ml : Lru CachedManifest M) (tl : Lru Str T) where
  find_repo-store_manifest :
      (now repo_id reference digest media_type body : Str) (links : ManifestLinks) (db : Db)
      (cache : ManifestCache M T) (org_id name : Str)
      → is_digest reference ≡ false
      → find_repo
          (store_manifest ml tl now repo_id reference digest media_type body links db cache).db
          org_id
          name
        ≡ find_repo db org_id name
  unfolding find_repo upsert_tag put_manifest
  find_repo-store_manifest now repo_id reference digest media_type body links db cache org_id name
        tagged =
      rw (tagged_db ml tl now repo_id reference digest media_type body links db cache tagged)

  -- Pull after push: when a push under a tag succeeds, a pull of that tag gives the pushed bytes with
  -- their media type, length and digest, whatever the cache and the database held before.
  pub get-put :
      (codec : Codec) (id now org_id repo_name name reference : Str) (content_type : Option Str)
      (body actor_user_id : Str) (l : Local M T) (r : Response) (l' : Local M T)
      (fetch : OrgUpstream → Local M T → Result (Unit {0}) × Local M T) (head_only : Bool)
      → is_digest reference ≡ false
      → put ml tl codec id now org_id repo_name name reference content_type body actor_user_id l
        ≡ ok (r, l')
      → (get ml tl fetch org_id repo_name reference head_only l').0
        ≡ ok (
            served head_only (manifest_digest codec body) (record {
              media_type = unwrap_or content_type default_media_type;
              size = as_i64 (length body);
              content = body;
            }))
  unfolding get find_repo
  get-put codec id now org_id repo_name name reference content_type body actor_user_id l r l' fetch
        head_only tagged h =
      let pushed =
        Pushed-put ml tl codec id now org_id repo_name name reference content_type body
          actor_user_id l r l' h in
      let served_now =
        serve_local-IsReady ml tl org_id repo_name reference (manifest_digest codec body) head_only
          (record {
            media_type = unwrap_or content_type default_media_type;
            size = as_i64 (length body);
            content = body;
          })
          pushed.repo l' tagged
          (rw (pushed.result) (
            find_repo-store_manifest now pushed.repo.id reference (manifest_digest codec body)
              (unwrap_or content_type default_media_type) body pushed.links pushed.db pushed.cache
              org_id repo_name tagged
            ∙ pushed.listed))
          (rw (pushed.result) (
            IsReady-audited ml tl now actor_user_id org_id name reference
              (manifest_digest codec body) pushed.repo.id reference (manifest_digest codec body) _ _
              (store_manifest-IsReady ml tl now pushed.repo.id reference
                (manifest_digest codec body) (unwrap_or content_type default_media_type) body
                pushed.links pushed.db pushed.cache tagged))) in
      rw (get, served_now)
