-- ===== src/Registry/Manifests/Pushed.antt =====
-- What a successful push (src/registry/manifests.rs) has done.
use ruskery.Common.{
  ◌≡◌, not, ◌&&◌, Option, some, Str, arith, Option-cases, Bool-cases, inl, inr, unwrap_or,
}
use ruskery.Error.{Result-cases, ok, Response}
use ruskery.Db.{Db, Repository}
use ruskery.Db.Orgs.{find_repo}
use ruskery.Db.Orgs.Repositories.{find_repo-create_repo}
use ruskery.Db.Manifests.{ManifestLinks}
use ruskery.Cache.{Lru, CachedManifest, ManifestCache}
use ruskery.Registry.Digest.{is_digest, digests_equal}
use ruskery.Registry.Manifests.Json.{blob_refs}
use ruskery.Registry.Manifests.{
  Local, Codec, default_media_type, manifest_digest, check_blobs, links_of, find_or_create,
  store_manifest, put, audited,
}

pub find_or_create-find_repo :
    (db : Db) (id now org_id name : Str) (repo : Repository) (db' : Db)
    → find_or_create db id now org_id name ≡ ok (repo, db')
    → find_repo db' org_id name ≡ some repo
find_or_create-find_repo db id now org_id name repo db' h =
    elim (Option-cases (find_repo db org_id name)) [
      | inl e ↦ find_repo-create_repo db id now org_id name repo db' (ground arith)
      | inr (r, e) ↦ ground arith
    ]

module _ {M T : Type 0} (ml : Lru CachedManifest M) (tl : Lru Str T) where
  -- What a successful push has done.
  pub record Pushed (codec : Codec) (now org_id repo_name reference media_type body : Str)
      (name actor_user_id : Str) (l' : Local M T) : Type 0 where
    pub repo : Repository
    pub db : Db
    pub cache : ManifestCache M T
    pub links : ManifestLinks
    pub listed : find_repo db org_id repo_name ≡ some repo
    pub result :
        l'
        ≡ audited ml tl now actor_user_id org_id name reference (manifest_digest codec body) (
            store_manifest ml tl now repo.id reference
              (manifest_digest codec body)
              media_type
              body
              links
              db
              cache)

  pub Pushed-put :
      (codec : Codec) (id now org_id repo_name name reference : Str) (content_type : Option Str)
      (body actor_user_id : Str) (l : Local M T) (r : Response) (l' : Local M T)
      → put ml tl codec id now org_id repo_name name reference content_type body actor_user_id l
        ≡ ok (r, l')
      → Pushed codec now org_id repo_name reference
          (unwrap_or content_type default_media_type)
          body
          name
          actor_user_id
          l'
  unfolding put
  Pushed-put codec id now org_id repo_name name reference content_type body actor_user_id l r l' h =
      let digest = manifest_digest codec body in
      elim (Bool-cases (is_digest reference && not (digests_equal reference digest))) [
        | inl bad ↦ absurd (ground arith)
        | inr good ↦ elim (Option-cases (codec.parse_json body)) [
          | inl junk ↦ absurd (ground arith)
          | inr (doc, parsed) ↦ elim (Result-cases (check_blobs l.db org_id (blob_refs doc))) [
            | inr (_, missing) ↦ absurd (ground arith)
            | inl (_, there) ↦ elim (Result-cases (find_or_create l.db id now org_id repo_name)) [
              | inr (_, refused) ↦ absurd (ground arith)
              | inl (made, e) ↦ record {
                repo = made.0;
                db = made.1;
                cache = l.cache;
                links = links_of doc;
                listed = find_or_create-find_repo l.db id now org_id repo_name made.0 made.1 e;
                result = ground arith;
              }
            ]
          ]
        ]
      ]
