-- ===== src/Registry/Manifests.antt =====
-- src/registry/manifests.rs: push, pull and delete of manifests over the database and the read
-- cache. SHA-256 and the JSON parser are the crates', and so is the map inside the cache. What
-- src/proxy.rs does for a pull-through organization on a miss enters as `fetch`.
pub mod Json
pub mod Delete
pub mod Pushed
pub mod Ready
pub mod RoundTrip
use ruskery.Common.{
  ℕ, ◌++◌, Bool, true, false, not, ◌&&◌, Option, none, some, List, [], ◌∷◌, Str, codes, str_eq,
  if◌then◌else◌, unwrap_or, option_map, all, decimal, filter, find_row,
}
use ruskery.Common.Int.{ℤ, pos_part, neg_part}
use ruskery.Error.{Error, oci, Result, ok, err, guard, ◌>>=◌, ◌>>◌, Response, bytes, no_body}
use ruskery.Db.{Db, Org, Repository}
use ruskery.Db.Orgs.{find_repo, create_repo, org_upstream, OrgUpstream}
use ruskery.Db.Audit.{record_event}
use ruskery.Db.Content.{blob_exists}
use ruskery.Db.Manifests.{
  ManifestLinks, put_manifest, upsert_tag, get_manifest_by_digest, tag_digest, delete_manifest,
  Referrer, list_referrers,
}
use ruskery.Cache.{
  Lru, CachedManifest, ManifestCache, current_generation, get_manifest, put_manifest_if_current,
  invalidate_manifest, get_tag, put_tag, put_tag_if_current, invalidate_repo_tags,
}
use ruskery.Registry.Digest.{digests_equal, is_digest, is_valid_digest}
use ruskery.Registry.Manifests.Json.{Value, blob_refs, child_refs, subject_of}

unfoldable pub manifest_unknown : Error
manifest_unknown = oci 404 (codes "MANIFEST_UNKNOWN") (codes "manifest unknown")

unfoldable pub digest_invalid : Error
digest_invalid = oci 400 (codes "DIGEST_INVALID") (codes "provided digest does not match content")

unfoldable pub manifest_invalid : Error
manifest_invalid = oci 400 (codes "MANIFEST_INVALID") (codes "manifest is not valid JSON")

unfoldable pub blob_unknown : Str → Error
blob_unknown r =
    oci 400 (codes "MANIFEST_BLOB_UNKNOWN") (codes "referenced blob " ++ (r ++ codes " is missing"))

-- The state that the handlers change.
pub record Local (M T : Type 0) : Type 0 where
  pub db : Db
  pub cache : ManifestCache M T

-- The functions of other packages.
pub record Codec : Type 0 where
  pub sha256_hex : Str → Str
  pub parse_json : Str → Option Value

abbrev pub default_media_type : Str
default_media_type = codes "application/vnd.oci.image.manifest.v1+json"

unfoldable pub manifest_digest : Codec → Str → Str
manifest_digest codec body = codes "sha256:" ++ codec.sha256_hex body

-- The loop that looks for a blob that was not uploaded.
unfoldable pub check_blobs : Db → Str → List Str → Result (Unit {0})
check_blobs db org_id [] = ok tt
check_blobs db org_id (r ∷ rs) =
    guard (blob_exists db org_id r) (blob_unknown r) >> check_blobs db org_id rs

unfoldable pub links_of : Value → ManifestLinks
links_of doc = record { blobs = blob_refs doc; children = child_refs doc; subject = subject_of doc }

abbrev pub find_or_create : Db → Str → Str → Str → Str → Result (Repository × Db)
find_or_create db id now org_id repo_name = elim (find_repo db org_id repo_name) [
  | some r ↦ ok (r, db)
  | none ↦ create_repo db id now org_id repo_name
]

-- `i64::to_string`
unfoldable pub size_text : ℤ → Str
size_text z =
    if str_eq (decimal (neg_part z)) (decimal 0)
    then decimal (pos_part z)
    else codes "-" ++ decimal (neg_part z)

unfoldable pub served : Bool → Str → CachedManifest → Response
unfolding size_text
served head_only digest m = record {
  status = 200;
  headers =
      (codes "content-type", m.media_type)
      ∷ (codes "content-length", size_text m.size)
      ∷ (codes "docker-content-digest", digest)
      ∷ [];
  body = if head_only then no_body else bytes m.content;
}

unfoldable pub pushed_response : Str → Str → Option (Str × Str) → Response
pushed_response name digest subject = record {
  status = 201;
  headers =
      (codes "location", codes "/v2/" ++ (name ++ (codes "/manifests/" ++ digest)))
      ∷ (codes "docker-content-digest", digest)
      ∷ (elim subject [ none ↦ [] | some (s, _) ↦ (codes "oci-subject", s) ∷ [] ]);
  body = no_body;
}

module _ {M T : Type 0} (ml : Lru CachedManifest M) (tl : Lru Str T) where
  -- The database statements of a push, and then the cache.
  unfoldable pub store_manifest :
      Str → Str → Str → Str → Str → Str → ManifestLinks → Db → ManifestCache M T → Local M T
  store_manifest now repo_id reference digest media_type content links db cache =
      let db' = put_manifest db now repo_id digest media_type content links in
      let cache' = invalidate_manifest ml tl cache repo_id digest in
      if is_digest reference then record { db = db'; cache = cache' } else record {
        db = upsert_tag db' now repo_id reference digest;
        cache = put_tag ml tl cache' repo_id reference digest;
      }

  -- The audit record of a push.
  abbrev pub audited : Str → Str → Str → Str → Str → Str → Local M T → Local M T
  audited now actor_user_id org_id name reference digest l = record l {
    db =
        record_event l.db now (some actor_user_id) (some org_id) (codes "image.push")
          (some (name ++ (codes ":" ++ reference))) (some digest);
  }

  unfoldable pub put :
      Codec
      → Str
      → Str
      → Str
      → Str
      → Str
      → Str
      → Option Str
      → Str
      → Str
      → Local M T
      → Result (Response × Local M T)
  put codec id now org_id repo_name name reference content_type body actor_user_id l = do
    let digest = manifest_digest codec body
    guard (not (is_digest reference && not (digests_equal reference digest))) digest_invalid
    doc ← (elim (codec.parse_json body) [ none ↦ err manifest_invalid | some v ↦ ok v ])
    check_blobs l.db org_id (blob_refs doc)
    (repo, db) ← find_or_create l.db id now org_id repo_name
    ok (
      pushed_response name digest (subject_of doc),
      audited now actor_user_id org_id name reference digest (
          store_manifest now repo.id reference digest (unwrap_or content_type default_media_type)
            body (links_of doc) db l.cache),
    )

  -- The digest that a reference stands for, from the cache or the table.
  unfoldable pub resolve_reference : ℕ → Str → Str → Local M T → Option Str × Local M T
  resolve_reference gen repo_id reference l =
      let (hit, cache) = get_tag ml tl l.cache repo_id reference in
      if is_digest reference then (some reference, l) else elim hit [
        | some d ↦ (some d, record l { cache = cache })
        | none ↦ elim (tag_digest l.db repo_id reference) [
          | none ↦ (none, record l { cache = cache })
          | some d ↦
              (some d, record l { cache = put_tag_if_current ml tl cache repo_id reference d gen })
        ]
      ]

  unfoldable pub read_manifest : ℕ → Str → Str → Local M T → Option CachedManifest × Local M T
  read_manifest gen repo_id digest l =
      let (hit, cache) = get_manifest ml tl l.cache repo_id digest in
      elim hit [
        | some m ↦ (some m, record l { cache = cache })
        | none ↦ elim (get_manifest_by_digest l.db repo_id digest) [
          | none ↦ (none, record l { cache = cache })
          | some row ↦
              let m : CachedManifest = record {
                media_type = row.media_type;
                size = row.size;
                content = row.content;
              } in
              (
                some m,
                record l { cache = put_manifest_if_current ml tl cache repo_id digest m gen },
              )
        ]
      ]

  unfoldable pub serve_local : Str → Str → Str → Bool → Local M T → Option Response × Local M T
  serve_local org_id repo_name reference head_only l = elim (find_repo l.db org_id repo_name) [
    | none ↦ (none, l)
    | some repo ↦
        let gen = current_generation ml tl l.cache in
        let (resolved, l') = resolve_reference gen repo.id reference l in
        elim resolved [
          | none ↦ (none, l')
          | some digest ↦
              let (found, l'') = read_manifest gen repo.id digest l' in
              (option_map (served head_only digest) found, l'')
        ]
  ]

  abbrev answer : Option Response → Result Response
  answer none = err manifest_unknown
  answer (some r) = ok r

  -- `fetch` is `proxy::cache_manifest` with the upstream's configuration.
  unfoldable pub get :
      (OrgUpstream → Local M T → Result (Unit {0}) × Local M T)
      → Str
      → Str
      → Str
      → Bool
      → Local M T
      → Result Response × Local M T
  get fetch org_id repo_name reference head_only l =
      let (first, l') = serve_local org_id repo_name reference head_only l in
      elim first [
        | some r ↦ (ok r, l')
        | none ↦ elim (org_upstream l'.db org_id) [
          | none ↦ (err manifest_unknown, l')
          | some up ↦
              let (fetched, l'') = fetch up l' in
              elim fetched [
                | err e ↦ (err e, l'')
                | ok _ ↦
                    let (second, l3) = serve_local org_id repo_name reference head_only l'' in
                    (answer second, l3)
              ]
        ]
      ]

  abbrev named_digest : Db → Str → Str → Option Str
  named_digest db repo_id reference =
      if is_digest reference then some reference else tag_digest db repo_id reference

  unfoldable pub delete : Str → Str → Str → Local M T → Result (Response × Local M T)
  delete org_id repo_name reference l = do
    repo ← (elim (find_repo l.db org_id repo_name) [ none ↦ err manifest_unknown | some r ↦ ok r ])
    digest ← (elim (named_digest l.db repo.id reference) [
      | none ↦ err manifest_unknown
      | some d ↦ ok d
    ])
    ok (
      record { status = 202; headers = []; body = no_body },
      record {
        db = delete_manifest l.db repo.id digest;
        cache =
            invalidate_repo_tags ml tl (invalidate_manifest ml tl l.cache repo.id digest) repo.id;
      },
    )

-- The descriptors of `referrers`, before they are written as JSON; the check of the digest first.
unfoldable pub referrers : Db → Str → Str → Str → Option Str → Result (List Referrer)
referrers db org_id repo_name subject artifact_type = do
  guard (is_valid_digest subject) (oci 400 (codes "DIGEST_INVALID") (codes "invalid digest"))
  ok (elim (find_repo db org_id repo_name) [
    | none ↦ []
    | some repo ↦ elim artifact_type [
      | none ↦ list_referrers db repo.id subject
      | some at ↦ filter (λ r. str_eq r.artifact_type at) (list_referrers db repo.id subject)
    ]
  ])
