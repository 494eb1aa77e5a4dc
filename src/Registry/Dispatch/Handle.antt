-- ===== src/Registry/Dispatch/Handle.antt =====
-- The handler that an admitted request reaches, and `dispatch` as a whole (src/registry/mod.rs).
use ruskery.Common.{
  ℕ, ◌++◌, ◌==◌, ◌&&◌, Bool, unwrap_or, true, false, Option, none, some, List, [], ◌∷◌, Str, codes,
  str_eq, parse_u64, ltb, length, find_row, if◌then◌else◌, and_then, option_map,
}
use ruskery.Error.{Error, oci, other, Result, ok, err, Response, into_response}
use ruskery.Db.{Db}
use ruskery.Db.Orgs.{OrgUpstream}
use ruskery.Db.Orgs.Views.{bump_image_pull}
use ruskery.Db.Content.{blob_size}
use ruskery.Common.Int.{ℤ, pos}
use ruskery.Db.Manifests.{Referrer}
use ruskery.Auth.Scope.{percent_decode}
use ruskery.Storage.{ObjectStore}
use ruskery.Cache.{Lru, CachedManifest, ManifestCache}
use ruskery.Registry.Route.{
  Method, get, head, put, delete, post, patch, Op, tags_list, manifest, referrers, blob,
  upload_start, upload_session,
}
use ruskery.Analytics.{
  Kind, manifest_push, manifest_pull, blob_upload, blob_serve, UsageCollector, record_event,
}
use ruskery.Registry.Auth.{Decoder}
use ruskery.Registry.Manifests
use ruskery.Registry.Manifests.{Local, Codec}
use ruskery.Registry.Blobs
use ruskery.Registry.Blobs.{Blobs}
use ruskery.Registry.Tags
use ruskery.Registry.Catalog.{catalog}
use ruskery.Registry.Uploads.Slots.{UploadRegistry}
use ruskery.Registry.Uploads.Handlers
use ruskery.Registry.Uploads.Handlers.{World, Answer}
use ruskery.Registry.Uploads.Handlers.Start
use ruskery.Registry.Uploads.Handlers.Chunks
use ruskery.Registry.Uploads.Handlers.Finish
use ruskery.Registry.Uploads.Handlers.Finish.{Limits}
use ruskery.Registry.Dispatch.{
  Request, Admitted, Admission, admitted, turned_away, query_param, unsupported, admit,
}

-- The state that requests share.
pub record Server (M T State : Type 0) : Type 0 where
  pub db : Db
  pub cache : ManifestCache M T
  pub uploads : UploadRegistry
  pub store : State
  pub usage : UsageCollector

-- The configuration, the clocks, fresh identifiers, and what other parts of the program and other
-- packages compute.
pub record Env (M T State : Type 0) : Type 0 where
  pub public_url : Str
  pub decode : Decoder
  pub codec : Codec
  pub limits : Limits
  pub max_body_bytes : ℕ
  pub instant : ℕ
  pub now : Str
  pub upload_id : Str
  pub repo_id : Str
  pub presign : Str → Option Str
  -- Whether a permit of `PULL_COUNTER_LIMIT` is free at the end of the request.
  pub counter_free : Bool
  pub fetch_manifest : Str → Str → Str → OrgUpstream → Local M T → Result (Unit {0}) × Local M T
  pub fetch_blob : Str → Str → Str → OrgUpstream → Blobs State → Result (Unit {0}) × Blobs State
  pub referrers_index : Option Str → List Referrer → Response

unfoldable pub manifest_too_large : Error
manifest_too_large = oci 413 (codes "SIZE_INVALID") (codes "manifest too large")

unfoldable pub missing_digest : Error
missing_digest = oci 400 (codes "DIGEST_INVALID") (codes "missing digest on upload finalize")

-- `axum::body::to_bytes`
joined : List (Option Str) → Option Str
joined [] = some []
joined (none ∷ body) = none
joined (some chunk ∷ body) = option_map (λ rest. chunk ++ rest) (joined body)

unfoldable pub to_bytes : ℕ → List (Option Str) → Option Str
unfolding joined
to_bytes max body =
    and_then (joined body) (λ bytes. if ltb max (length bytes) then none else some bytes)

abbrev decoded : Str → Str → Option Str
decoded query key = option_map percent_decode (query_param query key)

header_value : Str → List (Str × Str) → Option Str
header_value key headers = option_map (λ h. h.1) (find_row (λ h. str_eq h.0 key) headers)

module _ {M T State : Type 0} (ml : Lru CachedManifest M) (tl : Lru Str T)
    (store : ObjectStore State) (env : Env M T State) where
  abbrev pub Reply : Type 0
  Reply = Result Response × Server M T State

  abbrev with_local : Server M T State → Result Response × Local M T → Reply
  with_local s (r, l) = (r, record s { db = l.db; cache = l.cache })

  abbrev with_change : Server M T State → Result (Response × Local M T) → Reply
  with_change s (err e) = (err e, s)
  with_change s (ok (r, l)) = (ok r, record s { db = l.db; cache = l.cache })

  abbrev with_world : Server M T State → Answer State → Reply
  with_world s (r, w) = (r, record s { db = w.db; uploads = w.uploads; store = w.store })

  abbrev with_blobs : Server M T State → Result Response × Blobs State → Reply
  with_blobs s (r, b) = (r, record s { db = b.db; store = b.store })

  abbrev with_served : Server M T State → Result Response × UsageCollector × Blobs State → Reply
  with_served s (r, u, b) = (r, record s { db = b.db; store = b.store; usage = u })

  abbrev local_of : Server M T State → Local M T
  local_of s = record { db = s.db; cache = s.cache }

  abbrev world_of : Server M T State → World State
  world_of s = record { uploads = s.uploads; store = s.store; db = s.db }

  abbrev blobs_of : Server M T State → Blobs State
  blobs_of s = record { db = s.db; store = s.store }

  unfoldable pub handle_manifest : Admitted → Str → Method → Request → Server M T State → Reply
  handle_manifest a reference get rq s = with_local s (
      Manifests.get ml tl (env.fetch_manifest a.org.id a.repo_name reference) a.org.id a.repo_name
        reference false (local_of s))
  handle_manifest a reference head rq s = with_local s (
      Manifests.get ml tl (env.fetch_manifest a.org.id a.repo_name reference) a.org.id a.repo_name
        reference true (local_of s))
  handle_manifest a reference put rq s = elim (to_bytes env.max_body_bytes rq.body) [
    | none ↦ (err manifest_too_large, s)
    | some bytes ↦ with_change s (
        Manifests.put ml tl env.codec env.repo_id env.now a.org.id a.repo_name a.name reference
          rq.headers.content_type bytes a.claims.sub (local_of s))
  ]
  handle_manifest a reference delete rq s =
      with_change s (Manifests.delete ml tl a.org.id a.repo_name reference (local_of s))
  handle_manifest a reference _ rq s = (err unsupported, s)

  unfoldable pub handle_blob : Admitted → Str → Method → Server M T State → Reply
  handle_blob a digest get s = with_served s (
      Blobs.get store env.presign (env.fetch_blob a.org.id a.repo_name digest) env.now a.org.id
        a.repo_name a.claims.sub digest s.usage (blobs_of s))
  handle_blob a digest head s =
      with_blobs s
        (Blobs.head store (env.fetch_blob a.org.id a.repo_name digest) a.org.id digest (blobs_of s))
  handle_blob a digest delete s = with_blobs s (Blobs.delete store a.org.id digest (blobs_of s))
  handle_blob a digest _ s = (err unsupported, s)

  finish_with : Admitted → Str → Str → Request → World State → Answer State
  finish_with a upload_id digest rq w =
      Finish.finish store env.codec.sha256_hex env.limits env.instant env.now a.org.id a.name
        upload_id digest rq.body w

  -- A session, then the finalize path with the request's body.
  unfoldable pub start_then_finish : Admitted → Str → Request → World State → Answer State
  unfolding finish_with header_value
  start_then_finish a digest rq w =
      let (started, w') = Start.start store env.instant env.upload_id a.org.id a.name none w in
      elim started [
        | err e ↦ (err e, w')
        | ok r ↦ elim (header_value (codes "docker-upload-uuid") r.headers) [
          | none ↦ (err other, w')
          | some upload_id ↦ finish_with a upload_id digest rq w'
        ]
      ]

  unfoldable pub handle_start : Admitted → Method → Request → World State → Answer State
  handle_start a post rq w = elim (decoded rq.query (codes "digest")) [
    | some digest ↦ start_then_finish a digest rq w
    | none ↦
        Start.start store env.instant env.upload_id a.org.id a.name
          (decoded rq.query (codes "mount")) w
  ]
  handle_start a _ rq w = (err unsupported, w)

  unfoldable pub handle_session : Admitted → Str → Method → Request → World State → Answer State
  unfolding finish_with
  handle_session a id patch rq w =
      Chunks.patch store env.instant env.limits.max_blob_bytes a.org.id a.name id rq.content_range
        rq.body w
  handle_session a id put rq w = elim (decoded rq.query (codes "digest")) [
    | some digest ↦ finish_with a id digest rq w
    | none ↦ (err missing_digest, w)
  ]
  handle_session a id get rq w = Handlers.upload_status store a.org.id a.name id w
  handle_session a id delete rq w = Handlers.cancel store a.org.id id w
  handle_session a id _ rq w = (err unsupported, w)

  abbrev listed_referrers : Option Str → Result (List Referrer) → Result Response
  listed_referrers artifact_type (err e) = err e
  listed_referrers artifact_type (ok rows) = ok (env.referrers_index artifact_type rows)

  unfoldable pub handle_referrers : Admitted → Str → Method → Request → Server M T State → Reply
  handle_referrers a subject get rq s =
      let artifact_type = decoded rq.query (codes "artifactType") in
      (
        listed_referrers artifact_type
            (Manifests.referrers s.db a.org.id a.repo_name subject artifact_type),
        s,
      )
  handle_referrers a subject _ rq s = (err unsupported, s)

  unfoldable pub handle : Admitted → Op → Request → Server M T State → Reply
  handle a tags_list rq s = (
    Tags.list s.db a.org.id a.repo_name a.name
        (and_then (query_param rq.query (codes "n")) parse_u64) (decoded rq.query (codes "last")),
    s,
  )
  handle a (referrers subject) rq s = handle_referrers a subject rq.method rq s
  handle a (manifest reference) rq s = handle_manifest a reference rq.method rq s
  handle a (blob digest) rq s = handle_blob a digest rq.method s
  handle a upload_start rq s = with_world s (handle_start a rq.method rq (world_of s))
  handle a (upload_session id) rq s = with_world s (handle_session a id rq.method rq (world_of s))

  -- What a request counts as, and the digest of the blob whose size it counts.
  unfoldable pub metric : Op → Method → Str → Option (Kind × Option Str)
  metric (manifest reference) get query = some (manifest_pull, none)
  metric (manifest reference) put query = some (manifest_push, none)
  metric (upload_session id) put query =
      option_map (λ d. (blob_upload, some d)) (decoded query (codes "digest"))
  metric upload_start post query =
      option_map (λ d. (blob_upload, some d)) (decoded query (codes "digest"))
  metric _ _ query = none

  abbrev pub counted_status : Kind → ℕ
  counted_status manifest_pull = 200
  counted_status blob_serve = 307
  counted_status manifest_push = 201
  counted_status blob_upload = 201

  abbrev moved : Admitted → Server M T State → Option Str → ℤ
  moved a s none = pos 0
  moved a s (some digest) = unwrap_or (blob_size s.db a.org.id digest) (pos 0)

  -- The usage of a request that was answered.
  unfoldable pub used : Admitted → Request → Response → Server M T State → Server M T State
  unfolding metric
  used a rq response s = elim (metric a.op rq.method rq.query) [
    | none ↦ s
    | some (kind, digest) ↦
        if response.status == counted_status kind
        then record s {
          usage =
              record_event env.now s.usage a.org.id a.repo_name (some a.claims.sub) kind
                (moved a s digest);
        }
        else s
  ]

  abbrev pub is_get : Method → Bool
  is_get get = true
  is_get _ = false

  -- The digest of the image that a request has pulled.
  unfoldable pub pulled : Request → Response → Option Str
  unfolding header_value
  pulled rq response =
      if is_get rq.method && response.status == 200
      then header_value (codes "docker-content-digest") response.headers
      else none

  -- The task that counts the pull is run at the end of the request. Without a permit it is skipped.
  unfoldable pub count_pull : Admitted → Request → Response → Server M T State → Server M T State
  unfolding pulled
  count_pull a rq response s = elim (pulled rq response) [
    | none ↦ s
    | some digest ↦
        if env.counter_free
        then record s { db = bump_image_pull s.db a.org.id a.repo_name digest }
        else s
  ]

  abbrev pub counted : Admitted → Request → Reply → Reply
  counted a rq (err e, s) = (err e, s)
  counted a rq (ok response, s) = (ok response, count_pull a rq response (used a rq response s))

  abbrev pub respond_with : Reply → Response × Server M T State
  respond_with (ok r, s) = (r, s)
  respond_with (err e, s) = (into_response e, s)

  abbrev pub go_on : Request → Server M T State → Admission → Response × Server M T State
  go_on rq s (turned_away response) = (response, s)
  go_on rq s (admitted a) = respond_with (counted a rq (handle a a.op rq s))

  unfoldable pub dispatch : Request → Server M T State → Response × Server M T State
  dispatch rq s =
      if str_eq rq.rest (codes "_catalog")
      then (catalog env.decode env.public_url rq.headers s.db, s)
      else go_on rq s (admit env.decode env.public_url s.db rq)
