-- ===== src/Tests/Content.antt =====
-- What the tables, the cache and the handlers of manifests hold after pushes and deletes.
use ruskery.Common.{
  ℕ, ◌≡◌, ◌≢◌, refl, ◌+◌, ◌%◌, ◌^◌, ◌<◌, ◌&&◌, ◌⊎◌, Bool, true, false, Option, none, some, List, [],
  ◌∷◌, Str, codes, str_eq, if◌then◌else◌, arith, All, option_map, length, unwrap_or,
}
use ruskery.Common.Int.{pos, as_i64}
use ruskery.Error.{Result, ok, err, Response, no_body}
use ruskery.Db.Orgs.{find_repo, OrgUpstream}
use ruskery.Db.Manifests.{
  ManifestLinks, put_manifest, upsert_tag, get_manifest_by_digest, tag_digest, delete_manifest,
}
use ruskery.Db.Manifests.Stored.{
  get_manifest_by_digest-put_manifest, get_manifest_by_digest-delete_manifest,
}
use ruskery.Cache.{
  CachedManifest, ManifestCache, key, new, put_manifest_if_current, get_tag, put_tag_if_current,
  current_generation, invalidate_repo_tags, get_manifest,
}
use ruskery.Cache.Tags.{push_cache, two_pushes_disagree, get_tag-invalidate_repo_tags}
use ruskery.Cache.Stale.{CacheCall, tag_asked, tags_gone, tag_put, calls, put_if_current-stale}
use ruskery.Cache.Coherency.{Shared, snapshot, load, fill, Reach, here, next, Pending, at_head}
use ruskery.Cache.Coherency.Hits.{get_manifest-Fresh}
use ruskery.Registry.Digest.{is_digest}
use ruskery.Registry.Manifests.{
  Local, Codec, check_blobs, manifest_digest, default_media_type, served, put, serve_local, get,
  delete,
}
use ruskery.Registry.Manifests.Json
use ruskery.Registry.Manifests.Json.{blob_refs}
use ruskery.Registry.Manifests.RoundTrip.{get-put}
use ruskery.Registry.Manifests.Delete.{delete-serve_local}
use ruskery.Tests.Access.{db}
use ruskery.Tests.Instances.{listed, look}

abbrev no_links : ManifestLinks
no_links = record { blobs = []; children = []; subject = none }

get_manifest_by_digest-put_manifest_example :
    get_manifest_by_digest
      (put_manifest db
        (codes "t")
        (codes "r1")
        (codes "sha256:aa")
        (codes "m")
        (codes "{}")
        no_links)
      (codes "r1")
      (codes "sha256:aa")
    ≡ some (record { media_type = codes "m"; size = as_i64 2; content = codes "{}" })
unfolding str_eq
get_manifest_by_digest-put_manifest_example =
    get_manifest_by_digest-put_manifest db (codes "t") (codes "r1") (codes "sha256:aa") (codes "m")
      (codes "{}") no_links (codes "r1") (codes "sha256:aa")

get_manifest_by_digest-delete_manifest_example :
    get_manifest_by_digest
      (delete_manifest db (codes "r1") (codes "sha256:aa"))
      (codes "r1")
      (codes "sha256:aa")
    ≡ none
unfolding str_eq
get_manifest_by_digest-delete_manifest_example =
    get_manifest_by_digest-delete_manifest db (codes "r1") (codes "sha256:aa") (codes "r1")
      (codes "sha256:aa")

abbrev Cached : Type 0
Cached = List (Str × CachedManifest)

abbrev Tagged : Type 0
Tagged = List (Str × Str)

abbrev empty : ManifestCache Cached Tagged
empty = record { enabled = true; generation = 0; manifests = []; tags = [] }

two_pushes_disagree_example :
    (tag_digest
        (upsert_tag
          (upsert_tag db (codes "t") (codes "r1") (codes "latest") (codes "sha256:aa"))
          (codes "t2")
          (codes "r1")
          (codes "latest")
          (codes "sha256:bb"))
        (codes "r1")
        (codes "latest")
      ≡ some (codes "sha256:bb"))
    × ((get_tag
          (listed CachedManifest)
          (listed Str)
          (push_cache
            (listed CachedManifest)
            (listed Str)
            (push_cache
              (listed CachedManifest)
              (listed Str)
              empty
              (codes "r1")
              (codes "latest")
              (codes "sha256:bb"))
            (codes "r1")
            (codes "latest")
            (codes "sha256:aa"))
          (codes "r1")
          (codes "latest")).0
        ≡ some (codes "sha256:aa"))
two_pushes_disagree_example =
    two_pushes_disagree (listed CachedManifest) (listed Str) db empty (codes "t") (codes "t2")
      (codes "r1") (codes "latest") (codes "sha256:aa") (codes "sha256:bb") refl

abbrev one_manifest : CachedManifest
one_manifest = record { media_type = codes "m"; size = pos 2; content = codes "{}" }

-- The tags of a repository are invalidated between the snapshot and the fill.
abbrev between : List CacheCall
between =
    tag_asked (codes "r1") (codes "latest")
    ∷ tags_gone (codes "r2")
    ∷ tag_put (codes "r1") (codes "latest") (codes "sha256:bb")
    ∷ []

abbrev after_calls : ManifestCache Cached Tagged
after_calls = calls (listed CachedManifest) (listed Str) empty between

put_if_current-stale_example :
    (put_tag_if_current
        (listed CachedManifest)
        (listed Str)
        after_calls
        (codes "r1")
        (codes "latest")
        (codes "sha256:aa")
        0
      ≡ after_calls)
    × (put_manifest_if_current
          (listed CachedManifest)
          (listed Str)
          after_calls
          (codes "r1")
          (codes "latest")
          one_manifest
          0
        ≡ after_calls)
unfolding current_generation
put_if_current-stale_example =
    put_if_current-stale (listed CachedManifest) (listed Str) empty between (codes "r1")
      (codes "latest") (codes "sha256:aa") one_manifest (omega arith) (omega arith) (omega arith)

abbrev two_tags : ManifestCache Cached Tagged
two_tags = record empty {
  tags = (codes "r1|latest", codes "sha256:aa") ∷ (codes "r2|latest", codes "sha256:bb") ∷ [];
}

get_tag-invalidate_repo_tags_example :
    (get_tag
      (listed CachedManifest)
      (listed Str)
      (invalidate_repo_tags (listed CachedManifest) (listed Str) two_tags (codes "r1"))
      (codes "r1")
      (codes "latest")).0
    ≡ none
unfolding str_eq
get_tag-invalidate_repo_tags_example =
    get_tag-invalidate_repo_tags (listed CachedManifest) (listed Str) two_tags (codes "r1")
      (codes "r1") (codes "latest") (ground arith) (ground arith)

abbrev start : Shared Cached Tagged
start = record { cache = empty; stored = λ k. some one_manifest; pending = []; readers = [] }

abbrev filled : Shared Cached Tagged
filled = record start {
  cache = record empty { manifests = (codes "r1|sha256:aa", one_manifest) ∷ [] };
}

-- One reader that misses and fills the cache.
reader_fills : Reach (listed CachedManifest) (listed Str) start filled
unfolding current_generation put_manifest_if_current key
reader_fills =
    next
      (next (next here (snapshot refl))
        (load 0 (codes "r1") (codes "sha256:aa") one_manifest [] at_head refl refl))
      (fill 0 (codes "r1") (codes "sha256:aa") one_manifest [] at_head refl)

get_manifest-Fresh_example :
    (filled.stored (key (codes "r1") (codes "sha256:aa")) ≡ some one_manifest)
    ⊎ Pending (key (codes "r1") (codes "sha256:aa")) filled.pending
unfolding get_manifest new key look str_eq
get_manifest-Fresh_example =
    get_manifest-Fresh (listed CachedManifest) (listed Str) [] [] (λ k. some one_manifest) filled
      (codes "r1") (codes "sha256:aa") one_manifest (λ k. refl) reader_fills refl

-- A digest function and a parser that suffice for the examples.
abbrev pub codec : Codec
codec = record { sha256_hex = λ s. codes "ab"; parse_json = λ s. some (Json.object Json.end) }

abbrev before : Local Cached Tagged
before = record { db = db; cache = empty }

abbrev no_response : Response
no_response = record { status = 0; headers = []; body = no_body }

abbrev outcome : Result (Response × Local Cached Tagged) → Response × Local Cached Tagged
outcome (ok p) = p
outcome (err e) = (no_response, before)

abbrev pushed : Response × Local Cached Tagged
pushed = outcome (
    put (listed CachedManifest) (listed Str) codec (codes "r9") (codes "t") (codes "o1")
      (codes "app") (codes "acme/app") (codes "latest") none (codes "{}") (codes "u1") before)

abbrev no_fetch : OrgUpstream → Local Cached Tagged → Result (Unit {0}) × Local Cached Tagged
no_fetch up l = (ok tt, l)

get-put_example :
    (get
      (listed CachedManifest)
      (listed Str)
      no_fetch
      (codes "o1")
      (codes "app")
      (codes "latest")
      false
      pushed.1).0
    ≡ ok (
        served false
          (manifest_digest codec (codes "{}"))
          (record { media_type = default_media_type; size = as_i64 2; content = codes "{}" }))
unfolding put check_blobs blob_refs is_digest str_eq ruskery.Common.str_contains find_repo
get-put_example =
    get-put (listed CachedManifest) (listed Str) codec (codes "r9") (codes "t") (codes "o1")
      (codes "app") (codes "acme/app") (codes "latest") none (codes "{}") (codes "u1") before
      pushed.0 pushed.1 no_fetch false refl refl

abbrev stored_before : Local Cached Tagged
stored_before = record {
  db =
      put_manifest db (codes "t") (codes "r1") (codes "sha256:aa") (codes "m") (codes "{}")
        no_links;
  cache = filled.cache;
}

abbrev deleted : Response × Local Cached Tagged
deleted = outcome (
    delete (listed CachedManifest) (listed Str) (codes "o1") (codes "app") (codes "sha256:aa")
      stored_before)

delete-serve_local_example :
    (serve_local
      (listed CachedManifest)
      (listed Str)
      (codes "o1")
      (codes "app")
      (codes "sha256:aa")
      false
      deleted.1).0
    ≡ none
unfolding delete find_repo put_manifest is_digest ruskery.Common.str_contains str_eq
delete-serve_local_example =
    delete-serve_local (listed CachedManifest) (listed Str) (codes "o1") (codes "app")
      (codes "sha256:aa") false stored_before deleted.0 deleted.1 refl refl
