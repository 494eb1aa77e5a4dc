-- ===== src/Registry/Blobs.antt =====
-- src/registry/blobs.rs: existence, download and deletion of blobs over the tables and the store.
-- `presign` is the SDK's presigned URL of a key, and `fetch` is `proxy::cache_blob`.
pub mod Deletion
use ruskery.Common.{
  Bool, true, false, not, Option, none, some, [], ◌∷◌, Str, codes, str_eq, decimal, if◌then◌else◌,
}
use ruskery.Common.Int.{ℤ}
use ruskery.Error.{Error, oci, other, Result, ok, err, Response, no_body}
use ruskery.Db.{Db}
use ruskery.Db.Orgs.{OrgUpstream, org_upstream}
use ruskery.Db.Content.{blob_size, blob_exists, blob_referenced, delete_blob}
use ruskery.Storage.{ObjectStore, blob_key}
use ruskery.Analytics.{UsageCollector, blob_serve, record_event}
use ruskery.Registry.Manifests.{size_text}

pub record Blobs (State : Type 0) : Type 0 where
  pub db : Db
  pub store : State

unfoldable pub unknown_blob : Error
unknown_blob = oci 404 (codes "BLOB_UNKNOWN") (codes "blob unknown to registry")

unfoldable pub still_referenced : Error
still_referenced =
    oci 409 (codes "DENIED") (codes "blob is still referenced by one or more manifests")

module _ {State : Type 0} (store : ObjectStore State) where
  abbrev pub Fetch : Type 0
  Fetch = OrgUpstream → Blobs State → Result (Unit {0}) × Blobs State

  size_or_unknown : Option ℤ → Result ℤ
  size_or_unknown none = err unknown_blob
  size_or_unknown (some size) = ok size

  unfoldable pub ensure_cached : Fetch → Str → Str → Blobs State → Result ℤ × Blobs State
  unfolding size_or_unknown
  ensure_cached fetch org_id digest b = elim (org_upstream b.db org_id) [
    | none ↦ (err unknown_blob, b)
    | some up ↦
        let (fetched, b') = fetch up b in
        elim fetched [
          | err e ↦ (err e, b')
          | ok _ ↦ (size_or_unknown (blob_size b'.db org_id digest), b')
        ]
  ]

  -- The size of a blob that is there, or that the upstream has.
  unfoldable pub size_of : Fetch → Str → Str → Blobs State → Result ℤ × Blobs State
  unfolding ensure_cached
  size_of fetch org_id digest b = elim (blob_size b.db org_id digest) [
    | some size ↦ (ok size, b)
    | none ↦ ensure_cached fetch org_id digest b
  ]

  unfoldable pub head : Fetch → Str → Str → Blobs State → Result Response × Blobs State
  head fetch org_id digest b =
      let (size, b') = size_of fetch org_id digest b in
      elim size [
        | err e ↦ (err e, b')
        | ok n ↦ (
          ok (record {
            status = 200;
            headers =
                (codes "content-length", size_text n)
                ∷ (codes "content-type", codes "application/octet-stream")
                ∷ (codes "docker-content-digest", digest)
                ∷ [];
            body = no_body;
          }),
          b',
        )
      ]

  -- The usage collector is at the time `now`.
  unfoldable pub get :
      (Str → Option Str)
      → Fetch
      → Str
      → Str
      → Str
      → Str
      → Str
      → UsageCollector
      → Blobs State
      → Result Response × UsageCollector × Blobs State
  get presign fetch now org_id repo user_id digest usage b =
      let (size, b') = size_of fetch org_id digest b in
      elim size [
        | err e ↦ (err e, usage, b')
        | ok n ↦ elim (presign (blob_key org_id digest)) [
          | none ↦ (err other, usage, b')
          | some url ↦ (
            ok (record {
              status = 307;
              headers = (codes "location", url) ∷ (codes "docker-content-digest", digest) ∷ [];
              body = no_body;
            }),
            record_event now usage org_id repo (some user_id) blob_serve n,
            b',
          )
        ]
      ]

  -- The object goes first, and whether that works does not matter.
  unfoldable pub delete : Str → Str → Blobs State → Result Response × Blobs State
  delete org_id digest b =
      if not (blob_exists b.db org_id digest)
      then (err unknown_blob, b)
      else if blob_referenced b.db org_id digest
      then (err still_referenced, b)
      else (
        ok (record { status = 202; headers = []; body = no_body }),
        record {
          db = delete_blob b.db org_id digest;
          store = (store.delete (blob_key org_id digest) b.store).1;
        },
      )
