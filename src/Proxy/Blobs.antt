-- ===== src/Proxy/Blobs.antt =====
-- `cache_blob` of src/proxy.rs: fetch a blob, stream it into the object store and record it, within
-- the organization's quota.
pub mod Cached
use ruskery.Common.{
  ℕ, ◌++◌, Bool, true, false, not, ◌&&◌, Option, none, some, List, [], ◌∷◌, Str, codes, ltb, ◌==◌,
  if◌then◌else◌,
}
use ruskery.Common.Int.{ℤ, as_u64}
use ruskery.Error.{Error, oci, Result, ok, err}
use ruskery.Db.{Db}
use ruskery.Db.Orgs.{OrgUpstream}
use ruskery.Db.Content.{org_storage_used, record_blob}
use ruskery.Storage.{ObjectStore, blob_key}
use ruskery.Registry.Manifests.{Codec}
use ruskery.Registry.Blobs.{Blobs}
use ruskery.Registry.Uploads.Handlers.Finish.{Limits, effective_quota, projected}
use ruskery.Proxy.{Urls, Reply, is_success, upstream_error}
use ruskery.Proxy.Fetch.{Net, run}
use ruskery.Proxy.Send.{send_authed}
use ruskery.Proxy.Listing.{pull_scope}
use ruskery.Proxy.Stream.{blob_too_large, stream_to_storage}

unfoldable pub quota_exceeded : Error
quota_exceeded = oci 403 (codes "DENIED") (codes "organization storage quota exceeded")

unfoldable pub unknown_upstream : Error
unknown_upstream = oci 404 (codes "BLOB_UNKNOWN") (codes "blob unknown to upstream")

-- The organization's use with that many more bytes is over its quota, and 0 is no limit.
unfoldable pub breaches : Limits → Db → Str → ℕ → Bool
breaches limits db org_id len =
    let effective = effective_quota limits db org_id in
    ltb 0 effective && ltb effective (projected (org_storage_used db org_id) len)

-- The early rejection, by the length that is announced.
unfoldable pub check_announced : Limits → Db → Str → Option ℕ → Result (Unit {0})
unfolding breaches
check_announced limits db org_id none = ok tt
check_announced limits db org_id (some len) =
    if ltb 0 limits.max_blob_bytes && ltb limits.max_blob_bytes len
    then err (blob_too_large limits.max_blob_bytes)
    else if breaches limits db org_id len
    then err quota_exceeded
    else ok tt

unfoldable pub check_status : Reply → Result (Unit {0})
check_status reply =
    if is_success reply.status
    then ok tt
    else if reply.status == 404
    then err unknown_upstream
    else err (upstream_error (codes "upstream blob status"))

module _ {State : Type 0} (store : ObjectStore State) (limits : Limits)
    (now org_id digest : Str) where
  -- After the download: the quota against the bytes that came, and the record. On a breach the
  -- object is deleted again.
  unfoldable pub record_within : Blobs State → Result ℤ × State → Result (Unit {0}) × Blobs State
  record_within b (err e, st) = (err e, record b { store = st })
  record_within b (ok total, st) =
      if breaches limits b.db org_id (as_u64 total)
      then (err quota_exceeded, record b { store = (store.delete (blob_key org_id digest) st).1 })
      else (ok tt, record { db = record_blob b.db now org_id digest total; store = st })

  unfoldable pub keep_blob : (Str → Str) → Reply → Blobs State → Result (Unit {0}) × Blobs State
  unfolding record_within
  keep_blob sha256_hex reply b = elim (check_announced limits b.db org_id reply.content_length) [
    | err e ↦ (err e, b)
    | ok _ ↦ record_within b (
        stream_to_storage store sha256_hex (blob_key org_id digest) reply.body digest
          limits.max_blob_bytes b.store)
  ]

  unfoldable pub after_status :
      (Str → Str) → Result Reply → Blobs State → Result (Unit {0}) × Blobs State
  unfolding keep_blob
  after_status sha256_hex (err e) b = (err e, b)
  after_status sha256_hex (ok reply) b = elim (check_status reply) [
    | err e ↦ (err e, b)
    | ok _ ↦ keep_blob sha256_hex reply b
  ]

unfoldable pub cache_blob :
    {Url Origin N State : Type 0}
    → Urls Url Origin
    → Codec
    → Net N
    → N
    → ObjectStore State
    → Limits
    → Str
    → Str
    → Str
    → Str
    → OrgUpstream
    → Blobs State
    → Result (Unit {0}) × Blobs State
unfolding after_status
cache_blob urls codec net n store limits now org_id repo digest up b =
    let url = up.url ++ (codes "/v2/" ++ (repo ++ (codes "/blobs/" ++ digest))) in
    let (reply, n') = run net (send_authed urls codec.parse_json up url none (pull_scope repo)) n in
    after_status store limits now org_id digest codec.sha256_hex reply b
