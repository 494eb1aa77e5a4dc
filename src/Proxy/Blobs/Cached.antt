-- ===== src/Proxy/Blobs/Cached.antt =====
-- What `cache_blob` leaves, whatever the upstream answers.
use ruskery.Common.{
  ℕ, ◌%◌, ◌^◌, ◌<◌, ◌≤◌, ◌≡◌, refl, ◌∙◌, ap, subst, ◌++◌, true, false, Option, some, List, Str,
  codes, arith, inl, inr, ◌⊎◌, Bool-cases, length,
}
use ruskery.Common.Int.{ℤ, as_i64, as_u64}
use ruskery.Error.{Error, Result, ok, err, Result-cases}
use ruskery.Db.Orgs.{OrgUpstream}
use ruskery.Db.Content.{blob_exists}
use ruskery.Db.Content.Records.{record_blob-blob_exists}
use ruskery.Storage.{ObjectStore, blob_key}
use ruskery.Registry.Digest.{digests_equal}
use ruskery.Registry.Manifests.{Codec}
use ruskery.Registry.Blobs.{Blobs}
use ruskery.Registry.Uploads.Handlers.Finish.{Limits}
use ruskery.Proxy.{Urls, Reply}
use ruskery.Proxy.Fetch.{Net}
use ruskery.Proxy.Stream.Whole.Committed.{StreamedIf, stream_to_storage-StreamedIf}
use ruskery.Proxy.Blobs.{
  breaches, check_announced, check_status, record_within, keep_blob, after_status, cache_blob,
}

as_u64-as_i64 : (n : ℕ) → n < 2 ^ 64 → as_u64 (as_i64 n) ≡ n
as_u64-as_i64 n h = ground arith

module _ {State : Type 0} (store : ObjectStore State) (limits : Limits) (sha256_hex : Str → Str)
    (org_id digest : Str) where
  -- A cached blob: its object has the digest that was asked for, its size is within the limit on
  -- blobs and the quota of the organization, and it is recorded.
  pub record Kept (before after : Blobs State) : Type 0 where
    pub bytes : Str
    pub object : store.object (blob_key org_id digest) after.store ≡ some bytes
    pub matches : digests_equal (codes "sha256:" ++ sha256_hex bytes) digest ≡ true
    pub within : (limits.max_blob_bytes ≡ 0) ⊎ (length bytes % 2 ^ 64 ≤ limits.max_blob_bytes)
    pub affordable : breaches limits before.db org_id (length bytes % 2 ^ 64) ≡ false
    pub recorded : blob_exists after.db org_id digest ≡ true

  -- The outcomes: a kept blob, or an error that leaves the tables as they were.
  pub data Cached (before : Blobs State) (r : Result (Unit {0}) × Blobs State) : Type 0 where
    kept : r.0 ≡ ok tt → Kept before r.1 → Cached before r
    refused : (e : Error) → r.0 ≡ err e → r.1.db ≡ before.db → Cached before r

  module _ (now : Str) (b : Blobs State) where
    record_within-Cached :
        (body : List (Option Str)) (r : Result ℤ × State)
        → StreamedIf store sha256_hex (blob_key org_id digest) body digest limits.max_blob_bytes r
        → Cached b (record_within store limits now org_id digest b r)
    unfolding record_within
    record_within-Cached body (err e, st) t = refused e refl refl
    record_within-Cached body (ok total, st) t =
        elim (Bool-cases (breaches limits b.db org_id (as_u64 total))) [
          | inl over ↦ rw over (refused _ refl refl)
          | inr under ↦ rw under (
              kept refl (record {
                bytes = t.bytes;
                object = t.object;
                matches = t.matches;
                within = t.within;
                affordable =
                    subst (λ n. breaches limits b.db org_id n ≡ false)
                      (ap as_u64 t.size ∙ as_u64-as_i64 (length t.bytes % 2 ^ 64) (omega arith))
                      under;
                recorded = record_blob-blob_exists b.db now org_id digest total;
              }))
        ]

    keep_blob-Cached :
        (reply : Reply) → Cached b (keep_blob store limits now org_id digest sha256_hex reply b)
    unfolding keep_blob
    keep_blob-Cached reply =
        elim (Result-cases (check_announced limits b.db org_id reply.content_length)) [
          | inr (e, h) ↦ rw (keep_blob, h) (refused e refl refl)
          | inl (_, h) ↦
              rw (keep_blob, h)
                (record_within-Cached reply.body _ (
                  stream_to_storage-StreamedIf store sha256_hex (blob_key org_id digest) reply.body
                    digest limits.max_blob_bytes b.store))
        ]

    after_status-Cached :
        (r : Result Reply) → Cached b (after_status store limits now org_id digest sha256_hex r b)
    unfolding after_status
    after_status-Cached (err e) = refused e refl refl
    after_status-Cached (ok reply) = elim (Result-cases (check_status reply)) [
      | inr (e, h) ↦ rw (after_status, h) (refused e refl refl)
      | inl (_, h) ↦ rw (after_status, h) (keep_blob-Cached reply)
    ]

-- Whatever the network answers, `cache_blob` either records the blob, and then its object holds
-- bytes of the digest that was asked for, within the limit on blobs and the organization's quota,
-- or it fails and leaves the tables as they were.
pub cache_blob-Cached :
    {Url Origin N State : Type 0} (urls : Urls Url Origin) (codec : Codec) (net : Net N) (n : N)
    (store : ObjectStore State) (limits : Limits) (now org_id repo digest : Str) (up : OrgUpstream)
    (b : Blobs State)
    → Cached store limits codec.sha256_hex org_id digest b
        (cache_blob urls codec net n store limits now org_id repo digest up b)
unfolding cache_blob
cache_blob-Cached urls codec net n store limits now org_id repo digest up b =
    after_status-Cached store limits codec.sha256_hex org_id digest now b _
