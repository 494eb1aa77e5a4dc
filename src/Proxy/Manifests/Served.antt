-- ===== src/Proxy/Manifests/Served.antt =====
-- A manifest that `cache_manifest` stored is what the registry then serves.
use ruskery.Common.{
  ℕ, ◌≡◌, refl, ◌∙◌, ◌⊎◌, ap, Bool, true, false, none, some, Str, arith, inl, inr, Bool-cases,
  Option-cases, length, str_eq_refl, str_contains,
}
use ruskery.Common.Int.{as_i64}
use ruskery.Error.{Error, Result, ok, err, Result-cases}
use ruskery.Db.{Db, Repository}
use ruskery.Db.Orgs.{OrgUpstream, find_repo, org_upstream}
use ruskery.Db.Manifests.{ManifestLinks, put_manifest, upsert_tag, get_manifest_by_digest}
use ruskery.Db.Manifests.Stored.{get_manifest_by_digest-put_manifest}
use ruskery.Db.Manifests.Tags.{tag_digest-upsert_tag}
use ruskery.Cache.{
  Lru, CachedManifest, ManifestCache, key, current_generation, put_tag, invalidate_manifest,
}
use ruskery.Registry.Digest.{digests_equal, is_digest}
use ruskery.Registry.Manifests.{
  Local, Codec, manifest_digest, links_of, find_or_create, served, resolve_reference, serve_local,
  get,
}
use ruskery.Registry.Manifests.Pushed.{find_or_create-find_repo}
use ruskery.Registry.Manifests.Ready.{as_row, IsReady, serve_local-IsReady, read_manifest-uncached}
use ruskery.Proxy.{Urls}
use ruskery.Proxy.Fetch.{Net, run}
use ruskery.Proxy.Listing.{fetch_manifest}
use ruskery.Proxy.Manifests.{store_manifest, keep_manifest, cache_manifest}

abbrev fetched : Str → Str → CachedManifest
fetched media_type content = record {
  media_type = media_type;
  size = as_i64 (length content);
  content = content;
}

module _ {M T : Type 0} (ml : Lru CachedManifest M) (tl : Lru Str T) where
  module _ (now repo_id reference digest media_type content : Str) (links : ManifestLinks) (db : Db)
      (cache : ManifestCache M T) where
    tagged : Local M T
    tagged = record {
      db =
          upsert_tag (put_manifest db now repo_id digest media_type content links) now repo_id
            reference digest;
      cache =
          invalidate_manifest ml tl (put_tag ml tl cache repo_id reference digest) repo_id digest;
    }

    tagged-find_repo :
        (org_id name : Str) → find_repo tagged.db org_id name ≡ find_repo db org_id name
    unfolding tagged find_repo upsert_tag put_manifest
    tagged-find_repo org_id name = refl

    untagged : Local M T
    untagged = record {
      db = put_manifest db now repo_id digest media_type content links;
      cache = invalidate_manifest ml tl cache repo_id digest;
    }

    untagged-find_repo :
        (org_id name : Str) → find_repo untagged.db org_id name ≡ find_repo db org_id name
    unfolding untagged find_repo put_manifest
    untagged-find_repo org_id name = refl

    fresh_after :
        (invalidate_manifest ml tl
            (put_tag ml tl cache repo_id reference digest)
            repo_id
            digest).enabled
          ≡ true
        → tl.peek
            (key repo_id reference)
            (invalidate_manifest ml tl
              (put_tag ml tl cache repo_id reference digest)
              repo_id
              digest).tags
          ≡ some digest
    unfolding put_tag invalidate_manifest
    fresh_after on = ground (arith, tl.peek-put_self (key repo_id reference) digest cache.tags)

    popped_after :
        (c : ManifestCache M T)
        → (invalidate_manifest ml tl c repo_id digest).enabled ≡ true
        → ml.peek (key repo_id digest) (invalidate_manifest ml tl c repo_id digest).manifests ≡ none
    unfolding invalidate_manifest
    popped_after c on = ground (arith, ml.peek-pop_self (key repo_id digest) c.manifests)

    tagged-IsReady : IsReady ml tl repo_id reference digest (fetched media_type content) tagged
    unfolding tagged as_row upsert_tag get_manifest_by_digest
    tagged-IsReady = record {
      tag = rw (
        tag_digest-upsert_tag (put_manifest db now repo_id digest media_type content links) now
            repo_id reference digest repo_id reference,
        str_eq_refl repo_id,
        str_eq_refl reference,
      );
      row = rw (
        get_manifest_by_digest-put_manifest db now repo_id digest media_type content links repo_id
            digest,
        str_eq_refl repo_id,
        str_eq_refl digest,
      );
      fresh_tag = fresh_after;
      uncached = popped_after (put_tag ml tl cache repo_id reference digest);
    }

    untagged_row :
        get_manifest_by_digest untagged.db repo_id digest
        ≡ some (as_row ml tl (fetched media_type content))
    unfolding untagged as_row
    untagged_row = rw (
      get_manifest_by_digest-put_manifest db now repo_id digest media_type content links repo_id
          digest,
      str_eq_refl repo_id,
      str_eq_refl digest,
    )

    untagged_cache :
        untagged.cache.enabled ≡ true → ml.peek (key repo_id digest) untagged.cache.manifests ≡ none
    unfolding untagged
    untagged_cache = popped_after cache

  resolve_reference-digest :
      (gen : ℕ) (repo_id digest : Str) (l : Local M T)
      → is_digest digest ≡ true
      → resolve_reference ml tl gen repo_id digest l ≡ (some digest, l)
  unfolding resolve_reference
  resolve_reference-digest gen repo_id digest l is = rw is refl

  -- Reading a stored manifest by its digest.
  serve_local-stored :
      (org_id repo_name digest : Str) (head_only : Bool) (m : CachedManifest) (repo : Repository)
      (l : Local M T)
      → is_digest digest ≡ true
      → find_repo l.db org_id repo_name ≡ some repo
      → get_manifest_by_digest l.db repo.id digest ≡ some (as_row ml tl m)
      → (l.cache.enabled ≡ true → ml.peek (key repo.id digest) l.cache.manifests ≡ none)
      → (serve_local ml tl org_id repo_name digest head_only l).0 ≡ some (served head_only digest m)
  unfolding serve_local
  serve_local-stored org_id repo_name digest head_only m repo l is listed row uncached =
      let gen = current_generation ml tl l.cache in
      let resolved = resolve_reference-digest gen repo.id digest l is in
      rw (
        serve_local,
        listed,
        ap (λ p. p.0) resolved,
        ap (λ p. p.1) resolved,
        read_manifest-uncached ml tl gen repo.id digest m l row uncached,
      )

  -- Why a fetched manifest is not kept.
  pub data Reason (codec : Codec) (id now org_id repo_name reference content : Str) (db : Db)
      : Type 0 where
    mismatch :
        is_digest reference ≡ true
        → digests_equal reference (manifest_digest codec content) ≡ false
        → Reason codec id now org_id repo_name reference content db
    junk :
        codec.parse_json content ≡ none → Reason codec id now org_id repo_name reference content db
    unlisted :
        (e : Error)
        → find_or_create db id now org_id repo_name ≡ err e
        → Reason codec id now org_id repo_name reference content db

  -- What caching a fetched manifest comes to.
  pub data Stored (codec : Codec) (id now org_id repo_name reference content media_type : Str)
      (l : Local M T) (r : Result (Unit {0}) × Local M T) : Type 0 where
    refused :
        (e : Error)
        → r.0 ≡ err e
        → r.1 ≡ l
        → Reason codec id now org_id repo_name reference content l.db
        → Stored codec id now org_id repo_name reference content media_type l r
    by_tag :
        r.0 ≡ ok tt
        → is_digest reference ≡ false
        → ((head_only : Bool)
            → (serve_local ml tl org_id repo_name reference head_only r.1).0
              ≡ some
                  (served head_only (manifest_digest codec content) (fetched media_type content)))
        → Stored codec id now org_id repo_name reference content media_type l r
    by_digest :
        r.0 ≡ ok tt
        → is_digest reference ≡ true
        → digests_equal reference (manifest_digest codec content) ≡ true
        → ((head_only : Bool)
            → (serve_local ml tl org_id repo_name (manifest_digest codec content) head_only r.1).0
              ≡ some
                  (served head_only (manifest_digest codec content) (fetched media_type content)))
        → Stored codec id now org_id repo_name reference content media_type l r

  manifest_digest_is :
      (codec : Codec) (content : Str) → is_digest (manifest_digest codec content) ≡ true
  unfolding is_digest manifest_digest str_contains
  manifest_digest_is codec content = refl

  module _ (codec : Codec) (id now org_id repo_name reference content media_type : Str)
      (l : Local M T) where
    store_manifest-Stored : Stored codec id now org_id repo_name reference content media_type l (
        keep_manifest ml tl codec id now org_id repo_name reference
          (ok (some (content, media_type)))
          l)
    unfolding keep_manifest store_manifest tagged untagged
    store_manifest-Stored =
        let digest = manifest_digest codec content in
        elim (Bool-cases (is_digest reference)) [
          | inl is ↦ elim (Bool-cases (digests_equal reference digest)) [
            | inr wrong ↦ rw (store_manifest, is, wrong) (refused _ refl refl (mismatch is wrong))
            | inl right ↦ elim (Option-cases (codec.parse_json content)) [
              | inl bad ↦ rw (store_manifest, is, right, bad) (refused _ refl refl (junk bad))
              | inr (doc, parsed) ↦
                  elim (Result-cases (find_or_create l.db id now org_id repo_name)) [
                    | inr (e, failed) ↦
                        rw (store_manifest, is, right, parsed, failed)
                          (refused e refl refl (unlisted e failed))
                    | inl (made, e) ↦
                        rw (store_manifest, is, right, parsed, e)
                          (by_digest refl is right (λ head_only.
                            serve_local-stored org_id repo_name digest head_only
                              (fetched media_type content) made.0
                              (untagged now made.0.id reference digest media_type content
                                (links_of doc) made.1 l.cache)
                              (manifest_digest_is codec content)
                              (untagged-find_repo now made.0.id reference digest media_type content
                                  (links_of doc) made.1 l.cache org_id repo_name
                                ∙ find_or_create-find_repo l.db id now org_id repo_name made.0
                                    made.1 e)
                              (untagged_row now made.0.id reference digest media_type content
                                (links_of doc) made.1 l.cache)
                              (untagged_cache now made.0.id reference digest media_type content
                                (links_of doc) made.1 l.cache)))
                  ]
            ]
          ]
          | inr tag ↦ elim (Option-cases (codec.parse_json content)) [
            | inl bad ↦ rw (store_manifest, tag, bad) (refused _ refl refl (junk bad))
            | inr (doc, parsed) ↦
                elim (Result-cases (find_or_create l.db id now org_id repo_name)) [
                  | inr (e, failed) ↦
                      rw (store_manifest, tag, parsed, failed)
                        (refused e refl refl (unlisted e failed))
                  | inl (made, e) ↦
                      rw (store_manifest, tag, parsed, e)
                        (by_tag refl tag (λ head_only.
                          serve_local-IsReady ml tl org_id repo_name reference digest head_only
                            (fetched media_type content) made.0
                            (tagged now made.0.id reference digest media_type content (links_of doc)
                              made.1 l.cache)
                            tag
                            (tagged-find_repo now made.0.id reference digest media_type content
                                (links_of doc) made.1 l.cache org_id repo_name
                              ∙ find_or_create-find_repo l.db id now org_id repo_name made.0 made.1
                                  e)
                            (tagged-IsReady now made.0.id reference digest media_type content
                              (links_of doc) made.1 l.cache)))
                ]
          ]
        ]

  module _ {Url Origin N : Type 0} (urls : Urls Url Origin) (codec : Codec) (net : Net N) (n : N)
      (id now org_id repo_name reference content media_type : Str) (up : OrgUpstream) where
    cache : OrgUpstream → Local M T → Result (Unit {0}) × Local M T
    cache = cache_manifest ml tl urls codec net n id now org_id repo_name reference

    cache_manifest-Stored :
        (l : Local M T)
        → (run net (fetch_manifest urls codec.parse_json up repo_name reference) n).0
          ≡ ok (some (content, media_type))
        → Stored codec id now org_id repo_name reference content media_type l (cache up l)
    unfolding cache_manifest cache
    cache_manifest-Stored l e =
        rw e (store_manifest-Stored codec id now org_id repo_name reference content media_type l)

    -- A pull by tag that finds nothing here, at an organization with an upstream that returns a
    -- manifest, is answered with its bytes, media type, length and digest, unless they are no JSON
    -- or the repository can neither be found nor created.
    pub get-cache_manifest :
        (l : Local M T) (head_only : Bool)
        → is_digest reference ≡ false
        → (serve_local ml tl org_id repo_name reference head_only l).0 ≡ none
        → org_upstream (serve_local ml tl org_id repo_name reference head_only l).1.db org_id
          ≡ some up
        → (run net (fetch_manifest urls codec.parse_json up repo_name reference) n).0
          ≡ ok (some (content, media_type))
        → ((get ml tl
              (cache_manifest ml tl urls codec net n id now org_id repo_name reference)
              org_id
              repo_name
              reference
              head_only
              l).0
            ≡ ok (served head_only (manifest_digest codec content) (fetched media_type content)))
          ⊎ ((codec.parse_json content ≡ none)
              ⊎ ((e : Error) × (find_or_create
                      (serve_local ml tl org_id repo_name reference head_only l).1.db
                      id
                      now
                      org_id
                      repo_name
                    ≡ err e)))
    unfolding get cache
    get-cache_manifest l head_only tag missed upstream answer =
        elim (cache_manifest-Stored (serve_local ml tl org_id repo_name reference head_only l).1
          answer) [
            | by_tag fine _ serves ↦ inl (rw (get, missed, upstream, fine, serves head_only) refl)
            | by_digest _ is _ _ ↦ absurd (ground (arith, tag, is))
            | refused _ _ _ why ↦ inr (elim why [
              | mismatch is _ ↦ absurd (ground (arith, tag, is))
              | junk bad ↦ inl bad
              | unlisted e failed ↦ inr (e, failed)
            ])
          ]
