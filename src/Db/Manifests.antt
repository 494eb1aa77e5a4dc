-- ===== src/Db/Manifests.antt =====
-- The manifests of src/db/content.rs with what they reference, and the tags.
pub mod Tags
pub mod Stored
use ruskery.Common.{
  Bool, true, false, not, ◌&&◌, ◌++◌, Option, none, some, List, [], ◌∷◌, map, foldl, Str, str_eq,
  str_ltb, if◌then◌else◌, any, filter, find_row, and_then, option_map, is_some, length, sort_by,
}
use ruskery.Common.Int.{ℤ, pos, as_i64}
use ruskery.Db.{
  Db, Manifest, ManifestBlob, ManifestManifest, ManifestReferrer, Tag, ImagePull, Repository,
}

pub record StoredManifest : Type 0 where
  pub media_type : Str
  pub size : ℤ
  pub content : Str

pub record ManifestLinks : Type 0 where
  pub blobs : List Str
  pub children : List Str
  pub subject : Option (Str × Str)

abbrev pub is_manifest : Str → Str → Manifest → Bool
is_manifest repo_id digest m = str_eq m.repo_id repo_id && str_eq m.digest digest

-- `ON CONFLICT(repo_id, digest) DO UPDATE`: the time of creation stays.
upsert_manifest : Manifest → List Manifest → List Manifest
upsert_manifest row [] = row ∷ []
upsert_manifest row (m ∷ ms) =
    if is_manifest row.repo_id row.digest m
    then record m { media_type = row.media_type; size = row.size; content = row.content } ∷ ms
    else m ∷ upsert_manifest row ms

abbrev pub of_manifest : Str → Str → ManifestBlob → Bool
of_manifest repo_id digest mb = str_eq mb.repo_id repo_id && str_eq mb.manifest_digest digest

abbrev child_of : Str → Str → ManifestManifest → Bool
child_of repo_id digest mm = str_eq mm.repo_id repo_id && str_eq mm.manifest_digest digest

abbrev referrer_of : Str → Str → ManifestReferrer → Bool
referrer_of repo_id digest mr = str_eq mr.repo_id repo_id && str_eq mr.referrer_digest digest

-- The loop over `links.blobs`, each insert `ON CONFLICT DO NOTHING`.
insert_blob_refs : Str → Str → List Str → List ManifestBlob → List ManifestBlob
insert_blob_refs repo_id digest [] rows = rows
insert_blob_refs repo_id digest (blob ∷ blobs) rows = insert_blob_refs repo_id digest blobs (
    if any (λ mb. of_manifest repo_id digest mb && str_eq mb.blob_digest blob) rows
    then rows
    else record { repo_id = repo_id; manifest_digest = digest; blob_digest = blob } ∷ rows)

insert_child_refs : Str → Str → List Str → List ManifestManifest → List ManifestManifest
insert_child_refs repo_id digest [] rows = rows
insert_child_refs repo_id digest (child ∷ children) rows =
    insert_child_refs repo_id digest children (
      if any (λ mm. child_of repo_id digest mm && str_eq mm.child_digest child) rows
      then rows
      else record { repo_id = repo_id; manifest_digest = digest; child_digest = child } ∷ rows)

insert_referrer : Str → Str → Option (Str × Str) → List ManifestReferrer → List ManifestReferrer
insert_referrer repo_id digest none rows = rows
insert_referrer repo_id digest (some (subject, artifact_type)) rows =
    record {
      repo_id = repo_id;
      subject_digest = subject;
      referrer_digest = digest;
      artifact_type = artifact_type;
    }
    ∷ rows

-- The statements of one transaction.
unfoldable pub put_manifest : Db → Str → Str → Str → Str → Str → ManifestLinks → Db
unfolding upsert_manifest insert_blob_refs insert_child_refs insert_referrer
put_manifest db now repo_id digest media_type content links = record db {
  manifests =
      upsert_manifest
        (record {
          repo_id = repo_id;
          digest = digest;
          media_type = media_type;
          size = as_i64 (length content);
          content = content;
          created_at = now;
        })
        db.manifests;
  manifest_blobs =
      insert_blob_refs repo_id digest links.blobs
        (filter (λ mb. not (of_manifest repo_id digest mb)) db.manifest_blobs);
  manifest_manifests =
      insert_child_refs repo_id digest links.children
        (filter (λ mm. not (child_of repo_id digest mm)) db.manifest_manifests);
  manifest_referrers =
      insert_referrer repo_id digest links.subject
        (filter (λ mr. not (referrer_of repo_id digest mr)) db.manifest_referrers);
}

pub record Referrer : Type 0 where
  pub digest : Str
  pub media_type : Str
  pub size : ℤ
  pub artifact_type : Str
  pub content : Str

pub record Joined : Type 0 where
  pub created_at : Str
  pub referrer : Referrer

-- The manifests that join one row of `manifest_referrers`.
abbrev join_manifests : List Manifest → ManifestReferrer → List Joined
join_manifests ms r =
    map
      (λ m. record {
        created_at = m.created_at;
        referrer = record {
          digest = m.digest;
          media_type = m.media_type;
          size = m.size;
          artifact_type = r.artifact_type;
          content = m.content;
        };
      })
      (filter (λ m. is_manifest r.repo_id r.referrer_digest m) ms)

-- `ORDER BY m.created_at`
unfoldable pub list_referrers : Db → Str → Str → List Referrer
unfolding sort_by
list_referrers db repo_id subject_digest =
    map (λ j. j.referrer)
      (sort_by (λ (a b : Joined). str_ltb a.created_at b.created_at)
        (foldl (λ acc r. acc ++ join_manifests db.manifests r) []
          (filter (λ r. str_eq r.repo_id repo_id && str_eq r.subject_digest subject_digest)
            db.manifest_referrers)))

unfoldable pub get_manifest_by_digest : Db → Str → Str → Option StoredManifest
get_manifest_by_digest db repo_id digest =
    option_map
      (λ (m : Manifest). record { media_type = m.media_type; size = m.size; content = m.content })
      (find_row (is_manifest repo_id digest) db.manifests)

abbrev pub is_tag : Str → Str → Tag → Bool
is_tag repo_id name t = str_eq t.repo_id repo_id && str_eq t.name name

unfoldable pub tag_digest : Db → Str → Str → Option Str
tag_digest db repo_id tag =
    option_map (λ t. t.manifest_digest) (find_row (is_tag repo_id tag) db.tags)

upsert_tag_row : Tag → List Tag → List Tag
upsert_tag_row row [] = row ∷ []
upsert_tag_row row (t ∷ ts) =
    if is_tag row.repo_id row.name t
    then record t { manifest_digest = row.manifest_digest; updated_at = row.updated_at } ∷ ts
    else t ∷ upsert_tag_row row ts

unfoldable pub upsert_tag : Db → Str → Str → Str → Str → Db
unfolding upsert_tag_row
upsert_tag db now repo_id tag digest = record db {
  tags =
      upsert_tag_row
        (record { repo_id = repo_id; name = tag; manifest_digest = digest; updated_at = now })
        db.tags;
}

-- `ORDER BY name`
unfoldable pub list_tags : Db → Str → List Str
unfolding sort_by
list_tags db repo_id =
    sort_by str_ltb (map (λ t. t.name) (filter (λ t. str_eq t.repo_id repo_id) db.tags))

-- The pull counter of one image of a repository, resolved from the repository's id.
abbrev pull_of : List Repository → Str → Str → ImagePull → Bool
pull_of repos repo_id digest p =
    str_eq p.digest digest
    && any (λ r. str_eq r.id repo_id && str_eq r.org_id p.org_id && str_eq r.name p.repo) repos

unfoldable pub delete_manifest : Db → Str → Str → Db
delete_manifest db repo_id digest = record db {
  tags = filter (λ t. not (str_eq t.repo_id repo_id && str_eq t.manifest_digest digest)) db.tags;
  manifest_blobs = filter (λ mb. not (of_manifest repo_id digest mb)) db.manifest_blobs;
  manifest_manifests = filter (λ mm. not (child_of repo_id digest mm)) db.manifest_manifests;
  manifest_referrers = filter (λ mr. not (referrer_of repo_id digest mr)) db.manifest_referrers;
  manifests = filter (λ m. not (is_manifest repo_id digest m)) db.manifests;
  image_pulls = filter (λ p. not (pull_of db.repositories repo_id digest p)) db.image_pulls;
}
