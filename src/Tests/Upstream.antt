-- ===== src/Tests/Upstream.antt =====
-- The pull-through cache against an upstream that answers every request in the same way. A URL is its
-- text, and its host is what stands before a question mark.
use ruskery.Common.{
  ℕ, ◌*◌, ◌≡◌, ◌⊎◌, refl, ◌∙◌, ap, ◌++◌, Bool, true, false, Option, none, some, List, [], ◌∷◌, Str,
  codes, str_eq, ◌==◌, if◌then◌else◌, length, arith, Bool-cases, inl, inr,
}
use ruskery.Common.Int.{as_i64}
use ruskery.Error.{Error, ok, err}
use ruskery.Db.{Db}
use ruskery.Db.Orgs.{OrgUpstream, set_org_upstream}
use ruskery.Cache.{CachedManifest}
use ruskery.Registry.Manifests.{Local, get, served, manifest_digest, find_or_create, serve_local}
use ruskery.Registry.Manifests.Json.{Value}
use ruskery.Registry.Blobs.{Blobs}
use ruskery.Registry.Uploads.Handlers.Finish.{Limits}
use ruskery.Proxy.{IpAddr, v4, Urls, Request, Reply, max_pages}
use ruskery.Proxy.Fetch.{Net}
use ruskery.Proxy.Fetch.Holds.{Holds, AtMost}
use ruskery.Proxy.Send.{read_capped, send_authed}
use ruskery.Proxy.Send.Safe.{Any}
use ruskery.Proxy.Send.Safe.Realm.{Allowed}
use ruskery.Proxy.Send.Safe.Token.{send_authed-Allowed}
use ruskery.Proxy.Send.Capped.{Read, read_capped-Read}
use ruskery.Proxy.Listing.{list_catalog, list_tags}
use ruskery.Proxy.Listing.Pages.{Listed, lists-AtMost, lists-Listed}
use ruskery.Proxy.Blobs.{cache_blob}
use ruskery.Proxy.Blobs.Cached.{Cached, cache_blob-Cached}
use ruskery.Proxy.Manifests.{cache_manifest}
use ruskery.Proxy.Manifests.Served.{get-cache_manifest}
use ruskery.Tests.Access.{db}
use ruskery.Tests.Content.{codec}
use ruskery.Tests.Instances.{listed, Bucket, bucket_store}

unfoldable before_query : Str → Str
before_query [] = []
before_query (c ∷ s) = let rest = before_query s in if c == b'?' then [] else c ∷ rest

before_query_append : (u s : Str) → before_query (u ++ (codes "?" ++ s)) ≡ before_query u
unfolding before_query
before_query_append [] s = refl
before_query_append (c ∷ u) s = elim (Bool-cases (c == b'?')) [
  | inl e ↦ rw e refl
  | inr e ↦ rw e (ap (◌∷◌ c) (before_query_append u s))
]

abbrev urls : Urls Str Str
urls = record {
  parse = some;
  to_string = λ u. u;
  origin = before_query;
  origin_eq = str_eq;
  scheme = λ u. codes "https";
  host_str = λ u. some (before_query u);
  port_or_known_default = λ u. none;
  join = λ u s. some s;
  append_pair = λ k v u. u ++ (codes "?" ++ (k ++ (codes "=" ++ v)));
  parse_ip = λ s. none;
  parse-to_string = λ u. refl;
  host_str-append_pair = λ k v u. ap some (before_query_append u (k ++ (codes "=" ++ v)));
  port_or_known_default-append_pair = λ k v u. refl;
}

abbrev up : OrgUpstream
up = record {
  url = codes "https://reg";
  username = some (codes "bot");
  password = some (codes "pw");
  trusted_realm_hosts = [];
}

abbrev reply : Reply
reply = record {
  status = 200;
  headers = (codes "content-type", some (codes "m")) ∷ [];
  content_length = some 2;
  body = some (codes "{") ∷ some (codes "}") ∷ [];
}

abbrev net : Net (Unit {0})
net = record {
  resolve = λ host port n. (some (v4 10 0 0 1 ∷ []), n);
  send = λ r n. (some reply, n);
}

send_authed-Allowed_example :
    Holds
      (Allowed urls up (codes "https://reg/v2/"))
      Any
      []
      (send_authed urls codec.parse_json up (codes "https://reg/v2/") none (codes "x"))
send_authed-Allowed_example =
    send_authed-Allowed urls codec.parse_json up (codes "https://reg/v2/") [] none (codes "x")

lists-Listed_example :
    Holds
      (Listed urls codec.parse_json up (codes "https://reg/v2/_catalog?n=200"))
      Any
      []
      (list_catalog urls codec.parse_json up)
    × Holds
        (Listed urls codec.parse_json up (codes "https://reg/v2/app/tags/list?n=200"))
        Any
        []
        (list_tags urls codec.parse_json up (codes "app"))
lists-Listed_example = lists-Listed urls codec.parse_json up (codes "app")

lists-AtMost_example :
    AtMost (max_pages * 33) (list_catalog urls codec.parse_json up)
    × AtMost (max_pages * 33) (list_tags urls codec.parse_json up (codes "app"))
lists-AtMost_example = lists-AtMost urls codec.parse_json up (codes "app")

read_capped-Read_example : Read 4 reply (read_capped reply 4 (codes "token"))
read_capped-Read_example = read_capped-Read 4 (codes "token") reply

abbrev limits : Limits
limits = record { max_blob_bytes = 100; default_storage_bytes = 1000 }

abbrev blobs : Blobs Bucket
blobs = record { db = db; store = record { objects = []; parts = [] } }

cache_blob-Cached_example :
    Cached bucket_store limits codec.sha256_hex (codes "o1") (codes "sha256:ab") blobs (
      cache_blob urls codec net tt bucket_store limits
        (codes "t")
        (codes "o1")
        (codes "app")
        (codes "sha256:ab")
        up
        blobs)
cache_blob-Cached_example =
    cache_blob-Cached urls codec net tt bucket_store limits (codes "t") (codes "o1") (codes "app")
      (codes "sha256:ab") up blobs

abbrev mirror : Local (List (Str × CachedManifest)) (List (Str × Str))
mirror = record {
  db = set_org_upstream db (codes "o1") (some (codes "https://reg")) none none;
  cache = record { enabled = true; generation = 0; manifests = []; tags = [] };
}

abbrev anonymous : OrgUpstream
anonymous = record up { username = none; password = none }

get-cache_manifest_example :
    ((get
        (listed CachedManifest)
        (listed Str)
        (cache_manifest
          (listed CachedManifest)
          (listed Str)
          urls
          codec
          net
          tt
          (codes "r9")
          (codes "t")
          (codes "o1")
          (codes "app")
          (codes "latest"))
        (codes "o1")
        (codes "app")
        (codes "latest")
        false
        mirror).0
      ≡ ok (
          served false
            (codes "sha256:ab")
            (record { media_type = codes "m"; size = as_i64 2; content = codes "{}" })))
    ⊎ ((some (ruskery.Registry.Manifests.Json.object ruskery.Registry.Manifests.Json.end) ≡ none)
        ⊎ ((e : Error) × (find_or_create
                (serve_local
                  (listed CachedManifest)
                  (listed Str)
                  (codes "o1")
                  (codes "app")
                  (codes "latest")
                  false
                  mirror).1.db
                (codes "r9")
                (codes "t")
                (codes "o1")
                (codes "app")
              ≡ err e)))
unfolding ruskery.Registry.Digest.is_digest ruskery.Common.str_contains serve_local
    ruskery.Db.Orgs.find_repo set_org_upstream str_eq ruskery.Registry.Manifests.resolve_reference
    ruskery.Cache.get_tag ruskery.Tests.Instances.look ruskery.Db.Manifests.tag_digest
    ruskery.Db.Orgs.org_upstream ruskery.Common.trim_end_slashes ruskery.Proxy.Fetch.run
    ruskery.Proxy.Listing.fetch_manifest send_authed ruskery.Proxy.Send.send_get
    ruskery.Proxy.Listing.manifest_of read_capped ruskery.Proxy.Send.read_chunks
    ruskery.Proxy.Send.hop ruskery.Proxy.Send.follow ruskery.Proxy.header
    ruskery.Registry.Manifests.manifest_digest
get-cache_manifest_example =
    get-cache_manifest (listed CachedManifest) (listed Str) urls codec net tt (codes "r9")
      (codes "t") (codes "o1") (codes "app") (codes "latest") (codes "{}") (codes "m") anonymous
      mirror false refl refl refl refl
