-- ===== src/Tests/Requests.antt =====
-- Requests, deletions and sweeps.
use ruskery.Common.{
  ◌≡◌, ◌≢◌, refl, ap, ◌⊎◌, inl, inr, Bool-cases, true, false, none, some, List, [], ◌∷◌, Str, codes,
  In, take, str_ltb, str_eq, lower, arith,
}
use ruskery.Common.Int.{pos, ◌+ℤ◌}
use ruskery.Error.{ok, Response, no_body}
use ruskery.Models.{User}
use ruskery.Db.{Db, Blob}
use ruskery.Db.Content.{unreferenced_blobs, record_blob, blob_exists}
use ruskery.Db.Orgs.{org_upstream}
use ruskery.Db.Users.{find_by_login, create}
use ruskery.Db.Users.Logins.{find_by_login-create}
use ruskery.Storage.{blob_key}
use ruskery.Cache.{CachedManifest}
use ruskery.Registry.Route.{get}
use ruskery.Registry.Tags.{last_of, after}
use ruskery.Registry.Tags.Pages.{after-take}
use ruskery.Registry.Blobs
use ruskery.Registry.Blobs.{Blobs}
use ruskery.Registry.Manifests.Json
use ruskery.Registry.Dispatch.{Request, Admitted}
use ruskery.Registry.Dispatch.Guarded.{Guarded}
use ruskery.Registry.Dispatch.Handle.{Server, Env, dispatch}
use ruskery.Registry.Dispatch.Effects.{dispatch-Guarded}
use ruskery.Registry.Dispatch.Reads.{SameContent, dispatch-SameContent}
use ruskery.Analytics.{Key, Counters, UsageCollector, UsageTables, same_key, flush}
use ruskery.Analytics.Conservation.{events, total, flush-total}
use ruskery.RateLimit.{Client, client_ip}
use ruskery.RateLimit.Clients.{client_ip-nonempty}
use ruskery.Gc.{run}
use ruskery.Gc.Safety.{run-keeps, run-record_blob}
use ruskery.Tests.Access.{db}
use ruskery.Tests.Instances.{Bucket, bucket_store, listed}

abbrev no_answer : Response
no_answer = record { status = 200; headers = []; body = no_body }

abbrev Docker : Type 0
Docker = Env (List (Str × CachedManifest)) (List (Str × Str)) Bucket

abbrev env : Docker
env = record {
  public_url = codes "https://r.example";
  decode = λ jwt service. none;
  codec = record { sha256_hex = λ s. codes "ab"; parse_json = λ s. some (Json.object Json.end) };
  limits = record { max_blob_bytes = 0; default_storage_bytes = 0 };
  max_body_bytes = 1000;
  instant = 0;
  now = codes "t";
  upload_id = codes "s1";
  repo_id = codes "r9";
  presign = λ key. some key;
  counter_free = true;
  fetch_manifest = λ org_id repo reference up l. (ok tt, l);
  fetch_blob = λ org_id repo digest up b. (ok tt, b);
  referrers_index = λ t rows. no_answer;
}

abbrev server : Server (List (Str × CachedManifest)) (List (Str × Str)) Bucket
server = record {
  db = db;
  cache = record { enabled = true; generation = 0; manifests = []; tags = [] };
  uploads = record { sessions = []; slots = 5000 };
  store = record { objects = []; parts = [] };
  usage = record { enabled = true; repo = []; user = [] };
}

abbrev request : Request
request = record {
  method = get;
  rest = codes "acme/app/manifests/latest";
  query = [];
  headers = record {
    host = none;
    forwarded_proto = none;
    authorization = none;
    content_type = none;
  };
  content_range = none;
  body = [];
}

dispatch-Guarded_example :
    ((dispatch (listed CachedManifest) (listed Str) bucket_store env request server).1 ≡ server)
    ⊎ ((a : Admitted) × Guarded env.decode env.public_url db request a)
dispatch-Guarded_example =
    dispatch-Guarded (listed CachedManifest) (listed Str) bucket_store env request server

-- The one organization has no upstream.
no_upstream : (org_id : Str) → org_upstream db org_id ≡ none
unfolding org_upstream
no_upstream org_id = elim (Bool-cases (str_eq (codes "o1") org_id)) [
  | inl e ↦ rw e refl
  | inr e ↦ rw e refl
]

dispatch-SameContent_example :
    SameContent
      (listed CachedManifest)
      (listed Str)
      bucket_store
      env
      request
      server
      (dispatch (listed CachedManifest) (listed Str) bucket_store env request server).1
dispatch-SameContent_example =
    dispatch-SameContent (listed CachedManifest) (listed Str) bucket_store env request server
      no_upstream refl

abbrev layer : Blob
layer = record {
  org_id = codes "o1";
  digest = codes "sha256:aa";
  size = pos 3;
  created_at = codes "2025-01-01";
}

-- A blob that no manifest references.
abbrev with_layer : Db
with_layer = record db { blobs = layer ∷ [] }

young :
    (c : Blob)
    → In c with_layer.blobs
    → c.org_id ≡ layer.org_id
    → c.digest ≡ layer.digest
    → str_ltb c.created_at (codes "2024-01-01") ≡ false
unfolding str_ltb
young c (inl e) o d = rw e refl
young c (inr x) o d = elim x [ ]

alone :
    (c : Blob)
    → In c with_layer.blobs
    → blob_key c.org_id c.digest ≡ blob_key (codes "o1") (codes "sha256:aa")
    → (c.org_id ≡ codes "o1") × (c.digest ≡ codes "sha256:aa")
alone c (inl e) h = (ap (λ b. b.org_id) e, ap (λ b. b.digest) e)
alone c (inr i) h = elim i [ ]

run-keeps_example :
    In layer (run bucket_store (codes "2024-01-01") with_layer server.store).db.blobs
    × (bucket_store.object
          (blob_key (codes "o1") (codes "sha256:aa"))
          (run bucket_store (codes "2024-01-01") with_layer server.store).store
        ≡ bucket_store.object (blob_key (codes "o1") (codes "sha256:aa")) server.store)
run-keeps_example =
    run-keeps bucket_store (codes "2024-01-01") with_layer server.store layer (inl refl) (inr young)
      alone

run-record_blob_example :
    blob_exists
      (run bucket_store
        (codes "2026-01-01")
        (record_blob with_layer (codes "2026-02-02") (codes "o1") (codes "sha256:aa") (pos 3))
        server.store).db
      (codes "o1")
      (codes "sha256:aa")
    ≡ false
unfolding unreferenced_blobs str_eq str_ltb
run-record_blob_example =
    run-record_blob bucket_store (codes "o1") (codes "sha256:aa") (λ key st. refl) with_layer
      server.store (codes "2026-01-01") (codes "2026-02-02") (pos 3) (inl refl)

abbrev digest : Str
digest = codes "sha256:aaaaaaaaaaaaaaaaaaaaaaaaaaaaaaaaaaaaaaaaaaaaaaaaaaaaaaaaaaaaaaaa"

abbrev bob : User
bob = record {
  id = codes "u7";
  email = codes "b@x";
  username = codes "bob";
  password_hash = codes "h";
  is_admin = false;
  created_at = codes "t";
}

find_by_login-create_example :
    find_by_login (record db { users = bob ∷ db.users }) (codes "BOB") ≡ some bob
unfolding create find_by_login str_eq lower
find_by_login-create_example =
    find_by_login-create db (codes "u7") (codes "t") (codes "b@x") (codes "bob") (codes "h") false
      bob (record db { users = bob ∷ db.users }) (codes "BOB") refl (inl refl)

abbrev three_tags : List Str
three_tags = codes "1.0" ∷ codes "1.1" ∷ codes "latest" ∷ []

after-take_example : after (last_of (take 2 three_tags)) three_tags ≡ codes "latest" ∷ []
unfolding str_ltb
after-take_example =
    after-take 2 three_tags (omega arith) (omega arith) ((refl, (refl, tt)), ((refl, tt), (tt, tt)))

abbrev event : Key
event = record {
  day = codes "2026-01-01";
  org_id = codes "o1";
  name = codes "app";
  kind = codes "manifest.pull";
}

abbrev counted : Counters
counted = (event, record { count = pos 2; bytes = pos 30 }) ∷ []

abbrev collector : UsageCollector
collector = record { enabled = true; repo = counted; user = [] }

abbrev tables : UsageTables
tables = record { usage_daily = counted; usage_user_daily = [] }

-- A flush whose transaction fails.
flush-total_example :
    (total events event (flush false collector tables).1.repo
        +ℤ total events event (flush false collector tables).2.usage_daily
      ≡ pos 4)
    × (total events event (flush false collector tables).1.user
          +ℤ total events event (flush false collector tables).2.usage_user_daily
        ≡ pos 0)
unfolding total same_key str_eq ◌+ℤ◌
flush-total_example = flush-total false collector tables events event

-- A header of blanks and commas.
abbrev blank_client : Client
blank_client = record {
  forwarded_for = some (codes " , ");
  real_ip = none;
  peer = some (codes "10.0.0.1");
}

peer-ne : blank_client.peer ≢ some []
peer-ne h = absurd (ground arith)

client_ip-nonempty_example : client_ip true blank_client ≢ []
client_ip-nonempty_example = client_ip-nonempty true blank_client peer-ne
