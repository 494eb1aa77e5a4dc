-- ===== src/Registry/Dispatch.antt =====
-- `dispatch` of src/registry/mod.rs: what a request must pass, and the handler that it then reaches.
-- The task that counts a pull runs at the end of the request. The time that a request takes between its
-- steps is left out.
pub mod Guarded
pub mod Handle
pub mod Effects
pub mod Reads
use ruskery.Common.{
  ℕ, ◌++◌, Bool, true, false, not, ◌&&◌, Option, none, some, List, [], ◌∷◌, Str, codes, str_eq,
  split, split_once, parse_u64, ltb, length, filter_map, if◌then◌else◌, and_then, option_map,
  unwrap_or,
}
use ruskery.Error.{Error, oci, other, Result, ok, err, ◌>>=◌, Response, into_response}
use ruskery.Models.Perm.{Permission, push}
use ruskery.Db.{Db, Org}
use ruskery.Db.Orgs.{find_org_by_slug, org_is_proxy, OrgUpstream}
use ruskery.Auth.Scope.{percent_decode}
use ruskery.Auth.Token.{Claims}
use ruskery.Storage.{ObjectStore}
use ruskery.Cache.{Lru, CachedManifest, ManifestCache}
use ruskery.Registry.Route
use ruskery.Registry.Route.{Method, Op, Parsed, parse_route, valid_repo_name, action}
use ruskery.Registry.Auth.{Headers, Decoder, Access, allowed, refused, require}
use ruskery.Registry.Manifests
use ruskery.Registry.Manifests.{Local, Codec}
use ruskery.Registry.Blobs
use ruskery.Registry.Blobs.{Blobs}
use ruskery.Registry.Tags
use ruskery.Registry.Uploads.Slots.{UploadRegistry}
use ruskery.Registry.Uploads.Handlers
use ruskery.Registry.Uploads.Handlers.{World, Answer}
use ruskery.Registry.Uploads.Handlers.Start
use ruskery.Registry.Uploads.Handlers.Chunks
use ruskery.Registry.Uploads.Handlers.Finish
use ruskery.Registry.Uploads.Handlers.Finish.{Limits}

-- `uploads::query_param`
first : List Str → Option Str
first [] = none
first (v ∷ vs) = some v

unfoldable pub query_param : Str → Str → Option Str
unfolding first
query_param query key = first (
    filter_map
      (λ pair. and_then (split_once b'=' pair) (λ p. if str_eq p.0 key then some p.1 else none))
      (split b'&' query))

pub record Request : Type 0 where
  pub method : Method
  -- The path after `/v2/`.
  pub rest : Str
  pub query : Str
  pub headers : Headers
  pub content_range : Option Str
  -- The chunks of the body; a `none` is a read error.
  pub body : List (Option Str)

-- What a request that may go on is about.
pub record Admitted : Type 0 where
  pub name : Str
  pub op : Op
  pub required : Permission
  pub claims : Claims
  pub org : Org
  pub repo_name : Str

pub data Admission : Type 0 where
  admitted : Admitted → Admission
  turned_away : Response → Admission

unfoldable pub unknown_route : Error
unknown_route = oci 404 (codes "NAME_UNKNOWN") (codes "unknown route")

unfoldable pub invalid_name : Error
invalid_name = oci 400 (codes "NAME_INVALID") (codes "invalid repository name")

unfoldable pub unsupported : Error
unsupported = oci 405 (codes "UNSUPPORTED") (codes "method not allowed")

unfoldable pub read_only : Error
read_only = oci 403 (codes "DENIED") (codes "organization is a pull-through cache (read-only)")

unfoldable pub is_push : Permission → Bool
is_push push = true
is_push _ = false

unfoldable pub resolve : Db → Str → Option (Org × Str)
resolve db name =
    and_then (split_once b'/' name) (λ p. option_map (λ org. (org, p.1)) (find_org_by_slug db p.0))

-- After the token: the organization, and the refusal of pushes to a pull-through cache.
unfoldable pub admit_to_org : Db → Str → Op → Permission → Claims → Option (Org × Str) → Admission
admit_to_org db name op required claims none = turned_away (into_response Tags.repository_unknown)
admit_to_org db name op required claims (some (org, repo_name)) =
    if is_push required && org_is_proxy db org.id
    then turned_away (into_response read_only)
    else admitted (record {
      name = name;
      op = op;
      required = required;
      claims = claims;
      org = org;
      repo_name = repo_name;
    })

unfoldable pub admit_with : Db → Str → Op → Permission → Access → Admission
admit_with db name op required (refused response) = turned_away response
admit_with db name op required (allowed claims) =
    admit_to_org db name op required claims (resolve db name)

unfoldable pub admit_parsed : Decoder → Str → Db → Request → Parsed → Admission
admit_parsed decode public_url db rq p =
    if not (valid_repo_name p.name)
    then turned_away (into_response invalid_name)
    else elim (Route.required p.op rq.method) [
      | none ↦ turned_away (into_response unsupported)
      | some required ↦
          admit_with db p.name p.op required
            (require decode public_url rq.headers p.name (action required))
    ]

-- From the route to the handler's door.
unfoldable pub admit : Decoder → Str → Db → Request → Admission
admit decode public_url db rq = elim (parse_route rq.rest) [
  | none ↦ turned_away (into_response unknown_route)
  | some p ↦ admit_parsed decode public_url db rq p
]
