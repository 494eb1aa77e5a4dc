-- ===== src/Proxy.antt =====
-- src/proxy.rs: the pull-through cache. The `url` crate enters as `Urls`, DNS and the HTTP client as
-- the two questions of `Fetch` (Proxy/Fetch). The text of an underlying error or of a
-- status is left out of the messages.
pub mod Fetch
pub mod Guard
pub mod Send
pub mod Listing
pub mod Stream
pub mod Blobs
pub mod Manifests
use ruskery.Common.{
  ℕ, ◌+◌, ◌/◌, ◌*◌, ◌≡◌, ◌++◌, Bool, true, false, ◌&&◌, ◌||◌, Option, none, some, List, [], ◌∷◌,
  Str, codes, str_eq, lower, ltb, leb, ◌==◌, find_row, and_then,
}
use ruskery.Error.{Error, oci}

pub data IpAddr : Type 0 where
  -- The four bytes.
  v4 : ℕ → ℕ → ℕ → ℕ → IpAddr
  -- The eight segments.
  v6 : ℕ → ℕ → ℕ → ℕ → ℕ → ℕ → ℕ → ℕ → IpAddr

-- `Url` and `Origin` of the `url` crate. The laws: a URL is read back from its text, and a query
-- parameter leaves the host and the port alone.
pub record Urls (Url Origin : Type 0) : Type 0 where
  pub parse : Str → Option Url
  pub to_string : Url → Str
  pub origin : Url → Origin
  pub origin_eq : Origin → Origin → Bool
  pub scheme : Url → Str
  pub host_str : Url → Option Str
  pub port_or_known_default : Url → Option ℕ
  pub join : Url → Str → Option Url
  pub append_pair : Str → Str → Url → Url
  -- `str::parse::<IpAddr>`
  pub parse_ip : Str → Option IpAddr
  pub parse-to_string : (u : Url) → parse (to_string u) ≡ some u
  pub host_str-append_pair : (k v : Str) (u : Url) → host_str (append_pair k v u) ≡ host_str u
  pub port_or_known_default-append_pair :
      (k v : Str) (u : Url) → port_or_known_default (append_pair k v u) ≡ port_or_known_default u

pub data Auth : Type 0 where
  no_auth : Auth
  bearer : Str → Auth
  basic : Str → Option Str → Auth

pub record Request : Type 0 where
  pub url : Str
  pub accept : Option Str
  pub auth : Auth

-- A response: names of headers in lower case, with `none` for a value that is not text, and the
-- chunks of the body, with `none` for a read that fails.
pub record Reply : Type 0 where
  pub status : ℕ
  pub headers : List (Str × Option Str)
  pub content_length : Option ℕ
  pub body : List (Option Str)

unfoldable pub header : Str → Reply → Option Str
header name reply = and_then (find_row (λ h. str_eq h.0 name) reply.headers) (λ h. h.1)

abbrev pub is_success : ℕ → Bool
is_success status = leb 200 status && ltb status 300

abbrev pub is_redirection : ℕ → Bool
is_redirection status = leb 300 status && ltb status 400

abbrev pub eq_ignore_ascii_case : Str → Str → Bool
eq_ignore_ascii_case a b = str_eq (lower a) (lower b)

unfoldable pub upstream_error : Str → Error
upstream_error msg = oci 502 (codes "UPSTREAM_UNAVAILABLE") msg

abbrev pub max_manifest_bytes : ℕ
max_manifest_bytes = 16 * 1024 * 1024

abbrev pub max_list_bytes : ℕ
max_list_bytes = 64 * 1024 * 1024

abbrev pub max_token_bytes : ℕ
max_token_bytes = 1024 * 1024

abbrev pub max_pages : ℕ
max_pages = 10000

abbrev pub max_redirects : ℕ
max_redirects = 10

abbrev pub manifest_accept : Str
manifest_accept =
    codes "application/vnd.oci.image.index.v1+json, "
    ++ (codes "application/vnd.oci.image.manifest.v1+json, "
        ++ (codes "application/vnd.docker.distribution.manifest.list.v2+json, "
            ++ codes "application/vnd.docker.distribution.manifest.v2+json"))
