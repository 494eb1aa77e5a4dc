-- ===== src/Lib.antt =====
-- ruskery is an OCI container registry with organizations, teams and access tokens, written in
-- Rust. A request to `/v2/` is routed by path, checked against the repository actions in a bearer
-- token, and served from an SQLite database, an in-memory read cache and an S3 object store. Docker
-- clients obtain the token from `/v2/token` with a password or a personal access token.
--
-- Paths are from the repository's root. State is passed explicitly: a statement on the database is a
-- function on the tables, a call of the store a function on its state, and a handler gives its
-- result with the new state. The clock, random identifiers and request bodies are arguments.
--
--   Common      strings as lists of bytes, lists over the native numbers, i64
--   Models      src/models.rs: OrgRole (Models/Role), Permission (Models/Perm), TokenScope
--   Error       src/error.rs: the error type and its HTTP answers
--   Db          migrations/*.sql as lists of rows; Db/Content and Db/Manifests are src/db/content.rs,
--               Db/Orgs is src/db/orgs.rs (Teams, Catalog, and Views for the dashboard), Db/Users is
--               src/db/users.rs, Db/Audit is src/db/audit.rs, Db/Settings is
--               src/db/settings.rs
--   Auth        src/auth: Header (parse_basic, parse_bearer), Scope (Scope::parse, parse_scopes),
--               Token (Claims), Session (the cookies), Rbac (grant_repository)
--   Storage     src/storage/mod.rs: object keys, and the S3 client as an interface
--   Cache       src/cache.rs; Cache/Coherency interleaves its callers as steps
--   Registry    src/registry: Route (parse_route), Digest (digests_equal), Auth (require,
--               verify_bearer), Endpoint (token_endpoint), Dispatch (dispatch and the route to each
--               handler), Catalog (catalog), Blobs (blobs.rs), Tags (tags.rs), Manifests
--               (manifests.rs), Uploads (uploads.rs: Session is UploadSession, Slots is
--               UploadRegistry with the permits of SESSION_SLOTS, Handlers are start, patch, finish,
--               status, cancel and the sweep)
--   Proxy       src/proxy.rs: Guard (guard_fetch_target, realm_is_trusted), Send (send_authed with its
--               redirects and the token dance), Listing (list_catalog, list_tags), Stream
--               (stream_to_storage), Blobs (cache_blob), Manifests (cache_manifest), Fetch (what the
--               registry's handlers take from it)
--   Api         src/api/mod.rs: Guards (admin_of and the checks), Orgs, Members, Teams, Accounts, and
--               Handle (the routes to them); Signin is setup, login, logout, me and SessionUser
--   Gc          src/gc.rs: one sweep
--   Analytics   src/analytics.rs, and flush_batch of src/db/analytics.rs
--   RateLimit   src/rate_limit.rs: guarded paths and client keys
--   Tests       a cache and two object stores that satisfy the interfaces, and examples
--
-- Parameters: the `lru` crate's map (Lru), the S3 client (ObjectStore), SHA-256, Argon2, base64, the
-- JSON parser, token signing, presigning, the limiters of `governor`, the `url` crate, name
-- resolution, and the HTTP client, whose answers are any list of responses. The registry's dispatch
-- takes the pull-through fetch as an argument. Lru and ObjectStore name the documented behaviour that
-- is used. A failed S3 call may leave any state, but keeps the parts that are stored.
-- The SHA-256 state of an upload is the text that was fed to it.
--
-- Integers: an upload's total is taken modulo 2 ^ 64 and sizes are cast to i64 as the code does; the
-- cache's generation wraps at 2 ^ 64, and its interleavings are of fewer invalidations than that.
-- The flush loop of an upload runs on the length of the buffer as fuel, and each round shortens it.
-- The loop of redirects runs on the code's limit of 10, and that of a list's pages on 10,000.
--
-- A handler's calls run one after another while it holds the session's lock. The task that counts a
-- pull runs at the end of its request. Of the errors of SQLite those of the unique indexes and of the
-- foreign keys of org_members are modelled. Not modelled at all: the handlers of
-- src/api/mod.rs on OAuth, imports, analytics, settings and domains, and imports, TLS and start-up
-- themselves: they are mostly calls of other packages, or input and output.
pub mod Common
pub mod Models
pub mod Error
pub mod Db
pub mod Auth
pub mod Registry
pub mod Storage
pub mod Cache
pub mod Gc
pub mod Analytics
pub mod Proxy
pub mod RateLimit
pub mod Api
pub mod Tests
