-- ===== src/Registry.antt =====
-- src/registry: the OCI distribution surface.
pub mod Route
pub mod Digest
pub mod Auth
pub mod Endpoint
pub mod Uploads
pub mod Manifests
pub mod Blobs
pub mod Tags
pub mod Catalog
pub mod Dispatch
