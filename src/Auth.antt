-- ===== src/Auth.antt =====
-- src/auth: the parts that read credentials and scopes, and that grant.
pub mod Header
pub mod Scope
pub mod Token
pub mod Session
pub mod Rbac
