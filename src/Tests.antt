-- ===== src/Tests.antt =====
-- Concrete instances of the interfaces, and the theorems at concrete inputs.
mod Instances
mod Access
mod Content
mod Uploads
mod Requests
mod Upstream
mod Dashboard
mod Signin
