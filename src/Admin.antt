-- ===== src/Admin.antt =====
-- backend/internal/admin: the admin's session and its management of credentials.
pub mod Keys
pub mod Guard
pub mod Login
