-- ===== src/Auth.antt =====
-- backend/internal/auth: the password hashes.
pub mod Password
