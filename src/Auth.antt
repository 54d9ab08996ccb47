-- ===== src/Auth.antt =====
-- internal/auth: who a request comes from.
pub mod Middleware
pub mod Password
pub mod Jwt
pub mod Handler
