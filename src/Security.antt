-- ===== src/Security.antt =====
-- security: the tokens of security/auth/jwt.
pub mod Jwt
