-- ===== src/Security/Jwt.antt =====
-- security/auth/jwt/jwt.go: JSON web tokens, their creation and their validation.
pub mod Segment
pub mod Strategy
pub mod Service
pub mod Tokens
pub mod Creation
pub mod Accepted
pub mod Times
pub mod Valid
pub mod Split
pub mod RoundTrip
pub mod Hmac
pub mod Config
pub mod WellFormed
pub mod Options
pub mod Tests
