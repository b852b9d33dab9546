-- ===== src/Pkcs11.antt =====
-- encrypt/pkcs11: references to keys on a token, and the sessions with it.
pub mod Uri
pub mod Sessions
pub mod Modules
