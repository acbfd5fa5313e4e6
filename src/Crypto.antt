-- ===== src/Crypto.antt =====
-- internal/crypto.
pub mod Encrypt
