-- ===== src/Source.antt =====
-- internal/source.
pub mod RateLimit
