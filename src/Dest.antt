-- ===== src/Dest.antt =====
-- internal/dest: the readers that a destination puts around a stream.
pub mod Reader
pub mod Limit
pub mod Exact
