-- ===== src/Samples.antt =====
-- Concrete runs of the models, and the theorems applied to them.
pub mod Unchanged
pub mod Refs
pub mod Manifests
pub mod Recorded
pub mod Backup
pub mod Crypto
pub mod Dest
pub mod CopiedRefs
pub mod Verify
pub mod FanOut
pub mod RateLimit
pub mod Copy
pub mod Restore
pub mod Run
