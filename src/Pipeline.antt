-- ===== src/Pipeline.antt =====
-- internal/pipeline: backup, restore, verify and drill.
pub mod Manifest
pub mod Refs
pub mod Unchanged
pub mod Manifests
pub mod Recorded
pub mod Resume
pub mod Previous
pub mod Retention
pub mod CopiedRefs
pub mod Verify
pub mod FanOut
pub mod Attempts
pub mod Upload
pub mod Copy
pub mod BackupOne
pub mod RestoreChecks
pub mod Restore
pub mod Drill
pub mod Run
