-- ===== src/Sync.antt =====
-- pkg/sync: the synchronisation engine.
pub mod Version
pub mod State
pub mod Hotp
pub mod Merge
pub mod ConflictName
pub mod Scan
pub mod Resolve
pub mod Run
pub mod StateDb
pub mod Fsck
