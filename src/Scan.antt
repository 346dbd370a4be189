-- ===== src/Scan.antt =====
-- crates/dafs-scan/src/lib.rs: what is recorded of an entry, of a changed path and of a scan.
pub mod Lookup
pub mod Recording
pub mod Batches
pub mod Renaming
pub mod Quiet
pub mod Recorded
pub mod Logging
pub mod CrashSafety
pub mod Rescan
pub mod Roots
pub mod Removal
pub mod Rollback
pub mod Unchanged
pub mod Changes
pub mod Moves
pub mod Relocated
