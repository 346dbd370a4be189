-- ===== src/Daemon.antt =====
-- crates/dafs-daemon: the three workers that drain the queues of the store, and the observer.
pub mod Worker
pub mod Frames
pub mod ExtractWorker
pub mod EnrichWorker
pub mod EmbedWorker
pub mod Attempting
pub mod Drained
pub mod Extracted
pub mod Observer
pub mod Applied
pub mod WatchRoots
pub mod SharedRoots
pub mod StoreAdapter
pub mod Searched
pub mod WatchAdapter
