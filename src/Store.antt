-- ===== src/Store.antt =====
-- crates/dafs-store: the tables, the statements on them, interned paths and the event log.
pub mod Tables
pub mod Exec
pub mod Statements
pub mod Paths
pub mod Rows
pub mod WellFormed
pub mod Interning
pub mod Upserting
pub mod Growth
pub mod Entering
pub mod Resolving
pub mod Walking
pub mod Events
pub mod Timeline
pub mod Ordering
pub mod Paging
pub mod Skipping
pub mod Logs
pub mod Locations
pub mod Names
pub mod Spelling
pub mod Catalog
pub mod Queue
pub mod Attempts
pub mod Enrichment
pub mod Vectors
pub mod Embeddings
pub mod Lockstep
pub mod Prepared
pub mod Nearest
pub mod Facets
pub mod Latest
pub mod Migrations
pub mod Migrated
