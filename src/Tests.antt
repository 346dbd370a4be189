-- ===== src/Tests.antt =====
-- The theorems at concrete inputs.
mod Engine
mod WatchRuns
mod StoreRuns
mod ScanRuns
mod TimelineRuns
mod QueueRuns
mod VectorRuns
mod ApiRuns
mod DaemonRuns
mod MigrationRuns
mod EnrichRuns
