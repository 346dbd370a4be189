-- ===== src/Api.antt =====
-- crates/dafs-api: the log ring and the handlers of the routes.
pub mod LogHistory
pub mod Ends
pub mod LogLines
pub mod LogEvents
pub mod Handlers
pub mod Guards
pub mod LogLevel
pub mod Probes
