-- ===== src/Engine.antt =====
-- `RdfSyncEngine` of services/rdf-sync/src/sync-engine.js.
pub mod World
pub mod Triples
pub mod Steps
pub mod Edit
pub mod Events
pub mod Quietness
pub mod Progress
pub mod Revisions
pub mod Polling
pub mod Rebuild
pub mod Written
