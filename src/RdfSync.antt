-- ===== src/RdfSync.antt =====
-- packages/rdf-sync: identifiers, the change classifier, the revision fence and the stores.
pub mod EntityId
pub mod Cursor
pub mod Classify
pub mod Fence
pub mod Repository
pub mod Protocol
