-- ===== src/Serving.antt =====
-- services/rdf-sync: which generation of the RDF dataset serves the queries.
pub mod Tables
pub mod Pointer
pub mod Transitions
pub mod Memory
pub mod Standalone
pub mod Reconciler
