-- ===== src/Backends.antt =====
-- The stores of RDF: what one has to say of itself, and the store that is reached over HTTP.
pub mod Metadata
pub mod Normal
pub mod Profiles
pub mod Digest
pub mod Http
pub mod Sparql
pub mod Stored
pub mod Requests
