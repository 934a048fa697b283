-- ===== src/Dataset.antt =====
-- The RDF of the wiki before it is partitioned: its lines, and their normalization.
pub mod Lines
pub mod Order
pub mod Normalizer
pub mod Canonical
pub mod Manifest
