-- ===== src/Config.antt =====
-- The configuration of the programs: what an environment has to be for them to start.
pub mod Values
pub mod Worker
pub mod SourceReader
pub mod Descriptor
pub mod Bounds
pub mod Described
