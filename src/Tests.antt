-- ===== src/Tests.antt =====
-- Runs at fixed inputs, and the theorems applied where their hypotheses hold.
pub mod Fixture
pub mod EngineRuns
pub mod RebuildRuns
pub mod RdfSyncRuns
pub mod ProtocolRuns
pub mod ServingRuns
pub mod StandaloneRuns
pub mod CoordinatorRuns
pub mod MigrationRuns
pub mod RouterRuns
pub mod ConfigRuns
pub mod BackendRuns
pub mod DatasetRuns
pub mod MemoryRuns
pub mod ProfileRuns
