-- ===== src/Lib.antt =====
-- custom-wikibase keeps an RDF dataset in step with a Wikibase: a worker polls the recent changes
-- of MediaWiki, fetches the RDF of each changed entity at its revision, replaces that entity's named
-- graph in the RDF store and verifies it, and records durably how far it has come. Datasets live
-- in generations; one of them serves the queries, and a pointer in the database says which.
--
-- The parts and their files:
-- - Prelude: text as lists of code points, maps as association lists, and actions that pass a state
--   and may throw. An action that throws keeps what it had changed, as an `async` function does.
-- - RdfSync.EntityId, RdfSync.Classify, RdfSync.Fence, RdfSync.Protocol:
--   packages/rdf-sync/src/protocol.js and the graph names of dataset-partition.js and state.js.
--   `classify_change` is classifyChange, `observe`, `commit` and `fail` are the methods of
--   RevisionFence, and `apply_entity_protocol` is applyEntityProtocol.
-- - RdfSync.Cursor, RdfSync.Repository: MemorySyncRepository of packages/rdf-sync/src/state.js, one
--   definition for a method.
-- - Engine: services/rdf-sync/src/sync-engine.js. Engine.World has the engine's collaborators (the
--   change source, the fetcher, the partitioner, the store's driver, the verification query, the
--   lifecycle resolver, the clocks, SHA-256) as functions on a state `Outside` of any type, so that
--   they may answer anything and raise any error. Engine.Steps has the helpers,
--   Engine.Edit `#edit`, Engine.Events `#delete`, `#lifecycle`, `processEvent` and `pollOnce`, and
--   Engine.Rebuild `rebuild`, whose coordinator acts on the whole state.
-- - Serving.Tables, Serving.Pointer: services/rdf-sync/src/postgres-serving-pointer-repository.js, the
--   tables as lists of rows and each statement of SQL as a function on them. `transaction` is the
--   BEGIN, COMMIT and ROLLBACK around a body. Serving.Reconciler: serving-reconciler.js, and
--   Serving.Transitions: TRANSITIONS of packages/rdf-sync/src/generation.js.
-- - Serving.Memory: the class MemoryGenerationBackend of services/rdf-sync/src/generation-rebuild-coordinator.js,
--   with `assertGenerationTransition` of packages/rdf-sync/src/generation.js. Rows are shared by reference
--   in the source; here a change of one is written back to the map.
-- - Serving.Standalone: services/rdf-sync/src/standalone-promotion-coordinator.js, with the journal of
--   promotions, and the rows that a promotion joins. `promote_slot` is its promote; the phases are
--   stored between its steps, and a crash is a throw between them.
-- - Migrations: packages/jwb-database/src/migration-runner.js, with SHA-256 and the effect of a script
--   as parameters. `migrate` and `migration_status` are migrate and migrationStatus. A script does not
--   write to the table `schema_migrations`, which is a part of the state of its own.
-- - Config: what the programs make of their environment. Worker and SourceReader are `loadConfig` of
--   apps/rdf-sync-worker/src/config.js and `loadSourceReaderConfig` of apps/rdf-source-reader/src/config.js,
--   with their patterns as tests on text in Values; Descriptor is
--   packages/rdf-sync/src/generation-descriptor.js with the call of apps/rdf-sync-worker/src/main.js.
--   `new URL` and `Number` are parameters (Host).
-- - Backends: the stores of RDF. Metadata is `validateRdfBackendMetadata` of
--   packages/rdf-domain/src/rdf-backend.js; Digest, Http and Sparql are
--   services/rdf-backends/src/sparql-http-backend.js, its requests and its class; Profiles is
--   services/rdf-backends/src/profiles.js. The world is a
--   parameter (Net): `fetch`, files, random bytes, digests and what a URL does.
-- - Dataset: packages/rdf-sync/src/canonical-rdf-normalizer.js. Normalizer is `normalizeWikibaseRdf`, with
--   its pattern of a line as functions on text and its sorted sets in Lines; Manifest is
--   `generationManifest`. SHA-256 and the parsing of dates are parameters.
-- - Coordinator: services/rdf-sync/src/postgres-generation-coordinator-repository.js, on its own
--   tables. Statements are its statements of SQL and its callers; Checks its checks of arguments;
--   Operations the operations with their leases and fences; Promotions and Release the promotions
--   and the release of the rollback's target; Eligibility `evaluateEligibility`; Retirement,
--   Cleanup, Deletion and Conclusion the way of a generation to its deletion. A call is one
--   transaction at one time of the database's clock; `Reaches` is any order of them by any
--   callers. Calls lists those that change a table, Kept, Preserved and Invariants carry an
--   invariant of the operations and attempts through all of them. Foreign keys are left out, and
--   so is generationEvidence, which only reads. `request_operation`, `load_operation`,
--   `move_operation`, `load_pointer` and `move_retirement` are request, load, transition, pointer
--   and retirementTransition; the others keep their names.
-- - QueryRouter: apps/query-router/src/generation-resolver.js, the resolver with its cache, and the
--   table of generations that it reads.
-- - Tests: runs at fixed inputs.
-- The engine writes to the repository. The reconciler and the router read what the pointer repository
-- writes.
--
-- Numbers are unbounded: the revisions and identifiers of the source are safe integers of
-- JavaScript, and nothing is added to one but 1; the length of a lease is added to the clock.
-- `decimal` prints with the number itself plus one as fuel, and a number has no more digits than
-- that; the scan of a digest challenge has one unit for each character and one more, and each of
-- its steps reads a character. A list of events is finite, so every loop is by recursion on its
-- list. Where the source has `null` for a revision the model has 0.
--
-- Not modelled: the columns of time that no decision reads; errors of `writeFile`; the order of strings
-- of localeCompare, the parsing of dates and the store of RDF, which are parameters; the loop of
-- services/rdf-sync/src/generation-coordinator-runtime.js and the drivers that start and stop
-- containers; and the HTTP, SQL and process I/O of the other services, programs and scripts.
pub mod Prelude
pub mod RdfSync
pub mod Engine
pub mod Serving
pub mod QueryRouter
pub mod Migrations
pub mod Config
pub mod Coordinator
pub mod Backends
pub mod Dataset
pub mod Tests
