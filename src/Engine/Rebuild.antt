-- ===== src/Engine/Rebuild.antt =====
-- `rebuild` of services/rdf-sync/src/sync-engine.js. The coordinator acts on the whole state, since
-- its `catchUp` is given the engine.
pub mod Ends
use custom_wikibase.Prelude.{
  Option, none, some, Text, codes, Exec, pure, throw, try_catch, ◌>>=◌, ◌>>◌,
}
use custom_wikibase.RdfSync.Cursor.{Cursor}
use custom_wikibase.RdfSync.Fence.{healthy, rebuild_required, rebuilding}
use custom_wikibase.RdfSync.Repository.{start_rebuild, finish_rebuild}
use custom_wikibase.Engine.World.{Collaborators, World, on_repo, reading, increment}
use custom_wikibase.Engine.Steps.{crash, sanitize_code}

pub record RebuildCoordinator (Outside Snapshot : Type 0) : Type 0 where
  pub stage_snapshot : Text → Snapshot → Exec (World Outside) (Unit {0})
  pub catch_up : Text → Cursor → Option Cursor → Exec (World Outside) (Unit {0})
  pub cutover : Text → Exec (World Outside) (Unit {0})

module _ {Outside Snapshot : Type 0} (c : Collaborators Outside)
    (coordinator : RebuildCoordinator Outside Snapshot) (id : Text) (snapshot : Snapshot)
    (start : Cursor) (end : Option Cursor) (crash_at : Option Text) where
  -- The body of the `try`. A call of `metrics.observe` is noted like one of `increment`.
  unfoldable pub rebuild_steps : Exec (World Outside) Text
  rebuild_steps = do
    coordinator.stage_snapshot id snapshot
    crash crash_at (codes "DURING_REBUILD")
    coordinator.catch_up id start end
    crash crash_at (codes "BEFORE_CUTOVER")
    coordinator.cutover id
    crash crash_at (codes "AFTER_CUTOVER")
    at ← reading c.clock
    on_repo (
        finish_rebuild id
          (record { state = healthy; end_cursor = end; error_code = none; completed_at = at }))
    now ← reading c.clock
    increment (codes "rebuild_duration")
    pure id

  -- The `catch`.
  unfoldable pub rebuild_failure : Text → Exec (World Outside) Text
  rebuild_failure e = do
    increment (codes "rebuild_failure_total")
    at ← reading c.clock
    on_repo (
        finish_rebuild id (record {
          state = rebuild_required;
          end_cursor = none;
          error_code = some (sanitize_code e);
          completed_at = at;
        }))
    throw e

  unfoldable pub rebuild_as : Exec (World Outside) Text
  rebuild_as = do
    started ← reading c.clock
    on_repo (
        start_rebuild (record {
          id = id;
          state = rebuilding;
          start_cursor = start;
          end_cursor = none;
          started_at = started;
          completed_at = none;
          backend_type = c.backend_type;
          error_code = none;
        }))
    increment (codes "rebuild_total")
    try_catch rebuild_steps rebuild_failure

-- The identifier of the rebuild, whose status is then HEALTHY.
unfoldable pub rebuild :
    {Outside Snapshot : Type 0}
    → Collaborators Outside
    → RebuildCoordinator Outside Snapshot
    → Snapshot
    → Cursor
    → Option Cursor
    → Option Text
    → Exec (World Outside) Text
rebuild c coordinator snapshot start end crash_at = do
  id ← reading c.random_uuid
  rebuild_as c coordinator id snapshot start end crash_at
