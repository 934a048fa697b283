-- ===== src/Engine/Edit.antt =====
-- `#edit` of `RdfSyncEngine`: one revision of one entity, from the fence to the cursor.
use custom_wikibase.Prelude.{
  ℕ, Bool, true, false, not, ◌&&◌, ◌||◌, Option, none, some, [], ◌∷◌, max, Text, codes, starts_with,
  Result, ok, err, Exec, pure, lift, when, throw_if, ◌>>=◌, ◌>>◌, if◌then◌else◌,
}
use custom_wikibase.RdfSync.EntityId.{entity_graph_iri}
use custom_wikibase.RdfSync.Cursor.{Cursor}
use custom_wikibase.RdfSync.Classify.{Event}
use custom_wikibase.RdfSync.Fence.{Decision, duplicate, gap, writes, new_fence, observe}
use custom_wikibase.RdfSync.Repository.{
  EntityState, EntityRow, current, gapped, deleted, restoring, schema_current, load_entity,
  save_entity, commit_event, register_graph, set_schema_state,
}
use custom_wikibase.Engine.World.{
  Collaborators, Context, Partition, World, on_repo, on_outside, reading, increment,
}
use custom_wikibase.Engine.Steps.{crash, mark_rebuild, replace_graph, verify}

-- The strings that `processEvent` returns.
pub data Outcome : Type 0 where
  skip stop duplicate_seen older_seen applied restored removed lifecycle_applied : Outcome

-- `new RevisionFence(entityId, indexed).observe(revid, oldRevid)`; the fence itself is dropped.
unfoldable pub fence_decision : Text → ℕ → ℕ → ℕ → Result Decision
unfolding new_fence observe
fence_decision id indexed revid old = elim (new_fence id indexed) [
  | ok fence ↦ (observe revid old fence).0
  | err e ↦ err e
]

-- `["DELETED", "RESTORING", "CURRENT"].includes(row.status)`.
abbrev pub is_restorable : EntityState → Bool
is_restorable deleted = true
is_restorable restoring = true
is_restorable current = true
is_restorable _ = false

abbrev pub is_gap : Decision → Bool
is_gap gap = true
is_gap _ = false

-- What a decision that writes nothing returns, and the metric that it counts.
abbrev pub stale_outcome : Decision → Outcome
stale_outcome duplicate = duplicate_seen
stale_outcome _ = older_seen

abbrev pub stale_metric : Decision → Text
stale_metric duplicate = codes "duplicate_events_total"
stale_metric _ = codes "out_of_order_events_total"

-- `!value` for a string.
abbrev pub is_empty_text : Text → Bool
is_empty_text [] = true
is_empty_text (_ ∷ _) = false

-- `partition.entityGraphIri ?? entityGraphIri(entityId)`.
unfoldable pub graph_of : Option Text → Text → Result Text
graph_of (some iri) id = ok iri
graph_of none id = entity_graph_iri id

-- The schema graph's name and body, where both are there.
unfoldable pub schema_partition : Option Text → Text → Result (Text × Text)
schema_partition none rdf = err (codes "PROPERTY_SCHEMA_PARTITION_MISSING")
schema_partition (some iri) rdf =
    if is_empty_text iri || is_empty_text rdf
    then err (codes "PROPERTY_SCHEMA_PARTITION_MISSING")
    else ok (iri, rdf)

unfoldable pub indexed_row : EntityRow → ℕ → Text → Text → EntityRow
indexed_row row revid checksum at = record row {
  indexed_revision = revid;
  latest_seen_revision = max row.latest_seen_revision revid;
  status = current;
  checksum = some checksum;
  last_success_at = some at;
  error_code = none;
}

module _ {Outside : Type 0} (c : Collaborators Outside) where
  -- `repository.commitEvent`, which reads the system's clock.
  unfoldable pub commit_cursor : Cursor → Option EntityRow → Exec (World Outside) (Unit {0})
  commit_cursor cursor entity = do
    now ← reading c.system_clock
    on_repo (commit_event now cursor entity)

  -- The decision is a gap.
  unfoldable pub record_gap : EntityRow → Event → Context → Exec (World Outside) Outcome
  record_gap row event context = do
    increment (codes "gap_events_total")
    on_repo (
        save_entity (record row {
          latest_seen_revision = event.revid;
          status = gapped;
          error_code = some (codes "REVISION_GAP");
        }))
    mark_rebuild (codes "REVISION_GAP") context
    pure stop

  -- The decision writes nothing.
  unfoldable pub skip_stale : Decision → Cursor → Bool → Exec (World Outside) Outcome
  unfolding commit_cursor
  skip_stale decision cursor moves = do
    increment (stale_metric decision)
    when moves (commit_cursor cursor none)
    pure (stale_outcome decision)

  -- The schema graph of a property.
  unfoldable pub write_schema : Text → ℕ → Partition → Exec (World Outside) (Unit {0})
  write_schema id revid part = do
    schema ← lift (schema_partition part.schema_graph_iri part.schema_rdf)
    replace_graph c schema.0 schema.1 id revid
    on_repo (register_graph schema.0)
    on_repo (set_schema_state schema_current)

  -- From the fetch to the verification: writes the graphs, and returns the checksum.
  unfoldable pub write_graphs : Text → ℕ → Option Text → Exec (World Outside) Text
  unfolding write_schema
  write_graphs id revid crash_at = do
    fetched ← on_outside (c.fetch id revid)
    crash crash_at (codes "AFTER_RDF_FETCH")
    part ← lift (c.partition fetched)
    crash crash_at (codes "BEFORE_BACKEND_UPDATE")
    iri ← lift (graph_of part.entity_graph_iri id)
    replace_graph c iri part.entity_rdf id revid
    on_repo (register_graph iri)
    when (starts_with (codes "P") id) (write_schema id revid part)
    crash crash_at (codes "AFTER_BACKEND_UPDATE")
    verified ← verify c id revid
    throw_if (not verified) (codes "BACKEND_VERIFY_FAILED")
    pure (c.sha256 part.entity_rdf)

  -- The durable part: the row first, the cursor last.
  unfoldable pub commit_edit :
      EntityRow → Cursor → Option Text → Bool → Bool → Exec (World Outside) Outcome
  unfolding commit_cursor
  commit_edit entity cursor crash_at moves force_restore = do
    crash crash_at (codes "BEFORE_FENCE_COMMIT")
    on_repo (save_entity entity)
    crash crash_at (codes "AFTER_FENCE_BEFORE_CURSOR")
    when moves (commit_cursor cursor (some entity))
    increment (codes "events_applied_total")
    pure (if force_restore then restored else applied)

  unfoldable pub apply_edit :
      EntityRow → Text → ℕ → Cursor → Option Text → Bool → Bool → Exec (World Outside) Outcome
  unfolding write_graphs commit_edit
  apply_edit row id revid cursor crash_at moves force_restore = do
    when force_restore
        (on_repo (save_entity (record row { status = restoring; error_code = none })))
    checksum ← write_graphs id revid crash_at
    at ← reading c.clock
    commit_edit (indexed_row row revid checksum at) cursor crash_at moves force_restore

  unfoldable pub edit :
      Text → Event → Cursor → Context → Option Text → Bool → Bool → Exec (World Outside) Outcome
  edit id event cursor context crash_at moves force_restore = do
    row ← on_repo (load_entity id)
    throw_if (force_restore && not (is_restorable row.status)) (codes "UNDELETE_WITHOUT_TOMBSTONE")
    decision ← lift (fence_decision id row.indexed_revision event.revid event.old_revid)
    if not force_restore && is_gap decision
        then record_gap row event context
        else if not force_restore && not (writes decision)
        then skip_stale decision cursor moves
        else apply_edit row id event.revid cursor crash_at moves force_restore
