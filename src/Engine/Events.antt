-- ===== src/Engine/Events.antt =====
-- `processEvent` of `RdfSyncEngine`, with `#delete` and `#lifecycle`, and `pollOnce`.
use custom_wikibase.Prelude.{
  ℕ, Bool, true, false, not, ◌&&◌, ◌||◌, Option, none, some, List, [], ◌∷◌, ◌++◌, Text, codes,
  length, take, starts_with, Exec, pure, throw, lift, throw_if, try_catch, ◌>>=◌, ◌>>◌,
  if◌then◌else◌,
}
use custom_wikibase.RdfSync.EntityId.{entity_graph_iri, schema_prefix}
use custom_wikibase.RdfSync.Cursor.{Cursor}
use custom_wikibase.RdfSync.Classify.{
  Event, Action, entity_delete, entity_undelete, entity_redirect, entity_redirect_removed,
  entity_merge, non_entity_change, unknown, Classified, classify_change,
}
use custom_wikibase.RdfSync.Repository.{
  EntityRow, deleted, load_source, record_poll, load_entity, save_entity, unregister_graph,
}
use custom_wikibase.Engine.World.{
  Collaborators, Context, Resolved, Resolution, World, on_repo, on_outside, reading, increment,
  write_log,
}
use custom_wikibase.Engine.Steps.{crash, mark_rebuild, sanitize_code, injected_prefix}
use custom_wikibase.Engine.Edit.{
  Outcome, skip, stop, removed, lifecycle_applied, commit_cursor, edit,
}

abbrev pub is_stop : Outcome → Bool
is_stop stop = true
is_stop _ = false

unfoldable pub deleted_row : EntityRow → Text → EntityRow
deleted_row row at = record row {
  status = deleted;
  checksum = none;
  last_success_at = some at;
  error_code = none;
}

-- The graphs of an entity: its own and, of a property, its schema's.
unfoldable pub graphs_of : Text → Text → List Text
graphs_of id iri = iri ∷ (if starts_with (codes "P") id then (schema_prefix ++ id) ∷ [] else [])

abbrev pub is_undelete : Action → Bool
is_undelete entity_undelete = true
is_undelete _ = false

module _ {Outside : Type 0} (c : Collaborators Outside) where
  unfoldable pub drop_graphs : List Text → Exec (World Outside) (Unit {0})
  drop_graphs [] = pure tt
  drop_graphs (iri ∷ iris) = do
    on_outside (c.delete_named_graph iri)
    on_repo (unregister_graph iri)
    drop_graphs iris

  unfoldable pub delete_entity : Text → Cursor → Option Text → Exec (World Outside) Outcome
  unfolding commit_cursor
  delete_entity id cursor crash_at = do
    row ← on_repo (load_entity id)
    iri ← lift (entity_graph_iri id)
    drop_graphs (graphs_of id iri)
    crash crash_at (codes "AFTER_BACKEND_UPDATE")
    at ← reading c.clock
    commit_cursor c cursor (some (deleted_row row at))
    increment (codes "events_applied_total")
    pure removed

  module _ (event : Event) (cursor : Cursor) (context : Context) (crash_at : Option Text) where
    -- An entity that the resolver reports as deleted.
    unfoldable pub drop_resolved : Text → Exec (World Outside) Outcome
    drop_resolved id = do
      iri ← lift (entity_graph_iri id)
      on_outside (c.delete_named_graph iri)
      row ← on_repo (load_entity id)
      on_repo (save_entity (record row { status = deleted }))
      pure removed

    -- Any other, edited at the resolved revision on top of the indexed one.
    unfoldable pub edit_resolved : Bool → Resolved → Exec (World Outside) Outcome
    edit_resolved force_restore entity = do
      row ← on_repo (load_entity entity.id)
      edit c entity.id (record event { revid = entity.revision; old_revid = row.indexed_revision })
          cursor context crash_at false force_restore

    unfoldable pub apply_resolved : Bool → Resolved → Exec (World Outside) Outcome
    unfolding drop_resolved edit_resolved
    apply_resolved force_restore entity =
        if entity.deleted then drop_resolved entity.id else edit_resolved force_restore entity

    -- The loop of `#lifecycle`, which returns at the first "STOP".
    unfoldable pub apply_all : Bool → List Resolved → Exec (World Outside) Outcome
    apply_all force_restore [] = do commit_cursor c cursor none; pure lifecycle_applied
    apply_all force_restore (entity ∷ entities) = do
      outcome ← apply_resolved force_restore entity
      elim (is_stop outcome) [ true ↦ pure stop | false ↦ apply_all force_restore entities ]

    abbrev pub is_ambiguous : Resolution → Bool
    is_ambiguous r = not r.unambiguous || elim r.entities [ [] ↦ true | _ ∷ _ ↦ false ]

    unfoldable pub lifecycle : Classified → Exec (World Outside) Outcome
    lifecycle classified = do
      resolved ← on_outside (c.resolve classified event)
      throw_if (is_ambiguous resolved) (codes "AMBIGUOUS_LIFECYCLE")
      apply_all (is_undelete classified.action) resolved.entities

    -- The body of the `try` of `processEvent`.
    unfoldable pub dispatch : Action → Classified → Text → Exec (World Outside) Outcome
    dispatch entity_delete classified id = delete_entity id cursor crash_at
    dispatch entity_undelete classified id = lifecycle classified
    dispatch entity_redirect classified id = lifecycle classified
    dispatch entity_redirect_removed classified id = lifecycle classified
    dispatch entity_merge classified id = lifecycle classified
    dispatch _ classified id = edit c id event cursor context crash_at true false

    -- The `catch` of `processEvent`.
    unfoldable pub handle_failure : Bool → Text → Exec (World Outside) Outcome
    handle_failure hard_crash e =
        if hard_crash && starts_with injected_prefix e then throw e else do
          increment (codes "entity_sync_failures_total")
          write_log (record {
            name = codes "rdf_sync_event_failed";
            context = context;
            result = codes "failed";
            error_code = sanitize_code e;
          })
          mark_rebuild (sanitize_code e) context
          pure stop

    unfoldable pub stop_ambiguous : Exec (World Outside) Outcome
    stop_ambiguous = do mark_rebuild (codes "AMBIGUOUS_EVENT") context; pure stop

    unfoldable pub process_entity : Bool → Action → Classified → Exec (World Outside) Outcome
    unfolding stop_ambiguous
    process_entity hard_crash unknown classified = stop_ambiguous
    process_entity hard_crash action classified = elim classified.entity_id [
      | none ↦ stop_ambiguous
      | some [] ↦ stop_ambiguous
      | some (k ∷ id) ↦ try_catch (dispatch action classified (k ∷ id)) (handle_failure hard_crash)
    ]

    unfoldable pub process_classified : Bool → Action → Classified → Exec (World Outside) Outcome
    process_classified hard_crash non_entity_change classified = do
      commit_cursor c cursor none
      pure skip
    process_classified hard_crash action classified = process_entity hard_crash action classified

  abbrev pub cursor_of : Event → Cursor
  cursor_of event = record {
    source_identity = c.source_identity;
    timestamp = event.timestamp;
    rcid = event.rcid;
  }

  abbrev pub context_of : Event → Context
  context_of event =
      let classified = classify_change event in
      record {
        entity_id = classified.entity_id;
        revision = event.revid;
        rcid = event.rcid;
        event_type = classified.action;
        backend_type = c.backend_type;
      }

  unfoldable pub process_event : Event → Option Text → Bool → Exec (World Outside) Outcome
  process_event event crash_at hard_crash =
      let classified = classify_change event in
      process_classified event (cursor_of event) (context_of event) crash_at hard_crash
        classified.action classified

  -- The loop of `pollOnce`, which breaks at the first "STOP".
  unfoldable pub process_batch : Option Text → Bool → List Event → Exec (World Outside) (Unit {0})
  process_batch crash_at hard_crash [] = pure tt
  process_batch crash_at hard_crash (event ∷ events) = do
    increment (codes "events_seen_total")
    outcome ← process_event event crash_at hard_crash
    elim (is_stop outcome) [ true ↦ pure tt | false ↦ process_batch crash_at hard_crash events ]

  -- The number of events seen, and the cursor after the poll.
  unfoldable pub poll_once : ℕ → ℕ → Option Text → Bool → Exec (World Outside) (ℕ × Option Cursor)
  poll_once page_size batch_size crash_at hard_crash = do
    state ← on_repo load_source
    events ← on_outside (c.read_changes state.cursor page_size)
    at ← reading c.clock
    on_repo (record_poll at)
    crash crash_at (codes "AFTER_RC_FETCH")
    process_batch crash_at hard_crash (take batch_size events)
    final ← on_repo load_source
    pure (length events, final.cursor)
