-- ===== src/Tests/EngineRuns.antt =====
-- The engine at work.
use custom_wikibase.Prelude.{
  ◌≡◌, ◌≤◌, refl, true, false, none, some, List, [], ◌∷◌, Text, codes, text_eq, text_lt, lookup,
  insert, erase, decimal, starts_with, strip_prefix, includes, ok, err, try_catch, when, throw_if,
  ◌>>=◌, arith,
}
use custom_wikibase.RdfSync.EntityId.{is_entity_id, entity_graph_iri}
use custom_wikibase.RdfSync.Cursor.{is_regression}
use custom_wikibase.RdfSync.Classify.{
  id_behind, entity_of_title, log_action, log_key, classify_log, edit_action, classify_change,
  Event,
}
use custom_wikibase.RdfSync.Repository.{
  new_repository, load_source, record_poll, set_source_status, fresh_entity, entity_row,
  load_entity, save_entity, regresses, save_if, commit_event, register_graph, set_schema_state,
}
use custom_wikibase.RdfSync.Fence.{rebuild_required}
use custom_wikibase.Engine.World.{
  World, on_repo, on_outside, on_files, reading, increment, write_log,
}
use custom_wikibase.Engine.Steps.{
  code_run, find_code, sanitize_code, is_selected, temporary_path, ask_query, crash, mark_rebuild,
  replace_graph, verify,
}
use custom_wikibase.Engine.Edit.{
  Outcome, applied, stop, duplicate_seen, fence_decision, graph_of, schema_partition, indexed_row,
  commit_cursor, record_gap, skip_stale, write_graphs, commit_edit, apply_edit, edit,
}
use custom_wikibase.Engine.Events.{
  dispatch, handle_failure, process_entity, process_classified, process_event, process_batch,
  poll_once, cursor_of, context_of,
}
use custom_wikibase.Engine.Triples.{Holds}
use custom_wikibase.Engine.Progress.Edit.{Settles}
use custom_wikibase.Engine.Progress.Events.{process_event-Settles, process_event_returns}
use custom_wikibase.Engine.Revisions.Events.{
  RowsAreValid, indexed, process_event-RowsAreValid, process_event_monotone,
}
use custom_wikibase.Engine.Polling.{Follows, poll_once-Follows}
use custom_wikibase.Engine.Written.{RowIsWritten}
use custom_wikibase.Engine.Written.Edit.{edit-RowIsWritten}
use custom_wikibase.Tests.Fixture.{Store, tools, event, start}

classifier : Unit {0}
unfolding text_eq starts_with strip_prefix includes is_entity_id id_behind entity_of_title
    log_action log_key classify_log edit_action classify_change
classifier = tt

engine : Unit {0}
unfolding classifier text_lt lookup insert erase decimal try_catch when throw_if ◌>>=◌
    entity_graph_iri is_regression new_repository load_source record_poll set_source_status
    fresh_entity entity_row load_entity save_entity regresses save_if commit_event register_graph
    set_schema_state on_repo on_outside on_files reading increment write_log code_run find_code
    sanitize_code is_selected temporary_path ask_query crash mark_rebuild replace_graph verify
    fence_decision graph_of schema_partition indexed_row commit_cursor record_gap skip_stale
    write_graphs commit_edit apply_edit edit dispatch handle_failure process_entity
    process_classified process_event process_batch poll_once
engine = tt

abbrev first : Text
first = codes "2026-08-19T00:00:01Z"

abbrev second : Text
second = codes "2026-08-19T00:00:02Z"

-- The first revision is applied, its repetition is seen as a duplicate, and a gap stops.
one_event : (process_event (tools []) (event first 1 20 0) none false start).0 ≡ ok applied
unfolding engine
one_event = refl

abbrev after_one : World Store
after_one = (process_event (tools []) (event first 1 20 0) none false start).1

duplicate_event :
    (process_event (tools []) (event second 2 20 0) none false after_one).0 ≡ ok duplicate_seen
unfolding engine
duplicate_event = refl

gap_event :
    let (r, w) = process_event (tools []) (event second 2 25 22) none false after_one in
    (r ≡ ok stop) × (w.repo.source.status ≡ rebuild_required)
unfolding engine
gap_event = (refl, refl)

-- A crash between the row and the cursor leaves the cursor, and the event is a duplicate next time.
crash_event :
    let (r, w) =
      process_event
        (tools [])
        (event first 1 20 0)
        (some (codes "AFTER_FENCE_BEFORE_CURSOR"))
        true
        start in
    (r ≡ err (codes "INJECTED_AFTER_FENCE_BEFORE_CURSOR"))
    × (w.repo.source.cursor ≡ none)
    × ((process_event (tools []) (event first 1 20 0) none false w).0 ≡ ok duplicate_seen)
unfolding engine
crash_event = (refl, refl, refl)

start-RowsAreValid : RowsAreValid start.repo.entities
unfolding engine
start-RowsAreValid id = record { above = omega arith; keyed = refl; seen = omega arith }

process_event-Settles_example :
    Holds
      (λ o s d. Settles true (cursor_of (tools []) (event first 1 20 0)) start.repo.source o s)
      (λ e s d. s ≡ start.repo.source)
      (process_event (tools []) (event first 1 20 0) none false start)
process_event-Settles_example =
    process_event-Settles (tools []) (event first 1 20 0) none false start

process_event_returns_example :
    (o : Outcome) × ((process_event (tools []) (event first 1 20 0) none false start).0 ≡ ok o)
unfolding classifier
process_event_returns_example =
    process_event_returns (tools []) (event first 1 20 0) none start (λ e. cc)

process_event-RowsAreValid_example :
    RowsAreValid (process_event (tools []) (event first 1 20 0) none false start).1.repo.entities
process_event-RowsAreValid_example =
    process_event-RowsAreValid (tools []) (event first 1 20 0) none false start start-RowsAreValid

process_event_monotone_example :
    indexed (codes "Q1") start.repo.entities
    ≤ indexed
        (codes "Q1")
        (process_event (tools []) (event first 1 20 0) none false start).1.repo.entities
unfolding classifier
process_event_monotone_example =
    process_event_monotone (tools []) (event first 1 20 0) none false start start-RowsAreValid
      (λ e. cc) (codes "Q1")

abbrev feed : List Event
feed = event first 1 20 0 ∷ event second 2 21 20 ∷ []

poll_once-Follows_example :
    let w = (poll_once (tools feed) 50 50 none false start).1 in
    Follows start.repo.source.cursor w.repo.source.cursor × RowsAreValid w.repo.entities
poll_once-Follows_example = poll_once-Follows (tools feed) 50 50 none false start start-RowsAreValid

edit-RowIsWritten_example : RowIsWritten (tools []) (codes "Q1") 20 (
    entity_row
      (codes "Q1")
      (edit
        (tools [])
        (codes "Q1")
        (event first 1 20 0)
        (cursor_of (tools []) (event first 1 20 0))
        (context_of (tools []) (event first 1 20 0))
        none
        true
        false
        start).1.repo.entities)
unfolding engine
edit-RowIsWritten_example =
    edit-RowIsWritten (tools []) (codes "Q1") (event first 1 20 0)
      (cursor_of (tools []) (event first 1 20 0)) (context_of (tools []) (event first 1 20 0)) none
      true false start applied start-RowsAreValid refl tt
