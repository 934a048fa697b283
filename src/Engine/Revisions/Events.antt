-- ===== src/Engine/Revisions/Events.antt =====
-- How an event changes the rows of the entities: `#delete`, `#lifecycle`, `processEvent`.
use custom_wikibase.Prelude.{
  ℕ, ◌≡◌, ◌≢◌, ◌≤◌, refl, Bool, true, false, Option, none, some, List, [], ◌∷◌, Text, Dict, pure,
  try_catch, ◌&&◌, starts_with, Result, ok, err,
}
use native.Mathlib.Nat.{le_refl}
use custom_wikibase.RdfSync.Cursor.{Cursor}
use custom_wikibase.RdfSync.Classify.{
  Event, Action, entity_delete, entity_undelete, entity_redirect, entity_redirect_removed,
  entity_merge, non_entity_change, unknown, Classified, classify_change,
}
use custom_wikibase.RdfSync.Repository.{EntityRow, entity_row}
use custom_wikibase.Engine.World.{Collaborators, Context, Resolved, World}
use custom_wikibase.Engine.Triples.{
  Rows, Triple, Holds, Quiet-throw_if, Quiet-lift, Triple-bind, Triple-pure, Triple-if, Triple-test,
  Triple-try, Triple-given,
}
use custom_wikibase.Engine.Quietness.{
  Quiet-on_outside, Quiet-crash, Quiet-drop_graphs, Triple-increment, Triple-write_log,
  Triple-reading,
}
use custom_wikibase.Engine.Steps.{injected_prefix}
use custom_wikibase.Engine.Edit.{Outcome, skip, stop, removed, lifecycle_applied}
use custom_wikibase.Engine.Events.{
  is_stop, delete_entity, drop_resolved, edit_resolved, apply_resolved, apply_all, lifecycle,
  is_undelete, dispatch, handle_failure, stop_ambiguous, process_entity, process_classified,
  cursor_of, context_of, process_event, deleted_row,
}
use custom_wikibase.Engine.Revisions.Edit.{
  RowIsValid, Kept, kept_quietly, load_entity-Kept, save_entity-Kept, mark_rebuild-Kept,
  commit_cursor-Kept, SavedIsValid-of, edit-Kept,
}

module _ {Outside : Type 0} (c : Collaborators Outside) (floor : Text → ℕ) (next : Cursor) where
  delete_entity-Kept :
      (id : Text) (crash_at : Option Text)
      → Triple (Kept floor) (delete_entity c id next crash_at) (λ _. Kept floor) (λ _. Kept floor)
  unfolding delete_entity deleted_row
  delete_entity-Kept id crash_at = Triple-bind _ _ (load_entity-Kept c floor id) λ row.
      Triple-given _ λ v. Triple-bind _ _ (kept_quietly c floor _ (Quiet-lift _)) λ iri.
        Triple-bind _ _ (kept_quietly c floor _ (Quiet-drop_graphs c _)) λ _.
          Triple-bind _ _ (kept_quietly c floor _ (Quiet-crash crash_at _)) λ _.
            Triple-bind _ _ (Triple-reading _) λ at.
              Triple-bind _ _
                (commit_cursor-Kept c floor next _ (
                  SavedIsValid-of floor {id = id}
                    (record { above = v.above; keyed = v.keyed; seen = v.seen })))
                λ _. Triple-bind _ _ (Triple-increment _) λ _. Triple-pure removed (λ s d p. p)

  module _ (event : Event) (context : Context) (crash_at : Option Text) where
    drop_resolved-Kept :
        (id : Text)
        → Triple
            (Kept floor)
            (drop_resolved c event next context crash_at id)
            (λ _. Kept floor)
            (λ _. Kept floor)
    unfolding drop_resolved
    drop_resolved-Kept id = Triple-bind _ _ (kept_quietly c floor _ (Quiet-lift _)) λ iri.
        Triple-bind _ _ (kept_quietly c floor _ (Quiet-on_outside _)) λ _.
          Triple-bind _ _ (load_entity-Kept c floor id) λ row. Triple-given _ λ v.
            Triple-bind _ _
              (save_entity-Kept c floor id _
                (record { above = v.above; keyed = v.keyed; seen = v.seen }))
              λ _. Triple-pure removed (λ s d p. p)

    module _ (force : Bool) (unforced : force ≡ true → (id : Text) → floor id ≡ 0) where
      edit_resolved-Kept :
          (entity : Resolved)
          → Triple
              (Kept floor)
              (edit_resolved c event next context crash_at force entity)
              (λ _. Kept floor)
              (λ _. Kept floor)
      unfolding edit_resolved
      edit_resolved-Kept entity = Triple-bind _ _ (load_entity-Kept c floor entity.id) λ row.
          Triple-given _ λ v.
            edit-Kept c floor next entity.id _ context crash_at false force
              (λ e. unforced e entity.id)

      apply_all-Kept :
          (entities : List Resolved)
          → Triple
              (Kept floor)
              (apply_all c event next context crash_at force entities)
              (λ _. Kept floor)
              (λ _. Kept floor)
      unfolding apply_all apply_resolved
      apply_all-Kept [] =
          Triple-bind _ _ (commit_cursor-Kept c floor next none tt)
            λ _. Triple-pure lifecycle_applied (λ s d p. p)
      apply_all-Kept (entity ∷ entities) =
          Triple-bind _ _
            (Triple-if entity.deleted (drop_resolved-Kept entity.id) (edit_resolved-Kept entity))
            (go_on (apply_all-Kept entities))
        where
          go_on :
              Triple
                (Kept floor)
                (apply_all c event next context crash_at force entities)
                (λ _. Kept floor)
                (λ _. Kept floor)
              → (o : Outcome)
              → Triple
                  (Kept floor)
                  (elim (is_stop o) [
                    | true ↦ pure stop
                    | false ↦ apply_all c event next context crash_at force entities
                  ])
                  (λ _. Kept floor)
                  (λ _. Kept floor)
          go_on rest stop = Triple-pure stop (λ s d p. p)
          go_on rest _ = rest

    module _ (classified : Classified)
        (unforced : is_undelete classified.action ≡ true → (id : Text) → floor id ≡ 0) where
      lifecycle-Kept :
          Triple
            (Kept floor)
            (lifecycle c event next context crash_at classified)
            (λ _. Kept floor)
            (λ _. Kept floor)
      unfolding lifecycle
      lifecycle-Kept = Triple-bind _ _ (kept_quietly c floor _ (Quiet-on_outside _)) λ resolved.
          Triple-bind _ _ (kept_quietly c floor _ (Quiet-throw_if _ _))
            λ _. apply_all-Kept (is_undelete classified.action) unforced resolved.entities

      dispatch-Kept :
          (action : Action) (id : Text)
          → Triple
              (Kept floor)
              (dispatch c event next context crash_at action classified id)
              (λ _. Kept floor)
              (λ _. Kept floor)
      unfolding dispatch
      dispatch-Kept entity_delete id = delete_entity-Kept id crash_at
      dispatch-Kept entity_undelete id = lifecycle-Kept
      dispatch-Kept entity_redirect id = lifecycle-Kept
      dispatch-Kept entity_redirect_removed id = lifecycle-Kept
      dispatch-Kept entity_merge id = lifecycle-Kept
      dispatch-Kept _ id = edit-Kept c floor next id event context crash_at true false (λ e. cc)

      handle_failure-Kept :
          (hard : Bool) (e : Text)
          → Triple
              (Kept floor)
              (handle_failure c event next context crash_at hard e)
              (λ _. Kept floor)
              (λ _. Kept floor)
      unfolding handle_failure
      handle_failure-Kept hard e =
          Triple-test (hard && starts_with injected_prefix e) (λ _. record { at = λ w p. p })
            λ _. Triple-bind _ _ (Triple-increment _) λ _. Triple-bind _ _ (Triple-write_log _) λ _.
              Triple-bind _ _ (mark_rebuild-Kept c floor _ context)
                λ _. Triple-pure stop (λ s d p. p)

      stop_ambiguous-Kept :
          Triple
            (Kept floor)
            (stop_ambiguous c event next context crash_at)
            (λ _. Kept floor)
            (λ _. Kept floor)
      unfolding stop_ambiguous
      stop_ambiguous-Kept =
          Triple-bind _ _ (mark_rebuild-Kept c floor _ context) λ _. Triple-pure stop (λ s d p. p)

      with_id-Kept :
          (hard : Bool) (action : Action) (id : Option Text)
          → Triple
              (Kept floor)
              (elim id [
                | none ↦ stop_ambiguous c event next context crash_at
                | some [] ↦ stop_ambiguous c event next context crash_at
                | some (k ∷ id) ↦
                    try_catch
                      (dispatch c event next context crash_at action classified (k ∷ id))
                      (handle_failure c event next context crash_at hard)
              ])
              (λ _. Kept floor)
              (λ _. Kept floor)
      with_id-Kept hard action none = stop_ambiguous-Kept
      with_id-Kept hard action (some []) = stop_ambiguous-Kept
      with_id-Kept hard action (some (k ∷ id)) =
          Triple-try _ _ (dispatch-Kept action (k ∷ id)) (handle_failure-Kept hard)

      process_classified-Kept :
          (hard : Bool) (action : Action)
          → Triple
              (Kept floor)
              (process_classified c event next context crash_at hard action classified)
              (λ _. Kept floor)
              (λ _. Kept floor)
      unfolding process_classified process_entity
      process_classified-Kept hard non_entity_change =
          Triple-bind _ _ (commit_cursor-Kept c floor next none tt)
            λ _. Triple-pure skip (λ s d p. p)
      process_classified-Kept hard unknown = stop_ambiguous-Kept
      process_classified-Kept hard _ = with_id-Kept hard _ classified.entity_id

-- Every row is stored under its own name, and indexed no further than what was seen.
abbrev pub RowsAreValid : Dict EntityRow → Type 0
RowsAreValid d = (id : Text) → RowIsValid 0 id (entity_row id d)

abbrev pub indexed : Text → Dict EntityRow → ℕ
indexed id d = (entity_row id d).indexed_revision

module _ {Outside : Type 0} where
  -- A predicate that holds on both ways out.
  pub after_either :
      {A : Type 0} (P : Rows) (r : Result A × World Outside)
      → Holds (λ _. P) (λ _. P) r
      → P r.1.repo.source r.1.repo.entities
  after_either P (ok a, w) h = h
  after_either P (err e, w) h = h

module _ {Outside : Type 0} (c : Collaborators Outside) where
  process_event-Kept :
      (floor : Text → ℕ) (event : Event) (crash_at : Option Text) (hard : Bool) (w : World Outside)
      → (is_undelete (classify_change event).action ≡ true → (id : Text) → floor id ≡ 0)
      → ((id : Text) → RowIsValid (floor id) id (entity_row id w.repo.entities))
      → (id : Text)
      → RowIsValid
          (floor id)
          id
          (entity_row id (process_event c event crash_at hard w).1.repo.entities)
  unfolding process_event
  process_event-Kept floor event crash_at hard w unforced valid = after_either (Kept floor) _ (
      (process_classified-Kept c floor (cursor_of c event) event (context_of c event) crash_at
          (classify_change event) unforced hard (classify_change event).action).at
        w valid)

  -- No event, however it ends, breaks the rows: each stays under its own name, with an indexed
  -- revision that is at most the latest one seen.
  pub process_event-RowsAreValid :
      (event : Event) (crash_at : Option Text) (hard : Bool) (w : World Outside)
      → RowsAreValid w.repo.entities
      → RowsAreValid (process_event c event crash_at hard w).1.repo.entities
  process_event-RowsAreValid event crash_at hard w valid =
      process_event-Kept (λ _. 0) event crash_at hard w (λ e id. refl) valid

  -- The revision fence: an event that is not the undeletion of an entity lowers the indexed revision
  -- of no entity, whether it returns, stops, or throws.
  pub process_event_monotone :
      (event : Event) (crash_at : Option Text) (hard : Bool) (w : World Outside)
      → RowsAreValid w.repo.entities
      → (classify_change event).action ≢ entity_undelete
      → (id : Text)
      → indexed id w.repo.entities
        ≤ indexed id (process_event c event crash_at hard w).1.repo.entities
  process_event_monotone event crash_at hard w valid ne id =
      (process_event-Kept (λ j. indexed j w.repo.entities) event crash_at hard w
        (λ e. absurd (ne (undelete_of (classify_change event).action e)))
        (λ j. let v = valid j in record { above = le_refl _; keyed = v.keyed; seen = v.seen })
        id).above
    where
      undelete_of : (action : Action) → is_undelete action ≡ true → action ≡ entity_undelete
      undelete_of entity_undelete e = refl
      undelete_of _ e = cc
