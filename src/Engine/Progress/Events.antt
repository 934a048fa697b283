-- ===== src/Engine/Progress/Events.antt =====
-- How an event moves the durable cursor: `#delete`, `#lifecycle` and `processEvent`.
use custom_wikibase.Prelude.{
  ◌≡◌, ◌≢◌, refl, Bool, true, false, Option, none, some, List, [], ◌∷◌, Text, pure, try_catch, ◌&&◌,
  starts_with, Result, ok, err,
}
use custom_wikibase.RdfSync.Cursor.{Cursor}
use custom_wikibase.RdfSync.Classify.{
  Event, Action, entity_delete, entity_undelete, entity_redirect, entity_redirect_removed,
  entity_merge, non_entity_change, unknown, Classified, classify_change,
}
use custom_wikibase.RdfSync.Repository.{SourceRow}
use custom_wikibase.Engine.World.{Collaborators, Context, Resolved, World}
use custom_wikibase.Engine.Triples.{
  Rows, Triple, Holds, Quiet-throw_if, Quiet-lift, Triple-bind, Triple-pure, Triple-if, Triple-test,
  Triple-try,
}
use custom_wikibase.Engine.Quietness.{
  Quiet-on_outside, Quiet-crash, Quiet-drop_graphs, Quiet-load_entity, Triple-increment,
  Triple-write_log, Triple-reading,
}
use custom_wikibase.Engine.Steps.{injected_prefix}
use custom_wikibase.Engine.Edit.{Outcome, skip, stop, removed, lifecycle_applied}
use custom_wikibase.Engine.Events.{
  is_stop, delete_entity, drop_resolved, edit_resolved, apply_resolved, apply_all, lifecycle,
  is_undelete, dispatch, handle_failure, stop_ambiguous, process_entity, process_classified,
  cursor_of, context_of, process_event,
}
use custom_wikibase.Engine.Progress.Edit.{
  Settles, Same, Settled, quietly, save_entity-Same, mark_rebuild-SameCursor, commit_cursor-Moved,
  return_settled, edit-Settled,
}

module _ (before : SourceRow) where
  -- What the `catch` throws again: an injected crash, where the caller asks for that.
  abbrev Rethrown : Bool → Text → Rows
  Rethrown hard e s d = Same before s d × ((hard && starts_with injected_prefix e) ≡ true)

  -- The commit for a change that is no entity's stands outside the `try`.
  abbrev Escapes : Bool → Action → Text → Rows
  Escapes hard non_entity_change e s d = Same before s d
  Escapes hard _ e s d = Rethrown hard e s d

module _ {Outside : Type 0} (c : Collaborators Outside) (before : SourceRow) (next : Cursor) where
  delete_entity-Settled :
      (id : Text) (crash_at : Option Text)
      → Triple
          (Same before)
          (delete_entity c id next crash_at)
          (Settled before true next)
          (λ _. Same before)
  unfolding delete_entity
  delete_entity-Settled id crash_at =
      Triple-bind _ _ (quietly c before _ (Quiet-load_entity id)) λ row.
        Triple-bind _ _ (quietly c before _ (Quiet-lift _)) λ iri.
          Triple-bind _ _ (quietly c before _ (Quiet-drop_graphs c _)) λ _.
            Triple-bind _ _ (quietly c before _ (Quiet-crash crash_at _)) λ _.
              Triple-bind _ _ (Triple-reading _) λ at.
                Triple-bind _ _ (commit_cursor-Moved c before next _) λ _.
                  Triple-bind _ _ (Triple-increment _)
                    λ _. return_settled c before true next removed refl

  module _ (event : Event) (context : Context) (crash_at : Option Text) where
    drop_resolved-Settled :
        (id : Text)
        → Triple
            (Same before)
            (drop_resolved c event next context crash_at id)
            (Settled before false next)
            (λ _. Same before)
    unfolding drop_resolved
    drop_resolved-Settled id = Triple-bind _ _ (quietly c before _ (Quiet-lift _)) λ iri.
        Triple-bind _ _ (quietly c before _ (Quiet-on_outside _)) λ _.
          Triple-bind _ _ (quietly c before _ (Quiet-load_entity id)) λ row.
            Triple-bind _ _ (save_entity-Same c before _)
              λ _. return_settled c before false next removed refl

    edit_resolved-Settled :
        (force : Bool) (entity : Resolved)
        → Triple
            (Same before)
            (edit_resolved c event next context crash_at force entity)
            (Settled before false next)
            (λ _. Same before)
    unfolding edit_resolved
    edit_resolved-Settled force entity =
        Triple-bind _ _ (quietly c before _ (Quiet-load_entity entity.id))
          λ row. edit-Settled c before false next entity.id _ context crash_at force

    apply_resolved-Settled :
        (force : Bool) (entity : Resolved)
        → Triple
            (Same before)
            (apply_resolved c event next context crash_at force entity)
            (Settled before false next)
            (λ _. Same before)
    unfolding apply_resolved
    apply_resolved-Settled force entity =
        Triple-if entity.deleted (drop_resolved-Settled entity.id)
          (edit_resolved-Settled force entity)

    apply_all-Settled :
        (force : Bool) (entities : List Resolved)
        → Triple
            (Same before)
            (apply_all c event next context crash_at force entities)
            (Settled before true next)
            (λ _. Same before)
    unfolding apply_all
    apply_all-Settled force [] =
        Triple-bind _ _ (commit_cursor-Moved c before next none)
          λ _. return_settled c before true next lifecycle_applied refl
    apply_all-Settled force (entity ∷ entities) =
        Triple-bind _ _ (apply_resolved-Settled force entity)
          (go_on (apply_all-Settled force entities))
      where
        go_on :
            Triple
              (Same before)
              (apply_all c event next context crash_at force entities)
              (Settled before true next)
              (λ _. Same before)
            → (o : Outcome)
            → Triple
                (Settled before false next o)
                (elim (is_stop o) [
                  | true ↦ pure stop
                  | false ↦ apply_all c event next context crash_at force entities
                ])
                (Settled before true next)
                (λ _. Same before)
        go_on rest stop = Triple-pure stop (λ s d p. p)
        go_on rest _ = rest

    lifecycle-Settled :
        (classified : Classified)
        → Triple
            (Same before)
            (lifecycle c event next context crash_at classified)
            (Settled before true next)
            (λ _. Same before)
    unfolding lifecycle
    lifecycle-Settled classified =
        Triple-bind _ _ (quietly c before _ (Quiet-on_outside _)) λ resolved.
          Triple-bind _ _ (quietly c before _ (Quiet-throw_if _ _))
            λ _. apply_all-Settled (is_undelete classified.action) resolved.entities

    dispatch-Settled :
        (action : Action) (classified : Classified) (id : Text)
        → Triple
            (Same before)
            (dispatch c event next context crash_at action classified id)
            (Settled before true next)
            (λ _. Same before)
    unfolding dispatch
    dispatch-Settled entity_delete classified id = delete_entity-Settled id crash_at
    dispatch-Settled entity_undelete classified id = lifecycle-Settled classified
    dispatch-Settled entity_redirect classified id = lifecycle-Settled classified
    dispatch-Settled entity_redirect_removed classified id = lifecycle-Settled classified
    dispatch-Settled entity_merge classified id = lifecycle-Settled classified
    dispatch-Settled _ classified id =
        edit-Settled c before true next id event context crash_at false

    handle_failure-Settled :
        (hard : Bool) (e : Text)
        → Triple
            (Same before)
            (handle_failure c event next context crash_at hard e)
            (Settled before true next)
            (Rethrown before hard)
    unfolding handle_failure
    handle_failure-Settled hard e =
        Triple-test (hard && starts_with injected_prefix e)
          (λ injected. record { at = λ w p. (p, injected) })
          λ _. Triple-bind _ _ (Triple-increment _) λ _. Triple-bind _ _ (Triple-write_log _) λ _.
            Triple-bind _ _ (mark_rebuild-SameCursor c before _ context)
              λ _. Triple-pure stop (λ s d p. p)

    stop_ambiguous-Settled :
        {E : Text → Rows}
        → Triple
            (Same before)
            (stop_ambiguous c event next context crash_at)
            (Settled before true next)
            E
    unfolding stop_ambiguous
    stop_ambiguous-Settled =
        Triple-bind _ _ (mark_rebuild-SameCursor c before _ context)
          λ _. Triple-pure stop (λ s d p. p)

    try-Settled :
        (hard : Bool) (action : Action) (classified : Classified) (id : Text)
        → Triple
            (Same before)
            (try_catch
              (dispatch c event next context crash_at action classified id)
              (handle_failure c event next context crash_at hard))
            (Settled before true next)
            (Rethrown before hard)
    try-Settled hard action classified id =
        Triple-try _ _ (dispatch-Settled action classified id) (handle_failure-Settled hard)

    with_id-Settled :
        (hard : Bool) (action : Action) (classified : Classified) (id : Option Text)
        → Triple
            (Same before)
            (elim id [
              | none ↦ stop_ambiguous c event next context crash_at
              | some [] ↦ stop_ambiguous c event next context crash_at
              | some (k ∷ id) ↦
                  try_catch
                    (dispatch c event next context crash_at action classified (k ∷ id))
                    (handle_failure c event next context crash_at hard)
            ])
            (Settled before true next)
            (Rethrown before hard)
    with_id-Settled hard action classified none = stop_ambiguous-Settled
    with_id-Settled hard action classified (some []) = stop_ambiguous-Settled
    with_id-Settled hard action classified (some (k ∷ id)) =
        try-Settled hard action classified (k ∷ id)

    process_entity-Settled :
        (hard : Bool) (action : Action) (classified : Classified)
        → Triple
            (Same before)
            (process_entity c event next context crash_at hard action classified)
            (Settled before true next)
            (Rethrown before hard)
    unfolding process_entity
    process_entity-Settled hard unknown classified = stop_ambiguous-Settled
    process_entity-Settled hard _ classified =
        with_id-Settled hard _ classified classified.entity_id

    process_classified-Settled :
        (hard : Bool) (action : Action) (classified : Classified)
        → Triple
            (Same before)
            (process_classified c event next context crash_at hard action classified)
            (Settled before true next)
            (Escapes before hard action)
    unfolding process_classified
    process_classified-Settled hard non_entity_change classified =
        Triple-bind _ _ (commit_cursor-Moved c before next none)
          λ _. return_settled c before true next skip refl
    process_classified-Settled hard _ classified = process_entity-Settled hard _ classified

module _ {Outside : Type 0} (c : Collaborators Outside) where
  process_event-Escapes :
      (event : Event) (crash_at : Option Text) (hard : Bool) (w : World Outside)
      → Holds
          (Settled w.repo.source true (cursor_of c event))
          (Escapes w.repo.source hard (classify_change event).action)
          (process_event c event crash_at hard w)
  unfolding process_event
  process_event-Escapes event crash_at hard w =
      (process_classified-Settled c w.repo.source (cursor_of c event) event (context_of c event)
          crash_at hard (classify_change event).action (classify_change event)).at
        w refl

  -- However an event ends, the durable cursor moves exactly if the event is done with: an outcome
  -- other than `stop` leaves the event's cursor, which comes after the old one, and the status as it
  -- was; `stop` leaves the old cursor and asks for a rebuild; a throw leaves the source row.
  pub process_event-Settles :
      (event : Event) (crash_at : Option Text) (hard : Bool) (w : World Outside)
      → Holds
          (λ o s d. Settles true (cursor_of c event) w.repo.source o s)
          (λ e s d. s ≡ w.repo.source)
          (process_event c event crash_at hard w)
  process_event-Settles event crash_at hard w =
      forget (classify_change event).action _ (process_event-Escapes event crash_at hard w)
    where
      forget :
          (action : Action) (r : Result Outcome × World Outside)
          → Holds
              (Settled w.repo.source true (cursor_of c event))
              (Escapes w.repo.source hard action)
              r
          → Holds
              (λ o s d. Settles true (cursor_of c event) w.repo.source o s)
              (λ e s d. s ≡ w.repo.source)
              r
      forget action (ok o, w') h = h
      forget non_entity_change (err e, w') h = h
      forget _ (err e, w') h = h.0

  -- Without hard crashes no error of a collaborator escapes from the processing of an entity's
  -- event: it returns an outcome, whatever the fetch, the store or the resolver throws.
  pub process_event_returns :
      (event : Event) (crash_at : Option Text) (w : World Outside)
      → (classify_change event).action ≢ non_entity_change
      → (o : Outcome) × ((process_event c event crash_at false w).0 ≡ ok o)
  process_event_returns event crash_at w ne =
      returned (classify_change event).action _ ne (process_event-Escapes event crash_at false w)
    where
      returned :
          (action : Action) (r : Result Outcome × World Outside)
          → action ≢ non_entity_change
          → Holds
              (Settled w.repo.source true (cursor_of c event))
              (Escapes w.repo.source false action)
              r
          → (o : Outcome) × (r.0 ≡ ok o)
      returned action (ok o, w') ne h = (o, refl)
      returned non_entity_change (err e, w') ne h = absurd (ne refl)
      returned _ (err e, w') ne h = cc h.1
