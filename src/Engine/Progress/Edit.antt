-- ===== src/Engine/Progress/Edit.antt =====
-- How an edit moves the durable cursor: each helper of `#edit`, by the source row that it leaves.
use custom_wikibase.Prelude.{
  ℕ, ◌≡◌, refl, ap, Bool, true, false, Option, none, some, Text, Dict, Exec, pure, when, not, ◌&&◌,
  Bool-cases, inl, inr, arith,
}
use mathlib.Core.Path.{subst}
use custom_wikibase.RdfSync.Cursor.{Cursor, Precedes, Precedes-of_guard}
use custom_wikibase.RdfSync.Classify.{Event}
use custom_wikibase.RdfSync.Fence.{rebuild_required, Decision, duplicate, writes}
use custom_wikibase.RdfSync.Repository.{
  SourceRow, EntityRow, regresses, commit_event, save_entity, set_source_status, restoring,
}
use custom_wikibase.Engine.World.{Collaborators, Context, World, on_repo}
use custom_wikibase.Engine.Triples.{
  Rows, Triple, Quiet, Quiet-throw_if, Quiet-lift, Triple-bind, Triple-Quiet, Triple-pure,
  Triple-if,
}
use custom_wikibase.Engine.Quietness.{
  Quiet-reading, Quiet-increment, Quiet-crash, Quiet-write_graphs, Quiet-load_entity,
  Triple-increment, Triple-write_log, Triple-reading,
}
use custom_wikibase.Engine.Steps.{mark_rebuild}
use custom_wikibase.Engine.Edit.{
  Outcome, stop, commit_cursor, record_gap, skip_stale, commit_edit, apply_edit, edit,
  stale_outcome, is_gap,
}
use custom_wikibase.Engine.Events.{is_stop}

-- The cursor that an event leaves comes after the one that it found.
abbrev pub Advances : Option Cursor → Cursor → Type 0
Advances none next = Unit {0}
Advances (some old) next = Precedes old next

-- The source row after a call that may return `stop`, `moves` saying whether the others have
-- committed the cursor `next`.
abbrev pub Settles : Bool → Cursor → SourceRow → Outcome → SourceRow → Type 0
Settles moves next before stop after =
    (after.cursor ≡ before.cursor) × (after.status ≡ rebuild_required)
Settles true next before _ after =
    (after.cursor ≡ some next) × (after.status ≡ before.status) × Advances before.cursor next
Settles false next before _ after = after ≡ before

Advances-of_guard :
    (old : Option Cursor) (next : Cursor) → regresses old next ≡ false → Advances old next
unfolding regresses
Advances-of_guard none next h = tt
Advances-of_guard (some old) next h = Precedes-of_guard old next h

module _ (before : SourceRow) where
  abbrev pub Same : Rows
  Same s d = s ≡ before

  abbrev pub SameCursor : Rows
  SameCursor s d = (s.cursor ≡ before.cursor) × (s.status ≡ rebuild_required)

  abbrev pub Moved : Cursor → Rows
  Moved next s d = (s.cursor ≡ some next) × (s.status ≡ before.status) × Advances before.cursor next

  -- The cursor is committed if `moves`, and otherwise the source row stays.
  abbrev pub AfterCommit : Bool → Cursor → Rows
  AfterCommit true next = Moved next
  AfterCommit false next = Same

  abbrev pub Settled : Bool → Cursor → Outcome → Rows
  Settled moves next o s d = Settles moves next before o s

  -- Every outcome but `stop` has this post-condition.
  Settles-of_AfterCommit :
      (moves : Bool) (next : Cursor) (o : Outcome) (s : SourceRow) (d : Dict EntityRow)
      → is_stop o ≡ false
      → AfterCommit moves next s d
      → Settles moves next before o s
  Settles-of_AfterCommit moves next stop s d e h = cc
  Settles-of_AfterCommit true next _ s d e h = h
  Settles-of_AfterCommit false next _ s d e h = h

module _ {Outside : Type 0} (c : Collaborators Outside) (before : SourceRow) where
  commit_event-Moved :
      (now : Text) (next : Cursor) (entity : Option EntityRow)
      → Triple {Outside = Outside}
          (Same before)
          (on_repo (commit_event now next entity))
          (λ _. Moved before next)
          (λ _. Same before)
  unfolding on_repo commit_event
  commit_event-Moved now next entity = record {
    at = λ w p. elim (Bool-cases (regresses w.repo.source.cursor next)) [
      | inl e ↦ rw (e, commit_event) p
      | inr e ↦
          rw (e, commit_event)
            (
              refl,
              ap (λ s. s.status) p,
              subst (λ s. Advances s.cursor next) p (Advances-of_guard _ next e),
            )
    ];
  }

  pub save_entity-Same :
      (row : EntityRow)
      → Triple {Outside = Outside}
          (Same before)
          (on_repo (save_entity row))
          (λ _. Same before)
          (λ _. Same before)
  unfolding on_repo save_entity
  save_entity-Same row = record { at = λ w p. p }

  pub quietly :
      {A : Type 0} (m : Exec (World Outside) A)
      → Quiet m
      → Triple (Same before) m (λ _. Same before) (λ _. Same before)
  quietly m q = Triple-Quiet m q (λ e s d p. p)

  pub mark_rebuild-SameCursor :
      {E : Text → Rows} (code : Text) (context : Context)
      → Triple {Outside = Outside}
          (Same before)
          (mark_rebuild code context)
          (λ _. SameCursor before)
          E
  unfolding mark_rebuild on_repo set_source_status
  mark_rebuild-SameCursor code context =
      Triple-bind {R = λ _. SameCursor before} _ _
        (record { at = λ w p. (ap (λ s. s.cursor) p, refl) }) λ _. Triple-write_log _

  pub commit_cursor-Moved :
      (next : Cursor) (entity : Option EntityRow)
      → Triple
          (Same before)
          (commit_cursor c next entity)
          (λ _. Moved before next)
          (λ _. Same before)
  unfolding commit_cursor
  commit_cursor-Moved next entity =
      Triple-bind _ _ (quietly _ (Quiet-reading _)) λ now. commit_event-Moved now next entity

  when-commit_cursor :
      (moves : Bool) (next : Cursor) (entity : Option EntityRow)
      → Triple
          (Same before)
          (when moves (commit_cursor c next entity))
          (λ _. AfterCommit before moves next)
          (λ _. Same before)
  unfolding when
  when-commit_cursor true next entity = commit_cursor-Moved next entity
  when-commit_cursor false next entity = record { at = λ w p. p }

  module _ (moves : Bool) (next : Cursor) where
    pub return_settled :
        (o : Outcome)
        → is_stop o ≡ false
        → Triple {Outside = Outside}
            (AfterCommit before moves next)
            (pure o)
            (Settled before moves next)
            (λ _. Same before)
    return_settled o e = Triple-pure o (λ s d p. Settles-of_AfterCommit before moves next o s d e p)

    record_gap-Settled :
        (row : EntityRow) (event : Event) (context : Context)
        → Triple {Outside = Outside}
            (Same before)
            (record_gap c row event context)
            (Settled before moves next)
            (λ _. Same before)
    unfolding record_gap
    record_gap-Settled row event context = Triple-bind _ _ (quietly _ (Quiet-increment _)) λ _.
        Triple-bind _ _ (save_entity-Same _) λ _.
          Triple-bind _ _ (mark_rebuild-SameCursor _ context) λ _. Triple-pure stop (λ s d p. p)

    skip_stale-Settled :
        (decision : Decision)
        → Triple
            (Same before)
            (skip_stale c decision next moves)
            (Settled before moves next)
            (λ _. Same before)
    unfolding skip_stale
    skip_stale-Settled decision = Triple-bind _ _ (quietly _ (Quiet-increment _)) λ _.
        Triple-bind _ _ (when-commit_cursor moves next none)
          λ _. return_settled (stale_outcome decision) (stale_not_stop decision)
      where
        stale_not_stop : (d : Decision) → is_stop (stale_outcome d) ≡ false
        stale_not_stop duplicate = refl
        stale_not_stop _ = refl

    commit_edit-Settled :
        (entity : EntityRow) (crash_at : Option Text) (force : Bool)
        → Triple
            (Same before)
            (commit_edit c entity next crash_at moves force)
            (Settled before moves next)
            (λ _. Same before)
    unfolding commit_edit
    commit_edit-Settled entity crash_at force =
        Triple-bind _ _ (quietly _ (Quiet-crash crash_at _)) λ _.
          Triple-bind _ _ (save_entity-Same entity) λ _.
            Triple-bind _ _ (quietly _ (Quiet-crash crash_at _)) λ _.
              Triple-bind _ _ (when-commit_cursor moves next (some entity))
                λ _. Triple-bind _ _ (Triple-increment _) λ _. return_settled _ (ground arith)

    apply_edit-Settled :
        (row : EntityRow) (id : Text) (revid : ℕ) (crash_at : Option Text) (force : Bool)
        → Triple
            (Same before)
            (apply_edit c row id revid next crash_at moves force)
            (Settled before moves next)
            (λ _. Same before)
    unfolding apply_edit
    apply_edit-Settled row id revid crash_at force = Triple-bind _ _ (restore force) λ _.
        Triple-bind _ _ (quietly _ (Quiet-write_graphs c id revid crash_at))
          λ checksum. Triple-bind _ _ (Triple-reading _) λ at. commit_edit-Settled _ crash_at force
      where
        restore :
            (b : Bool)
            → Triple {Outside = Outside}
                (Same before)
                (when b
                  (on_repo (save_entity (record row { status = restoring; error_code = none }))))
                (λ _. Same before)
                (λ _. Same before)
        restore true = unfold when in save_entity-Same _
        restore false = unfold when in record { at = λ w p. p }

    pub edit-Settled :
        (id : Text) (event : Event) (context : Context) (crash_at : Option Text) (force : Bool)
        → Triple
            (Same before)
            (edit c id event next context crash_at moves force)
            (Settled before moves next)
            (λ _. Same before)
    unfolding edit
    edit-Settled id event context crash_at force =
        Triple-bind _ _ (quietly _ (Quiet-load_entity id)) λ row.
          Triple-bind _ _ (quietly _ (Quiet-throw_if _ _)) λ _.
            Triple-bind _ _ (quietly _ (Quiet-lift _)) λ decision.
              Triple-if (not force && is_gap decision) (record_gap-Settled row event context) (
                Triple-if (not force && not (writes decision)) (skip_stale-Settled decision)
                  (apply_edit-Settled row id event.revid crash_at force))
