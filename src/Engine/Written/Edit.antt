-- ===== src/Engine/Written/Edit.antt =====
-- The row of an entity that an edit has written.
use custom_wikibase.Prelude.{
  ℕ, ◌≡◌, refl, sym, ◌∙◌, Bool, true, false, not, ◌&&◌, Option, none, some, Text, Dict, Exec,
  Result, ok, err, pure, when, insert, text_eq_iff, Bool-cases, inl, inr,
}
use mathlib.Core.Path.{subst}
use custom_wikibase.RdfSync.Cursor.{Cursor}
use custom_wikibase.RdfSync.Classify.{Event}
use custom_wikibase.RdfSync.Fence.{Decision, duplicate, writes}
use custom_wikibase.RdfSync.Repository.{
  EntityRow, entity_row, regresses, commit_event, save_entity, save_if, restoring,
}
use custom_wikibase.Engine.World.{Collaborators, Context, World, on_repo}
use custom_wikibase.Engine.Triples.{
  Rows, Triple, Holds, Triple-bind, Triple-Quiet, Triple-pure, Triple-if, Triple-given,
  Triple-weaken,
}
use custom_wikibase.Engine.Quietness.{Quiet-crash, Triple-increment, Triple-reading}
use custom_wikibase.Engine.Edit.{
  Outcome, stop, applied, restored, commit_cursor, record_gap, skip_stale, commit_edit, apply_edit,
  edit, stale_outcome, indexed_row, is_gap,
}
use custom_wikibase.Engine.Revisions.Edit.{Kept, load_entity-Kept, entity_row-insert}
use custom_wikibase.Engine.Revisions.Events.{RowsAreValid}
use custom_wikibase.Engine.Written.{Anything, Evidence, RowIsWritten, anyhow, write_graphs-Evidence}

-- The outcomes that report a written revision.
abbrev pub IsWritten : Outcome → Type 0
IsWritten applied = Unit {0}
IsWritten restored = Unit {0}
IsWritten _ = ⊥

module _ {Outside : Type 0} (c : Collaborators Outside) where
  module _ (id : Text) (revid : ℕ) where
    Holding : Rows
    Holding s d = RowIsWritten c id revid (entity_row id d)

    Reported : Outcome → Rows
    Reported o s d = IsWritten o → RowIsWritten c id revid (entity_row id d)

    Holding-insert :
        (entity : EntityRow) (d : Dict EntityRow)
        → entity.entity_id ≡ id
        → RowIsWritten c id revid entity
        → RowIsWritten c id revid (entity_row id (insert entity.entity_id entity d))
    Holding-insert entity d keyed v =
        rw (entity_row-insert, (text_eq_iff entity.entity_id id).1 keyed) v

    save_entity-Holding :
        (entity : EntityRow)
        → entity.entity_id ≡ id
        → RowIsWritten c id revid entity
        → Triple {Outside = Outside} Anything
            (on_repo (save_entity entity))
            (λ _. Holding)
            (λ _. Anything)
    unfolding on_repo save_entity Holding
    save_entity-Holding entity keyed v = record {
      at = λ w p. Holding-insert entity w.repo.entities keyed v;
    }

    commit_cursor-Holding :
        (next : Cursor) (entity : EntityRow)
        → entity.entity_id ≡ id
        → RowIsWritten c id revid entity
        → Triple Anything (commit_cursor c next (some entity)) (λ _. Holding) (λ _. Anything)
    unfolding commit_cursor on_repo commit_event save_if Holding
    commit_cursor-Holding next entity keyed v =
        Triple-bind {R = λ _. Anything} _ _ (Triple-reading _) λ now. record {
          at = λ w p. elim (Bool-cases (regresses w.repo.source.cursor next)) [
            | inl e ↦ rw (e, commit_event) tt
            | inr e ↦ rw (e, commit_event) (Holding-insert entity w.repo.entities keyed v)
          ];
        }

    when-Holding :
        (moves : Bool) (next : Cursor) (entity : EntityRow)
        → entity.entity_id ≡ id
        → RowIsWritten c id revid entity
        → Triple Holding
            (when moves (commit_cursor c next (some entity)))
            (λ _. Holding)
            (λ _. Anything)
    unfolding when
    when-Holding true next entity keyed v =
        Triple-weaken _ (commit_cursor-Holding next entity keyed v) (λ s d h. tt) (λ a s d h. h)
          (λ e s d h. h)
    when-Holding false next entity keyed v = record { at = λ w p. p }

    commit_edit-Reported :
        (entity : EntityRow) (next : Cursor) (crash_at : Option Text) (moves force : Bool)
        → entity.entity_id ≡ id
        → RowIsWritten c id revid entity
        → Triple Anything (commit_edit c entity next crash_at moves force) Reported (λ _. Anything)
    unfolding commit_edit Reported Holding
    commit_edit-Reported entity next crash_at moves force keyed v =
        Triple-bind _ _ (anyhow c _ (Quiet-crash crash_at _)) λ _.
          Triple-bind _ _ (save_entity-Holding entity keyed v) λ _.
            Triple-bind _ _ (Triple-Quiet {P = Holding} _ (Quiet-crash crash_at _) (λ e s d h. tt))
              λ _.
                Triple-bind _ _ (when-Holding moves next entity keyed v)
                  λ _. Triple-bind _ _ (Triple-increment _) λ _. Triple-pure _ (λ s d h _. h)

    indexed_row-RowIsWritten :
        (row : EntityRow) (checksum at : Text)
        → Evidence c id revid checksum
        → RowIsWritten c id revid (indexed_row row revid checksum at)
    unfolding indexed_row
    indexed_row-RowIsWritten row checksum at e = record {
      indexed = refl;
      status = refl;
      no_error = refl;
      checksum = checksum;
      has_checksum = refl;
      evidence = e;
    }

    indexed_row-keyed :
        (row : EntityRow) (checksum at : Text)
        → (indexed_row row revid checksum at).entity_id ≡ row.entity_id
    unfolding indexed_row
    indexed_row-keyed row checksum at = refl

    apply_edit-Reported :
        (row : EntityRow) (next : Cursor) (crash_at : Option Text) (moves force : Bool)
        → row.entity_id ≡ id
        → Triple Anything
            (apply_edit c row id revid next crash_at moves force)
            Reported
            (λ _. Anything)
    unfolding apply_edit
    apply_edit-Reported row next crash_at moves force keyed =
        Triple-bind _ _ (restoring_row force) λ _.
          Triple-bind _ _ (write_graphs-Evidence c id revid crash_at) λ checksum.
            Triple-given _ λ e. Triple-bind _ _ (Triple-reading _) λ at.
              commit_edit-Reported _ next crash_at moves force
                (indexed_row-keyed row checksum at ∙ keyed)
                (indexed_row-RowIsWritten row checksum at e)
      where
        either : (r : Result (Unit {0}) × World Outside) → Holds (λ _. Anything) (λ _. Anything) r
        either (ok a, w) = tt
        either (err e, w) = tt

        restoring_row :
            (b : Bool)
            → Triple {Outside = Outside} Anything
                (when b
                  (on_repo (save_entity (record row { status = restoring; error_code = none }))))
                (λ _. Anything)
                (λ _. Anything)
        restoring_row b = record { at = λ w p. either _ }

    not_reported :
        {P : Rows} (o : Outcome)
        → ¬ IsWritten o
        → Triple {Outside = Outside} P (pure o) Reported (λ _. Anything)
    unfolding Reported
    not_reported o n = Triple-pure o (λ s d p h. absurd (n h))

  whatever :
      {A : Type 0} {P : Rows} (m : Exec (World Outside) A)
      → Triple P m (λ _. Anything) (λ _. Anything)
  whatever {A} m = record { at = λ w p. either _ }
    where
      either : (r : Result A × World Outside) → Holds (λ _. Anything) (λ _. Anything) r
      either (ok a, w) = tt
      either (err e, w) = tt

  stale_not-IsWritten : (d : Decision) → ¬ IsWritten (stale_outcome d)
  stale_not-IsWritten duplicate h = h
  stale_not-IsWritten _ h = h

  edit-Reported :
      (id : Text) (event : Event) (next : Cursor) (context : Context) (crash_at : Option Text)
      (moves force : Bool)
      → Triple
          (Kept (λ _. 0))
          (edit c id event next context crash_at moves force)
          (Reported id event.revid)
          (λ _. Anything)
  unfolding edit record_gap skip_stale
  edit-Reported id event next context crash_at moves force =
      Triple-bind _ _
        (Triple-weaken _ (load_entity-Kept c (λ _. 0) id) (λ s d h. h)
          (λ row s d h. (tt, (h.1).keyed)) (λ e s d h. tt))
        λ row. Triple-given _ λ keyed. Triple-bind _ _ (whatever _) λ _.
          Triple-bind _ _ (whatever _) λ decision.
            Triple-if (not force && is_gap decision)
              (Triple-bind _ _ (whatever _) λ _.
                Triple-bind _ _ (whatever _)
                  λ _. Triple-bind _ _ (whatever _) λ _. not_reported id event.revid stop (λ h. h))
              (Triple-if (not force && not (writes decision))
                (Triple-bind _ _ (whatever _) λ _. Triple-bind _ _ (whatever _) λ _.
                  not_reported id event.revid (stale_outcome decision)
                    (stale_not-IsWritten decision))
                (apply_edit-Reported id event.revid row next crash_at moves force keyed))

  -- An edit that reports a written revision has a current row for it, with no error, and behind the
  -- row stands evidence: the revision was fetched, the stored checksum is that of its partition, and
  -- the store answered that the entity's graph holds the revision.
  pub edit-RowIsWritten :
      (id : Text) (event : Event) (next : Cursor) (context : Context) (crash_at : Option Text)
      (moves force : Bool) (w : World Outside) (o : Outcome)
      → RowsAreValid w.repo.entities
      → (edit c id event next context crash_at moves force w).0 ≡ ok o
      → IsWritten o
      → RowIsWritten c id event.revid
          (entity_row id (edit c id event next context crash_at moves force w).1.repo.entities)
  edit-RowIsWritten id event next context crash_at moves force w o valid e written =
      extract _ e ((edit-Reported id event next context crash_at moves force).at w valid)
    where
      extract :
          (r : Result Outcome × World Outside)
          → r.0 ≡ ok o
          → Holds (Reported id event.revid) (λ _. Anything) r
          → RowIsWritten c id event.revid (entity_row id r.1.repo.entities)
      extract (ok p, w') e h =
          let q : p ≡ o = cc in unfold Reported in h (subst IsWritten (sym q) written)
      extract (err x, w') e h = cc
