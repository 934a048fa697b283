-- ===== src/Engine/Revisions/Edit.antt =====
-- How an edit changes the rows of the entities: the revision fence, through each helper of `#edit`.
use custom_wikibase.Prelude.{
  ℕ, ◌≡◌, ◌≤◌, ◌<◌, refl, sym, ◌∙◌, Bool, true, false, Option, none, some, Text, Dict, ok, Exec,
  when, not, ◌&&◌, ◌||◌, if◌then◌else◌, arith, insert, lookup-insert, text_eq, text_eq_iff,
  Bool-cases, inl, inr,
}
use mathlib.Core.Path.{subst}
use custom_wikibase.RdfSync.Cursor.{Cursor}
use custom_wikibase.RdfSync.Classify.{Event}
use custom_wikibase.RdfSync.Fence.{Decision, apply, writes}
use custom_wikibase.RdfSync.Repository.{
  EntityRow, entity_row, regresses, commit_event, save_entity, save_if, load_entity,
  set_source_status, restoring,
}
use custom_wikibase.Engine.World.{Collaborators, Context, World, on_repo}
use custom_wikibase.Engine.Triples.{
  Rows, Triple, Quiet, Quiet-throw_if, Triple-bind, Triple-Quiet, Triple-pure, Triple-test,
  Triple-given, Triple-bind-lift,
}
use custom_wikibase.Engine.Quietness.{
  Quiet-crash, Quiet-write_graphs, Triple-increment, Triple-write_log, Triple-reading,
}
use custom_wikibase.Engine.Steps.{mark_rebuild}
use custom_wikibase.Engine.Edit.{
  stop, is_gap, fence_decision, commit_cursor, record_gap, skip_stale, commit_edit, apply_edit,
  edit, stale_outcome, indexed_row,
}

-- The row of an entity: stored under its own name, indexed no further than what was seen, and not
-- below a given revision.
pub record RowIsValid (floor : ℕ) (id : Text) (row : EntityRow) : Type 0 where
  pub above : floor ≤ row.indexed_revision
  pub keyed : row.entity_id ≡ id
  pub seen : row.indexed_revision ≤ row.latest_seen_revision

-- A decision that is no refusal comes with a revision after the indexed one.
pub fence_decision-lt :
    (id : Text) (indexed revid old : ℕ) (d : Decision)
    → fence_decision id indexed revid old ≡ ok d
    → (is_gap d || writes d) ≡ true
    → indexed < revid
unfolding fence_decision
fence_decision-lt id indexed revid old d h k = ground arith

pub entity_row-insert :
    (k j : Text) (row : EntityRow) (d : Dict EntityRow)
    → entity_row j (insert k row d) ≡ (if text_eq k j then row else entity_row j d)
unfolding entity_row
entity_row-insert k j row d = ground (arith, lookup-insert k j row d)

module _ (floor : Text → ℕ) where
  abbrev pub Kept : Rows
  Kept s d = (id : Text) → RowIsValid (floor id) id (entity_row id d)

  Kept-insert :
      (id : Text) (row : EntityRow) (d : Dict EntityRow)
      → RowIsValid (floor id) id row
      → ((j : Text) → RowIsValid (floor j) j (entity_row j d))
      → (j : Text) → RowIsValid (floor j) j (entity_row j (insert row.entity_id row d))
  Kept-insert id row d v kept j = elim (Bool-cases (text_eq row.entity_id j)) [
    | inl e ↦
        rw (entity_row-insert, e)
          (subst (λ k. RowIsValid (floor k) k row) (sym v.keyed ∙ (text_eq_iff row.entity_id j).0 e)
            v)
    | inr e ↦ rw (entity_row-insert, e) (kept j)
  ]

  -- What `commitEvent` may store: nothing, or a valid row.
  abbrev pub SavedIsValid : Option EntityRow → Type 0
  SavedIsValid none = Unit {0}
  SavedIsValid (some row) = RowIsValid (floor row.entity_id) row.entity_id row

  pub SavedIsValid-of :
      {id : Text} {row : EntityRow} → RowIsValid (floor id) id row → SavedIsValid (some row)
  SavedIsValid-of {id} {row} v = subst (λ k. RowIsValid (floor k) k row) (sym v.keyed) v

module _ {Outside : Type 0} (c : Collaborators Outside) (floor : Text → ℕ) where
  pub kept_quietly :
      {A : Type 0} (m : Exec (World Outside) A)
      → Quiet m
      → Triple (Kept floor) m (λ _. Kept floor) (λ _. Kept floor)
  kept_quietly m q = Triple-Quiet m q (λ e s d p. p)

  -- A loaded row is valid.
  pub load_entity-Kept :
      (id : Text)
      → Triple {Outside = Outside}
          (Kept floor)
          (on_repo (load_entity id))
          (λ row s d. Kept floor s d × RowIsValid (floor id) id row)
          (λ _. Kept floor)
  unfolding on_repo load_entity
  load_entity-Kept id = record { at = λ w p. (p, p id) }

  -- A valid row may be stored.
  pub save_entity-Kept :
      (id : Text) (row : EntityRow)
      → RowIsValid (floor id) id row
      → Triple {Outside = Outside}
          (Kept floor)
          (on_repo (save_entity row))
          (λ _. Kept floor)
          (λ _. Kept floor)
  unfolding on_repo save_entity
  save_entity-Kept id row v = record { at = λ w p. Kept-insert floor id row w.repo.entities v p }

  pub mark_rebuild-Kept :
      {E : Text → Rows} (code : Text) (context : Context)
      → Triple {Outside = Outside} (Kept floor) (mark_rebuild code context) (λ _. Kept floor) E
  unfolding mark_rebuild on_repo set_source_status
  mark_rebuild-Kept code context =
      Triple-bind {R = λ _. Kept floor} _ _ (record { at = λ w p. p }) λ _. Triple-write_log _

  save_if-Kept :
      (entity : Option EntityRow) (d : Dict EntityRow)
      → SavedIsValid floor entity
      → ((j : Text) → RowIsValid (floor j) j (entity_row j d))
      → (j : Text) → RowIsValid (floor j) j (entity_row j (save_if entity d))
  unfolding save_if
  save_if-Kept none d v p = p
  save_if-Kept (some row) d v p = Kept-insert floor row.entity_id row d v p

  pub commit_cursor-Kept :
      (next : Cursor) (entity : Option EntityRow)
      → SavedIsValid floor entity
      → Triple (Kept floor) (commit_cursor c next entity) (λ _. Kept floor) (λ _. Kept floor)
  unfolding commit_cursor on_repo commit_event
  commit_cursor-Kept next entity v = Triple-bind {R = λ _. Kept floor} _ _ (Triple-reading _) λ now.
      record {
        at = λ w p. elim (Bool-cases (regresses w.repo.source.cursor next)) [
          | inl e ↦ rw (e, commit_event) p
          | inr e ↦ rw (e, commit_event) (save_if-Kept entity w.repo.entities v p)
        ];
      }

  module _ (next : Cursor) where
    record_gap-Kept :
        (id : Text) (row : EntityRow) (event : Event) (context : Context)
        → RowIsValid (floor id) id row
        → row.indexed_revision < event.revid
        → Triple {Outside = Outside}
            (Kept floor)
            (record_gap c row event context)
            (λ _. Kept floor)
            (λ _. Kept floor)
    unfolding record_gap
    record_gap-Kept id row event context v newer = Triple-bind _ _ (Triple-increment _) λ _.
        Triple-bind _ _
          (save_entity-Kept id _ (record { above = v.above; keyed = v.keyed; seen = omega arith }))
          λ _. Triple-bind _ _ (mark_rebuild-Kept _ context) λ _. Triple-pure stop (λ s d p. p)

    when-commit_cursor-Kept :
        (moves : Bool) (entity : Option EntityRow)
        → SavedIsValid floor entity
        → Triple
            (Kept floor)
            (when moves (commit_cursor c next entity))
            (λ _. Kept floor)
            (λ _. Kept floor)
    unfolding when
    when-commit_cursor-Kept true entity v = commit_cursor-Kept next entity v
    when-commit_cursor-Kept false entity v = record { at = λ w p. p }

    skip_stale-Kept :
        (decision : Decision) (moves : Bool)
        → Triple (Kept floor) (skip_stale c decision next moves) (λ _. Kept floor) (λ _. Kept floor)
    unfolding skip_stale
    skip_stale-Kept decision moves = Triple-bind _ _ (Triple-increment _) λ _.
        Triple-bind _ _ (when-commit_cursor-Kept moves none tt)
          λ _. Triple-pure (stale_outcome decision) (λ s d p. p)

    commit_edit-Kept :
        (id : Text) (entity : EntityRow) (crash_at : Option Text) (moves force : Bool)
        → RowIsValid (floor id) id entity
        → Triple
            (Kept floor)
            (commit_edit c entity next crash_at moves force)
            (λ _. Kept floor)
            (λ _. Kept floor)
    unfolding commit_edit
    commit_edit-Kept id entity crash_at moves force v =
        Triple-bind _ _ (kept_quietly _ (Quiet-crash crash_at _)) λ _.
          Triple-bind _ _ (save_entity-Kept id entity v) λ _.
            Triple-bind _ _ (kept_quietly _ (Quiet-crash crash_at _)) λ _.
              Triple-bind _ _
                (when-commit_cursor-Kept moves (some entity) (SavedIsValid-of floor v))
                λ _. Triple-bind _ _ (Triple-increment _) λ _. Triple-pure _ (λ s d p. p)

    restore_row-Kept :
        (id : Text) (row : EntityRow) (force : Bool)
        → RowIsValid (floor id) id row
        → Triple {Outside = Outside}
            (Kept floor)
            (when force
              (on_repo (save_entity (record row { status = restoring; error_code = none }))))
            (λ _. Kept floor)
            (λ _. Kept floor)
    unfolding when
    restore_row-Kept id row true v =
        save_entity-Kept id _ (record { above = v.above; keyed = v.keyed; seen = v.seen })
    restore_row-Kept id row false v = record { at = λ w p. p }

    indexed_row-IsValid :
        (id : Text) (row : EntityRow) (revid : ℕ) (checksum at : Text)
        → RowIsValid (floor id) id row
        → floor id ≤ revid
        → RowIsValid (floor id) id (indexed_row row revid checksum at)
    unfolding indexed_row
    indexed_row-IsValid id row revid checksum at v h = record {
      above = h;
      keyed = v.keyed;
      seen = omega arith;
    }

    apply_edit-Kept :
        (row : EntityRow) (id : Text) (revid : ℕ) (crash_at : Option Text) (moves force : Bool)
        → RowIsValid (floor id) id row
        → floor id ≤ revid
        → Triple
            (Kept floor)
            (apply_edit c row id revid next crash_at moves force)
            (λ _. Kept floor)
            (λ _. Kept floor)
    unfolding apply_edit
    apply_edit-Kept row id revid crash_at moves force v h =
        Triple-bind _ _ (restore_row-Kept id row force v) λ _.
          Triple-bind _ _ (kept_quietly _ (Quiet-write_graphs c id revid crash_at)) λ checksum.
            Triple-bind _ _ (Triple-reading _) λ at.
              commit_edit-Kept id _ crash_at moves force
                (indexed_row-IsValid id row revid checksum at v h)

    floor-le-revid :
        {n indexed revid : ℕ} (force : Bool) (decision : Decision)
        → (not force && not (writes decision)) ≡ false
        → (force ≡ true → n ≡ 0)
        → ((is_gap decision || writes decision) ≡ true → indexed < revid)
        → n ≤ indexed
        → n ≤ revid
    floor-le-revid true decision writing unforced fence above = omega (arith, unforced refl)
    floor-le-revid false apply writing unforced fence above = omega (arith, fence refl)
    floor-le-revid false _ writing unforced fence above = cc

    -- `force` writes whatever the fence says, so then the floor must be 0.
    pub edit-Kept :
        (id : Text) (event : Event) (context : Context) (crash_at : Option Text)
        (moves force : Bool)
        → (force ≡ true → floor id ≡ 0)
        → Triple
            (Kept floor)
            (edit c id event next context crash_at moves force)
            (λ _. Kept floor)
            (λ _. Kept floor)
    unfolding edit
    edit-Kept id event context crash_at moves force unforced =
        Triple-bind _ _ (load_entity-Kept id) λ row. Triple-given _ λ v.
          Triple-bind _ _ (kept_quietly _ (Quiet-throw_if _ _)) λ _.
            Triple-bind-lift _ _
              (λ decision known.
                let fence =
                  fence_decision-lt id row.indexed_revision event.revid event.old_revid decision
                    known in
                Triple-test (not force && is_gap decision)
                  (λ gapped. record_gap-Kept id row event context v (fence (ground arith)))
                  (λ _.
                    Triple-test (not force && not (writes decision))
                      (λ _. skip_stale-Kept decision moves)
                      (λ writing.
                        apply_edit-Kept row id event.revid crash_at moves force v
                          (floor-le-revid force decision writing unforced fence v.above))))
              (λ e s d p. p)
