-- ===== src/Coordinator/Statements.antt =====
-- The statements of SQL of
-- services/rdf-sync/src/postgres-generation-coordinator-repository.js and the
-- caller that makes them: the test of the lease, and rows that are found, updated or joined.
use custom_wikibase.Prelude.{
  ℕ, Bool, false, ◌&&◌, ◌||◌, Option, none, some, List, [], ◌∷◌, Text, ◌==◌, ltb, text_eq, ok, err,
  Exec, if◌then◌else◌,
}
use custom_wikibase.Serving.Tables.{PointerRow, select_where, update_where, the_row, option_eq}
use custom_wikibase.Coordinator.{LifecycleRow, OperationRow, PhaseRow, RetirementJournal, Tables}

-- The fields of the repository.
pub record Owner : Type 0 where
  pub owner_id : Text
  pub owner_pod_uid : Option Text
  pub lease_ms : ℕ

-- One call of the repository: who makes it, the database's clock in milliseconds, and the
-- identifiers that it draws by `randomUUID()`.
pub record Caller : Type 0 where
  pub owner : Owner
  pub now : ℕ
  pub random_uuid : ℕ → Text

-- `lease_expires_at>now()`, which holds of no absent time.
unfoldable pub is_live : ℕ → Option ℕ → Bool
is_live now none = false
is_live now (some t) = ltb now t

-- `id=$1 AND claimed_by=$2 AND fence=$3 AND lease_expires_at>now()`.
unfoldable pub is_held_row : Caller → Text → ℕ → OperationRow → Bool
is_held_row c id fence o =
    text_eq o.id id
    && option_eq o.claimed_by (some c.owner.owner_id)
    && o.fence == fence
    && is_live c.now o.lease_expires_at

module _ {A : Type 0} where
  -- Whether a `SELECT` has a row.
  unfoldable pub has_row : (A → Bool) → List A → Bool
  has_row test [] = false
  has_row test (a ∷ l) = test a || has_row test l

  -- `ORDER BY … LIMIT 1` on a table that stands in that order.
  unfoldable pub first_where : (A → Bool) → List A → Option A
  first_where test [] = none
  first_where test (a ∷ l) = if test a then some a else first_where test l

-- What the joins with the operation ask.
abbrev pub is_held : Caller → Text → ℕ → Tables → Bool
is_held c id fence db = has_row (is_held_row c id fence) db.operations

-- `UPDATE … WHERE … RETURNING *`, and the error of another number of rows than one.
module _ {A : Type 0} where
  unfoldable pub updated_one : (A → Bool) → (A → A) → Text → List A → Tables → Exec Tables A
  updated_one test set message rows after db = elim (the_row (select_where test rows)) [
    | none ↦ (err message, after)
    | some a ↦ (ok (set a), after)
  ]

abbrev pub update_operation :
    (OperationRow → Bool) → (OperationRow → OperationRow) → Text → Exec Tables OperationRow
update_operation test set message db =
    updated_one test set message db.operations
      (record db { operations = update_where test set db.operations }) db

abbrev pub update_retirement :
    (RetirementJournal → Bool)
    → (RetirementJournal → RetirementJournal)
    → Text
    → Exec Tables RetirementJournal
update_retirement test set message db =
    updated_one test set message db.retirements
      (record db { retirements = update_where test set db.retirements }) db

abbrev pub update_generation :
    (LifecycleRow → Bool) → (LifecycleRow → LifecycleRow) → Text → Exec Tables LifecycleRow
update_generation test set message db =
    updated_one test set message db.generations
      (record db { generations = update_where test set db.generations }) db

abbrev pub update_promotion :
    (PhaseRow → Bool) → (PhaseRow → PhaseRow) → Text → Exec Tables PhaseRow
update_promotion test set message db =
    updated_one test set message db.promotions
      (record db { promotions = update_where test set db.promotions }) db

abbrev pub update_serving_pointer :
    (PointerRow → Bool) → (PointerRow → PointerRow) → Text → Exec Tables PointerRow
update_serving_pointer test set message db =
    updated_one test set message db.pointers
      (record db { pointers = update_where test set db.pointers }) db

-- `SELECT … WHERE`, and the error of another number of rows than one.
unfoldable pub select_one : {A : Type 0} → (A → Bool) → Text → (Tables → List A) → Exec Tables A
select_one test message rows db = elim (the_row (select_where test (rows db))) [
  | none ↦ (err message, db)
  | some a ↦ (ok a, db)
]

-- A statement that joins the tables as it finds them.
unfoldable pub joining : {A : Type 0} → (Tables → Exec Tables A) → Exec Tables A
joining f db = f db db

-- A row that is looked for: what happens where it is found, and where it is not.
unfoldable pub found_or :
    {A B : Type 0} → (Tables → Option A) → (A → Exec Tables B) → Exec Tables B → Exec Tables B
found_or find old new db = elim (find db) [ some a ↦ old a db | none ↦ new db ]
