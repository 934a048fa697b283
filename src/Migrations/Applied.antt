-- ===== src/Migrations/Applied.antt =====
-- The migrations after a run.
use custom_wikibase.Prelude.{
  Result-cases, ◌≡◌, ◌≢◌, refl, sym, ◌∙◌, Bool, true, false, ◌&&◌, none, some, List, [], ◌∷◌, Text,
  text_eq_iff, text_eq_refl, Dict, lookup, insert, lookup-insert, ok, Exec, arith, try_catch, ◌>>=◌,
  Option-cases, inl, inr, ◌⊎◌,
}
use mathlib.Core.Path.{subst}
use custom_wikibase.Migrations.{
  Database, Migration, MigrationState, applied, pending, checksum_mismatch, applied_checksum,
  compare_checksum, load_migration, status_of, pending_of, insert_migration, run_sql,
  apply_migration, apply_migrations,
}

abbrev is_applied : MigrationState → Bool
is_applied applied = true
is_applied _ = false

unfoldable pub all_applied : List (Text × MigrationState) → Bool
all_applied [] = true
all_applied ((_, state) ∷ l) = is_applied state && all_applied l

-- The rows of the second table hold those of the first.
abbrev pub Extends : Dict Text → Dict Text → Type 0
Extends rows rows' = (k c : Text) → lookup k rows ≡ some c → lookup k rows' ≡ some c

abbrev Recorded : Migration → Dict Text → Type 0
Recorded m rows = lookup m.version rows ≡ some m.checksum

pub AllRecorded : List Migration → Dict Text → Type 0
AllRecorded [] rows = Unit {0}
AllRecorded (m ∷ l) rows = Recorded m rows × AllRecorded l rows

compare_checksum-recorded :
    (version checksum : Text) (rows : Dict Text)
    → checksum ≢ []
    → lookup version rows ≡ some checksum
    → compare_checksum (applied_checksum version rows) checksum ≡ applied
unfolding compare_checksum applied_checksum
compare_checksum-recorded version [] rows ne h = absurd (ne refl)
compare_checksum-recorded version (c ∷ s) rows ne h = ground (arith, text_eq_refl (c ∷ s))

compare_checksum-eq-applied :
    (version checksum : Text) (rows : Dict Text)
    → compare_checksum (applied_checksum version rows) checksum ≡ applied
    → lookup version rows ≡ some checksum
unfolding compare_checksum applied_checksum
compare_checksum-eq-applied version checksum rows h = elim (Option-cases (lookup version rows)) [
  | inl e ↦ absurd (ground arith)
  | inr ([], e) ↦ absurd (ground arith)
  | inr (c ∷ s, e) ↦ ground (arith, text_eq_iff (c ∷ s) checksum)
]

module _ (sha256 : Text → Text) (digest : (s : Text) → sha256 s ≢ []) (directory : Dict Text) where
  load_migration-eq-ok :
      (version : Text) (m : Migration)
      → load_migration sha256 directory version ≡ ok m
      → (m.version ≡ version) × (m.checksum ≢ [])
  unfolding load_migration
  load_migration-eq-ok version m h = elim (Option-cases (lookup version directory)) [
    | inl e ↦ absurd (ground arith)
    | inr (sql, e) ↦
        let same : m.checksum ≡ sha256 sql = ground arith in
        (ground arith, λ empty. digest sql (sym same ∙ empty))
  ]

module _ {Schema : Type 0} (run : Text → Exec Schema (Unit {0})) where
  -- An applied migration: the table had no row of it, and has one now.
  apply_migration-inserts :
      (m : Migration) (db : Database Schema) (rows : Dict Text)
      → db.schema_migrations ≡ some rows
      → (apply_migration run m db).0 ≡ ok tt
      → (lookup m.version rows ≡ none)
        × ((apply_migration run m db).1.schema_migrations ≡ some (insert m.version m.checksum rows))
  unfolding apply_migration try_catch ◌>>=◌ run_sql insert_migration
  apply_migration-inserts m db rows has h = (ground arith, ground arith)

  insert-Extends :
      (k c : Text) (rows : Dict Text) → lookup k rows ≡ none → Extends rows (insert k c rows)
  insert-Extends k c rows h j d e = ground (arith, lookup-insert k j c rows, text_eq_iff k j)

  insert-Recorded :
      (m : Migration) (rows : Dict Text) → Recorded m (insert m.version m.checksum rows)
  insert-Recorded m rows =
      lookup-insert m.version m.version m.checksum rows ∙ rw (text_eq_refl m.version) refl

  pub apply_migrations-AllRecorded :
      (l : List Migration) (db : Database Schema) (rows : Dict Text)
      → db.schema_migrations ≡ some rows
      → (apply_migrations run l db).0 ≡ ok tt
      → (rows' : Dict Text) × ((apply_migrations run l db).1.schema_migrations ≡ some rows')
        × Extends rows rows'
        × AllRecorded l rows'
  unfolding apply_migrations AllRecorded ◌>>=◌
  apply_migrations-AllRecorded [] db rows has h = (rows, has, (λ k c e. e), tt)
  apply_migrations-AllRecorded (m ∷ l) db rows has h =
      let first : (apply_migration run m db).0 ≡ ok tt = ground arith in
      let (absent, stored) = apply_migration-inserts m db rows has first in
      let (rows', has', extends, recorded) =
        apply_migrations-AllRecorded l (apply_migration run m db).1
          (insert m.version m.checksum rows) stored (ground arith) in
      (
        rows',
        rw first has',
        (λ k c e. extends k c (insert-Extends m.version m.checksum rows absent k c e)),
        (extends m.version m.checksum (insert-Recorded m rows), recorded),
      )

MigrationState-cases :
    (s : MigrationState) → (s ≡ applied) ⊎ ((s ≡ checksum_mismatch) ⊎ (s ≡ pending))
MigrationState-cases applied = inl refl
MigrationState-cases checksum_mismatch = inr (inl refl)
MigrationState-cases pending = inr (inr refl)

module _ (sha256 : Text → Text) (directory : Dict Text) where
  -- A version that is checked is in the table, or it is the first of the pending ones.
  pending_of-first :
      (rows : Dict Text) (version : Text) (versions : List Text) (items : List Migration)
      → pending_of sha256 directory rows (version ∷ versions) ≡ ok items
      → (m : Migration) × (load_migration sha256 directory version ≡ ok m)
        × (rest : List Migration) × (pending_of sha256 directory rows versions ≡ ok rest)
        × (((lookup version rows ≡ some m.checksum) × (items ≡ rest)) ⊎ (items ≡ m ∷ rest))
  unfolding pending_of
  pending_of-first rows version versions items h =
      elim (Result-cases (load_migration sha256 directory version)) [
        | inl (e, p) ↦ absurd (ground arith)
        | inr (m, p) ↦
            elim (MigrationState-cases
              (compare_checksum (applied_checksum version rows) m.checksum)) [
                | inl q ↦ (
                  m,
                  p,
                  items,
                  ground arith,
                  inl (compare_checksum-eq-applied version m.checksum rows q, refl),
                )
                | inr (inl q) ↦ absurd (ground arith)
                | inr (inr q) ↦ elim (Result-cases (pending_of sha256 directory rows versions)) [
                  | inl (e, o) ↦ absurd (ground arith)
                  | inr (rest, o) ↦ (m, p, rest, o, inr (ground arith))
                ]
              ]
      ]

  -- A version that is in the table with the checksum of its file.
  status_of-next :
      (rows : Dict Text) (version : Text) (versions : List Text) (m : Migration)
      (l : List (Text × MigrationState))
      → load_migration sha256 directory version ≡ ok m
      → compare_checksum (applied_checksum version rows) m.checksum ≡ applied
      → status_of sha256 directory rows versions ≡ ok l
      → pending_of sha256 directory rows versions ≡ ok []
      → (status_of sha256 directory rows (version ∷ versions) ≡ ok ((version, applied) ∷ l))
        × (pending_of sha256 directory rows (version ∷ versions) ≡ ok [])
  unfolding status_of pending_of
  status_of-next rows version versions m l p q st pe = (ground arith, ground arith)

  recorded_version :
      (digest : (s : Text) → sha256 s ≢ []) (rows rows' : Dict Text) (version : Text)
      (m : Migration) (items rest : List Migration)
      → Extends rows rows'
      → AllRecorded items rows'
      → load_migration sha256 directory version ≡ ok m
      → ((lookup version rows ≡ some m.checksum) × (items ≡ rest)) ⊎ (items ≡ m ∷ rest)
      → (lookup version rows' ≡ some m.checksum) × AllRecorded rest rows'
  unfolding AllRecorded
  recorded_version digest rows rows' version m items rest extends recorded p (inl (found, same)) =
      (extends version m.checksum found, subst (λ l. AllRecorded l rows') same recorded)
  recorded_version digest rows rows' version m items rest extends recorded p (inr same) =
      let (here, there) = subst (λ l. AllRecorded l rows') same recorded in
      (
        subst (λ v. lookup v rows' ≡ some m.checksum)
            (load_migration-eq-ok sha256 digest directory version m p).0 here,
        there,
      )

  pub status_of-applied :
      (digest : (s : Text) → sha256 s ≢ []) (rows rows' : Dict Text) (versions : List Text)
      (items : List Migration)
      → Extends rows rows'
      → pending_of sha256 directory rows versions ≡ ok items
      → AllRecorded items rows'
      → (l : List (Text × MigrationState)) × (status_of sha256 directory rows' versions ≡ ok l)
        × (all_applied l ≡ true)
        × (pending_of sha256 directory rows' versions ≡ ok [])
  unfolding all_applied status_of pending_of
  status_of-applied digest rows rows' [] items extends h recorded = ([], refl, refl, refl)
  status_of-applied digest rows rows' (version ∷ versions) items extends h recorded =
      let (m, p, rest, o, split) = pending_of-first rows version versions items h in
      let (found, recorded') =
        recorded_version digest rows rows' version m items rest extends recorded p split in
      let (l, st, fit, pe) =
        status_of-applied digest rows rows' versions rest extends o recorded' in
      let (first, second) =
        status_of-next rows' version versions m l p
          (compare_checksum-recorded version m.checksum rows'
            (load_migration-eq-ok sha256 digest directory version m p).1 found)
          st pe in
      ((version, applied) ∷ l, first, fit, second)
