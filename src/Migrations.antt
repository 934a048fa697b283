-- ===== src/Migrations.antt =====
-- packages/jwb-database/src/migration-runner.js: which migrations a directory holds, and their run
-- against the database. The table `schema_migrations` is apart from the rest of the database, so
-- that a migration does not write to it. A file of the directory is its name and what it holds.
pub mod Applied
pub mod Rerun
use custom_wikibase.Prelude.{
  ℕ, Bool, true, false, not, ◌&&◌, ◌||◌, Option, none, some, List, [], ◌∷◌, ◌++◌, Text, codes, ◌==◌,
  leb, text_eq, text_lt, includes, is_digit, Dict, lookup, insert, Result, ok, err, Exec, pure,
  throw, lift, throw_if, try_catch, ◌>>=◌, ◌>>◌, if◌then◌else◌,
}

pub record Database (Schema : Type 0) : Type 0 where
  -- whether the advisory lock LOCK_ID is held
  pub is_locked : Bool
  -- `none` where there is no table of that name
  pub schema_migrations : Option (Dict Text)
  pub schema : Schema

pub record Migration : Type 0 where
  pub version : Text
  pub sql : Text
  pub checksum : Text

-- `[a-z0-9_]`.
abbrev is_name_char : ℕ → Bool
is_name_char c = (leb b'a' c && leb c b'z') || is_digit c || c == b'_'

-- `[a-z0-9_]*\.sql`, to the end.
unfoldable pub is_name_rest : Text → Bool
is_name_rest [] = false
is_name_rest (c ∷ s) =
    let rest = is_name_rest s in text_eq (c ∷ s) (codes ".sql") || (is_name_char c && rest)

-- `[a-z0-9_]+\.sql`, to the end.
unfoldable pub is_name : Text → Bool
is_name [] = false
is_name (c ∷ s) = is_name_char c && is_name_rest s

-- `/^\d{3}_[a-z0-9_]+\.sql$/u`.
unfoldable pub is_migration_name : Text → Bool
is_migration_name (a ∷ b ∷ c ∷ u ∷ s) =
    is_digit a && is_digit b && is_digit c && u == b'_' && is_name s
is_migration_name _ = false

unfoldable pub filter_names : (Text → Bool) → List Text → List Text
filter_names test [] = []
filter_names test (s ∷ l) = let rest = filter_names test l in if test s then s ∷ rest else rest

-- `.sort()`.
unfoldable pub insert_name : Text → List Text → List Text
insert_name s [] = s ∷ []
insert_name s (t ∷ l) = if text_lt t s then t ∷ insert_name s l else s ∷ t ∷ l

unfoldable pub sort_names : List Text → List Text
sort_names [] = []
sort_names (s ∷ l) = insert_name s (sort_names l)

-- `new Set(list).size !== list.length`.
unfoldable pub has_repeats : List Text → Bool
has_repeats [] = false
has_repeats (s ∷ l) = includes l s || has_repeats l

unfoldable pub all_in : List Text → List Text → Bool
all_in files [] = true
all_in files (s ∷ l) = includes files s && all_in files l

-- `readdir`.
unfoldable pub file_names : Dict Text → List Text
file_names [] = []
file_names ((name, _) ∷ d) = name ∷ file_names d

unfoldable pub migration_files : Dict Text → Option (List Text) → Result (List Text)
migration_files directory none =
    ok (sort_names (filter_names is_migration_name (file_names directory)))
migration_files directory (some list) =
    let files = sort_names (filter_names is_migration_name (file_names directory)) in
    if has_repeats list || not (all_in files list)
    then err (codes "INVALID_MIGRATION_ALLOWLIST")
    else ok (filter_names (includes list) files)

-- What the map holds, where that is not the empty text.
unfoldable pub applied_checksum : Text → Dict Text → Option Text
applied_checksum version applied = elim (lookup version applied) [
  | none ↦ none
  | some [] ↦ none
  | some (c ∷ s) ↦ some (c ∷ s)
]

pub data MigrationState : Type 0 where
  applied checksum_mismatch pending : MigrationState

unfoldable pub compare_checksum : Option Text → Text → MigrationState
compare_checksum none checksum = pending
compare_checksum (some previous) checksum =
    if text_eq previous checksum then applied else checksum_mismatch

-- `sha256 text` is `createHash('sha256').update(text).digest('hex')`.
module _ (sha256 : Text → Text) where
  unfoldable pub load_migration : Dict Text → Text → Result Migration
  load_migration directory version = elim (lookup version directory) [
    | none ↦ err (codes "ENOENT")
    | some sql ↦ ok (record { version = version; sql = sql; checksum = sha256 sql })
  ]

  unfoldable pub status_of :
      Dict Text → Dict Text → List Text → Result (List (Text × MigrationState))
  status_of directory rows [] = ok []
  status_of directory rows (version ∷ versions) =
      let rest = status_of directory rows versions in
      elim (load_migration directory version) [
        | err e ↦ err e
        | ok m ↦ elim rest [
          | err e ↦ err e
          | ok l ↦ ok ((version, compare_checksum (applied_checksum version rows) m.checksum) ∷ l)
        ]
      ]

  -- The migrations that are not applied yet, unless one has changed since it was.
  unfoldable pub pending_of : Dict Text → Dict Text → List Text → Result (List Migration)
  pending_of directory rows [] = ok []
  pending_of directory rows (version ∷ versions) =
      let rest = pending_of directory rows versions in
      elim (load_migration directory version) [
        | err e ↦ err e
        | ok m ↦ elim (compare_checksum (applied_checksum version rows) m.checksum) [
          | checksum_mismatch ↦ err (codes "MIGRATION_CHECKSUM_MISMATCH:" ++ version)
          | applied ↦ rest
          | pending ↦ elim rest [ err e ↦ err e | ok l ↦ ok (m ∷ l) ]
        ]
      ]

module _ {Schema : Type 0} where
  -- `CREATE TABLE IF NOT EXISTS schema_migrations`.
  unfoldable pub create_table : Exec (Database Schema) (Dict Text)
  create_table db = elim db.schema_migrations [
    | none ↦ pure [] (record db { schema_migrations = some [] })
    | some rows ↦ pure rows db
  ]

  -- `INSERT INTO schema_migrations`, whose key is the version.
  unfoldable pub insert_migration : Migration → Exec (Database Schema) (Unit {0})
  insert_migration m db = elim db.schema_migrations [
    | none ↦ throw (codes "relation \"schema_migrations\" does not exist") db
    | some rows ↦ elim (lookup m.version rows) [
      | some _ ↦ throw (codes "duplicate key value violates unique constraint") db
      | none ↦ pure tt (record db { schema_migrations = some (insert m.version m.checksum rows) })
    ]
  ]

  unfoldable pub migration_status :
      (Text → Text)
      → Dict Text
      → Option (List Text)
      → Exec (Database Schema) (List (Text × MigrationState))
  migration_status sha256 directory allowlist = do
    rows ← create_table
    files ← lift (migration_files directory allowlist)
    lift (status_of sha256 directory rows files)

-- `run sql` is `client.query(sql)`.
module _ {Schema : Type 0} (run : Text → Exec Schema (Unit {0})) where
  unfoldable pub run_sql : Text → Exec (Database Schema) (Unit {0})
  run_sql sql db = let (r, schema') = run sql db.schema in (r, record db { schema = schema' })

  -- `BEGIN`, the migration and its row, and `COMMIT` or, after a throw, `ROLLBACK`.
  unfoldable pub apply_migration : Migration → Exec (Database Schema) (Unit {0})
  apply_migration m db = try_catch (do run_sql m.sql; insert_migration m) (λ e. λ _. throw e db) db

  unfoldable pub apply_migrations : List Migration → Exec (Database Schema) (Unit {0})
  apply_migrations [] = pure tt
  apply_migrations (m ∷ l) = do apply_migration m; apply_migrations l

abbrev pub reported : List Migration → List (Text × Text)
reported [] = []
reported (m ∷ l) = (m.version, m.checksum) ∷ reported l

module _ {Schema : Type 0} (sha256 : Text → Text) (run : Text → Exec Schema (Unit {0})) where
  unfoldable pub migrate_body :
      Dict Text → Bool → Option (List Text) → Exec (Database Schema) (List (Text × Text))
  migrate_body directory dry_run allowlist = do
    rows ← create_table
    files ← lift (migration_files directory allowlist)
    items ← lift (pending_of sha256 directory rows files)
    apply_migrations run (if dry_run then [] else items)
    pure (reported items)

  -- The body under the lock, which is given back whether it throws or not.
  unfoldable pub migrate :
      Dict Text → Bool → Option (List Text) → Exec (Database Schema) (List (Text × Text))
  migrate directory dry_run allowlist db =
      let (r, db') = migrate_body directory dry_run allowlist (record db { is_locked = true }) in
      (r, record db' { is_locked = false })
