-- ===== src/Tests/MigrationRuns.antt =====
-- Two migrations, of which the first is applied already.
use custom_wikibase.Prelude.{
  ◌≡◌, refl, false, none, some, List, [], ◌∷◌, ◌++◌, Text, codes, text_eq, text_lt, includes, Dict,
  lookup, insert, Exec, pure, try_catch, ◌>>=◌,
}
use custom_wikibase.Migrations.{
  Database, is_name_rest, is_name, is_migration_name, filter_names, insert_name, sort_names,
  file_names, migration_files, applied_checksum, compare_checksum, load_migration, create_table,
  pending_of, insert_migration, run_sql, apply_migration, apply_migrations, migrate_body, migrate,
}

abbrev digest : Text → Text
digest s = codes "d" ++ s

-- The scripts that ran.
abbrev run : Text → Exec (List Text) (Unit {0})
run sql scripts = pure tt (sql ∷ scripts)

abbrev directory : Dict Text
directory =
    (codes "002_b.sql", codes "B")
    ∷ (codes "001_a.sql", codes "A")
    ∷ (codes "README.md", codes "")
    ∷ []

abbrev before : Database (List Text)
before = record {
  is_locked = false;
  schema_migrations = some ((codes "001_a.sql", digest (codes "A")) ∷ []);
  schema = [];
}

migrations : Unit {0}
unfolding text_eq text_lt includes lookup insert try_catch ◌>>=◌ is_name_rest is_name
    is_migration_name filter_names insert_name sort_names file_names migration_files
    applied_checksum compare_checksum load_migration create_table pending_of insert_migration
    run_sql apply_migration apply_migrations migrate_body migrate
migrations = tt

second_only : (migrate digest run directory false none before).1.schema ≡ codes "B" ∷ []
unfolding migrations
second_only = refl
