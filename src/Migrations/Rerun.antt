-- ===== src/Migrations/Rerun.antt =====
-- A run of `migrate`, and the status and another run after it.
use custom_wikibase.Prelude.{◌≡◌, true, false, Option, List, [], Text, Dict, ok, Exec}
use custom_wikibase.Migrations.{Database, MigrationState, migration_status, migrate}
use custom_wikibase.Migrations.Applied.{all_applied}

-- After a run: the lock is free, the status of every file is that it is applied, and another run
-- finds nothing to do and changes nothing.
pub record Migrated {Schema : Type 0} (sha256 : Text → Text) (run : Text → Exec Schema (Unit {0}))
    (directory : Dict Text) (allowlist : Option (List Text)) (db : Database Schema) : Type 0 where
  pub is_free : db.is_locked ≡ false
  pub status : List (Text × MigrationState)
  pub reports : migration_status sha256 directory allowlist db ≡ (ok status, db)
  pub has_all : all_applied status ≡ true
  pub reruns : migrate sha256 run directory false allowlist db ≡ (ok [], db)
