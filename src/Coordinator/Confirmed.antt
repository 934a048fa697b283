-- ===== src/Coordinator/Confirmed.antt =====
-- What `confirmPhysicalDeletion` of
-- services/rdf-sync/src/postgres-generation-coordinator-repository.js has found when it notes that
-- a generation is physically deleted.
use custom_wikibase.Prelude.{◌≡◌, Bool, true, not, ◌&&◌, List, [], ◌∷◌, Text, codes, text_eq, ℕ}
use custom_wikibase.Coordinator.{physically_deleted, RetirementJournal, AttemptRow, Tables}
use custom_wikibase.Coordinator.Statements.{Caller, is_held, has_row}
use custom_wikibase.Coordinator.Checks.{is_role}
use custom_wikibase.Coordinator.Deletion.{is_authority, is_attempt_of}
use custom_wikibase.Coordinator.Conclusion.{is_absent}

abbrev has_role_of : AttemptRow → AttemptRow → Bool
has_role_of a b = text_eq b.resource_role a.resource_role

-- The rows have different roles.
unfoldable pub is_distinct : List AttemptRow → Bool
is_distinct [] = true
is_distinct (a ∷ l) = is_role a.resource_role && not (has_row (has_role_of a) l) && is_distinct l

abbrev is_gone_as : Text → AttemptRow → Bool
is_gone_as role a = text_eq a.resource_role role && is_absent a

-- The attempt on the resource of this role, of this deletion, whose absence was confirmed.
abbrev is_gone : Text → ℕ → Text → Text → AttemptRow → Bool
is_gone id fence token role a = is_attempt_of id fence token a && is_gone_as role a

-- A deletion that is confirmed: the caller holds the operation, the retirement was pending under
-- the fence and token, and the workload, the service and the volume are each confirmed to be absent.
pub record IsConfirmed (c : Caller) (id : Text) (fence : ℕ) (token : Text) (db : Tables)
    (r : RetirementJournal) (db' : Tables) : Type 0 where
  pub is_holder : is_held c id fence db ≡ true
  pub journal : RetirementJournal
  pub was_pending : is_authority id fence token journal ≡ true
  pub is_deleted : r ≡ record journal { state = physically_deleted }
  pub no_workload : has_row (is_gone id fence token (codes "workload")) db.attempts ≡ true
  pub no_service : has_row (is_gone id fence token (codes "service")) db.attempts ≡ true
  pub no_volume : has_row (is_gone id fence token (codes "pvc")) db.attempts ≡ true
  pub keeps_attempts : db'.attempts ≡ db.attempts
  pub keeps_generations : db'.generations ≡ db.generations
