-- ===== src/Coordinator.antt =====
-- `PostgresGenerationCoordinatorRepository` of
-- services/rdf-sync/src/postgres-generation-coordinator-repository.js: the tables of the lifecycle
-- of generations (packages/jwb-database/migrations, 006 to 013) as lists of rows. The operations
-- stand in the order of `created_at,id`. The columns of times that no statement reads and the
-- foreign keys are left out; identifiers are in the lower case in which the database prints them.
pub mod Statements
pub mod Checks
pub mod Operations
pub mod Promotions
pub mod Release
pub mod Eligibility
pub mod Retirement
pub mod Cleanup
pub mod Deletion
pub mod Conclusion
pub mod Calls
pub mod Rows
pub mod Fenced
pub mod Kept
pub mod Preserved
pub mod Invariants
pub mod Fences
pub mod Superseded
pub mod Attempts
pub mod Planned
pub mod After
pub mod Free
pub mod Repeated
pub mod Authorized
pub mod Confirmed
use custom_wikibase.Prelude.{
  ℕ, ◌+◌, Bool, true, false, ◌&&◌, ◌||◌, Option, none, some, List, [], ◌∷◌, Text, ◌==◌, ltb,
  text_eq, ok, err, Exec, if◌then◌else◌,
}
use custom_wikibase.Serving.Tables.{
  GenerationState, Protection, PointerRow, PromotionState, select_where, update_where, the_row,
  option_eq,
}
use custom_wikibase.Serving.Standalone.{Phase}

-- The state of an operation: ACTIVE, and the last four of STATES.
pub data OperationState : Type 0 where
  rebuild_requested creating_generation loading_snapshot waiting_for_catchup : OperationState
  validating_generation ready_to_promote promoting_generation generation_promoted : OperationState
  retiring_old cleaning_up retirement_waiting : OperationState
  operation_protected operation_completed operation_failed operation_ambiguous : OperationState

abbrev operation_code : OperationState → ℕ
operation_code rebuild_requested = 0
operation_code creating_generation = 1
operation_code loading_snapshot = 2
operation_code waiting_for_catchup = 3
operation_code validating_generation = 4
operation_code ready_to_promote = 5
operation_code promoting_generation = 6
operation_code generation_promoted = 7
operation_code retiring_old = 8
operation_code cleaning_up = 9
operation_code retirement_waiting = 10
operation_code operation_protected = 11
operation_code operation_completed = 12
operation_code operation_failed = 13
operation_code operation_ambiguous = 14

-- ACTIVE.
unfoldable pub is_active : OperationState → Bool
is_active state = ltb (operation_code state) 11

unfoldable pub is_operation_state : OperationState → OperationState → Bool
is_operation_state a b = operation_code a == operation_code b

pub data OperationType : Type 0 where
  promotion_operation release_operation retirement_operation : OperationType

-- A cursor: its time as text and its number.
pub record Position : Type 0 where
  pub timestamp : Text
  pub rcid : ℕ

-- rdf_coordinator_operation.
pub record OperationRow : Type 0 where
  pub id : Text
  pub request_key : Text
  pub source_identity : Text
  pub query_service_id : Text
  pub candidate_generation_id : Text
  pub backend_type : Text
  pub requested_reason : Text
  pub state : OperationState
  pub operation_type : OperationType
  pub expected_generation_id : Option Text
  pub expected_pointer_version : Option ℕ
  pub snapshot_cursor : Option Position
  pub target_cursor : Option Position
  pub claimed_by : Option Text
  pub owner_pod_uid : Option Text
  pub lease_expires_at : Option ℕ
  pub fence : ℕ
  pub error_code : Option Text

-- What a retirement may be in; the two last are named by statements, and the table refuses them.
pub data JournalState : Type 0 where
  requested waiting_eligibility found_eligible scheduled retiring_journal : JournalState
  logically_retired physical_delete_pending physically_deleted metadata_finalized : JournalState
  retirement_failed retirement_ambiguous retired_journal protected_journal : JournalState

abbrev pub journal_code : JournalState → ℕ
journal_code requested = 0
journal_code waiting_eligibility = 1
journal_code found_eligible = 2
journal_code scheduled = 3
journal_code retiring_journal = 4
journal_code logically_retired = 5
journal_code physical_delete_pending = 6
journal_code physically_deleted = 7
journal_code metadata_finalized = 8
journal_code retirement_failed = 9
journal_code retirement_ambiguous = 10
journal_code retired_journal = 11
journal_code protected_journal = 12

unfoldable pub is_journal_state : JournalState → JournalState → Bool
is_journal_state a b = journal_code a == journal_code b

-- A reason of `evaluateEligibility`.
pub data Reason : Type 0 where
  serving_pointer_missing generation_missing generation_serving : Reason
  held_by_rollback held_by_serving held_by_promotion held_by_retirement : Reason
  serving_pointer_current serving_pointer_previous lifecycle_state_not_retirable : Reason
  promotion_incomplete rollback_incomplete lifecycle_operation_active sync_active : Reason

-- rdf_generation_retirement.
pub record RetirementJournal : Type 0 where
  pub id : Text
  pub operation_id : Text
  pub source_identity : Text
  pub generation_id : Text
  pub state : JournalState
  pub expected_pointer_version : Option ℕ
  pub expected_generation_version : Option ℕ
  pub operation_fence : ℕ
  pub deletion_token : Option Text
  pub eligibility_reasons : List Reason
  pub error_code : Option Text

pub data AttemptState : Type 0 where
  planned fence_marked delete_intent delete_accepted absent_confirmed attempt_failed : AttemptState

abbrev pub attempt_code : AttemptState → ℕ
attempt_code planned = 0
attempt_code fence_marked = 1
attempt_code delete_intent = 2
attempt_code delete_accepted = 3
attempt_code absent_confirmed = 4
attempt_code attempt_failed = 5

-- rdf_generation_delete_attempt.
pub record AttemptRow : Type 0 where
  pub id : Text
  pub cleanup_operation_id : Text
  pub generation_id : Text
  pub operation_fence : ℕ
  pub deletion_token : Text
  pub resource_role : Text
  pub namespace : Text
  pub resource_name : Text
  pub expected_uid : Text
  pub expected_resource_version : Text
  pub attempt_state : AttemptState

-- rdf_generation.
pub record LifecycleRow : Type 0 where
  pub source_identity : Text
  pub generation_id : Text
  pub backend_type : Text
  pub state : GenerationState
  pub protection_state : Protection
  pub error_code : Option Text
  pub lifecycle_version : ℕ

-- rdf_generation_promotion.
pub record PhaseRow : Type 0 where
  pub id : Text
  pub operation_id : Text
  pub source_identity : Text
  pub from_generation_id : Text
  pub to_generation_id : Text
  pub state : PromotionState
  pub phase : Phase
  pub expected_pointer_version : ℕ
  pub resulting_pointer_version : Option ℕ

-- rdf_generation_sync.
pub record CatchUpRow : Type 0 where
  pub source_identity : Text
  pub generation_id : Text
  pub state : Text

-- rdf_rollback_protection_release.
pub record ReleaseRow : Type 0 where
  pub id : Text
  pub operation_id : Text
  pub idempotency_key : Text
  pub source_identity : Text
  pub query_service_id : Text
  pub generation_id : Text
  pub expected_serving_generation_id : Text
  pub expected_pointer_version : ℕ
  pub resulting_pointer_version : ℕ
  pub resulting_generation_version : ℕ

-- rdf_generation_protection_audit.
pub record AuditRow : Type 0 where
  pub id : Text
  pub promotion_operation_id : Text
  pub source_identity : Text
  pub released_generation_id : Option Text
  pub rollback_generation_id : Text
  pub serving_generation_id : Text

pub record Tables : Type 0 where
  pub operations : List OperationRow
  pub retirements : List RetirementJournal
  pub attempts : List AttemptRow
  pub generations : List LifecycleRow
  pub promotions : List PhaseRow
  pub pointers : List PointerRow
  pub syncs : List CatchUpRow
  pub releases : List ReleaseRow
  pub audits : List AuditRow
