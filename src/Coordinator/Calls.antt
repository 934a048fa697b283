-- ===== src/Coordinator/Calls.antt =====
-- The calls of services/rdf-sync/src/postgres-generation-coordinator-repository.js that a
-- coordinator makes with the fence that it was given, and all that change the tables, as data.
use custom_wikibase.Prelude.{ℕ, Bool, Option, List, Text, Exec, pure, ◌>>=◌}
use custom_wikibase.Serving.Tables.{GenerationState}
use custom_wikibase.Coordinator.{OperationState, OperationRow, JournalState, Tables}
use custom_wikibase.Coordinator.Statements.{Caller, has_row, is_held}
use custom_wikibase.Coordinator.Checks.{Resource, Fields, RebuildInput, ReleaseInput}
use custom_wikibase.Coordinator.Operations.{
  request_operation, claim_next, move_operation, ensure_generation, set_generation_state,
}
use custom_wikibase.Coordinator.Promotions.{
  prepare_promotion, cas_pointer, mark_router_verified, finalize_promotion,
}
use custom_wikibase.Coordinator.Release.{release_rollback_protection}
use custom_wikibase.Coordinator.Retirement.{
  begin_retirement, move_retirement, CleanupInput, schedule_cleanup,
}
use custom_wikibase.Coordinator.Cleanup.{
  reevaluate_pending_retirement, authorize_physical_deletion, mark_generation_retired,
}
use custom_wikibase.Coordinator.Deletion.{
  record_deletion_plan, mark_deletion_fence, record_deletion_intent, record_deletion_accepted,
  record_absence_confirmed, record_deletion_progress, assert_deletion_authority,
}
use custom_wikibase.Coordinator.Conclusion.{
  confirm_physical_deletion, is_owned_row, record_deletion_failure, finalize_retirement,
}

-- The calls that a coordinator makes with its fence.
pub data Fenced : Type 0 where
  moves : OperationState → OperationState → Fields → Fenced
  reevaluates authorizes retires finalizes : Fenced
  plans : Text → List Resource → Fenced
  marks : Text → Fenced
  intends : Text → Text → Text → Text → Fenced
  accepts : Text → Option Text → Option Text → Fenced
  confirms_absence : Text → Option Text → Option Text → Fenced
  progresses : Text → Text → Text → Fenced
  asserts : Text → Fenced
  confirms : Text → Fenced
  fails : Text → Text → Fenced

abbrev discard : {A : Type 0} → Exec Tables A → Exec Tables (Unit {0})
discard m = m >>= λ _. pure tt

unfoldable pub run_fenced : Caller → Text → ℕ → Fenced → Exec Tables (Unit {0})
run_fenced c id fence (moves from to f) = discard (move_operation c id fence from to f)
run_fenced c id fence reevaluates = discard (reevaluate_pending_retirement c id fence)
run_fenced c id fence authorizes = discard (authorize_physical_deletion c id fence)
run_fenced c id fence retires = discard (mark_generation_retired c id fence)
run_fenced c id fence finalizes = discard (finalize_retirement c id fence)
run_fenced c id fence (plans token l) = record_deletion_plan c id fence token l
run_fenced c id fence (marks token) = discard (mark_deletion_fence c id fence token)
run_fenced c id fence (intends token role uid version) =
    discard (record_deletion_intent c id fence token role uid version)
run_fenced c id fence (accepts token role uid) =
    discard (record_deletion_accepted c id fence token role uid)
run_fenced c id fence (confirms_absence token role uid) =
    discard (record_absence_confirmed c id fence token role uid)
run_fenced c id fence (progresses token role uid) =
    discard (record_deletion_progress c id fence token role uid)
run_fenced c id fence (asserts token) = discard (assert_deletion_authority c id fence token)
run_fenced c id fence (confirms token) = discard (confirm_physical_deletion c id fence token)
run_fenced c id fence (fails token code) = discard (record_deletion_failure c id fence token code)

-- Whether the caller still has what the call asks for: recordDeletionFailure only that the operation
-- is claimed by the caller under the fence, all others also that the lease has not run out.
unfoldable pub may_call : Caller → Text → ℕ → Tables → Fenced → Bool
may_call c id fence db (fails token code) = has_row (is_owned_row c id fence) db.operations
may_call c id fence db _ = is_held c id fence db

-- Every call that may change a table.
pub data Change : Type 0 where
  fenced : Text → ℕ → Fenced → Change
  requests : (Text → Option ℕ) → RebuildInput → Change
  claims : Change
  ensures : OperationRow → Change
  sets_state : Text → Text → GenerationState → GenerationState → Option Text → Change
  prepares : Text → Text → Text → Text → ℕ → Change
  swaps : Text → Text → Change
  verifies finalizes_promotion : Text → Change
  releases_rollback : ReleaseInput → Change
  begins_retirement : Text → Text → Text → Change
  moves_retirement : Text → JournalState → JournalState → Change
  schedules : (Text → Option ℕ) → CleanupInput → Change

unfoldable pub run_change : Caller → Change → Exec Tables (Unit {0})
run_change c (fenced id fence call) = run_fenced c id fence call
run_change c (requests parse_date v) = discard (request_operation parse_date c v)
run_change c claims = discard (claim_next c)
run_change c (ensures o) = discard (ensure_generation o)
run_change c (sets_state source id from to code) =
    discard (set_generation_state source id from to code)
run_change c (prepares operation source from to version) =
    discard (prepare_promotion c operation source from to version)
run_change c (swaps id service) = discard (cas_pointer id service)
run_change c (verifies id) = discard (mark_router_verified id)
run_change c (finalizes_promotion id) = discard (finalize_promotion c id)
run_change c (releases_rollback v) = discard (release_rollback_protection c v)
run_change c (begins_retirement operation source id) =
    discard (begin_retirement c operation source id)
run_change c (moves_retirement id from to) = discard (move_retirement id from to)
run_change c (schedules parse_date v) = discard (schedule_cleanup parse_date c v)

-- The tables after some calls, each by its own caller at its own time.
pub data Reaches (db : Tables) : Tables → Type 0 where
  here : Reaches db db
  further :
      (t : Tables) (c : Caller) (call : Change) → Reaches db t → Reaches db (run_change c call t).1
