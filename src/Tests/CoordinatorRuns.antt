-- ===== src/Tests/CoordinatorRuns.antt =====
-- Runs of the coordinator's repository on a retirement that is cleaning up: the holder of the lease
-- is given a token, and one that was superseded is refused.
use custom_wikibase.Prelude.{
  refl, none, some, [], ◌∷◌, Text, codes, text_eq, throw_if, ◌>>=◌, arith, strip_prefix, ◌≡◌, ok,
}
use custom_wikibase.Prelude.Results
use custom_wikibase.Prelude.Results.{check}
use custom_wikibase.Serving.Tables.{
  retired, retirement_in_progress, select_where, update_where, the_row, transaction, retiring,
  rollback_protected, unprotected, PointerRow,
}
use custom_wikibase.Coordinator.{
  cleaning_up, is_active, is_operation_state, retirement_operation, OperationRow, logically_retired,
  physical_delete_pending, is_journal_state, RetirementJournal, planned, AttemptRow, Tables,
  absent_confirmed, ReleaseRow, LifecycleRow,
}
use custom_wikibase.Coordinator.Statements.{
  Owner, Caller, is_live, is_held_row, has_row, first_where, updated_one, select_one, found_or,
}
use custom_wikibase.Coordinator.Checks.{
  is_uuid, matches, hex_digits, require_uuid, identifiers, check_generation_id, check_query_id,
  all_key, is_request_key, check_release, ReleaseInput,
}
use custom_wikibase.Coordinator.Operations.{is_lapsed, is_claimable, claimed, claim_next}
use custom_wikibase.Coordinator.Release.{
  is_promoting, is_same_release, is_release_pointer, is_waiting, is_retiring_now, insert_release,
  release_rows, release_checked, prior_release, repeat_release, release_rollback_protection,
}
use custom_wikibase.Coordinator.Eligibility.{
  has_no_reason, collect, protection_check, is_retirable, is_rollback_journal, is_working_on,
  is_syncing, reasons_of, eligibility_of, evaluate_eligibility,
}
use custom_wikibase.Coordinator.Cleanup.{
  held_operation, set_operations, later_of, extended, is_as_expected, is_same_epoch, token_of,
  is_deletable, authorized, authorize_body, authorize_physical_deletion,
}
use custom_wikibase.Coordinator.Calls.{
  authorizes, marks, run_fenced, may_call, fenced, run_change, here, further,
}
use custom_wikibase.Serving.Pointer.{all_slug, is_slug, is_generation_id}
use custom_wikibase.QueryRouter.{all_source, is_source}
use custom_wikibase.Coordinator.Repeated.{release_rollback_protection-again}
use custom_wikibase.Coordinator.Rows.{IsRefused}
use custom_wikibase.Coordinator.Fenced.{run_fenced-IsRefused}
use custom_wikibase.Coordinator.Superseded.{claim_next-supersedes}
use custom_wikibase.Coordinator.Fences.{is_keyed}
use custom_wikibase.Coordinator.Attempts.{AllGoOn, Reaches-AllGoOn}
use custom_wikibase.Coordinator.Authorized.{IsAuthorized, authorize_physical_deletion-IsAuthorized}

abbrev operation_id : Text
operation_id = codes "0c8f3b7e-1d2a-4b5c-8d9e-0f1a2b3c4d5e"

abbrev holder : Text
holder = codes "1c8f3b7e-1d2a-4b5c-8d9e-0f1a2b3c4d5e"

abbrev token : Text
token = codes "2c8f3b7e-1d2a-4b5c-8d9e-0f1a2b3c4d5e"

abbrev source : Text
source = codes "wiki.example"

abbrev cleanup : OperationRow
cleanup = record {
  id = operation_id;
  request_key = codes "cleanup-gen-a";
  source_identity = source;
  query_service_id = codes "main";
  candidate_generation_id = codes "gen-a";
  backend_type = codes "oxigraph";
  requested_reason = codes "BACKEND_RECOVERY";
  state = cleaning_up;
  operation_type = retirement_operation;
  expected_generation_id = some (codes "gen-a");
  expected_pointer_version = some 5;
  snapshot_cursor = none;
  target_cursor = none;
  claimed_by = some holder;
  owner_pod_uid = none;
  lease_expires_at = some 2000;
  fence = 1;
  error_code = none;
}

abbrev journal : RetirementJournal
journal = record {
  id = codes "j";
  operation_id = operation_id;
  source_identity = source;
  generation_id = codes "gen-a";
  state = logically_retired;
  expected_pointer_version = some 5;
  expected_generation_version = some 4;
  operation_fence = 1;
  deletion_token = none;
  eligibility_reasons = [];
  error_code = none;
}

abbrev workload : AttemptRow
workload = record {
  id = codes "a";
  cleanup_operation_id = operation_id;
  generation_id = codes "gen-a";
  operation_fence = 1;
  deletion_token = token;
  resource_role = codes "workload";
  namespace = codes "jwb";
  resource_name = codes "gen-a";
  expected_uid = holder;
  expected_resource_version = codes "7";
  attempt_state = planned;
}

abbrev tables : Tables
tables = record {
  operations = cleanup ∷ [];
  retirements = journal ∷ [];
  attempts = workload ∷ [];
  generations =
      record {
        source_identity = source;
        generation_id = codes "gen-a";
        backend_type = codes "oxigraph";
        state = retired;
        protection_state = retirement_in_progress;
        error_code = none;
        lifecycle_version = 4;
      }
      ∷ [];
  promotions = [];
  pointers =
      record {
        query_service_id = codes "main";
        source_identity = source;
        generation_id = some (codes "gen-b");
        previous_generation_id = none;
        version = 5;
      }
      ∷ [];
  syncs = [];
  releases = [];
  audits = [];
}

abbrev owner : Text → Owner
owner id = record { owner_id = id; owner_pod_uid = none; lease_ms = 15000 }

-- The holder within its lease, and later, and another coordinator then.
abbrev in_time : Caller
in_time = record { owner = owner holder; now = 1000; random_uuid = λ n. token }

abbrev too_late : Caller
too_late = record { owner = owner holder; now = 3000; random_uuid = λ n. token }

abbrev other : Caller
other = record { owner = owner token; now = 3000; random_uuid = λ n. token }

run_fenced-IsRefused_example : IsRefused (run_fenced too_late operation_id 1 authorizes) tables
unfolding text_eq is_live is_held_row has_row may_call
run_fenced-IsRefused_example = run_fenced-IsRefused too_late operation_id 1 tables authorizes refl

claim_next-supersedes_example :
    IsRefused (run_fenced too_late operation_id 1 (marks token)) (claim_next other tables).1
unfolding text_eq is_live has_row is_keyed first_where is_active is_lapsed is_claimable claimed
    claim_next
claim_next-supersedes_example =
    claim_next-supersedes tables tables (claim_next other tables).1 other too_late
      (claimed other cleanup) 1 (marks token) refl here refl here (ground arith)

Reaches-AllGoOn_example :
    AllGoOn
      (workload ∷ [])
      (run_change in_time (fenced operation_id 1 (marks token)) tables).1.attempts
Reaches-AllGoOn_example =
    Reaches-AllGoOn tables (run_change in_time (fenced operation_id 1 (marks token)) tables).1
      (further tables in_time (fenced operation_id 1 (marks token)) here)

abbrev pending : RetirementJournal
pending = record journal { state = physical_delete_pending; deletion_token = some token }

abbrev after : Tables
after = record tables {
  operations = record cleanup { lease_expires_at = some 16000 } ∷ [];
  retirements = pending ∷ [];
}

authorize_physical_deletion-IsAuthorized_example :
    IsAuthorized in_time operation_id 1 tables pending token after
unfolding text_eq is_live is_held_row has_row throw_if ◌>>=◌ check select_where update_where the_row
    transaction is_operation_state is_journal_state select_one updated_one is_uuid matches
    hex_digits require_uuid is_promoting has_no_reason collect protection_check is_retirable
    is_rollback_journal is_working_on is_syncing reasons_of eligibility_of evaluate_eligibility
    held_operation set_operations later_of extended is_as_expected is_same_epoch token_of
    is_deletable authorized authorize_body authorize_physical_deletion is_active
authorize_physical_deletion-IsAuthorized_example =
    authorize_physical_deletion-IsAuthorized in_time operation_id 1 tables after pending token refl

abbrev absent : AttemptRow
absent = record workload { attempt_state = absent_confirmed }

abbrev deleted : Tables
deleted = record after {
  attempts =
      absent
      ∷ record absent { resource_role = codes "service" }
      ∷ record absent { resource_role = codes "pvc" }
      ∷ [];
}

-- The generation that a rollback would have returned to.
abbrev protected_generation : LifecycleRow
protected_generation = record {
  source_identity = source;
  generation_id = codes "gen-a";
  backend_type = codes "oxigraph";
  state = retiring;
  protection_state = rollback_protected;
  error_code = none;
  lifecycle_version = 4;
}

abbrev pointer_at : PointerRow
pointer_at = record {
  query_service_id = codes "main";
  source_identity = source;
  generation_id = some (codes "gen-b");
  previous_generation_id = some (codes "gen-a");
  version = 5;
}

abbrev protected_tables : Tables
protected_tables = record tables {
  retirements = [];
  generations = protected_generation ∷ [];
  pointers = pointer_at ∷ [];
}

abbrev release_input : ReleaseInput
release_input = record {
  operation_id = operation_id;
  idempotency_key = codes "release-gen-a";
  source_identity = source;
  query_service_id = codes "main";
  generation_id = codes "gen-a";
  expected_serving_generation_id = codes "gen-b";
  expected_pointer_version = 5;
}

abbrev released : ReleaseRow
released = record {
  id = token;
  operation_id = operation_id;
  idempotency_key = codes "release-gen-a";
  source_identity = source;
  query_service_id = codes "main";
  generation_id = codes "gen-a";
  expected_serving_generation_id = codes "gen-b";
  expected_pointer_version = 5;
  resulting_pointer_version = 6;
  resulting_generation_version = 5;
}

abbrev released_tables : Tables
released_tables = record protected_tables {
  generations =
      record protected_generation { protection_state = unprotected; lifecycle_version = 5 } ∷ [];
  pointers = record pointer_at { previous_generation_id = none; version = 6 } ∷ [];
  releases = released ∷ [];
}

release_rollback_protection-again_example :
    release_rollback_protection other release_input released_tables ≡ (ok released, released_tables)
unfolding text_eq strip_prefix has_row throw_if ◌>>=◌ check select_where update_where the_row
    transaction is_journal_state updated_one select_one first_where found_or is_uuid matches
    hex_digits require_uuid all_slug is_slug is_generation_id all_source is_source identifiers
    check_generation_id check_query_id all_key is_request_key check_release is_same_release
    is_release_pointer is_promoting is_waiting is_retiring_now insert_release release_rows
    release_checked prior_release repeat_release release_rollback_protection Results.◌>>=◌
release_rollback_protection-again_example =
    release_rollback_protection-again in_time other release_input released protected_tables
      released_tables refl
