-- ===== src/Coordinator/Retirement.antt =====
-- The retirement of a generation in
-- services/rdf-sync/src/postgres-generation-coordinator-repository.js: scheduled, evaluated again
-- until nothing holds it, retired, and authorized to be deleted.
use custom_wikibase.Prelude.{
  ℕ, Bool, true, false, not, ◌&&◌, ◌||◌, Option, none, some, List, [], ◌∷◌, ◌++◌, Text, codes, ltb,
  text_eq, ok, err, Exec, pure, lift, gets, throw_if, ◌>>=◌, ◌>>◌, if◌then◌else◌,
}
use custom_wikibase.Serving.Tables.{select_where, transaction}
use custom_wikibase.Serving.Standalone.{first_row}
use custom_wikibase.Coordinator.{
  retirement_waiting, OperationType, retirement_operation, OperationRow, Position, JournalState,
  waiting_eligibility, is_journal_state, journal_code, Reason, held_by_rollback, RetirementJournal,
  Tables,
}
use custom_wikibase.Coordinator.Statements.{
  Caller, has_row, first_where, found_or, update_retirement,
}
use custom_wikibase.Coordinator.Checks.{require_uuid, identifiers, RebuildInput, check_request}
use custom_wikibase.Coordinator.Operations.{insert_operation}
use custom_wikibase.Coordinator.Release.{is_journal_of}
use custom_wikibase.Coordinator.Eligibility.{Eligibility, evaluate_eligibility}

abbrev pub is_retirement_of : Text → RetirementJournal → Bool
is_retirement_of operation r = text_eq r.operation_id operation

unfoldable pub new_journal_row :
    Text → Text → Text → Text → Option ℕ → Option ℕ → List Reason → RetirementJournal
new_journal_row id operation source generation pointer version reasons = record {
  id = id;
  operation_id = operation;
  source_identity = source;
  generation_id = generation;
  state = waiting_eligibility;
  expected_pointer_version = pointer;
  expected_generation_version = version;
  operation_fence = 0;
  deletion_token = none;
  eligibility_reasons = reasons;
  error_code = none;
}

abbrev add_retirement : RetirementJournal → Exec Tables RetirementJournal
add_retirement r db = (ok r, record db { retirements = db.retirements ++ r ∷ [] })

-- `beginRetirement`: a generation that has a retirement keeps it.
unfoldable pub begin_retirement : Caller → Text → Text → Text → Exec Tables RetirementJournal
begin_retirement c operation source id = do
  lift (require_uuid operation)
  lift (identifiers source id)
  found_or (λ db. first_where (is_journal_of source id) db.retirements) pure
      (add_retirement
        (new_journal_row (c.random_uuid 0) operation source id none none (held_by_rollback ∷ [])))

-- The states of `retirementTransition`.
unfoldable pub is_allowed_journal : JournalState → Bool
is_allowed_journal state = ltb (journal_code state) 11

-- `retirementTransition`.
unfoldable pub move_retirement : Text → JournalState → JournalState → Exec Tables RetirementJournal
move_retirement id from to = do
  lift (require_uuid id)
  throw_if (not (is_allowed_journal from && is_allowed_journal to))
      (codes "invalid retirement state")
  update_retirement (λ r. text_eq r.id id && is_journal_state r.state from)
      (λ r. record r { state = to }) (codes "RETIREMENT_STATE_CONFLICT")

-- `operationRetirement`.
unfoldable pub operation_retirement : Text → Exec Tables (Option RetirementJournal)
operation_retirement id =
    lift (require_uuid id)
    >> gets (λ db. first_row (select_where (is_retirement_of id) db.retirements))

-- What `scheduleCleanup` is given.
pub record CleanupInput : Type 0 where
  pub request_key : Text
  pub source_identity : Text
  pub query_service_id : Text
  pub generation_id : Text
  pub backend_type : Text

-- `new Date(0).toISOString()`.
abbrev epoch : Position
epoch = record { timestamp = codes "1970-01-01T00:00:00.000Z"; rcid = 0 }

abbrev cleanup_request : CleanupInput → RebuildInput
cleanup_request v = record {
  request_key = v.request_key;
  source_identity = v.source_identity;
  query_service_id = v.query_service_id;
  candidate_generation_id = v.generation_id;
  backend_type = v.backend_type;
  reason = codes "BACKEND_RECOVERY";
  snapshot_cursor = epoch;
  target_cursor = epoch;
}

abbrev is_retirement_type : OperationType → Bool
is_retirement_type retirement_operation = true
is_retirement_type _ = false

unfoldable pub is_same_cleanup : CleanupInput → OperationRow → Bool
is_same_cleanup v o =
    text_eq o.source_identity v.source_identity
    && text_eq o.query_service_id v.query_service_id
    && text_eq o.candidate_generation_id v.generation_id
    && text_eq o.backend_type v.backend_type
    && is_retirement_type o.operation_type

unfoldable pub new_cleanup : Caller → CleanupInput → Eligibility → OperationRow
new_cleanup c v e = record {
  id = c.random_uuid 0;
  request_key = v.request_key;
  source_identity = v.source_identity;
  query_service_id = v.query_service_id;
  candidate_generation_id = v.generation_id;
  backend_type = v.backend_type;
  requested_reason = codes "BACKEND_RECOVERY";
  state = retirement_waiting;
  operation_type = retirement_operation;
  expected_generation_id = some v.generation_id;
  expected_pointer_version = e.pointer_version;
  snapshot_cursor = some epoch;
  target_cursor = some epoch;
  claimed_by = none;
  owner_pod_uid = none;
  lease_expires_at = none;
  fence = 0;
  error_code = none;
}

-- A generation has one retirement.
unfoldable pub insert_retirement : RetirementJournal → Exec Tables (Unit {0})
insert_retirement r db =
    if has_row (λ q. text_eq q.id r.id || is_journal_of r.source_identity r.generation_id q)
      db.retirements
    then (err (codes "duplicate key value violates unique constraint"), db)
    else (ok tt, record db { retirements = db.retirements ++ r ∷ [] })

abbrev is_other_backend : Text → Option Text → Bool
is_other_backend backend none = false
is_other_backend backend (some b) = not (text_eq b backend)

unfoldable pub insert_cleanup : Caller → CleanupInput → Eligibility → Exec Tables OperationRow
insert_cleanup c v e = do
  throw_if (is_other_backend v.backend_type e.backend_type) (codes "GENERATION_BACKEND_MISMATCH")
  o ← insert_operation (new_cleanup c v e)
  insert_retirement (
      new_journal_row (c.random_uuid 1) (c.random_uuid 0) v.source_identity v.generation_id
        e.pointer_version e.generation_version e.reasons)
  pure o

unfoldable pub repeat_cleanup : CleanupInput → OperationRow → Exec Tables OperationRow
repeat_cleanup v o =
    throw_if (not (is_same_cleanup v o)) (codes "CLEANUP_IDEMPOTENCY_CONFLICT") >> pure o

-- `scheduleCleanup`.
unfoldable pub schedule_cleanup :
    (Text → Option ℕ) → Caller → CleanupInput → Exec Tables OperationRow
schedule_cleanup parse_date c v =
    lift (check_request parse_date (cleanup_request v))
    >> transaction (
        found_or (λ db. first_where (λ o. text_eq o.request_key v.request_key) db.operations)
          (repeat_cleanup v)
          (gets (evaluate_eligibility v.source_identity v.query_service_id v.generation_id none)
            >>= insert_cleanup c v))
