-- ===== src/Coordinator/Operations.antt =====
-- The operations of a coordinator in
-- services/rdf-sync/src/postgres-generation-coordinator-repository.js: requested, claimed under a
-- lease with a fence, and moved from state to state by the one that holds the lease.
use custom_wikibase.Prelude.{
  ℕ, ◌+◌, Bool, true, not, ◌&&◌, ◌||◌, Option, none, some, [], ◌∷◌, ◌++◌, Text, codes, ltb, ◌==◌,
  text_eq, is_some, ok, err, Exec, pure, lift, throw_if, ◌>>◌, if◌then◌else◌,
}
use custom_wikibase.Serving.Tables.{
  GenerationState, creating, PointerRow, unprotected, update_where,
}
use custom_wikibase.Coordinator.{
  OperationState, rebuild_requested, is_active, is_operation_state, promotion_operation,
  OperationRow, LifecycleRow, Tables,
}
use custom_wikibase.Coordinator.Statements.{
  Caller, is_held_row, has_row, first_where, found_or, update_operation, update_generation,
  select_one,
}
use custom_wikibase.Coordinator.Checks.{
  require_uuid, identifiers, Fields, check_fields, RebuildInput, check_request,
}

abbrev pub is_operation : Text → OperationRow → Bool
is_operation id o = text_eq o.id id

abbrev is_requested : Text → OperationRow → Bool
is_requested key o = text_eq o.request_key key

abbrev pub is_taken : OperationRow → OperationRow → Bool
is_taken o q = is_operation o.id q || is_requested o.request_key q

-- `INSERT INTO rdf_coordinator_operation`, with its primary key and its unique request key.
unfoldable pub insert_operation : OperationRow → Exec Tables OperationRow
insert_operation o db =
    if has_row (is_taken o) db.operations
    then (err (codes "duplicate key value violates unique constraint"), db)
    else (ok o, record db { operations = db.operations ++ o ∷ [] })

unfoldable pub new_operation : Caller → RebuildInput → OperationRow
new_operation c v = record {
  id = c.random_uuid 0;
  request_key = v.request_key;
  source_identity = v.source_identity;
  query_service_id = v.query_service_id;
  candidate_generation_id = v.candidate_generation_id;
  backend_type = v.backend_type;
  requested_reason = v.reason;
  state = rebuild_requested;
  operation_type = promotion_operation;
  expected_generation_id = none;
  expected_pointer_version = none;
  snapshot_cursor = some v.snapshot_cursor;
  target_cursor = some v.target_cursor;
  claimed_by = none;
  owner_pod_uid = none;
  lease_expires_at = none;
  fence = 0;
  error_code = none;
}

-- `request`: a key that was requested before gives the operation of then.
unfoldable pub request_operation :
    (Text → Option ℕ) → Caller → RebuildInput → Exec Tables OperationRow
request_operation parse_date c v =
    lift (check_request parse_date v)
    >> found_or (λ db. first_where (is_requested v.request_key) db.operations) pure
        (insert_operation (new_operation c v))

-- `lease_expires_at IS NULL OR lease_expires_at<now()`.
unfoldable pub is_lapsed : ℕ → Option ℕ → Bool
is_lapsed now none = true
is_lapsed now (some t) = ltb t now

unfoldable pub is_claimable : Caller → OperationRow → Bool
is_claimable c o = is_active o.state && is_lapsed c.now o.lease_expires_at

unfoldable pub claimed : Caller → OperationRow → OperationRow
claimed c o = record o {
  claimed_by = some c.owner.owner_id;
  owner_pod_uid = c.owner.owner_pod_uid;
  lease_expires_at = some (c.now + c.owner.lease_ms);
  fence = o.fence + 1;
}

-- `claimNext`; the rows that another transaction has locked are not skipped, since calls follow
-- one another.
unfoldable pub claim_next : Caller → Exec Tables (Option OperationRow)
claim_next c db = elim (first_where (is_claimable c) db.operations) [
  | none ↦ (ok none, db)
  | some o ↦ (
    ok (some (claimed c o)),
    record db { operations = update_where (is_operation o.id) (claimed c) db.operations },
  )
]

-- `load`.
unfoldable pub load_operation : Text → Exec Tables OperationRow
load_operation id =
    lift (require_uuid id)
    >> select_one (is_operation id) (codes "COORDINATOR_OPERATION_MISSING") (λ db. db.operations)

-- `COALESCE`.
unfoldable pub coalesce : {A : Type 0} → Option A → Option A → Option A
coalesce none old = old
coalesce (some a) old = some a

unfoldable pub moved_operation : OperationState → Fields → OperationRow → OperationRow
moved_operation to f o = record o {
  state = to;
  expected_generation_id = coalesce f.expected_generation_id o.expected_generation_id;
  expected_pointer_version = coalesce f.expected_pointer_version o.expected_pointer_version;
  snapshot_cursor = coalesce f.snapshot_cursor o.snapshot_cursor;
  target_cursor = coalesce f.target_cursor o.target_cursor;
  error_code = f.error_code;
  claimed_by = none;
  lease_expires_at = none;
}

-- `transition`.
unfoldable pub move_operation :
    Caller → Text → ℕ → OperationState → OperationState → Fields → Exec Tables OperationRow
move_operation c id fence from to f = do
  lift (require_uuid id)
  throw_if (not (ltb 0 fence)) (codes "invalid coordinator fence")
  lift (check_fields f)
  update_operation (λ o. is_held_row c id fence o && is_operation_state o.state from)
      (moved_operation to f) (codes "COORDINATOR_FENCE_CONFLICT")

abbrev pub is_lifecycle : Text → Text → LifecycleRow → Bool
is_lifecycle source id g = text_eq g.source_identity source && text_eq g.generation_id id

unfoldable pub new_generation : OperationRow → LifecycleRow
new_generation o = record {
  source_identity = o.source_identity;
  generation_id = o.candidate_generation_id;
  backend_type = o.backend_type;
  state = creating;
  protection_state = unprotected;
  error_code = none;
  lifecycle_version = 1;
}

abbrev insert_generation : LifecycleRow → Exec Tables LifecycleRow
insert_generation g db = (ok g, record db { generations = db.generations ++ g ∷ [] })

-- `ensureGeneration`: a generation that is there stays as it is. The cursor of the operation is read
-- before the statement.
unfoldable pub ensure_generation : OperationRow → Exec Tables LifecycleRow
ensure_generation o =
    throw_if (not (is_some o.snapshot_cursor)) (codes "TypeError")
    >> found_or
        (λ db.
          first_where (is_lifecycle o.source_identity o.candidate_generation_id) db.generations)
        pure (insert_generation (new_generation o))

abbrev generation_code : GenerationState → ℕ
generation_code GenerationState.creating = 0
generation_code GenerationState.loading = 1
generation_code GenerationState.catching_up = 2
generation_code GenerationState.validating = 3
generation_code GenerationState.ready = 4
generation_code GenerationState.serving = 5
generation_code GenerationState.retiring = 6
generation_code GenerationState.retired = 7
generation_code GenerationState.failed = 8

-- `setGenerationState`.
unfoldable pub set_generation_state :
    Text → Text → GenerationState → GenerationState → Option Text → Exec Tables LifecycleRow
set_generation_state source id from to code =
    lift (identifiers source id)
    >> update_generation
        (λ g. is_lifecycle source id g && generation_code g.state == generation_code from)
        (λ g. record g {
          state = to;
          error_code = code;
          lifecycle_version = g.lifecycle_version + 1;
        })
        (codes "GENERATION_STATE_CONFLICT")

-- `pointer`.
unfoldable pub load_pointer : Text → Exec Tables PointerRow
load_pointer service =
    select_one (λ p. text_eq p.query_service_id service) (codes "SERVING_POINTER_MISSING")
      (λ db. db.pointers)
