-- ===== src/Coordinator/Cleanup.antt =====
-- A retirement under a lease, in
-- services/rdf-sync/src/postgres-generation-coordinator-repository.js: evaluated again, the
-- generation retired, and its deletion authorized by a token.
use custom_wikibase.Prelude.{
  ℕ, ◌+◌, Bool, true, false, not, ◌&&◌, ◌||◌, Option, none, some, List, [], Text, codes, ◌==◌, ltb,
  text_eq, is_some, Exec, pure, lift, gets, modify, throw_if, ◌>>=◌, ◌>>◌, if◌then◌else◌,
}
use custom_wikibase.Serving.Tables.{
  retiring, retired, Protection, retirement_in_progress, update_where, transaction, is_retiring,
  is_unprotected,
}
use custom_wikibase.Coordinator.{
  OperationState, cleaning_up, retirement_waiting, is_operation_state, OperationRow,
  waiting_eligibility, retiring_journal, logically_retired, physical_delete_pending,
  retired_journal, is_journal_state, Reason, RetirementJournal, LifecycleRow, Tables,
}
use custom_wikibase.Coordinator.Statements.{
  Caller, is_held_row, update_operation, update_retirement, update_generation, select_one,
}
use custom_wikibase.Coordinator.Checks.{require_uuid}
use custom_wikibase.Coordinator.Operations.{is_operation, is_lifecycle}
use custom_wikibase.Coordinator.Eligibility.{Eligibility, has_no_reason, evaluate_eligibility}
use custom_wikibase.Coordinator.Retirement.{is_retirement_of}

-- The operation that the caller holds in a state.
unfoldable pub held_operation : Caller → Text → ℕ → OperationState → Exec Tables OperationRow
held_operation c id fence state =
    select_one (λ o. is_held_row c id fence o && is_operation_state o.state state)
      (codes "STALE_COORDINATOR_FENCE") (λ db. db.operations)

unfoldable pub set_journals :
    Text → (RetirementJournal → RetirementJournal) → Exec Tables (Unit {0})
set_journals operation set =
    modify (λ db. record db {
      retirements = update_where (is_retirement_of operation) set db.retirements;
    })

unfoldable pub set_operations : Text → (OperationRow → OperationRow) → Exec Tables (Unit {0})
set_operations id set =
    modify (λ db. record db { operations = update_where (is_operation id) set db.operations })

unfoldable pub released_operation : OperationState → Option Text → OperationRow → OperationRow
released_operation state code o = record o {
  state = state;
  error_code = code;
  claimed_by = none;
  lease_expires_at = none;
}

-- `{eligible:false,reasons}`, or the operation that goes on to clean up.
pub data Reevaluated : Type 0 where
  still_waiting : List Reason → Reevaluated
  goes_on : OperationRow → Reevaluated

-- Something still holds the generation: the reasons are noted and the lease is given back.
unfoldable pub keep_waiting : Text → List Reason → Exec Tables Reevaluated
keep_waiting id reasons = do
  set_journals id (λ r. record r { state = waiting_eligibility; eligibility_reasons = reasons })
  set_operations id
      (λ o. released_operation o.state (some (codes "RETIREMENT_WAITING_ELIGIBILITY")) o)
  pure (still_waiting reasons)

abbrev is_version : Option ℕ → ℕ → Bool
is_version none n = false
is_version (some m) n = m == n

-- Nothing does: the generation starts to retire under this fence.
unfoldable pub start_retiring : Text → ℕ → OperationRow → Eligibility → Exec Tables Reevaluated
start_retiring id fence o e = do
  g ←
      update_generation
        (λ g.
          is_lifecycle o.source_identity o.candidate_generation_id g
          && is_version e.generation_version g.lifecycle_version
          && is_unprotected g.protection_state)
        (λ g. record g {
          state = retiring;
          protection_state = retirement_in_progress;
          lifecycle_version = g.lifecycle_version + 1;
        })
        (codes "STALE_GENERATION_VERSION")
  set_journals id (λ r. record r {
    state = retiring_journal;
    eligibility_reasons = [];
    expected_pointer_version = e.pointer_version;
    expected_generation_version = some g.lifecycle_version;
    operation_fence = fence;
  })
  updated ←
      update_operation (is_operation id) (released_operation cleaning_up none) (codes "TypeError")
  pure (goes_on updated)

-- `reevaluatePendingRetirement`.
unfoldable pub reevaluate_pending_retirement : Caller → Text → ℕ → Exec Tables Reevaluated
reevaluate_pending_retirement c id fence =
    lift (require_uuid id)
    >> transaction (do
      o ← held_operation c id fence retirement_waiting
      e ← gets (
          evaluate_eligibility o.source_identity o.query_service_id o.candidate_generation_id
            (some id))
      if has_no_reason e.reasons then start_retiring id fence o e else keep_waiting id e.reasons)

-- `GREATEST(lease_expires_at, …)`.
unfoldable pub later_of : Option ℕ → ℕ → Option ℕ
later_of none b = some b
later_of (some a) b = some (if ltb a b then b else a)

unfoldable pub extended : Caller → OperationRow → OperationRow
extended c o = record o {
  lease_expires_at = later_of o.lease_expires_at (c.now + c.owner.lease_ms);
}

-- `Number(…)` of a version that may be absent.
abbrev pub number : Option ℕ → ℕ
number none = 0
number (some n) = n

-- `!eligibility.eligible||…`, of the versions that the retirement expects.
unfoldable pub is_as_expected : Eligibility → RetirementJournal → Bool
is_as_expected e r =
    has_no_reason e.reasons
    && is_version e.pointer_version (number r.expected_pointer_version)
    && is_version e.generation_version (number r.expected_generation_version)

unfoldable pub is_same_epoch : ℕ → RetirementJournal → Bool
is_same_epoch fence r =
    is_journal_state r.state physical_delete_pending
    && r.operation_fence == fence
    && is_some r.deletion_token

-- The token of this epoch.
unfoldable pub token_of : Caller → ℕ → RetirementJournal → Text
token_of c fence r = elim r.deletion_token [
  | none ↦ c.random_uuid 0
  | some t ↦ if is_same_epoch fence r then t else c.random_uuid 0
]

-- `state IN('RETIRED','LOGICALLY_RETIRED','PHYSICAL_DELETE_PENDING')`.
unfoldable pub is_deletable : RetirementJournal → Bool
is_deletable r =
    is_journal_state r.state retired_journal
    || is_journal_state r.state logically_retired
    || is_journal_state r.state physical_delete_pending

unfoldable pub authorized : Text → ℕ → RetirementJournal → RetirementJournal
authorized t fence r = record r {
  state = physical_delete_pending;
  deletion_token = some t;
  operation_fence = fence;
}

abbrev pub with_token : Text → RetirementJournal → Exec Tables (RetirementJournal × Text)
with_token t r = pure (r, t)

unfoldable pub authorize_body : Caller → Text → ℕ → Exec Tables (RetirementJournal × Text)
authorize_body c id fence = do
  o ← held_operation c id fence cleaning_up
  set_operations id (extended c)
  r ← select_one (is_retirement_of id) (codes "RETIREMENT_MISSING") (λ db. db.retirements)
  e ← gets (evaluate_eligibility o.source_identity o.query_service_id r.generation_id (some id))
  throw_if (not (is_as_expected e r)) (codes "RETIREMENT_WAITING_ELIGIBILITY")
  q ←
      update_retirement (λ q. text_eq q.id r.id && is_deletable q)
        (authorized (token_of c fence r) fence) (codes "RETIREMENT_STATE_CONFLICT")
  with_token (token_of c fence r) q

-- `authorizePhysicalDeletion`: the retirement, and the token under which its resources go.
unfoldable pub authorize_physical_deletion :
    Caller → Text → ℕ → Exec Tables (RetirementJournal × Text)
authorize_physical_deletion c id fence = do
  lift (require_uuid id)
  throw_if (not (ltb 0 fence)) (codes "invalid coordinator fence")
  transaction (authorize_body c id fence)

-- `lifecycle_version=$3` of a column that may be NULL.
unfoldable pub is_retiring_generation : RetirementJournal → LifecycleRow → Bool
is_retiring_generation r g =
    is_lifecycle r.source_identity r.generation_id g
    && is_retiring g.state
    && is_retirement g.protection_state
    && is_version r.expected_generation_version g.lifecycle_version
  where
    is_retirement : Protection → Bool
    is_retirement retirement_in_progress = true
    is_retirement _ = false

unfoldable pub retire_rows : RetirementJournal → Exec Tables RetirementJournal
retire_rows r = do
  g ←
      update_generation (is_retiring_generation r)
        (λ g. record g { state = retired; lifecycle_version = g.lifecycle_version + 1 })
        (codes "STALE_GENERATION_VERSION")
  update_retirement (λ q. text_eq q.id r.id)
      (λ q. record q {
        state = logically_retired;
        expected_generation_version = some g.lifecycle_version;
      })
      (codes "TypeError")

unfoldable pub retire_body : Caller → Text → ℕ → Exec Tables RetirementJournal
retire_body c id fence = do
  o ← held_operation c id fence cleaning_up
  r ← select_one (is_retirement_of id) (codes "RETIREMENT_MISSING") (λ db. db.retirements)
  if is_journal_state r.state logically_retired || is_journal_state r.state physical_delete_pending
      then pure r
      else (throw_if (not (is_journal_state r.state retiring_journal))
            (codes "RETIREMENT_STATE_CONFLICT")
          >> retire_rows r)

-- `markGenerationRetired`.
unfoldable pub mark_generation_retired : Caller → Text → ℕ → Exec Tables RetirementJournal
mark_generation_retired c id fence = do
  lift (require_uuid id)
  throw_if (not (ltb 0 fence)) (codes "invalid coordinator fence")
  transaction (retire_body c id fence)
