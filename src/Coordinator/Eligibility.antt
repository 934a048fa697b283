-- ===== src/Coordinator/Eligibility.antt =====
-- `evaluateEligibility` of services/rdf-sync/src/postgres-generation-coordinator-repository.js:
-- the reasons that keep a generation from being retired.
use custom_wikibase.Prelude.{
  ℕ, Bool, true, false, not, ◌&&◌, ◌||◌, Option, none, some, List, [], ◌∷◌, Text, codes, text_eq,
  is_some, Exec, lift, gets, ◌>>◌, if◌then◌else◌,
}
use custom_wikibase.Serving.Tables.{
  GenerationState, retiring, retired, failed, Protection, rollback_protected, serving_protected,
  promotion_in_progress, retirement_in_progress, unprotected, PointerRow, select_where, the_row,
  option_eq, is_serving,
}
use custom_wikibase.Coordinator.{
  OperationRow, is_active, Reason, serving_pointer_missing, generation_missing, generation_serving,
  held_by_rollback, held_by_serving, held_by_promotion, held_by_retirement, serving_pointer_current,
  serving_pointer_previous, lifecycle_state_not_retirable, promotion_incomplete,
  rollback_incomplete, lifecycle_operation_active, sync_active, RetirementJournal,
  protected_journal, is_journal_state, LifecycleRow, CatchUpRow, Tables,
}
use custom_wikibase.Coordinator.Statements.{has_row}
use custom_wikibase.Coordinator.Checks.{identifiers, check_query_id}
use custom_wikibase.Coordinator.Operations.{is_lifecycle}
use custom_wikibase.Coordinator.Release.{is_promoting, is_journal_of}

pub record Eligibility : Type 0 where
  pub reasons : List Reason
  pub pointer_version : Option ℕ
  pub generation_version : Option ℕ
  pub backend_type : Option Text

-- `eligible: reasons.length===0`.
unfoldable pub has_no_reason : List Reason → Bool
has_no_reason [] = true
has_no_reason (r ∷ l) = false

-- `if(test)reasons.push(reason)`, one after the other.
unfoldable pub collect : List (Bool × Reason) → List Reason
collect [] = []
collect ((t, r) ∷ l) = if t then r ∷ collect l else collect l

-- What the protection says; a retirement under way is no reason for the operation that retires.
unfoldable pub protection_check : Option Text → Protection → Bool × Reason
protection_check operation rollback_protected = (true, held_by_rollback)
protection_check operation serving_protected = (true, held_by_serving)
protection_check operation promotion_in_progress = (true, held_by_promotion)
protection_check operation retirement_in_progress = (not (is_some operation), held_by_retirement)
protection_check operation unprotected = (false, held_by_retirement)

-- `['RETIRING','RETIRED','FAILED'].includes(g.state)`.
unfoldable pub is_retirable : GenerationState → Bool
is_retirable retiring = true
is_retirable retired = true
is_retirable failed = true
is_retirable _ = false

unfoldable pub is_rollback_journal : Text → Text → RetirementJournal → Bool
is_rollback_journal source id r =
    is_journal_of source id r && is_journal_state r.state protected_journal

-- `$4::uuid IS NULL OR id<>$4::uuid`.
abbrev is_other : Option Text → Text → Bool
is_other none id = true
is_other (some operation) id = not (text_eq id operation)

-- An active operation on the generation, but the one that retires it.
unfoldable pub is_working_on : Text → Text → Option Text → OperationRow → Bool
is_working_on source id operation o =
    text_eq o.source_identity source
    && text_eq o.candidate_generation_id id
    && is_active o.state
    && is_other operation o.id

unfoldable pub is_syncing : Text → Text → CatchUpRow → Bool
is_syncing source id y =
    text_eq y.source_identity source
    && text_eq y.generation_id id
    && (text_eq y.state (codes "BOOTSTRAPPING") || text_eq y.state (codes "CATCHING_UP"))

abbrev pub is_service_pointer : Text → Text → PointerRow → Bool
is_service_pointer service source p =
    text_eq p.query_service_id service && text_eq p.source_identity source

-- The reasons of the rows that there are, in the order in which they are found.
unfoldable pub reasons_of :
    Text → Text → Option Text → PointerRow → LifecycleRow → Tables → List Reason
reasons_of source id operation p g db = collect (
    (is_serving g.state, generation_serving)
    ∷ protection_check operation g.protection_state
    ∷ (option_eq p.generation_id (some id), serving_pointer_current)
    ∷ (option_eq p.previous_generation_id (some id), serving_pointer_previous)
    ∷ (not (is_retirable g.state), lifecycle_state_not_retirable)
    ∷ (has_row (is_promoting source id) db.promotions, promotion_incomplete)
    ∷ (has_row (is_rollback_journal source id) db.retirements, rollback_incomplete)
    ∷ (has_row (is_working_on source id operation) db.operations, lifecycle_operation_active)
    ∷ (has_row (is_syncing source id) db.syncs, sync_active)
    ∷ [])

abbrev missing : List Reason → Eligibility
missing reasons = record {
  reasons = reasons;
  pointer_version = none;
  generation_version = none;
  backend_type = none;
}

unfoldable pub eligibility_of :
    Text → Text → Option Text → Option PointerRow → Option LifecycleRow → Tables → Eligibility
eligibility_of source id operation none none db =
    missing (serving_pointer_missing ∷ generation_missing ∷ [])
eligibility_of source id operation none (some g) db = missing (serving_pointer_missing ∷ [])
eligibility_of source id operation (some p) none db = missing (generation_missing ∷ [])
eligibility_of source id operation (some p) (some g) db = record {
  reasons = reasons_of source id operation p g db;
  pointer_version = some p.version;
  generation_version = some g.lifecycle_version;
  backend_type = some g.backend_type;
}

-- `evaluateEligibility`.
unfoldable pub evaluate_eligibility : Text → Text → Text → Option Text → Tables → Eligibility
evaluate_eligibility source service id operation db =
    eligibility_of source id operation
      (the_row (select_where (is_service_pointer service source) db.pointers))
      (the_row (select_where (is_lifecycle source id) db.generations)) db

-- `evaluateRetirementEligibility`.
unfoldable pub evaluate_retirement_eligibility : Text → Text → Text → Exec Tables Eligibility
evaluate_retirement_eligibility source service id = do
  lift (identifiers source id)
  lift (check_query_id service)
  gets (evaluate_eligibility source service id none)
