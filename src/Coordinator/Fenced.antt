-- ===== src/Coordinator/Fenced.antt =====
-- A coordinator that no longer has what a call asks for, because its lease has run out or because
-- another one has claimed the operation since.
use custom_wikibase.Prelude.{
  ◌≡◌, refl, Bool, false, ◌&&◌, Option, List, Text, codes, ℕ, some, arith,
}
use custom_wikibase.Serving.Tables.{option_eq}
use custom_wikibase.Coordinator.{
  OperationState, RetirementJournal, physical_delete_pending, is_journal_state, AttemptState,
  AttemptRow, Tables, is_operation_state,
}
use custom_wikibase.Coordinator.Statements.{Caller, is_held_row, is_held, has_row}
use custom_wikibase.Coordinator.Checks.{Fields, Resource}
use custom_wikibase.Coordinator.Operations.{move_operation}
use custom_wikibase.Coordinator.Retirement.{is_retirement_of}
use custom_wikibase.Coordinator.Cleanup.{
  held_operation, reevaluate_pending_retirement, authorize_body, authorize_physical_deletion,
  retire_body, mark_generation_retired,
}
use custom_wikibase.Coordinator.Deletion.{
  has_authority, authority, record_deletion_plan, is_attempt_in, update_attempts,
  delete_attempt_state, mark_deletion_fence, record_deletion_intent, record_deletion_accepted,
  record_absence_confirmed, record_deletion_progress, assert_deletion_authority,
}
use custom_wikibase.Coordinator.Conclusion.{
  is_all_gone, is_owned_row, record_deletion_failure, confirm_physical_deletion, finalize_retired,
  finalize_retirement,
}
use custom_wikibase.Coordinator.Calls.{
  Fenced, moves, reevaluates, authorizes, retires, finalizes, plans, marks, intends, accepts,
  confirms_absence, progresses, asserts, confirms, fails, run_fenced, may_call,
}
use custom_wikibase.Coordinator.Rows.{
  has_row-select, select_where-nil, IsRefused, bind-IsRefused, lift-IsRefused, throw_if-IsRefused,
  transaction-IsRefused, select_one-IsRefused, joining-IsRefused, update_operation-IsRefused,
  update_retirement-IsRefused,
}

module _ (c : Caller) (id : Text) (fence : ℕ) (db : Tables)
    (lost : is_held c id fence db ≡ false) where
  move_operation-IsRefused :
      (from to : OperationState) (f : Fields) → IsRefused (move_operation c id fence from to f) db
  unfolding move_operation
  move_operation-IsRefused from to f = lift-IsRefused _ _ _ (λ _. throw_if-IsRefused _ _ _ _ (
      lift-IsRefused _ _ _ (λ _.
        update_operation-IsRefused (is_held_row c id fence) (λ o. is_operation_state o.state from) _
          _ db lost)))

  held_operation-IsRefused : (s : OperationState) → IsRefused (held_operation c id fence s) db
  unfolding held_operation
  held_operation-IsRefused s =
      select_one-IsRefused _ _ _ _
        (has_row-select _ (λ o. is_operation_state o.state s) db.operations lost)

  reevaluate-IsRefused : IsRefused (reevaluate_pending_retirement c id fence) db
  unfolding reevaluate_pending_retirement
  reevaluate-IsRefused =
      lift-IsRefused _ _ _
        (λ _. transaction-IsRefused _ _ (bind-IsRefused _ _ _ (held_operation-IsRefused _)))

  authorize-IsRefused : IsRefused (authorize_physical_deletion c id fence) db
  unfolding authorize_physical_deletion authorize_body
  authorize-IsRefused = lift-IsRefused _ _ _ (λ _.
      throw_if-IsRefused _ _ _ _
        (transaction-IsRefused _ _ (bind-IsRefused _ _ _ (held_operation-IsRefused _))))

  retire-IsRefused : IsRefused (mark_generation_retired c id fence) db
  unfolding mark_generation_retired retire_body
  retire-IsRefused = lift-IsRefused _ _ _ (λ _.
      throw_if-IsRefused _ _ _ _
        (transaction-IsRefused _ _ (bind-IsRefused _ _ _ (held_operation-IsRefused _))))

  has_authority-false :
      (token : Text) (r : RetirementJournal) → has_authority c id fence token db r ≡ false
  unfolding has_authority
  has_authority-false token r = rw lost refl

  authority-IsRefused : (token : Text) → IsRefused (authority c id fence token) db
  unfolding authority
  authority-IsRefused token =
      joining-IsRefused _ _ (
        select_one-IsRefused _ _ _ _
          (select_where-nil _ db.retirements (has_authority-false token)))

  finalize-IsRefused : IsRefused (finalize_retirement c id fence) db
  unfolding finalize_retirement finalize_retired
  finalize-IsRefused = lift-IsRefused _ _ _ (λ _. throw_if-IsRefused _ _ _ _ (
      transaction-IsRefused _ _ (
        bind-IsRefused _ _ _ (
          joining-IsRefused _ _
            (select_one-IsRefused _ _ _ _ (select_where-nil _ db.retirements unheld))))))
    where
      unheld : (r : RetirementJournal) → is_held c id fence db && is_retirement_of id r ≡ false
      unheld r = rw lost refl

  plan-IsRefused :
      (token : Text) (l : List Resource) → IsRefused (record_deletion_plan c id fence token l) db
  unfolding record_deletion_plan
  plan-IsRefused token l = lift-IsRefused _ _ _ (λ _. lift-IsRefused _ _ _ (λ _.
      throw_if-IsRefused _ _ _ _
        (transaction-IsRefused _ _ (bind-IsRefused _ _ _ (authority-IsRefused token)))))

  assert-IsRefused : (token : Text) → IsRefused (assert_deletion_authority c id fence token) db
  unfolding assert_deletion_authority
  assert-IsRefused token =
      lift-IsRefused _ _ _
        (λ _. lift-IsRefused _ _ _ (λ _. bind-IsRefused _ _ _ (authority-IsRefused token)))

  update_attempts-IsRefused :
      (test : AttemptRow → Bool) (to : AttemptState)
      → ((a : AttemptRow) → test a ≡ false)
      → IsRefused (update_attempts test to) db
  unfolding update_attempts IsRefused
  update_attempts-IsRefused test to h =
      (codes "STALE_COORDINATOR_FENCE", ground (arith, select_where-nil test db.attempts h))

  attempts-IsRefused :
      (token : Text) (role uid : Option Text) (from : List AttemptState) (to : AttemptState)
      → IsRefused (delete_attempt_state c id fence token role uid from to) db
  unfolding delete_attempt_state is_attempt_in
  attempts-IsRefused token role uid from to = lift-IsRefused _ _ _ (λ _. lift-IsRefused _ _ _ (λ _.
      throw_if-IsRefused _ _ _ _ (joining-IsRefused _ _ (update_attempts-IsRefused _ to unheld))))
    where
      unheld : (a : AttemptRow) → is_attempt_in c id fence token role uid from db a ≡ false
      unheld a = rw lost refl

  confirm-IsRefused : (token : Text) → IsRefused (confirm_physical_deletion c id fence token) db
  unfolding confirm_physical_deletion
  confirm-IsRefused token = lift-IsRefused _ _ _ (λ _. lift-IsRefused _ _ _ (λ _.
      throw_if-IsRefused _ _ _ _
        (joining-IsRefused _ _ (update_retirement-IsRefused _ _ _ _ gone))))
    where
      gone :
          (r : RetirementJournal)
          → has_authority c id fence token db r && is_all_gone id fence token db ≡ false
      gone r = rw (has_authority-false token r) refl

failure-IsRefused :
    (c : Caller) (id : Text) (fence : ℕ) (db : Tables)
    → has_row (is_owned_row c id fence) db.operations ≡ false
    → (token code : Text) → IsRefused (record_deletion_failure c id fence token code) db
unfolding record_deletion_failure
failure-IsRefused c id fence db lost token code = lift-IsRefused _ _ _ (λ _.
    lift-IsRefused _ _ _ (λ _.
      throw_if-IsRefused _ _ _ _
        (joining-IsRefused _ _ (update_retirement-IsRefused _ _ _ _ unowned))))
  where
    unowned :
        (r : RetirementJournal)
        → (has_row (is_owned_row c id fence) db.operations
            && is_retirement_of id r
            && is_journal_state r.state physical_delete_pending
            && option_eq r.deletion_token (some token))
          ≡ false
    unowned r = rw lost refl

-- A coordinator that lacks what a fenced call asks for is refused, and the call changes nothing.
-- recordDeletionFailure asks only that the operation is claimed by the coordinator under the fence
-- that it calls with, every other call also that the lease has not run out.
pub run_fenced-IsRefused :
    (c : Caller) (id : Text) (fence : ℕ) (db : Tables) (call : Fenced)
    → may_call c id fence db call ≡ false
    → IsRefused (run_fenced c id fence call) db
unfolding may_call run_fenced mark_deletion_fence record_deletion_intent record_deletion_accepted
    record_absence_confirmed record_deletion_progress
run_fenced-IsRefused c id fence db (moves from to f) h =
    bind-IsRefused _ _ _ ((move_operation-IsRefused c id fence db h) from to f)
run_fenced-IsRefused c id fence db reevaluates h =
    bind-IsRefused _ _ _ (reevaluate-IsRefused c id fence db h)
run_fenced-IsRefused c id fence db authorizes h =
    bind-IsRefused _ _ _ (authorize-IsRefused c id fence db h)
run_fenced-IsRefused c id fence db retires h =
    bind-IsRefused _ _ _ (retire-IsRefused c id fence db h)
run_fenced-IsRefused c id fence db finalizes h =
    bind-IsRefused _ _ _ (finalize-IsRefused c id fence db h)
run_fenced-IsRefused c id fence db (plans token l) h = (plan-IsRefused c id fence db h) token l
run_fenced-IsRefused c id fence db (marks token) h =
    bind-IsRefused _ _ _ ((attempts-IsRefused c id fence db h) token _ _ _ _)
run_fenced-IsRefused c id fence db (intends token role uid version) h =
    bind-IsRefused _ _ _
      (lift-IsRefused _ _ _ (λ _. (attempts-IsRefused c id fence db h) token _ _ _ _))
run_fenced-IsRefused c id fence db (accepts token role uid) h =
    bind-IsRefused _ _ _ ((attempts-IsRefused c id fence db h) token _ _ _ _)
run_fenced-IsRefused c id fence db (confirms_absence token role uid) h =
    bind-IsRefused _ _ _ ((attempts-IsRefused c id fence db h) token _ _ _ _)
run_fenced-IsRefused c id fence db (progresses token role uid) h =
    bind-IsRefused _ _ _
      (lift-IsRefused _ _ _ (λ _. (attempts-IsRefused c id fence db h) token _ _ _ _))
run_fenced-IsRefused c id fence db (asserts token) h =
    bind-IsRefused _ _ _ ((assert-IsRefused c id fence db h) token)
run_fenced-IsRefused c id fence db (confirms token) h =
    bind-IsRefused _ _ _ ((confirm-IsRefused c id fence db h) token)
run_fenced-IsRefused c id fence db (fails token code) h =
    bind-IsRefused _ _ _ (failure-IsRefused c id fence db h token code)
