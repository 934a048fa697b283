-- ===== src/Coordinator/Invariants.antt =====
-- Every call of services/rdf-sync/src/postgres-generation-coordinator-repository.js, in any order,
-- keeps an invariant of the operations and attempts that the statements on these two keep.
use custom_wikibase.Prelude.{
  ◌≡◌, true, Option, List, [], ◌∷◌, Text, ℕ, ◌≤◌, suc, Exec, lift, ◌>>=◌, ◌>>◌, arith,
}
use custom_wikibase.Prelude.Runs.{Keeps}
use custom_wikibase.Coordinator.{
  OperationRow, OperationState, AttemptState, attempt_code, AttemptRow, Tables,
}
use custom_wikibase.Coordinator.Statements.{Caller}
use custom_wikibase.Coordinator.Checks.{Fields, RebuildInput, Resource, is_role, check_resource}
use custom_wikibase.Coordinator.Operations.{request_operation, move_operation}
use custom_wikibase.Coordinator.Eligibility.{Eligibility}
use custom_wikibase.Coordinator.Retirement.{
  CleanupInput, insert_cleanup, repeat_cleanup, schedule_cleanup,
}
use custom_wikibase.Coordinator.Cleanup.{
  keep_waiting, start_retiring, reevaluate_pending_retirement, authorize_body,
  authorize_physical_deletion,
}
use custom_wikibase.Coordinator.Deletion.{
  planned_attempt, plan_resources, record_deletion_plan, is_attempt_in, is_one_of,
  delete_attempt_state, mark_deletion_fence, record_deletion_intent, record_deletion_accepted,
  record_absence_confirmed, record_deletion_progress,
}
use custom_wikibase.Coordinator.Calls.{
  Fenced, moves, reevaluates, authorizes, retires, finalizes, plans, marks, intends, accepts,
  confirms_absence, progresses, asserts, confirms, fails, run_fenced, Change, fenced, requests,
  claims, ensures, sets_state, prepares, swaps, verifies, finalizes_promotion, releases_rollback,
  begins_retirement, moves_retirement, schedules, run_change, Reaches, here, further,
}
use custom_wikibase.Coordinator.Kept.{
  IsInvariant, Holds, checked-Keeps, select_one-Keeps, transaction-Keeps, joining-Keeps,
  found_or-Keeps, if-Keeps, gets-Keeps, pure-Keeps, update_operation-Keeps, set_operations-Keeps,
  insert_operation-Keeps, update_attempts-Keeps, claim_next-Keeps,
}
use custom_wikibase.Coordinator.Preserved

module _ (Q : List OperationRow → List AttemptRow → Type 0) (h : IsInvariant Q) where
  abbrev KeepsQ : {A : Type 0} → Exec Tables A → Type 0
  KeepsQ m = Keeps (Holds Q) m

  abbrev first :
      {A B : Type 0} (m : Exec Tables A) (k : A → Exec Tables B)
      → KeepsQ m
      → ((a : A) → KeepsQ (k a))
      → KeepsQ (m >>= k)
  first = Preserved.first Q

  request-Keeps :
      (parse_date : Text → Option ℕ) (c : Caller) (v : RebuildInput)
      → KeepsQ (request_operation parse_date c v)
  unfolding request_operation
  request-Keeps parse_date c v =
      Preserved.check Q _ _ (found_or-Keeps Q _ _ _ (pure-Keeps Q) (insert_operation-Keeps Q h _))

  move-Keeps :
      (c : Caller) (id : Text) (fence : ℕ) (from to : OperationState) (f : Fields)
      → KeepsQ (move_operation c id fence from to f)
  unfolding move_operation
  move-Keeps c id fence from to f = Preserved.check Q _ _ (
      Preserved.guard Q _ _ _ (
        Preserved.check Q _ _
          (update_operation-Keeps Q h _ _ _ (Preserved.moved_operation-KeepsFence to f))))

  schedule-Keeps :
      (parse_date : Text → Option ℕ) (c : Caller) (v : CleanupInput)
      → KeepsQ (schedule_cleanup parse_date c v)
  unfolding schedule_cleanup insert_cleanup repeat_cleanup
  schedule-Keeps parse_date c v = Preserved.check Q _ _ (
      transaction-Keeps Q _ (
        found_or-Keeps Q _ _ _ (λ o. Preserved.guard Q _ _ _ (pure-Keeps Q o))
          (first _ _ (gets-Keeps Q _) (λ e. Preserved.guard Q _ _ _ (
            first _ _ (insert_operation-Keeps Q h _)
              (λ o. first _ _ (Preserved.insert_retirement-Keeps Q _) (λ _. pure-Keeps Q o)))))))

  keep_waiting-Keeps : (id : Text) (e : Eligibility) → KeepsQ (keep_waiting id e.reasons)
  unfolding keep_waiting
  keep_waiting-Keeps id e = first _ _ (Preserved.set_journals-Keeps Q id _) (λ _.
      first _ _ (set_operations-Keeps Q h id _ (Preserved.waiting-KeepsFence _))
        (λ _. pure-Keeps Q _))

  start_retiring-Keeps :
      (id : Text) (fence : ℕ) (o : OperationRow) (e : Eligibility)
      → KeepsQ (start_retiring id fence o e)
  unfolding start_retiring
  start_retiring-Keeps id fence o e = first _ _ (Preserved.update_generation-Keeps Q _ _ _) (λ g.
      first _ _ (Preserved.set_journals-Keeps Q id _) (λ _.
        first _ _ (update_operation-Keeps Q h _ _ _ (Preserved.released_operation-KeepsFence _ _))
          (λ updated. pure-Keeps Q _)))

  reevaluate-Keeps :
      (c : Caller) (id : Text) (fence : ℕ) → KeepsQ (reevaluate_pending_retirement c id fence)
  unfolding reevaluate_pending_retirement
  reevaluate-Keeps c id fence = Preserved.check Q _ _ (
      transaction-Keeps Q _ (
        first _ _ (Preserved.held_operation-Keeps Q c id fence _) (λ o.
          first _ _ (gets-Keeps Q _)
            (λ e. if-Keeps Q _ _ _ (start_retiring-Keeps id fence o e) (keep_waiting-Keeps id e)))))

  authorize-Keeps :
      (c : Caller) (id : Text) (fence : ℕ) → KeepsQ (authorize_physical_deletion c id fence)
  unfolding authorize_physical_deletion authorize_body
  authorize-Keeps c id fence = Preserved.check Q _ _ (
      Preserved.guard Q _ _ _ (
        transaction-Keeps Q _ (
          first _ _ (Preserved.held_operation-Keeps Q c id fence _) (λ o.
            first _ _ (set_operations-Keeps Q h id _ (Preserved.extended-KeepsFence c)) (λ _.
              first _ _ (select_one-Keeps Q _ _ _) (λ r. first _ _ (gets-Keeps Q _) (λ e.
                Preserved.guard Q _ _ _ (
                  first _ _ (Preserved.update_retirement-Keeps Q _ _ _)
                    (λ q. pure-Keeps Q _)))))))))

  -- A resource that passes its check has one of the three roles.
  resource-Keeps :
      (r : Resource) (k : Exec Tables (Unit {0}))
      → (is_role r.kind ≡ true → KeepsQ k)
      → KeepsQ (lift (check_resource r) >> k)
  unfolding check_resource
  resource-Keeps r k next = checked-Keeps Q _ _ k (λ e. next (ground arith))

  plan_resources-Keeps :
      (c : Caller) (id generation : Text) (fence : ℕ) (token : Text) (n : ℕ) (l : List Resource)
      → KeepsQ (plan_resources c id generation fence token n l)
  unfolding plan_resources planned_attempt
  plan_resources-Keeps c id generation fence token n [] = pure-Keeps Q tt
  plan_resources-Keeps c id generation fence token n (r ∷ l) = resource-Keeps r _ (λ role.
      first _ _
        (Preserved.add-Keeps Q _ _ (λ db q.
          h.plans (planned_attempt (c.random_uuid n) id generation fence token r) db.operations
            db.attempts role q))
        (λ _. plan_resources-Keeps c id generation fence token (suc n) l))

  plan-Keeps :
      (c : Caller) (id : Text) (fence : ℕ) (token : Text) (l : List Resource)
      → KeepsQ (record_deletion_plan c id fence token l)
  unfolding record_deletion_plan
  plan-Keeps c id fence token l = Preserved.check Q _ _ (
      Preserved.check Q _ _ (
        Preserved.guard Q _ _ _ (
          transaction-Keeps Q _ (
            first _ _ (Preserved.authority-Keeps Q c id fence token)
              (λ r. plan_resources-Keeps c id r.generation_id fence token 0 l)))))

  attempts-Keeps :
      (c : Caller) (id : Text) (fence : ℕ) (token : Text) (role uid : Option Text)
      (from : List AttemptState) (to : AttemptState)
      → ((s : AttemptState) → is_one_of from s ≡ true → attempt_code s ≤ attempt_code to)
      → KeepsQ (delete_attempt_state c id fence token role uid from to)
  unfolding delete_attempt_state is_attempt_in
  attempts-Keeps c id fence token role uid from to onward = Preserved.check Q _ _ (
      Preserved.check Q _ _ (
        Preserved.guard Q _ _ _ (
          joining-Keeps Q _ (λ db.
            update_attempts-Keeps Q h (is_attempt_in c id fence token role uid from db) to
              (λ b e. onward b.attempt_state (ground arith))))))

  -- A step takes on the attempts of one state, or those that are where it leads.
  run_fenced-Keeps :
      (c : Caller) (id : Text) (fence : ℕ) (call : Fenced) → KeepsQ (run_fenced c id fence call)
  unfolding run_fenced mark_deletion_fence record_deletion_intent record_deletion_accepted
      record_absence_confirmed record_deletion_progress is_one_of
  run_fenced-Keeps c id fence (moves from to f) =
      first _ _ (move-Keeps c id fence from to f) (λ o. pure-Keeps Q tt)
  run_fenced-Keeps c id fence reevaluates =
      first _ _ (reevaluate-Keeps c id fence) (λ o. pure-Keeps Q tt)
  run_fenced-Keeps c id fence authorizes =
      first _ _ (authorize-Keeps c id fence) (λ o. pure-Keeps Q tt)
  run_fenced-Keeps c id fence retires =
      first _ _ (Preserved.retire-Keeps Q c id fence) (λ o. pure-Keeps Q tt)
  run_fenced-Keeps c id fence finalizes =
      first _ _ (Preserved.finalize-Keeps Q c id fence) (λ o. pure-Keeps Q tt)
  run_fenced-Keeps c id fence (plans token l) = plan-Keeps c id fence token l
  run_fenced-Keeps c id fence (marks token) =
      first _ _ (attempts-Keeps c id fence token _ _ _ _ (λ s e. ground arith))
        (λ o. pure-Keeps Q tt)
  run_fenced-Keeps c id fence (intends token role uid version) =
      first _ _
        (Preserved.check Q _ _ (attempts-Keeps c id fence token _ _ _ _ (λ s e. ground arith)))
        (λ o. pure-Keeps Q tt)
  run_fenced-Keeps c id fence (accepts token role uid) =
      first _ _ (attempts-Keeps c id fence token _ _ _ _ (λ s e. ground arith))
        (λ o. pure-Keeps Q tt)
  run_fenced-Keeps c id fence (confirms_absence token role uid) =
      first _ _ (attempts-Keeps c id fence token _ _ _ _ (λ s e. ground arith))
        (λ o. pure-Keeps Q tt)
  run_fenced-Keeps c id fence (progresses token role uid) =
      first _ _
        (Preserved.check Q _ _ (attempts-Keeps c id fence token _ _ _ _ (λ s e. ground arith)))
        (λ o. pure-Keeps Q tt)
  run_fenced-Keeps c id fence (asserts token) =
      first _ _ (Preserved.assert-Keeps Q c id fence token) (λ o. pure-Keeps Q tt)
  run_fenced-Keeps c id fence (confirms token) =
      first _ _ (Preserved.confirm-Keeps Q c id fence token) (λ o. pure-Keeps Q tt)
  run_fenced-Keeps c id fence (fails token code) =
      first _ _ (Preserved.failure-Keeps Q c id fence token code) (λ r. pure-Keeps Q tt)

  run_change-Keeps : (c : Caller) (call : Change) → KeepsQ (run_change c call)
  unfolding run_change
  run_change-Keeps c (fenced id fence call) = run_fenced-Keeps c id fence call
  run_change-Keeps c (requests parse_date v) =
      first _ _ (request-Keeps parse_date c v) (λ o. pure-Keeps Q tt)
  run_change-Keeps c claims = first _ _ (claim_next-Keeps Q h c) (λ o. pure-Keeps Q tt)
  run_change-Keeps c (ensures o) =
      first _ _ (Preserved.ensure_generation-Keeps Q o) (λ g. pure-Keeps Q tt)
  run_change-Keeps c (sets_state source id from to code) =
      first _ _ (Preserved.set_generation_state-Keeps Q source id from to code)
        (λ g. pure-Keeps Q tt)
  run_change-Keeps c (prepares operation source from to version) =
      first _ _ (Preserved.prepare_promotion-Keeps Q c operation source from to version)
        (λ p. pure-Keeps Q tt)
  run_change-Keeps c (swaps id service) =
      first _ _ (Preserved.cas_pointer-Keeps Q id service) (λ p. pure-Keeps Q tt)
  run_change-Keeps c (verifies id) =
      first _ _ (Preserved.mark_router_verified-Keeps Q id) (λ p. pure-Keeps Q tt)
  run_change-Keeps c (finalizes_promotion id) =
      first _ _ (Preserved.finalize_promotion-Keeps Q c id) (λ p. pure-Keeps Q tt)
  run_change-Keeps c (releases_rollback v) =
      first _ _ (Preserved.release_rollback_protection-Keeps Q c v) (λ r. pure-Keeps Q tt)
  run_change-Keeps c (begins_retirement operation source id) =
      first _ _ (Preserved.begin_retirement-Keeps Q c operation source id) (λ r. pure-Keeps Q tt)
  run_change-Keeps c (moves_retirement id from to) =
      first _ _ (Preserved.move_retirement-Keeps Q id from to) (λ r. pure-Keeps Q tt)
  run_change-Keeps c (schedules parse_date v) =
      first _ _ (schedule-Keeps parse_date c v) (λ o. pure-Keeps Q tt)

  pub Reaches-Holds : (db db' : Tables) → Reaches db db' → Holds Q db → Holds Q db'
  unfolding Keeps
  Reaches-Holds db _ here q = q
  Reaches-Holds db _ (further t c call r) q = run_change-Keeps c call t (Reaches-Holds db t r q)
