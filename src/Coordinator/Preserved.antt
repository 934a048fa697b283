-- ===== src/Coordinator/Preserved.antt =====
-- Every call of services/rdf-sync/src/postgres-generation-coordinator-repository.js keeps an
-- invariant of the operations and attempts: the calls one by one.
use custom_wikibase.Prelude.{
  refl, Bool, true, Option, List, Text, ℕ, Result, Exec, lift, throw_if, ◌>>=◌, ◌>>◌, arith,
}
use custom_wikibase.Prelude.Runs.{Keeps, bind-Keeps, lift-Keeps, throw_if-Keeps}
use custom_wikibase.Serving.Standalone.{
  Phase, prepared, pointer_updated, router_verified, generation_finalized,
}
use custom_wikibase.Coordinator.{
  OperationRow, OperationState, AttemptRow, RetirementJournal, JournalState, LifecycleRow, PhaseRow,
  ReleaseRow, Tables,
}
use custom_wikibase.Coordinator.Statements.{
  Caller, update_retirement, update_generation, update_promotion, update_serving_pointer,
}
use custom_wikibase.Serving.Tables.{PointerRow, GenerationState}
use custom_wikibase.Coordinator.Checks.{Fields, ReleaseInput}
use custom_wikibase.Coordinator.Operations.{
  moved_operation, ensure_generation, set_generation_state,
}
use custom_wikibase.Coordinator.Promotions.{
  prepare_promotion, swap_pointer, swap_phase, cas_pointer, mark_router_verified, drop_protection,
  switch_lifecycles, finish_promotion, finish_phase, finalize_promotion,
}
use custom_wikibase.Coordinator.Release.{
  insert_release, release_rows, release_checked, repeat_release, release_rollback_protection,
}
use custom_wikibase.Coordinator.Retirement.{begin_retirement, move_retirement, insert_retirement}
use custom_wikibase.Coordinator.Cleanup.{
  held_operation, set_journals, released_operation, extended, retire_rows, retire_body,
  mark_generation_retired,
}
use custom_wikibase.Coordinator.Deletion.{authority, assert_deletion_authority}
use custom_wikibase.Coordinator.Conclusion.{
  confirm_physical_deletion, record_deletion_failure, finalize_retired, finalize_retirement,
}
use custom_wikibase.Coordinator.Kept.{
  KeepsFence, Holds, select_one-Keeps, updated_one-Keeps, transaction-Keeps, joining-Keeps,
  found_or-Keeps, throw-Keeps, if-Holds, if-Keeps, gets-Keeps, pure-Keeps,
}

pub moved_operation-KeepsFence :
    (to : OperationState) (f : Fields) → KeepsFence (moved_operation to f)
unfolding moved_operation
moved_operation-KeepsFence to f = record { same_id = λ o. refl; no_less = λ o. ground arith }

pub released_operation-KeepsFence :
    (to : OperationState) (code : Option Text) → KeepsFence (released_operation to code)
unfolding released_operation
released_operation-KeepsFence to code = record { same_id = λ o. refl; no_less = λ o. ground arith }

pub waiting-KeepsFence : (code : Option Text) → KeepsFence (λ o. released_operation o.state code o)
unfolding released_operation
waiting-KeepsFence code = record { same_id = λ o. refl; no_less = λ o. ground arith }

pub extended-KeepsFence : (c : Caller) → KeepsFence (extended c)
unfolding extended
extended-KeepsFence c = record { same_id = λ o. refl; no_less = λ o. ground arith }

module _ (Q : List OperationRow → List AttemptRow → Type 0) where
  abbrev KeepsQ : {A : Type 0} → Exec Tables A → Type 0
  KeepsQ m = Keeps (Holds Q) m

  -- The statements on the other tables.
  pub update_retirement-Keeps :
      (test : RetirementJournal → Bool) (set : RetirementJournal → RetirementJournal)
      (message : Text)
      → KeepsQ (update_retirement test set message)
  unfolding Keeps
  update_retirement-Keeps test set message db q = updated_one-Keeps Q test set message _ _ db q

  pub update_generation-Keeps :
      (test : LifecycleRow → Bool) (set : LifecycleRow → LifecycleRow) (message : Text)
      → KeepsQ (update_generation test set message)
  unfolding Keeps
  update_generation-Keeps test set message db q = updated_one-Keeps Q test set message _ _ db q

  update_promotion-Keeps :
      (test : PhaseRow → Bool) (set : PhaseRow → PhaseRow) (message : Text)
      → KeepsQ (update_promotion test set message)
  unfolding Keeps
  update_promotion-Keeps test set message db q = updated_one-Keeps Q test set message _ _ db q

  update_serving_pointer-Keeps :
      (test : PointerRow → Bool) (set : PointerRow → PointerRow) (message : Text)
      → KeepsQ (update_serving_pointer test set message)
  unfolding Keeps
  update_serving_pointer-Keeps test set message db q = updated_one-Keeps Q test set message _ _ db q

  pub set_journals-Keeps :
      (id : Text) (set : RetirementJournal → RetirementJournal) → KeepsQ (set_journals id set)
  unfolding Keeps set_journals
  set_journals-Keeps id set db q = q

  pub add-Keeps :
      {A : Type 0} (f : Tables → Result A) (g : Tables → Tables)
      → ((db : Tables) → Holds Q db → Holds Q (g db))
      → KeepsQ (λ db. (f db, g db))
  unfolding Keeps
  add-Keeps f g h db q = h db q

  pub first :
      {A B : Type 0} (m : Exec Tables A) (k : A → Exec Tables B)
      → KeepsQ m
      → ((a : A) → KeepsQ (k a))
      → KeepsQ (m >>= k)
  first = bind-Keeps (Holds Q)

  pub check :
      {B : Type 0} (r : Result (Unit {0})) (k : Exec Tables B) → KeepsQ k → KeepsQ (lift r >> k)
  check r k h = first (lift r) (λ _. k) (lift-Keeps (Holds Q) r) (λ _. h)

  pub guard :
      {B : Type 0} (t : Bool) (e : Text) (k : Exec Tables B) → KeepsQ k → KeepsQ (throw_if t e >> k)
  guard t e k h = first (throw_if t e) (λ _. k) (throw_if-Keeps (Holds Q) t e) (λ _. h)

  -- The calls that stay with those.
  pub ensure_generation-Keeps : (o : OperationRow) → KeepsQ (ensure_generation o)
  unfolding ensure_generation
  ensure_generation-Keeps o =
      guard _ _ _ (found_or-Keeps Q _ _ _ (pure-Keeps Q) (add-Keeps _ _ (λ db q. q)))

  pub set_generation_state-Keeps :
      (source id : Text) (from to : GenerationState) (code : Option Text)
      → KeepsQ (set_generation_state source id from to code)
  unfolding set_generation_state
  set_generation_state-Keeps source id from to code = check _ _ (update_generation-Keeps _ _ _)

  pub prepare_promotion-Keeps :
      (c : Caller) (operation source from to : Text) (version : ℕ)
      → KeepsQ (prepare_promotion c operation source from to version)
  unfolding prepare_promotion
  prepare_promotion-Keeps c operation source from to version = check _ _ (
      check _ _ (
        check _ _
          (first _ _ (gets-Keeps Q _) (λ conflict. guard _ _ _ (add-Keeps _ _ (λ db q. q))))))

  swap_phase-Keeps : (service : Text) (p : PhaseRow) (ph : Phase) → KeepsQ (swap_phase service p ph)
  unfolding swap_phase swap_pointer
  swap_phase-Keeps service p prepared =
      first _ _ (update_serving_pointer-Keeps _ _ _) (λ q. update_promotion-Keeps _ _ _)
  swap_phase-Keeps service p pointer_updated = pure-Keeps Q p
  swap_phase-Keeps service p router_verified = pure-Keeps Q p
  swap_phase-Keeps service p generation_finalized = pure-Keeps Q p

  pub cas_pointer-Keeps : (id service : Text) → KeepsQ (cas_pointer id service)
  unfolding cas_pointer
  cas_pointer-Keeps id service = check _ _ (
      transaction-Keeps Q _
        (first _ _ (select_one-Keeps Q _ _ _) (λ p. swap_phase-Keeps service p p.phase)))

  pub mark_router_verified-Keeps : (id : Text) → KeepsQ (mark_router_verified id)
  unfolding mark_router_verified
  mark_router_verified-Keeps id = check _ _ (update_promotion-Keeps _ _ _)

  switch_lifecycles-Keeps : (p : PhaseRow) → KeepsQ (switch_lifecycles p)
  unfolding switch_lifecycles drop_protection
  switch_lifecycles-Keeps p = first _ _ (add-Keeps _ _ (λ db q. q)) (λ _.
      first _ _ (update_generation-Keeps _ _ _)
        (λ old. first _ _ (update_generation-Keeps _ _ _) (λ new. pure-Keeps Q tt)))

  finish_promotion-Keeps : (c : Caller) (p : PhaseRow) → KeepsQ (finish_promotion c p)
  unfolding finish_promotion
  finish_promotion-Keeps c p = first _ _ (gets-Keeps Q _) (λ released.
      first _ _ (switch_lifecycles-Keeps p)
        (λ _. first _ _ (add-Keeps _ _ (λ db q. q)) (λ _. update_promotion-Keeps _ _ _)))

  finish_phase-Keeps : (c : Caller) (p : PhaseRow) (ph : Phase) → KeepsQ (finish_phase c p ph)
  unfolding finish_phase
  finish_phase-Keeps c p prepared = throw-Keeps Q _ _
  finish_phase-Keeps c p pointer_updated = throw-Keeps Q _ _
  finish_phase-Keeps c p router_verified = finish_promotion-Keeps c p
  finish_phase-Keeps c p generation_finalized = pure-Keeps Q p

  pub finalize_promotion-Keeps : (c : Caller) (id : Text) → KeepsQ (finalize_promotion c id)
  unfolding finalize_promotion
  finalize_promotion-Keeps c id = check _ _ (
      transaction-Keeps Q _
        (first _ _ (select_one-Keeps Q _ _ _) (λ p. finish_phase-Keeps c p p.phase)))

  insert_release-Keeps : (r : ReleaseRow) → KeepsQ (insert_release r)
  unfolding Keeps insert_release
  insert_release-Keeps r db q = if-Holds Q _ _ _ q q

  pub insert_retirement-Keeps : (r : RetirementJournal) → KeepsQ (insert_retirement r)
  unfolding Keeps insert_retirement
  insert_retirement-Keeps r db q = if-Holds Q _ _ _ q q

  release_rows-Keeps :
      (c : Caller) (v : ReleaseInput) (g : LifecycleRow) → KeepsQ (release_rows c v g)
  unfolding release_rows
  release_rows-Keeps c v g = first _ _ (update_serving_pointer-Keeps _ _ _) (λ p.
      first _ _ (update_generation-Keeps _ _ _)
        (λ h. first _ _ (add-Keeps _ _ (λ db q. q)) (λ _. insert_release-Keeps _)))

  release_checked-Keeps : (c : Caller) (v : ReleaseInput) → KeepsQ (release_checked c v)
  unfolding release_checked
  release_checked-Keeps c v = first _ _ (select_one-Keeps Q _ _ _) (λ p. guard _ _ _ (
      first _ _ (select_one-Keeps Q _ _ _) (λ g. guard _ _ _ (
        first _ _ (gets-Keeps Q _) (λ promoting.
          guard _ _ _
            (first _ _ (gets-Keeps Q _) (λ retiring. guard _ _ _ (release_rows-Keeps c v g))))))))

  pub release_rollback_protection-Keeps :
      (c : Caller) (v : ReleaseInput) → KeepsQ (release_rollback_protection c v)
  unfolding release_rollback_protection repeat_release
  release_rollback_protection-Keeps c v = check _ _ (
      transaction-Keeps Q _
        (found_or-Keeps Q _ _ _ (λ r. guard _ _ _ (pure-Keeps Q r)) (release_checked-Keeps c v)))

  pub begin_retirement-Keeps :
      (c : Caller) (operation source id : Text) → KeepsQ (begin_retirement c operation source id)
  unfolding begin_retirement
  begin_retirement-Keeps c operation source id =
      check _ _ (check _ _ (found_or-Keeps Q _ _ _ (pure-Keeps Q) (add-Keeps _ _ (λ db q. q))))

  pub move_retirement-Keeps :
      (id : Text) (from to : JournalState) → KeepsQ (move_retirement id from to)
  unfolding move_retirement
  move_retirement-Keeps id from to = check _ _ (guard _ _ _ (update_retirement-Keeps _ _ _))

  pub held_operation-Keeps :
      (c : Caller) (id : Text) (fence : ℕ) (s : OperationState)
      → KeepsQ (held_operation c id fence s)
  unfolding held_operation
  held_operation-Keeps c id fence s = select_one-Keeps Q _ _ _

  pub authority-Keeps :
      (c : Caller) (id : Text) (fence : ℕ) (token : Text) → KeepsQ (authority c id fence token)
  unfolding authority
  authority-Keeps c id fence token = joining-Keeps Q _ (λ db. select_one-Keeps Q _ _ _)

  pub retire-Keeps :
      (c : Caller) (id : Text) (fence : ℕ) → KeepsQ (mark_generation_retired c id fence)
  unfolding mark_generation_retired retire_body retire_rows
  retire-Keeps c id fence = check _ _ (
      guard _ _ _ (
        transaction-Keeps Q _ (
          first _ _ (held_operation-Keeps c id fence _) (λ o.
            first _ _ (select_one-Keeps Q _ _ _) (λ r. if-Keeps Q _ _ _ (pure-Keeps Q r) (
              guard _ _ _ (
                first _ _ (update_generation-Keeps _ _ _)
                  (λ g. update_retirement-Keeps _ _ _))))))))

  pub assert-Keeps :
      (c : Caller) (id : Text) (fence : ℕ) (token : Text)
      → KeepsQ (assert_deletion_authority c id fence token)
  unfolding assert_deletion_authority
  assert-Keeps c id fence token =
      check _ _ (check _ _ (first _ _ (authority-Keeps c id fence token) (λ r. pure-Keeps Q true)))

  pub confirm-Keeps :
      (c : Caller) (id : Text) (fence : ℕ) (token : Text)
      → KeepsQ (confirm_physical_deletion c id fence token)
  unfolding confirm_physical_deletion
  confirm-Keeps c id fence token =
      check _ _ (check _ _ (guard _ _ _ (joining-Keeps Q _ (λ db. update_retirement-Keeps _ _ _))))

  pub failure-Keeps :
      (c : Caller) (id : Text) (fence : ℕ) (token code : Text)
      → KeepsQ (record_deletion_failure c id fence token code)
  unfolding record_deletion_failure
  failure-Keeps c id fence token code =
      check _ _ (check _ _ (guard _ _ _ (joining-Keeps Q _ (λ db. update_retirement-Keeps _ _ _))))

  pub finalize-Keeps :
      (c : Caller) (id : Text) (fence : ℕ) → KeepsQ (finalize_retirement c id fence)
  unfolding finalize_retirement finalize_retired
  finalize-Keeps c id fence = check _ _ (
      guard _ _ _ (
        transaction-Keeps Q _ (
          first _ _ (joining-Keeps Q _ (λ db. select_one-Keeps Q _ _ _)) (λ r.
            guard _ _ _
              (first _ _ (add-Keeps _ _ (λ db q. q)) (λ _. update_retirement-Keeps _ _ _))))))
