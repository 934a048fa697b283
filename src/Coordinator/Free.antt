-- ===== src/Coordinator/Free.antt =====
-- What `evaluateEligibility` of
-- services/rdf-sync/src/postgres-generation-coordinator-repository.js has found of a
-- generation that nothing keeps from its retirement.
use custom_wikibase.Prelude.{
  ◌≡◌, refl, Bool, true, false, not, ◌&&◌, ◌||◌, Option, none, some, List, [], ◌∷◌, Text, arith,
}
use custom_wikibase.Serving.Tables.{
  Protection, unprotected, serving_protected, rollback_protected, promotion_in_progress,
  retirement_in_progress, PointerRow, select_where, option_eq, is_serving, the_row-eq-some,
}
use custom_wikibase.Coordinator.{Reason, RetirementJournal, LifecycleRow, Tables}
use custom_wikibase.Coordinator.Statements.{has_row}
use custom_wikibase.Coordinator.After.{the-has_row}
use custom_wikibase.Coordinator.Operations.{is_lifecycle}
use custom_wikibase.Coordinator.Release.{is_promoting}
use custom_wikibase.Coordinator.Eligibility.{
  Eligibility, has_no_reason, collect, protection_check, is_working_on, is_syncing,
  is_service_pointer, reasons_of, eligibility_of, evaluate_eligibility,
}
use custom_wikibase.Coordinator.Cleanup.{is_as_expected}

collect_after :
    (t : Bool) (r : Reason) (l : List (Bool × Reason))
    → has_no_reason (collect ((t, r) ∷ l)) ≡ true
    → (t ≡ false) × (has_no_reason (collect l) ≡ true)
unfolding has_no_reason collect
collect_after true r l h = cc
collect_after false r l h = (refl, h)

-- Protected for a purpose other than its retirement.
unfoldable pub is_guarded : Protection → Bool
is_guarded rollback_protected = true
is_guarded serving_protected = true
is_guarded promotion_in_progress = true
is_guarded retirement_in_progress = false
is_guarded unprotected = false

protection_check-is_guarded :
    (operation : Text) (p : Protection) → (protection_check (some operation) p).0 ≡ is_guarded p
unfolding protection_check is_guarded
protection_check-is_guarded operation rollback_protected = refl
protection_check-is_guarded operation serving_protected = refl
protection_check-is_guarded operation promotion_in_progress = refl
protection_check-is_guarded operation retirement_in_progress = refl
protection_check-is_guarded operation unprotected = refl

abbrev points_to : Text → PointerRow → Bool
points_to id p = option_eq p.generation_id (some id) || option_eq p.previous_generation_id (some id)

abbrev is_in_use : LifecycleRow → Bool
is_in_use g = is_serving g.state || is_guarded g.protection_state

-- Nothing uses the generation: the service's pointer names it neither as the one that serves nor as
-- the one before, it does not serve and is not protected, no promotion and no synchronization is
-- under way with it, and no other operation works on it.
pub record IsFree (source service id operation : Text) (db : Tables) : Type 0 where
  pub not_pointed_to :
      has_row (λ p. is_service_pointer service source p && points_to id p) db.pointers ≡ false
  pub not_in_use : has_row (λ g. is_lifecycle source id g && is_in_use g) db.generations ≡ false
  pub not_promoting : has_row (is_promoting source id) db.promotions ≡ false
  pub not_syncing : has_row (is_syncing source id) db.syncs ≡ false
  pub not_worked_on : has_row (is_working_on source id (some operation)) db.operations ≡ false

module _ (source service id operation : Text) (db : Tables) where
  reasons_after :
      (p : PointerRow) (g : LifecycleRow)
      → select_where (is_service_pointer service source) db.pointers ≡ p ∷ []
      → select_where (is_lifecycle source id) db.generations ≡ g ∷ []
      → has_no_reason (reasons_of source id (some operation) p g db) ≡ true
      → IsFree source service id operation db
  unfolding reasons_of
  reasons_after p g sp sg h =
      let (serving, h1) = collect_after _ _ _ h in
      let (guarded, h2) = collect_after _ _ _ h1 in
      let (current, h3) = collect_after _ _ _ h2 in
      let (previous, h4) = collect_after _ _ _ h3 in
      let (retirable, h5) = collect_after _ _ _ h4 in
      let (promoting, h6) = collect_after _ _ _ h5 in
      let (rollback, h7) = collect_after _ _ _ h6 in
      let (working, h8) = collect_after _ _ _ h7 in
      record {
        not_pointed_to = the-has_row _ (points_to id) db.pointers p sp (ground arith);
        not_in_use =
            the-has_row _ is_in_use db.generations g sg
              (ground (arith, protection_check-is_guarded operation g.protection_state));
        not_promoting = promoting;
        not_syncing = (collect_after _ _ _ h8).0;
        not_worked_on = working;
      }

  rows_after :
      (op : Option PointerRow) (og : Option LifecycleRow)
      → has_no_reason (eligibility_of source id (some operation) op og db).reasons ≡ true
      → (p : PointerRow) × ((g : LifecycleRow) × ((op ≡ some p)
            × ((og ≡ some g)
                × (has_no_reason (reasons_of source id (some operation) p g db) ≡ true))))
  unfolding eligibility_of has_no_reason
  rows_after none none h = cc
  rows_after none (some g) h = cc
  rows_after (some p) none h = cc
  rows_after (some p) (some g) h = (p, (g, (refl, (refl, h))))

  pub eligible-IsFree :
      has_no_reason (evaluate_eligibility source service id (some operation) db).reasons ≡ true
      → IsFree source service id operation db
  unfolding evaluate_eligibility
  eligible-IsFree h =
      let (p, r1) = rows_after _ _ h in
      let (g, r2) = r1 in
      let (fp, r3) = r2 in
      reasons_after p g (the_row-eq-some _ p fp) (the_row-eq-some _ g r3.0) r3.1

-- The retirements are not what a free generation is about.
pub retirements-IsFree :
    (source service id operation : Text) (db : Tables) (l : List RetirementJournal)
    → IsFree source service id operation db
    → IsFree source service id operation (record db { retirements = l })
retirements-IsFree source service id operation db l f = record {
  not_pointed_to = f.not_pointed_to;
  not_in_use = f.not_in_use;
  not_promoting = f.not_promoting;
  not_syncing = f.not_syncing;
  not_worked_on = f.not_worked_on;
}

pub expected_after :
    (e : Eligibility) (j : RetirementJournal)
    → not (is_as_expected e j) ≡ false
    → has_no_reason e.reasons ≡ true
unfolding is_as_expected
expected_after e j h = ground arith
