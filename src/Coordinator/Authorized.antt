-- ===== src/Coordinator/Authorized.antt =====
-- What `authorizePhysicalDeletion` of
-- services/rdf-sync/src/postgres-generation-coordinator-repository.js has checked when it gives a
-- token for the deletion of a generation.
use mathlib.Core.Path.{subst}
use custom_wikibase.Prelude.{
  ◌≡◌, sym, ap, ◌∙◌, Bool, true, ◌&&◌, some, List, [], ◌∷◌, Text, codes, text_eq, ℕ, ok, ◌>>=◌,
  if◌then◌else◌, arith, Bool-cases, inl, inr,
}
use custom_wikibase.Prelude.Results.{ok-injective}
use custom_wikibase.Prelude.Runs.{run_after, lift_after, throw_if_after}
use custom_wikibase.Serving.Tables.{select_where, update_where}
use custom_wikibase.Coordinator.{
  OperationRow, cleaning_up, is_operation_state, RetirementJournal, physical_delete_pending, Tables,
}
use custom_wikibase.Coordinator.Statements.{Caller, is_held_row, update_retirement}
use custom_wikibase.Coordinator.After.{transaction_after, updated_one_after, select_one_after}
use custom_wikibase.Coordinator.Eligibility.{has_no_reason}
use custom_wikibase.Coordinator.Retirement.{is_retirement_of}
use custom_wikibase.Coordinator.Cleanup.{
  held_operation, set_operations, extended, token_of, is_deletable, authorized, with_token,
  authorize_body, authorize_physical_deletion,
}
use custom_wikibase.Coordinator.Free.{IsFree, eligible-IsFree, expected_after, retirements-IsFree}

-- What a deletion that is authorized rests on: the caller holds the operation, the generation of
-- its retirement is free, and the retirement now has the token and the fence.
pub record IsAuthorized (c : Caller) (id : Text) (fence : ℕ) (db : Tables) (r : RetirementJournal)
    (t : Text) (db' : Tables) : Type 0 where
  pub operation : OperationRow
  pub holds :
      select_where
        (λ o. is_held_row c id fence o && is_operation_state o.state cleaning_up)
        db.operations
      ≡ operation ∷ []
  pub journal : RetirementJournal
  pub retires : select_where (is_retirement_of id) db.retirements ≡ journal ∷ []
  pub same_journal : text_eq r.id journal.id ≡ true
  pub is_free :
      IsFree operation.source_identity operation.query_service_id journal.generation_id id db'
  pub is_pending : r.state ≡ physical_delete_pending
  pub has_token : r.deletion_token ≡ some t
  pub has_fence : r.operation_fence ≡ fence
  pub keeps_generations : db'.generations ≡ db.generations
  pub keeps_pointers : db'.pointers ≡ db.pointers
  pub keeps_attempts : db'.attempts ≡ db.attempts

nil-select_where :
    {A : Type 0} (test : A → Bool) (b : A) (l : List A) (a : A)
    → select_where test (b ∷ l) ≡ a ∷ []
    → test b ≡ true
    → b ≡ a
unfolding select_where
nil-select_where test b l a h e =
    ap (λ k. elim k [ [] ↦ b | c ∷ m ↦ c ])
      (ap (λ t. if t then b ∷ select_where test l else select_where test l) (sym e) ∙ h)

pub select_where-holds :
    {A : Type 0} (test : A → Bool) (l : List A) (a : A)
    → select_where test l ≡ a ∷ []
    → test a ≡ true
unfolding select_where
select_where-holds test [] a h = cc
select_where-holds test (b ∷ l) a h = elim (Bool-cases (test b)) [
  | inl e ↦ subst (λ x. test x ≡ true) (nil-select_where test b l a h e) e
  | inr e ↦ select_where-holds test l a (ground arith)
]

and_first : (a b : Bool) → a && b ≡ true → a ≡ true
and_first a b h = ground arith

module _ (c : Caller) (id : Text) (fence : ℕ) where
  -- The last statement, and what is returned.
  update_after :
      (db s db' : Tables) (o : OperationRow) (j : RetirementJournal) (r : RetirementJournal)
      (t : Text)
      → select_where
          (λ p. is_held_row c id fence p && is_operation_state p.state cleaning_up)
          db.operations
        ≡ o ∷ []
      → select_where (is_retirement_of id) db.retirements ≡ j ∷ []
      → s ≡ (set_operations id (extended c) db).1
      → IsFree o.source_identity o.query_service_id j.generation_id id s
      → (update_retirement
              (λ q. text_eq q.id j.id && is_deletable q)
              (authorized (token_of c fence j) fence)
              (codes "RETIREMENT_STATE_CONFLICT")
            >>= with_token (token_of c fence j))
          s
        ≡ (ok (r, t), db')
      → IsAuthorized c id fence db r t db'
  unfolding set_operations authorized
  update_after db s db' o j r t ho hj hs f h = run_after _ _ h (λ q u e h'.
      let (b, found) = updated_one_after _ _ _ _ _ s u q e in
      let same_row : q ≡ r = ap (λ x. x.0) (ok-injective (ap (λ x. x.0) h')) in
      let same_token : token_of c fence j ≡ t = ap (λ x. x.1) (ok-injective (ap (λ x. x.0) h')) in
      let left : db' ≡ record s {
        retirements =
            update_where (λ q. text_eq q.id j.id && is_deletable q)
              (authorized (token_of c fence j) fence) s.retirements;
      } =
        sym (ap (λ x. x.1) h') ∙ found.1.1 in
      let row : r ≡ authorized (token_of c fence j) fence b = sym same_row ∙ found.1.0 in
      record {
        operation = o;
        holds = ho;
        journal = j;
        retires = hj;
        same_journal =
            ap (λ x. text_eq x.id j.id) row
            ∙ and_first _ _ (select_where-holds _ s.retirements b found.0);
        is_free =
            subst (λ x. IsFree o.source_identity o.query_service_id j.generation_id id x) (sym left)
              (retirements-IsFree _ _ _ _ s _ f);
        is_pending = ap (λ x. x.state) row;
        has_token = ap (λ x. x.deletion_token) row ∙ ap some same_token;
        has_fence = ap (λ x. x.operation_fence) row;
        keeps_generations = ap (λ x. x.generations) left ∙ ap (λ x. x.generations) hs;
        keeps_pointers = ap (λ x. x.pointers) left ∙ ap (λ x. x.pointers) hs;
        keeps_attempts = ap (λ x. x.attempts) left ∙ ap (λ x. x.attempts) hs;
      })

  authorize_body-IsAuthorized :
      (db db' : Tables) (r : RetirementJournal) (t : Text)
      → authorize_body c id fence db ≡ (ok (r, t), db')
      → IsAuthorized c id fence db r t db'
  unfolding authorize_body held_operation set_operations
  authorize_body-IsAuthorized db db' r t h = run_after _ _ h (λ o s1 e1 h1.
      let (ho, same1) = select_one_after _ _ _ db s1 o e1 in
      run_after _ _ h1 (λ _ s2 e2 h2. run_after _ _ h2 (λ j s3 e3 h3.
        let (hj, same3) = select_one_after _ _ _ s2 s3 j e3 in
        run_after _ _ h3 (λ e s4 e4 h4. throw_if_after _ _ _ h4 (λ expected h5.
          let left : s2 ≡ (set_operations id (extended c) db).1 =
            sym (ap (λ x. x.1) e2) ∙ ap (λ s. (set_operations id (extended c) s).1) same1 in
          let same4 : s3 ≡ s4 = ap (λ x. x.1) e4 in
          update_after db s4 db' o j r t ho
            (subst (λ s. select_where (is_retirement_of id) s.retirements ≡ j ∷ []) left hj)
            (sym same4 ∙ (same3 ∙ left))
            (subst (λ s. IsFree o.source_identity o.query_service_id j.generation_id id s) same4
              (eligible-IsFree o.source_identity o.query_service_id j.generation_id id s3 (
                subst (λ x. has_no_reason x.reasons ≡ true) (sym (ok-injective (ap (λ x. x.0) e4)))
                  (expected_after e j expected))))
            h5)))))

  -- A caller that is given a token for the deletion holds the operation in CLEANING_UP under the
  -- fence, the generation of its retirement is neither served nor named by the service's pointer nor
  -- otherwise in use, and the retirement is pending with that token and fence; the generations, the
  -- pointers and the attempts are as they were.
  pub authorize_physical_deletion-IsAuthorized :
      (db db' : Tables) (r : RetirementJournal) (t : Text)
      → authorize_physical_deletion c id fence db ≡ (ok (r, t), db')
      → IsAuthorized c id fence db r t db'
  unfolding authorize_physical_deletion
  authorize_physical_deletion-IsAuthorized db db' r t h = lift_after _ _ h (λ _ _ h1.
      throw_if_after _ _ _ h1
        (λ _ h2. authorize_body-IsAuthorized db db' r t (transaction_after _ db db' (r, t) h2)))
