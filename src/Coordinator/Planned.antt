-- ===== src/Coordinator/Planned.antt =====
-- The attempts of a deletion in
-- services/rdf-sync/src/postgres-generation-coordinator-repository.js: one at most for each role.
use custom_wikibase.Prelude.{
  ◌≡◌, refl, Bool, true, false, not, ◌&&◌, ◌||◌, List, [], ◌∷◌, ◌++◌, text_eq_comm, if◌then◌else◌,
  arith, Bool-cases, inl, inr,
}
use custom_wikibase.Serving.Tables.{update_where}
use custom_wikibase.Coordinator.{AttemptState, AttemptRow}
use custom_wikibase.Coordinator.Statements.{has_row}
use custom_wikibase.Coordinator.Checks.{is_role}
use custom_wikibase.Coordinator.Deletion.{is_attempt_of, is_same_attempt, insert_attempt, to_state}
use custom_wikibase.Coordinator.Kept.{IsInvariant}

-- Each attempt has one of the three roles, and no later one is for the same role under the same
-- operation, fence and token.
unfoldable pub is_planned : List AttemptRow → Bool
is_planned [] = true
is_planned (a ∷ l) = is_role a.resource_role && not (has_row (is_same_attempt a) l) && is_planned l

same_attempt_comm : (a b : AttemptRow) → is_same_attempt a b ≡ is_same_attempt b a
unfolding is_attempt_of
same_attempt_comm a b = ground (
  arith,
  text_eq_comm a.cleanup_operation_id b.cleanup_operation_id,
  text_eq_comm a.deletion_token b.deletion_token,
  text_eq_comm a.resource_role b.resource_role,
)

has_row-step :
    (a : AttemptRow) (test : AttemptRow → Bool) (to : AttemptState) (l : List AttemptRow)
    → has_row (is_same_attempt a) (update_where test (to_state to) l)
      ≡ has_row (is_same_attempt a) l
unfolding has_row update_where is_attempt_of
has_row-step a test to [] = refl
has_row-step a test to (b ∷ l) = elim (Bool-cases (test b)) [
  | inl e ↦ ground (arith, has_row-step a test to l)
  | inr e ↦ ground (arith, has_row-step a test to l)
]

is_planned-cons :
    (t : Bool) (to : AttemptState) (a : AttemptRow) (k l : List AttemptRow)
    → has_row (is_same_attempt a) k ≡ has_row (is_same_attempt a) l
    → is_planned k ≡ true
    → is_planned (a ∷ l) ≡ true
    → is_planned ((if t then to_state to a else a) ∷ k) ≡ true
unfolding is_planned is_attempt_of
is_planned-cons true to a k l same rest h = ground arith
is_planned-cons false to a k l same rest h = ground arith

is_planned-step :
    (test : AttemptRow → Bool) (to : AttemptState) (l : List AttemptRow)
    → is_planned l ≡ true
    → is_planned (update_where test (to_state to) l) ≡ true
unfolding is_planned update_where
is_planned-step test to [] h = refl
is_planned-step test to (a ∷ l) h =
    is_planned-cons (test a) to a _ l (has_row-step a test to l)
      (is_planned-step test to l (ground arith)) h

has_row-append :
    (test : AttemptRow → Bool) (b : AttemptRow) (l : List AttemptRow)
    → has_row test (l ++ b ∷ []) ≡ has_row test l || test b
unfolding has_row
has_row-append test b [] = ground arith
has_row-append test b (a ∷ l) = ground (arith, has_row-append test b l)

is_planned-append :
    (b : AttemptRow) (l : List AttemptRow)
    → is_role b.resource_role ≡ true
    → has_row (is_same_attempt b) l ≡ false
    → is_planned l ≡ true
    → is_planned (l ++ b ∷ []) ≡ true
unfolding is_planned has_row
is_planned-append b [] role f h = ground arith
is_planned-append b (a ∷ l) role f h = ground (
  arith,
  has_row-append (is_same_attempt a) b l,
  same_attempt_comm a b,
  is_planned-append b l role,
)

is_planned-insert :
    (b : AttemptRow) (l : List AttemptRow)
    → is_role b.resource_role ≡ true
    → is_planned l ≡ true
    → is_planned (insert_attempt b l) ≡ true
unfolding insert_attempt
is_planned-insert b l role h = elim (Bool-cases (has_row (is_same_attempt b) l)) [
  | inl e ↦ ground arith
  | inr e ↦ ground (arith, is_planned-append b l role e h)
]

pub Planned-IsInvariant : IsInvariant (λ l a. is_planned a ≡ true)
Planned-IsInvariant = record {
  updates = λ test set l a k q. q;
  inserts = λ o l a f q. q;
  steps = λ test to l a h q. is_planned-step test to a q;
  plans = λ b l a role q. is_planned-insert b a role q;
}
