-- ===== src/Coordinator/Attempts.antt =====
-- The attempts to delete a resource in
-- services/rdf-sync/src/postgres-generation-coordinator-repository.js, which
-- packages/jwb-database/migrations/013_generation_control_plane_contract.sql describes as an
-- immutable identity with a lifecycle that only goes on.
use custom_wikibase.Prelude.{
  ◌≡◌, refl, ap, Bool, true, false, List, [], ◌∷◌, ◌++◌, ◌≤◌, if◌then◌else◌, arith,
}
use custom_wikibase.Serving.Tables.{update_where}
use custom_wikibase.Coordinator.{AttemptState, attempt_code, AttemptRow, Tables}
use custom_wikibase.Coordinator.Deletion.{insert_attempt, to_state}
use custom_wikibase.Coordinator.Calls.{Reaches}
use custom_wikibase.Coordinator.Kept.{IsInvariant}
use custom_wikibase.Coordinator.Invariants.{Reaches-Holds}

-- The same attempt on the same resource, as far as it was or further.
pub record GoesOn (a b : AttemptRow) : Type 0 where
  pub same_resource : b ≡ to_state b.attempt_state a
  pub no_earlier : attempt_code a.attempt_state ≤ attempt_code b.attempt_state

-- Every attempt is still there, and new ones may follow.
pub data AllGoOn : List AttemptRow → List AttemptRow → Type 0 where
  all_new : (k : List AttemptRow) → AllGoOn [] k
  one_on :
      (a b : AttemptRow) (l k : List AttemptRow)
      → GoesOn a b
      → AllGoOn l k
      → AllGoOn (a ∷ l) (b ∷ k)

same-AllGoOn : (l : List AttemptRow) → AllGoOn l l
same-AllGoOn [] = all_new []
same-AllGoOn (a ∷ l) =
    one_on a a l l (record { same_resource = refl; no_earlier = ground arith }) (same-AllGoOn l)

step-GoesOn :
    (t : Bool) (to : AttemptState) (a b : AttemptRow)
    → (t ≡ true → attempt_code b.attempt_state ≤ attempt_code to)
    → GoesOn a b
    → GoesOn a (if t then to_state to b else b)
step-GoesOn false to a b h g = g
step-GoesOn true to a b h g = record {
  same_resource = ap (to_state to) g.same_resource;
  no_earlier = grind (arith, h refl, g.no_earlier);
}

update-AllGoOn :
    (test : AttemptRow → Bool) (to : AttemptState) (l k : List AttemptRow)
    → ((b : AttemptRow) → test b ≡ true → attempt_code b.attempt_state ≤ attempt_code to)
    → AllGoOn l k
    → AllGoOn l (update_where test (to_state to) k)
unfolding update_where
update-AllGoOn test to _ _ h (all_new k) = all_new _
update-AllGoOn test to _ _ h (one_on a b l k g rest) =
    one_on a _ l _ (step-GoesOn (test b) to a b (h b) g) (update-AllGoOn test to l k h rest)

append-AllGoOn : (n l k : List AttemptRow) → AllGoOn l k → AllGoOn l (k ++ n)
append-AllGoOn n _ _ (all_new k) = all_new _
append-AllGoOn n _ _ (one_on a b l k g rest) = one_on a b l _ g (append-AllGoOn n l k rest)

if-AllGoOn :
    (t : Bool) (l k n : List AttemptRow)
    → AllGoOn l k
    → AllGoOn l n
    → AllGoOn l (if t then k else n)
if-AllGoOn true l k n p q = p
if-AllGoOn false l k n p q = q

AllGoOn-IsInvariant : (start : List AttemptRow) → IsInvariant (λ l a. AllGoOn start a)
unfolding insert_attempt
AllGoOn-IsInvariant start = record {
  updates = λ test set l a k q. q;
  inserts = λ o l a f q. q;
  steps = λ test to l a h q. update-AllGoOn test to start a h q;
  plans = λ b l a role q. if-AllGoOn _ start a _ q (append-AllGoOn (b ∷ []) start a q);
}

-- Whatever calls are made, by whom and in whatever order, each attempt to delete a resource stays
-- in its place, keeps everything but its state, and never falls back to an earlier state.
pub Reaches-AllGoOn : (start db : Tables) → Reaches start db → AllGoOn start.attempts db.attempts
Reaches-AllGoOn start db r =
    Reaches-Holds (λ l a. AllGoOn start.attempts a) (AllGoOn-IsInvariant start.attempts) start db r
      (same-AllGoOn start.attempts)
