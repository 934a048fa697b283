-- ===== src/Coordinator/Kept.antt =====
-- What all the calls of services/rdf-sync/src/postgres-generation-coordinator-repository.js do to
-- the operations and to the attempts: an invariant of these two tables that a few kinds of
-- statement keep is kept by every call.
use mathlib.Core.Path.{subst}
use custom_wikibase.Prelude.{
  ◌⊎◌, ◌≡◌, refl, sym, Bool, true, false, Option, List, [], ◌∷◌, ◌++◌, Text, ◌≤◌, Result, Exec,
  pure, gets, throw, if◌then◌else◌, arith, Result-cases, Option-cases, Bool-cases, inl, inr, lift,
  ◌>>=◌, ◌>>◌,
}
use custom_wikibase.Prelude.Results.{check}
use custom_wikibase.Prelude.Runs.{Keeps}
use custom_wikibase.Serving.Tables.{select_where, update_where, the_row, transaction}
use custom_wikibase.Coordinator.{OperationRow, AttemptState, attempt_code, AttemptRow, Tables}
use custom_wikibase.Coordinator.Statements.{
  Caller, has_row, first_where, updated_one, update_operation, select_one, joining, found_or,
}
use custom_wikibase.Coordinator.Checks.{is_role}
use custom_wikibase.Coordinator.Operations.{
  is_operation, is_taken, is_claimable, insert_operation, claimed, claim_next,
}
use custom_wikibase.Coordinator.Cleanup.{set_operations}
use custom_wikibase.Coordinator.Deletion.{insert_attempt, to_state, update_attempts}

-- What a statement does to a row that it updates: the identifier stays and the fence never falls.
pub record KeepsFence (set : OperationRow → OperationRow) : Type 0 where
  pub same_id : (o : OperationRow) → (set o).id ≡ o.id
  pub no_less : (o : OperationRow) → o.fence ≤ (set o).fence

-- An invariant of the operations and of the attempts.
pub record IsInvariant (Q : List OperationRow → List AttemptRow → Type 0) : Type 0 where
  pub updates :
      (test : OperationRow → Bool) (set : OperationRow → OperationRow) (l : List OperationRow)
      (a : List AttemptRow)
      → KeepsFence set
      → Q l a
      → Q (update_where test set l) a
  pub inserts :
      (o : OperationRow) (l : List OperationRow) (a : List AttemptRow)
      → has_row (is_operation o.id) l ≡ false
      → Q l a
      → Q (l ++ o ∷ []) a
  pub steps :
      (test : AttemptRow → Bool) (to : AttemptState) (l : List OperationRow) (a : List AttemptRow)
      → ((b : AttemptRow) → test b ≡ true → attempt_code b.attempt_state ≤ attempt_code to)
      → Q l a
      → Q l (update_where test (to_state to) a)
  pub plans :
      (b : AttemptRow) (l : List OperationRow) (a : List AttemptRow)
      → is_role b.resource_role ≡ true
      → Q l a
      → Q l (insert_attempt b a)

pub claimed-KeepsFence : (c : Caller) → KeepsFence (claimed c)
unfolding claimed
claimed-KeepsFence c = record { same_id = λ o. refl; no_less = λ o. ground arith }

List-cases : {A : Type 0} (l : List A) → (l ≡ []) ⊎ ((a : A) × ((k : List A) × (l ≡ a ∷ k)))
List-cases [] = inl refl
List-cases (a ∷ k) = inr (a, (k, refl))

has_row-weaker :
    (o : OperationRow) (l : List OperationRow)
    → has_row (is_taken o) l ≡ false
    → has_row (is_operation o.id) l ≡ false
unfolding has_row
has_row-weaker o [] h = refl
has_row-weaker o (q ∷ l) h = ground (arith, has_row-weaker o l)

claim_next-cases :
    (c : Caller) (db : Tables)
    → ((claim_next c db).1 ≡ db)
      ⊎ ((o : OperationRow) × ((claim_next c db).1 ≡ record db {
        operations = update_where (is_operation o.id) (claimed c) db.operations;
      }))
unfolding claim_next
claim_next-cases c db = elim (Option-cases (first_where (is_claimable c) db.operations)) [
  | inl e ↦ inl (ground arith)
  | inr (o, e) ↦ inr (o, ground arith)
]

module _ (Q : List OperationRow → List AttemptRow → Type 0) where
  abbrev pub Holds : Tables → Type 0
  Holds db = Q db.operations db.attempts

  -- What follows a test is made only where the test holds.
  pub checked-Keeps :
      {B : Type 0} (t : Bool) (e : Text) (k : Exec Tables B)
      → (t ≡ true → Keeps Holds k)
      → Keeps Holds (lift (check t e) >> k)
  unfolding Keeps check ◌>>=◌
  checked-Keeps true e k f s q = f refl s q
  checked-Keeps false e k f s q = q

  pub throw-Keeps : (A : Type 0) (e : Text) → Keeps Holds (throw {A = A} e)
  unfolding Keeps
  throw-Keeps A e db q = q

  module _ {A : Type 0} where
    select_one-same :
        (test : A → Bool) (message : Text) (rows : Tables → List A) (db : Tables)
        → (select_one test message rows db).1 ≡ db
    unfolding select_one
    select_one-same test message rows db =
        elim (Option-cases (the_row (select_where test (rows db)))) [
          | inl e ↦ ground arith
          | inr (a, e) ↦ ground arith
        ]

    pub select_one-Keeps :
        (test : A → Bool) (message : Text) (rows : Tables → List A)
        → Keeps Holds (select_one test message rows)
    unfolding Keeps
    select_one-Keeps test message rows db q =
        subst (λ t. Holds t) (sym (select_one-same test message rows db)) q

    updated_one-after :
        (test : A → Bool) (set : A → A) (message : Text) (rows : List A) (after db : Tables)
        → (updated_one test set message rows after db).1 ≡ after
    unfolding updated_one
    updated_one-after test set message rows after db =
        elim (Option-cases (the_row (select_where test rows))) [
          | inl e ↦ ground arith
          | inr (a, e) ↦ ground arith
        ]

    pub updated_one-Keeps :
        (test : A → Bool) (set : A → A) (message : Text) (rows : List A) (after db : Tables)
        → Holds after
        → Holds (updated_one test set message rows after db).1
    updated_one-Keeps test set message rows after db q =
        subst (λ t. Holds t) (sym (updated_one-after test set message rows after db)) q

    transaction-cases :
        (m : Exec Tables A) (db : Tables)
        → ((transaction m db).1 ≡ db) ⊎ ((transaction m db).1 ≡ (m db).1)
    unfolding transaction
    transaction-cases m db = elim (Result-cases (m db).0) [
      | inl (e, p) ↦ inl (ground arith)
      | inr (a, p) ↦ inr (ground arith)
    ]

    pub transaction-Keeps : (m : Exec Tables A) → Keeps Holds m → Keeps Holds (transaction m)
    unfolding Keeps
    transaction-Keeps m h db q = elim (transaction-cases m db) [
      | inl e ↦ subst (λ t. Holds t) (sym e) q
      | inr e ↦ subst (λ t. Holds t) (sym e) (h db q)
    ]

    pub joining-Keeps :
        (f : Tables → Exec Tables A)
        → ((db : Tables) → Keeps Holds (f db))
        → Keeps Holds (joining f)
    unfolding Keeps joining
    joining-Keeps f h db q = h db db q

    pub if-Holds :
        (b : Bool) (x y : Result A × Tables) → Holds x.1 → Holds y.1 → Holds (if b then x else y).1
    if-Holds true x y p q = p
    if-Holds false x y p q = q

    pub if-Keeps :
        (b : Bool) (m k : Exec Tables A)
        → Keeps Holds m
        → Keeps Holds k
        → Keeps Holds (if b then m else k)
    if-Keeps true m k hm hk = hm
    if-Keeps false m k hm hk = hk

    found_or-cases :
        {B : Type 0} (find : Tables → Option B) (old : B → Exec Tables A) (new : Exec Tables A)
        (db : Tables)
        → ((found_or find old new db).1 ≡ (new db).1)
          ⊎ ((b : B) × ((found_or find old new db).1 ≡ (old b db).1))
    unfolding found_or
    found_or-cases find old new db = elim (Option-cases (find db)) [
      | inl e ↦ inl (ground arith)
      | inr (b, e) ↦ inr (b, ground arith)
    ]

    pub found_or-Keeps :
        {B : Type 0} (find : Tables → Option B) (old : B → Exec Tables A) (new : Exec Tables A)
        → ((b : B) → Keeps Holds (old b))
        → Keeps Holds new
        → Keeps Holds (found_or find old new)
    unfolding Keeps
    found_or-Keeps find old new ho hn db q = elim (found_or-cases find old new db) [
      | inl e ↦ subst (λ t. Holds t) (sym e) (hn db q)
      | inr (b, e) ↦ subst (λ t. Holds t) (sym e) (ho b db q)
    ]

    pub gets-Keeps : (f : Tables → A) → Keeps Holds (gets f)
    unfolding Keeps
    gets-Keeps f db q = q

    pub pure-Keeps : (a : A) → Keeps Holds (pure a)
    unfolding Keeps
    pure-Keeps a db q = q

  module _ (h : IsInvariant Q) where
    pub update_operation-Keeps :
        (test : OperationRow → Bool) (set : OperationRow → OperationRow) (message : Text)
        → KeepsFence set
        → Keeps Holds (update_operation test set message)
    unfolding Keeps
    update_operation-Keeps test set message k db q =
        updated_one-Keeps test set message _ _ db (h.updates test set db.operations db.attempts k q)

    insert_operation-cases :
        (o : OperationRow) (db : Tables)
        → ((insert_operation o db).1 ≡ db)
          ⊎ ((has_row (is_operation o.id) db.operations ≡ false)
              × ((insert_operation o db).1 ≡ record db { operations = db.operations ++ o ∷ [] }))
    unfolding insert_operation
    insert_operation-cases o db = elim (Bool-cases (has_row (is_taken o) db.operations)) [
      | inl e ↦ inl (ground arith)
      | inr e ↦ inr (has_row-weaker o db.operations e, ground arith)
    ]

    pub insert_operation-Keeps : (o : OperationRow) → Keeps Holds (insert_operation o)
    unfolding Keeps
    insert_operation-Keeps o db q = elim (insert_operation-cases o db) [
      | inl e ↦ subst (λ t. Holds t) (sym e) q
      | inr (fresh, e) ↦
          subst (λ t. Holds t) (sym e) (h.inserts o db.operations db.attempts fresh q)
    ]

    update_attempts-cases :
        (test : AttemptRow → Bool) (to : AttemptState) (db : Tables)
        → ((update_attempts test to db).1 ≡ db)
          ⊎ ((update_attempts test to db).1
              ≡ record db { attempts = update_where test (to_state to) db.attempts })
    unfolding update_attempts
    update_attempts-cases test to db = elim (List-cases (select_where test db.attempts)) [
      | inl e ↦ inl (ground arith)
      | inr (a, (l, e)) ↦ inr (ground arith)
    ]

    pub update_attempts-Keeps :
        (test : AttemptRow → Bool) (to : AttemptState)
        → ((b : AttemptRow) → test b ≡ true → attempt_code b.attempt_state ≤ attempt_code to)
        → Keeps Holds (update_attempts test to)
    unfolding Keeps
    update_attempts-Keeps test to k db q = elim (update_attempts-cases test to db) [
      | inl e ↦ subst (λ t. Holds t) (sym e) q
      | inr e ↦ subst (λ t. Holds t) (sym e) (h.steps test to db.operations db.attempts k q)
    ]

    pub set_operations-Keeps :
        (id : Text) (set : OperationRow → OperationRow)
        → KeepsFence set
        → Keeps Holds (set_operations id set)
    unfolding Keeps set_operations
    set_operations-Keeps id set k db q =
        h.updates (is_operation id) set db.operations db.attempts k q

    pub claim_next-Keeps : (c : Caller) → Keeps Holds (claim_next c)
    unfolding Keeps
    claim_next-Keeps c db q = elim (claim_next-cases c db) [
      | inl e ↦ subst (λ t. Holds t) (sym e) q
      | inr (o, e) ↦
          subst (λ t. Holds t) (sym e)
            (h.updates (is_operation o.id) (claimed c) db.operations db.attempts
              (claimed-KeepsFence c) q)
    ]
