-- ===== src/Coordinator/After.antt =====
-- What a call that succeeds has found and left in the tables of
-- services/rdf-sync/src/postgres-generation-coordinator-repository.js.
use custom_wikibase.Prelude.{
  ◌≡◌, refl, sym, ap, ◌∙◌, Bool, false, ◌&&◌, Option, none, some, List, [], ◌∷◌, Text, Result, ok,
  err, Exec, arith,
}
use custom_wikibase.Prelude.Results.{ok-injective}
use custom_wikibase.Serving.Tables.{select_where, the_row, transaction, the_row-eq-some}
use custom_wikibase.Coordinator.{Tables}
use custom_wikibase.Coordinator.Statements.{has_row, updated_one, select_one}

module _ {A : Type 0} where
  committed_after :
      (db db' : Tables) (a : A) (x : Result A × Tables)
      → elim x.0 as (λ _. Result A × Tables) [ ok b ↦ (ok b, x.1) | err e ↦ (err e, db) ]
        ≡ (ok a, db')
      → x ≡ (ok a, db')
  committed_after db db' a (ok b, t) h = h
  committed_after db db' a (err e, t) h = cc

  pub transaction_after :
      (m : Exec Tables A) (db db' : Tables) (a : A)
      → transaction m db ≡ (ok a, db')
      → m db ≡ (ok a, db')
  unfolding transaction
  transaction_after m db db' a h = committed_after db db' a (m db) h

  -- The row, and what was set in it.
  row_after :
      (message : Text) (set : A → A) (after t : Tables) (a : A) (o : Option A)
      → elim o as (λ _. Result A × Tables) [
        | none ↦ (err message, after)
        | some b ↦ (ok (set b), after)
      ]
        ≡ (ok a, t)
      → (b : A) × ((o ≡ some b) × ((a ≡ set b) × (t ≡ after)))
  row_after message set after t a none h = cc
  row_after message set after t a (some b) h =
      (b, (refl, (sym (ok-injective (ap (λ x. x.0) h)), sym (ap (λ x. x.1) h))))

  pub updated_one_after :
      (test : A → Bool) (set : A → A) (message : Text) (rows : List A) (after db t : Tables) (a : A)
      → updated_one test set message rows after db ≡ (ok a, t)
      → (b : A) × ((select_where test rows ≡ b ∷ []) × ((a ≡ set b) × (t ≡ after)))
  unfolding updated_one
  updated_one_after test set message rows after db t a h =
      let (b, found) = row_after message set after t a (the_row (select_where test rows)) h in
      (b, (the_row-eq-some _ b found.0, found.1))

  pub select_one_after :
      (test : A → Bool) (message : Text) (rows : Tables → List A) (db t : Tables) (a : A)
      → select_one test message rows db ≡ (ok a, t)
      → (select_where test (rows db) ≡ a ∷ []) × (t ≡ db)
  unfolding select_one
  select_one_after test message rows db t a h =
      let (b, found) =
        row_after message (λ b. b) db t a (the_row (select_where test (rows db))) h in
      (the_row-eq-some _ a (found.0 ∙ ap some (sym found.1.0)), found.1.1)

  -- Whether one of the rows that a test selects is a bad one.
  pub has_row-select_where :
      (test bad : A → Bool) (l : List A)
      → has_row (λ a. test a && bad a) l ≡ has_row bad (select_where test l)
  unfolding has_row select_where
  has_row-select_where test bad [] = refl
  has_row-select_where test bad (a ∷ l) = ground (arith, has_row-select_where test bad l)

  pub the-has_row :
      (test bad : A → Bool) (l : List A) (a : A)
      → select_where test l ≡ a ∷ []
      → bad a ≡ false
      → has_row (λ b. test b && bad b) l ≡ false
  unfolding has_row
  the-has_row test bad l a h b =
      has_row-select_where test bad l ∙ (ap (λ k. has_row bad k) h ∙ ground (arith, b))
