-- ===== src/Coordinator/Rows.antt =====
-- What a statement finds and changes where the caller's operation is not among its rows.
use custom_wikibase.Prelude.{
  ◌≡◌, refl, ap, Bool, true, false, ◌&&◌, List, [], ◌∷◌, Text, Result, ok, err, Exec, lift,
  throw_if, continue, ◌>>=◌, ◌>>◌, arith,
}
use custom_wikibase.Serving.Tables.{select_where, update_where, the_row, transaction}
use custom_wikibase.Coordinator.{OperationRow, RetirementJournal, Tables}
use custom_wikibase.Coordinator.Statements.{
  has_row, updated_one, update_operation, update_retirement, select_one, joining,
}

module _ {A : Type 0} where
  -- A test that asks for more.
  pub has_row-select :
      (test more : A → Bool) (l : List A)
      → has_row test l ≡ false
      → select_where (λ a. test a && more a) l ≡ []
  unfolding has_row select_where
  has_row-select test more [] h = refl
  has_row-select test more (a ∷ l) h = ground (arith, has_row-select test more l)

  pub has_row-update :
      (test more : A → Bool) (set : A → A) (l : List A)
      → has_row test l ≡ false
      → update_where (λ a. test a && more a) set l ≡ l
  unfolding has_row update_where
  has_row-update test more set [] h = refl
  has_row-update test more set (a ∷ l) h = ground (arith, has_row-update test more set l)

  pub select_where-nil :
      (test : A → Bool) (l : List A) → ((a : A) → test a ≡ false) → select_where test l ≡ []
  unfolding select_where
  select_where-nil test [] h = refl
  select_where-nil test (a ∷ l) h = ground (arith, h a, select_where-nil test l h)

  update_where-same :
      (test : A → Bool) (set : A → A) (l : List A)
      → ((a : A) → test a ≡ false)
      → update_where test set l ≡ l
  unfolding update_where
  update_where-same test set [] h = refl
  update_where-same test set (a ∷ l) h = ground (arith, h a, update_where-same test set l h)

-- A call that throws and leaves the tables as they were.
unfoldable pub IsRefused : {A : Type 0} → Exec Tables A → Tables → Type 0
IsRefused m db = (e : Text) × (m db ≡ (err e, db))

module _ {A B : Type 0} where
  continue-IsRefused :
      (x : Result A × Tables) (k : A → Exec Tables B) (e : Text) (db : Tables)
      → x ≡ (err e, db)
      → continue x.0 k x.1 ≡ (err e, db)
  continue-IsRefused x k e db h = rw h refl

  pub bind-IsRefused :
      (m : Exec Tables A) (k : A → Exec Tables B) (db : Tables)
      → IsRefused m db
      → IsRefused (m >>= k) db
  unfolding IsRefused ◌>>=◌
  bind-IsRefused m k db (e, h) = (e, continue-IsRefused (m db) k e db h)

  pub lift-IsRefused :
      (r : Result A) (k : A → Exec Tables B) (db : Tables)
      → ((a : A) → IsRefused (k a) db)
      → IsRefused (lift r >>= k) db
  unfolding IsRefused ◌>>=◌
  lift-IsRefused (ok a) k db h = h a
  lift-IsRefused (err e) k db h = (e, refl)

pub throw_if-IsRefused :
    {B : Type 0} (t : Bool) (e : Text) (k : Exec Tables B) (db : Tables)
    → IsRefused k db
    → IsRefused (throw_if t e >> k) db
unfolding IsRefused ◌>>=◌ throw_if
throw_if-IsRefused true e k db h = (e, refl)
throw_if-IsRefused false e k db h = h

module _ {A : Type 0} where
  pub transaction-IsRefused :
      (m : Exec Tables A) (db : Tables) → IsRefused m db → IsRefused (transaction m) db
  unfolding IsRefused transaction
  transaction-IsRefused m db (e, h) = (e, ground arith)

  pub select_one-IsRefused :
      (test : A → Bool) (message : Text) (rows : Tables → List A) (db : Tables)
      → select_where test (rows db) ≡ []
      → IsRefused (select_one test message rows) db
  unfolding IsRefused select_one the_row
  select_one-IsRefused test message rows db h = (message, ground arith)

  updated_one-IsRefused :
      (test : A → Bool) (set : A → A) (message : Text) (rows : List A) (after db : Tables)
      → select_where test rows ≡ []
      → after ≡ db
      → IsRefused (updated_one test set message rows after) db
  unfolding IsRefused updated_one the_row
  updated_one-IsRefused test set message rows after db h same = (message, ground arith)

  pub joining-IsRefused :
      (f : Tables → Exec Tables A) (db : Tables) → IsRefused (f db) db → IsRefused (joining f) db
  unfolding IsRefused joining
  joining-IsRefused f db h = h

pub update_operation-IsRefused :
    (test more : OperationRow → Bool) (set : OperationRow → OperationRow) (message : Text)
    (db : Tables)
    → has_row test db.operations ≡ false
    → IsRefused (update_operation (λ o. test o && more o) set message) db
unfolding IsRefused
update_operation-IsRefused test more set message db h =
    updated_one-IsRefused _ set message _ _ db (has_row-select test more db.operations h)
      (ap (λ l. record db { operations = l }) (has_row-update test more set db.operations h))

pub update_retirement-IsRefused :
    (test : RetirementJournal → Bool) (set : RetirementJournal → RetirementJournal) (message : Text)
    (db : Tables)
    → ((r : RetirementJournal) → test r ≡ false)
    → IsRefused (update_retirement test set message) db
unfolding IsRefused
update_retirement-IsRefused test set message db h =
    updated_one-IsRefused test set message _ _ db (select_where-nil test db.retirements h)
      (ap (λ l. record db { retirements = l }) (update_where-same test set db.retirements h))
