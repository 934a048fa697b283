-- ===== src/Coordinator/Repeated.antt =====
-- The idempotency of `releaseRollbackProtection` of
-- services/rdf-sync/src/postgres-generation-coordinator-repository.js.
use custom_wikibase.Prelude.{
  ◌≡◌, refl, sym, ap, ◌∙◌, ◌⊎◌, Bool, true, false, Option, none, some, List, [], ◌∷◌, ◌++◌, Text,
  text_eq_refl, Result, ok, err, Exec, throw_if, ◌>>=◌, if◌then◌else◌, arith, inl, inr,
}
use custom_wikibase.Prelude.Results.{ok-injective}
use custom_wikibase.Prelude.Runs.{run_after, lift_after, throw_if_after}
use custom_wikibase.Serving.Tables.{transaction}
use custom_wikibase.Coordinator.{LifecycleRow, ReleaseRow, Tables}
use custom_wikibase.Coordinator.Statements.{Caller, first_where, found_or}
use custom_wikibase.Coordinator.Checks.{ReleaseInput, check_release}
use custom_wikibase.Coordinator.Release.{
  is_same_release, insert_release, release_rows, release_checked, prior_release, repeat_release,
  release_rollback_protection,
}
use custom_wikibase.Coordinator.After.{transaction_after, updated_one_after, select_one_after}

-- The release is stored under the key of the call, and is what the call asked for.
record IsStored (v : ReleaseInput) (r : ReleaseRow) (db : Tables) : Type 0 where
  prior : prior_release v db ≡ some r
  same : is_same_release r v ≡ true

found_after :
    {A B : Type 0} (o : Option A) (old : A → Exec Tables B) (new : Exec Tables B) (db t : Tables)
    (b : B)
    → elim o as (λ _. Result B × Tables) [ some a ↦ old a db | none ↦ new db ] ≡ (ok b, t)
    → ((a : A) × ((o ≡ some a) × (old a db ≡ (ok b, t)))) ⊎ ((o ≡ none) × (new db ≡ (ok b, t)))
found_after none old new db t b h = inr (refl, h)
found_after (some a) old new db t b h = inl (a, (refl, h))

found_or_after :
    {A B : Type 0} (find : Tables → Option A) (old : A → Exec Tables B) (new : Exec Tables B)
    (db t : Tables) (b : B)
    → found_or find old new db ≡ (ok b, t)
    → ((a : A) × ((find db ≡ some a) × (old a db ≡ (ok b, t))))
      ⊎ ((find db ≡ none) × (new db ≡ (ok b, t)))
unfolding found_or
found_or_after find old new db t b h = found_after (find db) old new db t b h

first_where-append :
    (test : ReleaseRow → Bool) (l : List ReleaseRow) (r : ReleaseRow)
    → first_where test l ≡ none
    → test r ≡ true
    → first_where test (l ++ r ∷ []) ≡ some r
unfolding first_where
first_where-append test [] r n h = ground arith
first_where-append test (a ∷ l) r n h = ground (arith, first_where-append test l r)

appended-prior :
    (test : ReleaseRow → Bool) (row r : ReleaseRow) (l k : List ReleaseRow)
    → k ≡ l ++ row ∷ []
    → r ≡ row
    → first_where test l ≡ none
    → test row ≡ true
    → first_where test k ≡ some r
appended-prior test row r l k e same n h =
    ap (first_where test) e ∙ (first_where-append test l row n h ∙ ap some (sym same))

if_after :
    (t : Bool) (e : Text) (row r : ReleaseRow) (db after s : Tables)
    → ◌≡◌ {A = Result ReleaseRow × Tables} (if t then (err e, db) else (ok row, after)) (ok r, s)
    → (r ≡ row) × (s ≡ after)
if_after true e row r db after s h = cc
if_after false e row r db after s h = (sym (ok-injective (ap (λ x. x.0) h)), sym (ap (λ x. x.1) h))

insert_release_after :
    (row r : ReleaseRow) (db t : Tables)
    → insert_release row db ≡ (ok r, t)
    → (r ≡ row) × (t ≡ record db { releases = db.releases ++ row ∷ [] })
unfolding insert_release
insert_release_after row r db t h = if_after _ _ row r db _ t h

repeat-again :
    (v : ReleaseInput) (d : Caller) (r : ReleaseRow) (db : Tables)
    → check_release v ≡ ok tt
    → IsStored v r db
    → release_rollback_protection d v db ≡ (ok r, db)
unfolding release_rollback_protection found_or repeat_release transaction throw_if ◌>>=◌
repeat-again v d r db e s = ground (arith, s.prior, s.same)

-- What a new release leaves under its key.
rows-IsStored :
    (c : Caller) (v : ReleaseInput) (g : LifecycleRow) (r : ReleaseRow) (db t : Tables)
    → prior_release v db ≡ none
    → release_rows c v g db ≡ (ok r, t)
    → IsStored v r t
unfolding release_rows is_same_release prior_release
rows-IsStored c v g r db t n h = run_after _ _ h (λ p s1 e1 h1.
    let (q, f1) = updated_one_after _ _ _ db.pointers _ db s1 p e1 in
    run_after _ _ h1 (λ k s2 e2 h2.
      let (l, f2) = updated_one_after _ _ _ s1.generations _ s1 s2 k e2 in
      run_after _ _ h2 (λ _ s3 e3 h3.
        let (row, left) = insert_release_after _ r s3 t h3 in
        let same3 : s3.releases ≡ db.releases =
          sym (ap (λ x. x.1.releases) e3)
          ∙ (ap (λ x. x.releases) f2.1.1 ∙ ap (λ x. x.releases) f1.1.1) in
        record {
          prior =
              appended-prior _ _ r s3.releases t.releases (ap (λ x. x.releases) left) row
                (ap (first_where _) same3 ∙ n) (text_eq_refl v.idempotency_key);
          same =
              ap (λ x. is_same_release x v) row
              ∙ ground (
                arith,
                text_eq_refl v.operation_id,
                text_eq_refl v.source_identity,
                text_eq_refl v.query_service_id,
                text_eq_refl v.generation_id,
                text_eq_refl v.expected_serving_generation_id,
              );
        })))

checked-IsStored :
    (c : Caller) (v : ReleaseInput) (r : ReleaseRow) (db t : Tables)
    → prior_release v db ≡ none
    → release_checked c v db ≡ (ok r, t)
    → IsStored v r t
unfolding release_checked
checked-IsStored c v r db t n h = run_after _ _ h (λ p s1 e1 h1.
    let (_, same1) = select_one_after _ _ _ db s1 p e1 in
    throw_if_after _ _ _ h1 (λ _ h2. run_after _ _ h2 (λ g s2 e2 h3.
      let (_, same2) = select_one_after _ _ _ s1 s2 g e2 in
      throw_if_after _ _ _ h3 (λ _ h4. run_after _ _ h4 (λ _ s3 e3 h5.
        throw_if_after _ _ _ h5 (λ _ h6. run_after _ _ h6 (λ _ s4 e4 h7.
          throw_if_after _ _ _ h7 (λ _ h8.
            let same : s4 ≡ db =
              sym (ap (λ x. x.1) e4) ∙ (sym (ap (λ x. x.1) e3) ∙ (same2 ∙ same1)) in
            rows-IsStored c v g r s4 t (ap (prior_release v) same ∙ n) h8))))))))

release-IsStored :
    (c : Caller) (v : ReleaseInput) (r : ReleaseRow) (db t : Tables)
    → found_or (prior_release v) (repeat_release v) (release_checked c v) db ≡ (ok r, t)
    → IsStored v r t
unfolding repeat_release
release-IsStored c v r db t h = elim (found_or_after _ _ _ db t r h) [
  | inr (n, h1) ↦ checked-IsStored c v r db t n h1
  | inl (p, (f, h1)) ↦ throw_if_after _ _ _ h1 (λ same h2.
      let row : p ≡ r = ok-injective (ap (λ x. x.0) h2) in
      record {
        prior = ap (prior_release v) (sym (ap (λ x. x.1) h2)) ∙ (f ∙ ap some row);
        same = ap (λ x. is_same_release x v) (sym row) ∙ ground arith;
      })
]

-- A release of the rollback's target that succeeded can be asked for again, by any caller at any
-- later time, as long as the tables are as it left them: it gives the same release and changes
-- nothing.
pub release_rollback_protection-again :
    (c d : Caller) (v : ReleaseInput) (r : ReleaseRow) (db db' : Tables)
    → release_rollback_protection c v db ≡ (ok r, db')
    → release_rollback_protection d v db' ≡ (ok r, db')
unfolding release_rollback_protection
release_rollback_protection-again c d v r db db' h = lift_after _ _ h (λ _ e h1.
    repeat-again v d r db' e (release-IsStored c v r db db' (transaction_after _ db db' r h1)))
