-- ===== src/Serving/Standalone/Resume.antt =====
-- A promotion that a crash left in the journal is brought to its end by the next run.
use mathlib.Core.Path.{subst}
use custom_wikibase.Prelude.{
  ℕ, ◌+◌, ◌≡◌, refl, sym, ap, ◌∙◌, Bool, true, false, ◌||◌, Option, none, some, List, [], ◌∷◌, Text,
  Result, ok, Exec, continue, arith, throw_if, ◌>>=◌, Bool-cases, inl, inr, ◌⊎◌,
}
use custom_wikibase.Serving.Tables.{
  GenerationRow, PointerRow, select_where, update_where, transaction, is_generation,
}
use custom_wikibase.Serving.Pointer.Rows.{serving_ids}
use custom_wikibase.Serving.Standalone.{
  Phase, prepared, pointer_updated, router_verified, generation_finalized, JournalRow, Registry,
  Mode, promote_mode, rollback_mode, is_prepared, is_finalized, is_eligible, is_journal, set_phase,
  Setting, pointer, pending_row,
}
use custom_wikibase.Serving.Standalone.Steps.{
  moved_pointer, updated_journal, verified_journal, finalized_journal, switched, is_expected,
  journal_row, set_pointer, cas_body, cas, set_verified, is_observed, verify_router, is_fit,
  switch_generations, finalize_row, finalize_body, finalize, advance, begin, run_slot, repeated_row,
  promote_slot,
}
use custom_wikibase.Serving.Standalone.Switch.{switched-serving}

select_where-none :
    {A : Type 0} (test : A → Bool) (f : A → A) (l : List A)
    → ((a : A) → test a ≡ true → test (f a) ≡ true)
    → select_where test l ≡ []
    → select_where test (update_where test f l) ≡ []
unfolding select_where update_where
select_where-none test f [] keeps h = refl
select_where-none test f (a ∷ l) keeps h = ground (arith, keeps a, select_where-none test f l keeps)

-- The only row that a statement finds is then the only one that it would find again.
select_where-update :
    {A : Type 0} (test : A → Bool) (f : A → A) (l : List A) (b : A)
    → ((a : A) → test a ≡ true → test (f a) ≡ true)
    → select_where test l ≡ b ∷ []
    → select_where test (update_where test f l) ≡ f b ∷ []
unfolding select_where update_where
select_where-update test f [] b keeps h = cc
select_where-update test f (a ∷ l) b keeps h =
    ground (arith, keeps a, select_where-update test f l b keeps, select_where-none test f l keeps)

-- The generation that the row comes from serves, and no other; the one that it goes to may serve.
pub record IsSwitchable (source from to : Text) (l : List GenerationRow) : Type 0 where
  pub from_serves : serving_ids source l ≡ from ∷ []
  pub target : GenerationRow
  pub only : select_where (is_generation source to) l ≡ target ∷ []
  pub fits : (is_eligible promote_mode target || is_eligible rollback_mode target) ≡ true

-- The end of a promotion.
pub record HasFinished (source id to : Text) (run : Result JournalRow × Registry) : Type 0 where
  pub row : JournalRow
  pub returned : run.0 ≡ ok row
  pub is_done : row.phase ≡ generation_finalized
  pub goes_to : row.to_generation_id ≡ to
  pub stored : select_where (is_journal id) run.1.journal ≡ row ∷ []
  pub serves : serving_ids source run.1.generations ≡ to ∷ []

module _ (s : Setting) where
  set_phase-listed :
      (p : JournalRow) (f : JournalRow → JournalRow) (db : Registry)
      → select_where (is_journal p.id) db.journal ≡ p ∷ []
      → set_phase p.id f db
        ≡ (ok (f p), record db { journal = update_where (is_journal p.id) f db.journal })
  unfolding set_phase
  set_phase-listed p f db h = ground arith

  finalize_run :
      (p : JournalRow) (db : Registry) (g : GenerationRow)
      → p.phase ≡ router_verified
      → select_where (is_journal p.id) db.journal ≡ p ∷ []
      → select_where (is_generation s.source p.to_generation_id) db.generations ≡ g ∷ []
      → (is_eligible promote_mode g || is_eligible rollback_mode g) ≡ true
      → (switched s.source p db.generations).1 ≡ true
      → finalize s p db ≡ (
        ok (finalized_journal s.now p),
        record db {
          generations = (switched s.source p db.generations).0;
          journal = update_where (is_journal p.id) (finalized_journal s.now) db.journal;
        },
      )
  unfolding finalize finalize_body journal_row finalize_row is_fit switch_generations transaction
      throw_if ◌>>=◌ set_phase
  finalize_run p db g phase listed only fits both = ground arith

  finalize-HasFinished :
      (p : JournalRow) (db : Registry)
      → p.phase ≡ router_verified
      → select_where (is_journal p.id) db.journal ≡ p ∷ []
      → IsSwitchable s.source p.from_generation_id p.to_generation_id db.generations
      → HasFinished s.source p.id p.to_generation_id (finalize s p db)
  finalize-HasFinished p db phase listed fit =
      let (both, serves) =
        switched-serving s.source p db.generations fit.target fit.from_serves fit.only fit.fits in
      subst (HasFinished s.source p.id p.to_generation_id)
        (sym (finalize_run p db fit.target phase listed fit.only fit.fits both))
        (record {
          row = finalized_journal s.now p;
          returned = refl;
          is_done = refl;
          goes_to = refl;
          stored =
              select_where-update (is_journal p.id) (finalized_journal s.now) db.journal p
                (λ a h. h) listed;
          serves = serves;
        })

  -- From the phase in which the pointer has moved.
  verify_run :
      (p : JournalRow) (db : Registry)
      → p.phase ≡ pointer_updated
      → select_where (is_journal p.id) db.journal ≡ p ∷ []
      → s.observes p.to_generation_id p.resulting_pointer_version ≡ ok true
      → select_where (is_observed s p.id) db.journal ≡ p ∷ []
      → verify_router s p db ≡ (
        ok (verified_journal p),
        record db { journal = update_where (is_observed s p.id) verified_journal db.journal },
      )
  unfolding verify_router set_verified throw_if ◌>>=◌
  verify_run p db phase listed sees seen = ground arith

  observed-none :
      (id : Text) (l : List JournalRow)
      → select_where (is_journal id) l ≡ []
      → (select_where (is_observed s id) l ≡ [])
        × (update_where (is_observed s id) verified_journal l ≡ l)
  unfolding select_where update_where
  observed-none id [] h = (refl, refl)
  observed-none id (q ∷ l) h =
      let rest = observed-none id l in (ground (arith, rest), ground (arith, rest))

  observed-one :
      (id : Text) (l : List JournalRow) (p : JournalRow)
      → select_where (is_journal id) l ≡ p ∷ []
      → p.phase ≡ pointer_updated
      → (select_where (is_observed s id) l ≡ p ∷ [])
        × (select_where (is_journal id) (update_where (is_observed s id) verified_journal l)
            ≡ verified_journal p ∷ [])
  unfolding select_where update_where
  observed-one id [] p h phase = cc
  observed-one id (q ∷ l) p h phase = elim (Bool-cases (is_journal id q)) [
    | inl e ↦
        let empty : select_where (is_journal id) l ≡ [] = ground arith in
        let same : q ≡ p = ground arith in
        let updated : q.phase ≡ pointer_updated = ap (λ x. x.phase) same ∙ phase in
        let (none_seen, unchanged) = observed-none id l empty in (ground arith, ground arith)
    | inr e ↦
        let (seen, stored) = observed-one id l p (ground arith) phase in
        (ground arith, ground arith)
  ]

  cas_run :
      (p : JournalRow) (db : Registry) (q : PointerRow)
      → p.phase ≡ prepared
      → select_where (is_journal p.id) db.journal ≡ p ∷ []
      → select_where (is_expected s p) db.pointers ≡ q ∷ []
      → cas s p db ≡ (
        ok (updated_journal (q.version + 1) p),
        record db {
          pointers = update_where (is_expected s p) (moved_pointer p.to_generation_id) db.pointers;
          journal = update_where (is_journal p.id) (updated_journal (q.version + 1)) db.journal;
        },
      )
  unfolding cas cas_body journal_row set_pointer set_phase transaction ◌>>=◌
  cas_run p db q phase listed expected = ground arith

  -- The steps after the compare-and-set.
  after_cas : JournalRow → Exec Registry JournalRow
  after_cas p = verify_router s p >>= finalize s

  updated-HasFinished :
      (p : JournalRow) (db : Registry)
      → p.phase ≡ pointer_updated
      → select_where (is_journal p.id) db.journal ≡ p ∷ []
      → IsSwitchable s.source p.from_generation_id p.to_generation_id db.generations
      → s.observes p.to_generation_id p.resulting_pointer_version ≡ ok true
      → HasFinished s.source p.id p.to_generation_id (after_cas p db)
  unfolding after_cas ◌>>=◌
  updated-HasFinished p db phase listed fit sees =
      let (seen, stored) = observed-one p.id db.journal p listed phase in
      subst (λ x. HasFinished s.source p.id p.to_generation_id (continue x.0 (finalize s) x.1))
        (sym (verify_run p db phase listed sees seen))
        (finalize-HasFinished (verified_journal p) _ refl stored fit)

  verified_after :
      (p : JournalRow) (db : Registry)
      → p.phase ≡ router_verified
      → after_cas p db ≡ finalize s p db
  unfolding after_cas verify_router ◌>>=◌
  verified_after p db phase = ground arith

  advance_after :
      (p : JournalRow) (db : Registry) (q : JournalRow) (db' : Registry)
      → cas s p db ≡ (ok q, db')
      → advance s none p db ≡ after_cas q db'
  unfolding advance after_cas throw_if ◌>>=◌
  advance_after p db q db' h = ground arith

  cas_skipped :
      (p : JournalRow) (db : Registry) → is_prepared p.phase ≡ false → cas s p db ≡ (ok p, db)
  unfolding cas
  cas_skipped p db h = ground arith

-- A row that a run has left in the journal: not at its end, with the generations as they were before
-- the switch, and the pointer as the row expects it if it has not been moved yet.
pub record IsPending (s : Setting) (p : JournalRow) (db : Registry) : Type 0 where
  pub first : pending_row s db ≡ some p
  pub listed : select_where (is_journal p.id) db.journal ≡ p ∷ []
  pub unfinished : is_finalized p.phase ≡ false
  pub switchable : IsSwitchable s.source p.from_generation_id p.to_generation_id db.generations
  pub expected :
      p.phase ≡ prepared → (q : PointerRow) × (select_where (is_expected s p) db.pointers ≡ q ∷ [])
  pub has_pointer : (q : PointerRow) × (pointer s db ≡ (ok q, db))

Phase-cases :
    (f : Phase)
    → (f ≡ prepared)
      ⊎ ((f ≡ pointer_updated) ⊎ ((f ≡ router_verified) ⊎ (f ≡ generation_finalized)))
Phase-cases prepared = inl refl
Phase-cases pointer_updated = inr (inl refl)
Phase-cases router_verified = inr (inr (inl refl))
Phase-cases generation_finalized = inr (inr (inr refl))

module _ (s : Setting) (sees : (id : Text) (v : Option ℕ) → s.observes id v ≡ ok true) where
  advance-HasFinished :
      (p : JournalRow) (db : Registry)
      → IsPending s p db
      → HasFinished s.source p.id p.to_generation_id (advance s none p db)
  advance-HasFinished p db h = elim (Phase-cases p.phase) [
    | inl e ↦
        let (q, expected) = h.expected e in
        let stored =
          select_where-update (is_journal p.id) (updated_journal (q.version + 1)) db.journal p
            (λ a h. h) h.listed in
        subst (HasFinished s.source p.id p.to_generation_id)
          (sym (advance_after s p db _ _ (cas_run s p db q e h.listed expected)))
          (updated-HasFinished s (updated_journal (q.version + 1) p) _ refl stored h.switchable
            (sees p.to_generation_id (some (q.version + 1))))
    | inr (inl e) ↦
        subst (HasFinished s.source p.id p.to_generation_id)
          (sym (advance_after s p db p db (cas_skipped s p db (rw e refl))))
          (updated-HasFinished s p db e h.listed h.switchable
            (sees p.to_generation_id p.resulting_pointer_version))
    | inr (inr (inl e)) ↦
        subst (HasFinished s.source p.id p.to_generation_id)
          (sym
            (advance_after s p db p db (cas_skipped s p db (rw e refl)) ∙ verified_after s p db e))
          (finalize-HasFinished s p db e h.listed h.switchable)
    | inr (inr (inr e)) ↦ absurd (ground arith)
  ]

  slot_run :
      (mode : Mode) (p : JournalRow) (db : Registry) (row : JournalRow)
      → IsPending s p db
      → (advance s none p db).0 ≡ ok row
      → promote_slot s mode none db ≡ (ok (row, false), (advance s none p db).1)
  unfolding promote_slot repeated_row run_slot begin ◌>>=◌
  slot_run mode p db row h done = let first = h.first in let there = h.has_pointer.1 in ground arith

-- Where the router sees what the pointer says: whatever its mode is, the next run takes up the row
-- that is first in the journal, brings it to its last phase, and the target of the row is then the
-- only generation of the source that serves.
pub promote_slot_resumes :
    (s : Setting) (mode : Mode) (p : JournalRow) (db : Registry)
    → ((id : Text) (v : Option ℕ) → s.observes id v ≡ ok true)
    → IsPending s p db
    → (row : JournalRow) × ((promote_slot s mode none db).0 ≡ ok (row, false))
      × (row.phase ≡ generation_finalized)
      × (row.to_generation_id ≡ p.to_generation_id)
      × (select_where (is_journal p.id) (promote_slot s mode none db).1.journal ≡ row ∷ [])
      × (serving_ids s.source (promote_slot s mode none db).1.generations ≡ p.to_generation_id ∷ [])
promote_slot_resumes s mode p db sees h =
    let f = advance-HasFinished s sees p db h in
    let run = slot_run s sees mode p db f.row h f.returned in
    let after = ap (λ r. r.1) run in
    (
      f.row,
      ap (λ r. r.0) run,
      f.is_done,
      f.goes_to,
      ap (λ d. select_where (is_journal p.id) d.journal) after ∙ f.stored,
      ap (λ d. serving_ids s.source d.generations) after ∙ f.serves,
    )
