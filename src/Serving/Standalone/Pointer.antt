-- ===== src/Serving/Standalone/Pointer.antt =====
-- The pointer moves once, by the compare-and-set, whatever happens before and after.
use custom_wikibase.Prelude.{
  codes, ◌≡◌, refl, ap, ◌∙◌, Bool, true, false, ◌&&◌, Option, some, List, [], ◌∷◌, Text, Result, ok,
  err, Exec, continue, arith, throw_if, ◌>>=◌, ◌>>◌, if◌then◌else◌, Bool-cases, Result-cases,
  Option-cases, inl, inr, ◌⊎◌,
}
use custom_wikibase.Serving.Tables.{PointerRow, select_where, update_where, transaction}
use custom_wikibase.Serving.Standalone.{
  JournalRow, Registry, CrashPoint, is_prepared, is_pointer_updated, first_row, is_journal,
  set_phase, Setting,
}
use custom_wikibase.Serving.Standalone.Steps.{
  moved_pointer, is_expected, journal_row, set_pointer, cas_body, cas, set_verified, verify_router,
  switch_generations, finalize_row, finalize_body, finalize, advance, crashes_before, crashes_after,
}

-- A step that leaves the pointers alone.
abbrev KeepsPointers : {A : Type 0} → Exec Registry A → Type 0
KeepsPointers m = (db : Registry) → (m db).1.pointers ≡ db.pointers

module _ {A B : Type 0} where
  continue-KeepsPointers :
      (k : A → Exec Registry B) (r : Result A) (db : Registry)
      → ((a : A) → KeepsPointers (k a))
      → (continue r k db).1.pointers ≡ db.pointers
  continue-KeepsPointers k (ok a) db h = h a db
  continue-KeepsPointers k (err e) db h = refl

  bind-KeepsPointers :
      (m : Exec Registry A) (k : A → Exec Registry B)
      → KeepsPointers m
      → ((a : A) → KeepsPointers (k a))
      → KeepsPointers (m >>= k)
  unfolding ◌>>=◌
  bind-KeepsPointers m k hm hk db = continue-KeepsPointers k (m db).0 (m db).1 hk ∙ hm db

throw_if-KeepsPointers : (b : Bool) (e : Text) → KeepsPointers (throw_if b e)
unfolding throw_if
throw_if-KeepsPointers true e db = refl
throw_if-KeepsPointers false e db = refl

if-KeepsPointers :
    {A : Type 0} (b : Bool) (m k : Exec Registry A)
    → KeepsPointers m
    → KeepsPointers k
    → KeepsPointers (if b then m else k)
if-KeepsPointers true m k hm hk = hm
if-KeepsPointers false m k hm hk = hk

set_phase-KeepsPointers : (id : Text) (f : JournalRow → JournalRow) → KeepsPointers (set_phase id f)
unfolding set_phase
set_phase-KeepsPointers id f db = ground arith

transaction-KeepsPointers :
    {A : Type 0} (m : Exec Registry A) → KeepsPointers m → KeepsPointers (transaction m)
unfolding transaction
transaction-KeepsPointers m h db = elim (Result-cases (m db).0) [
  | inl (e, q) ↦ ground arith
  | inr (a, q) ↦ ground (arith, h db)
]

module _ (s : Setting) where
  journal_row-KeepsPointers : (id : Text) → KeepsPointers (journal_row s id)
  unfolding journal_row
  journal_row-KeepsPointers id db = ground arith

  set_verified-KeepsPointers : (id : Text) → KeepsPointers (set_verified s id)
  unfolding set_verified
  set_verified-KeepsPointers id db = ground arith

  switch_generations-KeepsPointers : (p : JournalRow) → KeepsPointers (switch_generations s p)
  unfolding switch_generations
  switch_generations-KeepsPointers p db = ground arith

  verify_router-KeepsPointers : (p : JournalRow) → KeepsPointers (verify_router s p)
  unfolding verify_router
  verify_router-KeepsPointers p =
      if-KeepsPointers _ _ _ (λ db. refl)
        (bind-KeepsPointers _ _ (λ db. refl)
          (λ observed.
            bind-KeepsPointers _ _ (throw_if-KeepsPointers _ _)
              (λ _. set_verified-KeepsPointers p.id)))

  finalize_row-KeepsPointers : (p : JournalRow) → KeepsPointers (finalize_row s p)
  unfolding finalize_row
  finalize_row-KeepsPointers p = bind-KeepsPointers _ _ (throw_if-KeepsPointers _ _) (λ _.
      bind-KeepsPointers _ _ (λ db. refl)
        (λ fit. bind-KeepsPointers _ _ (throw_if-KeepsPointers _ _) (λ _.
          bind-KeepsPointers _ _ (switch_generations-KeepsPointers p)
            (λ _. set_phase-KeepsPointers p.id _))))

  finalize-KeepsPointers : (p : JournalRow) → KeepsPointers (finalize s p)
  unfolding finalize finalize_body
  finalize-KeepsPointers p =
      if-KeepsPointers _ _ _
        (transaction-KeepsPointers _ (
          bind-KeepsPointers _ _ (journal_row-KeepsPointers p.id)
            (λ q. if-KeepsPointers _ _ _ (λ db. refl) (finalize_row-KeepsPointers q))))
        (λ db. refl)

-- The pointer was moved, from where the journal's row expected it to be, to the row's target.
pub record HasMoved (s : Setting) (id : Text) (db db' : Registry) : Type 0 where
  pub row : JournalRow
  pub stored : first_row (select_where (is_journal id) db.journal) ≡ some row
  pub was_prepared : is_prepared row.phase ≡ true
  pub old : PointerRow
  pub only : select_where (is_expected s row) db.pointers ≡ old ∷ []
  pub moves :
      db'.pointers
      ≡ update_where (is_expected s row) (moved_pointer row.to_generation_id) db.pointers

-- One row, or another number of them.
abbrev is_single : {A : Type 0} → List A → Bool
is_single (a ∷ []) = true
is_single _ = false

single-cases : {A : Type 0} (l : List A) → ((a : A) × (l ≡ a ∷ [])) ⊎ (is_single l ≡ false)
single-cases [] = inr refl
single-cases (a ∷ []) = inl (a, refl)
single-cases (a ∷ b ∷ l) = inr refl

module _ (s : Setting) where
  cas-moves :
      (p : JournalRow) (db : Registry)
      → ((cas s p db).1.pointers ≡ db.pointers) ⊎ HasMoved s p.id db (cas s p db).1
  unfolding cas cas_body journal_row set_pointer set_phase transaction ◌>>=◌
  cas-moves p db = elim (Bool-cases (is_prepared p.phase)) [
    | inr e ↦ inl (ground arith)
    | inl e ↦ elim (Option-cases (first_row (select_where (is_journal p.id) db.journal))) [
      | inl e' ↦ inl (ground arith)
      | inr (row, found) ↦ elim (Bool-cases (is_prepared row.phase)) [
        | inr e' ↦ inl (ground arith)
        | inl e' ↦ elim (single-cases (select_where (is_expected s row) db.pointers)) [
          | inr other ↦ inl (ground arith)
          | inl (q, only) ↦ inr (record {
            row = row;
            stored = found;
            was_prepared = e';
            old = q;
            only = only;
            moves = ground arith;
          })
        ]
      ]
    ]
  ]

  -- The rest of `advance`, after the compare-and-set.
  rest : Option CrashPoint → JournalRow → Exec Registry JournalRow
  rest crash_at q = do
    throw_if (crashes_after crash_at && is_pointer_updated q.phase)
        (codes "QUALIFICATION_CRASH_AFTER_POINTER_CAS")
    r ← verify_router s q
    finalize s r

  rest-KeepsPointers :
      (crash_at : Option CrashPoint) (q : JournalRow) → KeepsPointers (rest crash_at q)
  unfolding rest
  rest-KeepsPointers crash_at q = bind-KeepsPointers _ _ (throw_if-KeepsPointers _ _) (λ _.
      bind-KeepsPointers _ _ (verify_router-KeepsPointers s q) (λ r. finalize-KeepsPointers s r))

  advance-cas :
      (crash_at : Option CrashPoint) (p : JournalRow) (db : Registry)
      → ((advance s crash_at p db).1 ≡ db)
        ⊎ ((advance s crash_at p db).1 ≡ (continue (cas s p db).0 (rest crash_at) (cas s p db).1).1)
  unfolding advance rest throw_if ◌>>=◌
  advance-cas crash_at p db = elim (Bool-cases (crashes_before crash_at && is_prepared p.phase)) [
    | inl e ↦ inl (ground arith)
    | inr e ↦ inr (ground arith)
  ]

-- Wherever a run crashes, whatever the router answers: the pointers stay as they are, or the row of
-- the journal was prepared, exactly one pointer stood where that row expects it (at its service, at
-- the generation it comes from and at its version), and that one has moved on to its target, once.
pub advance_moves :
    (s : Setting) (crash_at : Option CrashPoint) (p : JournalRow) (db : Registry)
    → ((advance s crash_at p db).1.pointers ≡ db.pointers)
      ⊎ HasMoved s p.id db (advance s crash_at p db).1
advance_moves s crash_at p db = elim (advance-cas s crash_at p db) [
  | inl e ↦ inl (ap (λ d. d.pointers) e)
  | inr e ↦
      let kept =
        ap (λ d. d.pointers) e
        ∙ continue-KeepsPointers (rest s crash_at) (cas s p db).0 (cas s p db).1
            (rest-KeepsPointers s crash_at) in
      elim (cas-moves s p db) [
        | inl same ↦ inl (kept ∙ same)
        | inr m ↦ inr (record {
          row = m.row;
          stored = m.stored;
          was_prepared = m.was_prepared;
          old = m.old;
          only = m.only;
          moves = kept ∙ m.moves;
        })
      ]
]
