-- ===== src/Serving/Standalone/Steps.antt =====
-- The steps of `promote` of services/rdf-sync/src/standalone-promotion-coordinator.js.
use custom_wikibase.Prelude.{
  ℕ, ◌+◌, Bool, true, false, not, ◌&&◌, ◌||◌, Option, none, some, List, [], ◌∷◌, ◌++◌, Text, codes,
  ◌==◌, length, text_eq, Exec, pure, throw, lift, gets, throw_if, ◌>>=◌, ◌>>◌, if◌then◌else◌,
}
use custom_wikibase.Serving.Tables.{
  retiring, GenerationRow, preparing, committed, PointerRow, select_where, update_where,
  transaction, option_eq, is_serving, is_ready, is_retiring, is_generation,
}
use custom_wikibase.Serving.Pointer.{release_protection, step_down, step_up, any_row}
use custom_wikibase.Serving.Standalone.{
  prepared, pointer_updated, router_verified, generation_finalized, JournalRow, Registry, Mode,
  promote_mode, rollback_mode, restore_mode, CrashPoint, before_pointer_cas, after_pointer_cas,
  is_prepared, is_pointer_updated, is_router_verified, is_finalized, gen_a, gen_b, is_eligible,
  first_row, require, is_journal, set_phase, Setting, pointer, pending_row, completed_row,
  check_candidate, slots_of, check_mode,
}

-- `UPDATE rdf_serving_pointer`: the new version, where exactly one row was updated.
abbrev pub moved_pointer : Text → PointerRow → PointerRow
moved_pointer to p = record p {
  previous_generation_id = p.generation_id;
  generation_id = some to;
  version = p.version + 1;
}

abbrev pub updated_journal : ℕ → JournalRow → JournalRow
updated_journal version p = record p {
  phase = pointer_updated;
  resulting_pointer_version = some version;
}

abbrev pub verified_journal : JournalRow → JournalRow
verified_journal p = record p { phase = router_verified }

abbrev pub finalized_journal : ℕ → JournalRow → JournalRow
finalized_journal now p = record p {
  phase = generation_finalized;
  state = committed;
  completed_at = some now;
}

abbrev pub is_target_state : GenerationRow → Bool
is_target_state g = is_ready g.state || is_retiring g.state

-- Exactly one row passes the test.
unfoldable pub has_one : {A : Type 0} → (A → Bool) → List A → Bool
has_one test l = length (select_where test l) == 1

abbrev pub is_serving_from : Text → Text → GenerationRow → Bool
is_serving_from source id g = is_generation source id g && is_serving g.state

abbrev pub is_target : Text → Text → GenerationRow → Bool
is_target source id g = is_generation source id g && is_target_state g

-- What the body of `#finalize` makes of the generations, and whether both statements found a row.
unfoldable pub switched : Text → JournalRow → List GenerationRow → List GenerationRow × Bool
switched source p l =
    let released = release_protection source l in
    let down = step_down source (some p.from_generation_id) any_row retiring released in
    let up = step_up source p.to_generation_id is_target_state down in
    (
      up,
      has_one (is_serving_from source p.from_generation_id) released
          && has_one (is_target source p.to_generation_id) down,
    )

abbrev pub crashes_before : Option CrashPoint → Bool
crashes_before (some before_pointer_cas) = true
crashes_before _ = false

abbrev pub crashes_after : Option CrashPoint → Bool
crashes_after (some after_pointer_cas) = true
crashes_after _ = false

module _ (s : Setting) where
  -- The `WHERE` of the compare-and-set of the pointer.
  abbrev pub is_expected : JournalRow → PointerRow → Bool
  is_expected p q =
      text_eq q.query_service_id s.query
      && text_eq q.source_identity s.source
      && option_eq q.generation_id (some p.from_generation_id)
      && q.version == p.expected_pointer_version

  -- The journal's row, locked.
  unfoldable pub journal_row : Text → Exec Registry JournalRow
  journal_row id db =
      require (codes "PROMOTION_JOURNAL_MISSING")
        (first_row (select_where (is_journal id) db.journal)) db

  -- The pointer is set, where it stands as the journal expects; returns its version.
  unfoldable pub set_pointer : JournalRow → Exec Registry ℕ
  set_pointer p db = elim (select_where (is_expected p) db.pointers) [
    | q ∷ [] ↦ pure (q.version + 1) (record db {
      pointers = update_where (is_expected p) (moved_pointer p.to_generation_id) db.pointers;
    })
    | _ ↦ throw (codes "STANDALONE_POINTER_CAS_CONFLICT") db
  ]

  -- The body of the transaction of `#cas`.
  unfoldable pub cas_body : Text → Exec Registry JournalRow
  cas_body id = do
    p ← journal_row id
    if not (is_prepared p.phase)
        then pure p
        else do version ← set_pointer p; set_phase id (updated_journal version)

  unfoldable pub cas : JournalRow → Exec Registry JournalRow
  cas p = if not (is_prepared p.phase) then pure p else transaction (cas_body p.id)

  abbrev pub is_observed : Text → JournalRow → Bool
  is_observed id p = is_journal id p && is_pointer_updated p.phase

  -- `UPDATE … WHERE id=$1 AND phase='POINTER_UPDATED'`, where exactly one row was updated.
  unfoldable pub set_verified : Text → Exec Registry JournalRow
  set_verified id db = elim (select_where (is_observed id) db.journal) [
    | p ∷ [] ↦
        pure (verified_journal p)
          (record db { journal = update_where (is_observed id) verified_journal db.journal })
    | _ ↦ throw (codes "PROMOTION_PHASE_CONFLICT") db
  ]

  -- The router has to see the pointer.
  unfoldable pub verify_router : JournalRow → Exec Registry JournalRow
  verify_router p = if not (is_pointer_updated p.phase) then pure p else do
    observed ← lift (s.observes p.to_generation_id p.resulting_pointer_version)
    throw_if (not observed) (codes "ROUTER_PROMOTION_NOT_OBSERVED")
    set_verified p.id

  -- The target is the only row of its generation, and one that may serve.
  unfoldable pub is_fit : JournalRow → Registry → Bool
  is_fit p db = elim (select_where (is_generation s.source p.to_generation_id) db.generations) [
    | g ∷ [] ↦ is_eligible promote_mode g || is_eligible rollback_mode g
    | _ ↦ false
  ]

  unfoldable pub switch_generations : JournalRow → Exec Registry (Unit {0})
  switch_generations p db =
      let (l, both) = switched s.source p db.generations in
      if both
      then pure tt (record db { generations = l })
      else throw (codes "PROMOTION_GENERATION_CONFLICT") (record db { generations = l })

  unfoldable pub finalize_row : JournalRow → Exec Registry JournalRow
  finalize_row p = do
    throw_if (not (is_router_verified p.phase)) (codes "PROMOTION_PHASE_CONFLICT")
    fit ← gets (is_fit p)
    throw_if (not fit) (codes "PROMOTION_GENERATION_CONFLICT")
    switch_generations p
    set_phase p.id (finalized_journal s.now)

  -- The body of the transaction of `#finalize`.
  unfoldable pub finalize_body : Text → Exec Registry JournalRow
  finalize_body id = do p ← journal_row id; if is_finalized p.phase then pure p else finalize_row p

  unfoldable pub finalize : JournalRow → Exec Registry JournalRow
  finalize p = if is_router_verified p.phase then transaction (finalize_body p.id) else pure p

  -- From a pending row to the end.
  unfoldable pub advance : Option CrashPoint → JournalRow → Exec Registry JournalRow
  advance crash_at p = do
    throw_if (crashes_before crash_at && is_prepared p.phase)
        (codes "QUALIFICATION_CRASH_BEFORE_POINTER_CAS")
    q ← cas p
    throw_if (crashes_after crash_at && is_pointer_updated q.phase)
        (codes "QUALIFICATION_CRASH_AFTER_POINTER_CAS")
    r ← verify_router q
    finalize r

  -- The new row of the journal.
  unfoldable pub new_journal : Text → Text → ℕ → JournalRow
  new_journal from to version = record {
    id = s.uuid;
    source_identity = s.source;
    from_generation_id = from;
    to_generation_id = to;
    state = preparing;
    phase = prepared;
    expected_pointer_version = version;
    resulting_pointer_version = none;
    completed_at = none;
  }

  unfoldable pub insert_journal : JournalRow → Exec Registry JournalRow
  insert_journal p db = elim (select_where (is_journal p.id) db.journal) [
    | [] ↦ pure p (record db { journal = db.journal ++ p ∷ [] })
    | _ ↦ throw (codes "duplicate key value violates unique constraint") db
  ]

  -- `#precondition`.
  unfoldable pub precondition : Mode → Exec Registry JournalRow
  precondition mode = do
    p ← pointer s
    slots ← require (codes "SERVING_SLOT_INVALID") (slots_of s p.generation_id)
    lift (check_mode s mode slots.0 slots.1 p)
    checked ← gets (check_candidate s mode slots.1)
    lift checked
    pure (new_journal slots.0 slots.1 p.version)

  -- A row that is pending, or a new one.
  unfoldable pub begin : Mode → Exec Registry JournalRow
  begin mode db = elim (pending_row s db) [
    | some p ↦ pure p db
    | none ↦ (precondition mode >>= insert_journal) db
  ]

  -- Whether the pointer stands already where the mode wants it.
  abbrev pub is_repeated : Mode → PointerRow → Bool
  is_repeated promote_mode p = option_eq p.generation_id (some gen_b)
  is_repeated rollback_mode p =
      option_eq p.generation_id (some gen_a) && option_eq p.previous_generation_id (some gen_b)
  is_repeated restore_mode p = false

  -- The completed row of the pointer's generation, where there is nothing left to do.
  unfoldable pub repeated_row : Mode → PointerRow → Registry → Option JournalRow
  repeated_row mode p db = elim (pending_row s db) [
    | some _ ↦ none
    | none ↦ if is_repeated mode p then completed_row s p.generation_id db else none
  ]

  unfoldable pub run_slot : Mode → Option CrashPoint → Exec Registry (JournalRow × Bool)
  run_slot mode crash_at = do p ← begin mode; q ← advance crash_at p; pure (q, false)

  -- The row, and whether nothing had to be done.
  unfoldable pub promote_slot : Mode → Option CrashPoint → Exec Registry (JournalRow × Bool)
  promote_slot mode crash_at = do
    p ← pointer s
    done ← gets (repeated_row mode p)
    elim done [ none ↦ run_slot mode crash_at | some q ↦ pure (q, true) ]
