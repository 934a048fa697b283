-- ===== src/Tests/StandaloneRuns.antt =====
-- A promotion from gen-a to gen-b that crashed after the pointer had moved, and its next run.
use custom_wikibase.Prelude.{
  ◌≡◌, ◌⊎◌, refl, true, false, none, some, [], ◌∷◌, Text, codes, text_eq, ok, err, throw_if, ◌>>=◌,
}
use custom_wikibase.Serving.Tables.{
  GenerationState, ready, serving, Protection, unprotected, serving_protected, valid, preparing,
  GenerationRow, PointerRow, select_where, update_where, the_row, transaction,
}
use custom_wikibase.Serving.Pointer.{release_protection, step_down, step_up}
use custom_wikibase.Serving.Pointer.Rows.{serving_ids}
use custom_wikibase.Serving.Standalone.{
  prepared, generation_finalized, JournalRow, Registry, promote_mode, before_pointer_cas,
  after_pointer_cas, is_eligible, is_journal, set_phase, Setting, pointer, pending_row, is_hex,
  is_checksum, is_validated, is_behind, is_current_candidate, check_candidate, slots_of, check_mode,
}
use custom_wikibase.Serving.Standalone.Steps.{
  switched, has_one, journal_row, set_pointer, cas_body, cas, set_verified, verify_router, is_fit,
  switch_generations, finalize_row, finalize_body, finalize, advance, new_journal, insert_journal,
  precondition, begin, repeated_row, run_slot, promote_slot,
}
use custom_wikibase.Serving.Standalone.Resume.{promote_slot_resumes}
use custom_wikibase.Serving.Standalone.Pointer.{HasMoved, advance_moves}

abbrev source : Text
source = codes "jwb-local"

abbrev setting : Setting
setting = record {
  source = source;
  query = codes "main";
  now = 7;
  uuid = codes "u1";
  parse_date = λ t. none;
  observes = λ id v. ok true;
}

abbrev slot : Text → GenerationState → Protection → GenerationRow
slot id state protection = record {
  source_identity = source;
  generation_id = id;
  state = state;
  validation_status = valid;
  protection_state = protection;
  normalization_model = codes "jwb-rdf-normalization-v1";
  partition_model = codes "jwb-partition-v1";
  has_manifest = true;
  validation_checksum = none;
  lifecycle_version = 0;
}

abbrev prepared_row : JournalRow
prepared_row = record {
  id = codes "u0";
  source_identity = source;
  from_generation_id = codes "gen-a";
  to_generation_id = codes "gen-b";
  state = preparing;
  phase = prepared;
  expected_pointer_version = 3;
  resulting_pointer_version = none;
  completed_at = none;
}

abbrev at_a : PointerRow
at_a = record {
  query_service_id = codes "main";
  source_identity = source;
  generation_id = some (codes "gen-a");
  previous_generation_id = none;
  version = 3;
}

abbrev before : Registry
before = record {
  generations =
      slot (codes "gen-a") serving serving_protected ∷ slot (codes "gen-b") ready unprotected ∷ [];
  syncs = [];
  sources = [];
  journal = prepared_row ∷ [];
  pointers = at_a ∷ [];
}

coordinator : Unit {0}
unfolding text_eq throw_if ◌>>=◌ select_where update_where the_row transaction release_protection
    step_down step_up serving_ids is_eligible set_phase pointer pending_row is_hex is_checksum
    is_validated is_behind is_current_candidate check_candidate slots_of check_mode switched has_one
    journal_row set_pointer cas_body cas set_verified verify_router is_fit switch_generations
    finalize_row finalize_body finalize advance new_journal insert_journal precondition begin
    repeated_row run_slot promote_slot
coordinator = tt

abbrev crashed : Registry
crashed = (promote_slot setting promote_mode (some after_pointer_cas) before).1

crash_leaves_pointer :
    (promote_slot setting promote_mode (some after_pointer_cas) before).0
    ≡ err (codes "QUALIFICATION_CRASH_AFTER_POINTER_CAS")
unfolding coordinator
crash_leaves_pointer = refl

resumed_after_crash :
    serving_ids source (promote_slot setting promote_mode none crashed).1.generations
    ≡ codes "gen-b" ∷ []
unfolding coordinator
resumed_after_crash = refl

promote_slot_resumes_example :
    (row : JournalRow) × ((promote_slot setting promote_mode none before).0 ≡ ok (row, false))
    × (row.phase ≡ generation_finalized)
    × (row.to_generation_id ≡ codes "gen-b")
    × (select_where
          (is_journal (codes "u0"))
          (promote_slot setting promote_mode none before).1.journal
        ≡ row ∷ [])
    × (serving_ids source (promote_slot setting promote_mode none before).1.generations
        ≡ codes "gen-b" ∷ [])
unfolding coordinator
promote_slot_resumes_example =
    promote_slot_resumes setting promote_mode prepared_row before (λ id v. refl)
      (record {
        first = refl;
        listed = refl;
        unfinished = refl;
        switchable = record {
          from_serves = refl;
          target = slot (codes "gen-b") ready unprotected;
          only = refl;
          fits = refl;
        };
        expected = λ e. (at_a, refl);
        has_pointer = (at_a, refl);
      })

advance_moves_example :
    ((advance setting (some before_pointer_cas) prepared_row before).1.pointers ≡ at_a ∷ [])
    ⊎ HasMoved setting
        (codes "u0")
        before
        (advance setting (some before_pointer_cas) prepared_row before).1
advance_moves_example = advance_moves setting (some before_pointer_cas) prepared_row before
