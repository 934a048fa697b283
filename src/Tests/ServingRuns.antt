-- ===== src/Tests/ServingRuns.antt =====
-- The serving pointer and the reconciler at work.
use mathlib.Core.List.{Memᴰ}
use custom_wikibase.Prelude.{
  ◌≡◌, ◌↔◌, refl, true, false, none, some, List, [], ◌∷◌, Text, codes, text_eq, strip_prefix, Dict,
  ok, throw_if, ◌>>=◌,
}
use custom_wikibase.Serving.Tables.{
  ready, serving, retired, valid, unprotected, serving_protected, GenerationState, Protection,
  GenerationRow, PointerRow, Database, select_where, update_where, the_row, transaction,
}
use custom_wikibase.Serving.Pointer.{
  all_slug, is_slug, is_generation_id, require_generation, require_expected, locked, generation_row,
  is_candidate, require_row, insert_promotion, release_protection, step_down, step_up, promoted,
  release_retirements, move_pointer, update_pointer, set_promotion, promote_body, promote,
}
use custom_wikibase.Serving.Pointer.Rows.{serving_ids}
use custom_wikibase.Serving.Reconciler.{
  Generation, Pointer, reconcile, verdict, cleanup_candidates, protected_ids, filter_boolean,
  newest_failed, sort_newest, insert_newest, generation_ids, has_id, promotion_ids, pointer_missing,
}
use custom_wikibase.Serving.Transitions.{can_become, AllMayBecome, promote-AllMayBecome}
use custom_wikibase.Serving.Reconciler.Readiness.{IsServed, reconcile-IsServed}
use custom_wikibase.Serving.Reconciler.Cleanup.{IsDisposable, cleanup_candidates-IsDisposable}

abbrev source : Text
source = codes "wiki"

abbrev service : Text
service = codes "main"

abbrev old : Text
old = codes "gen-a"

abbrev new : Text
new = codes "gen-b"

abbrev promotion : Text
promotion = codes "p1"

abbrev generation_in : Text → GenerationState → Protection → GenerationRow
generation_in id state protection = record {
  source_identity = source;
  generation_id = id;
  state = state;
  validation_status = valid;
  protection_state = protection;
  normalization_model = codes "jwb-rdf-normalization-v1";
  partition_model = codes "jwb-partition-v1";
  has_manifest = true;
  validation_checksum = none;
  lifecycle_version = 0;
}

abbrev at_old : PointerRow
at_old = record {
  query_service_id = service;
  source_identity = source;
  generation_id = some old;
  previous_generation_id = none;
  version = 3;
}

abbrev at_new : PointerRow
at_new = record {
  query_service_id = service;
  source_identity = source;
  generation_id = some new;
  previous_generation_id = some old;
  version = 4;
}

abbrev before : Database
before = record {
  generations =
      generation_in old serving serving_protected ∷ generation_in new ready unprotected ∷ [];
  promotions = [];
  pointers = at_old ∷ [];
  retirements = [];
}

transactions : Unit {0}
unfolding text_eq strip_prefix throw_if ◌>>=◌ select_where update_where the_row transaction all_slug
    is_slug is_generation_id require_generation require_expected locked generation_row is_candidate
    require_row insert_promotion release_protection step_down step_up promoted release_retirements
    move_pointer update_pointer set_promotion promote_body promote serving_ids
transactions = tt

promoted_once : (promote service new (some old) 3 promotion before).0 ≡ ok at_new
unfolding transactions
promoted_once = refl

abbrev known : Text → GenerationState → Generation
known id state = record { generation_id = id; state = state; created_at = codes "2026-01-01" }

abbrev pointed : Pointer
pointed = record { generation_id = some new; previous_generation_id = some old }

abbrev registry : List Generation
registry = known old retired ∷ known new serving ∷ known (codes "gen-c") retired ∷ []

abbrev statuses : Dict Text
statuses = (new, codes "healthy") ∷ []

unserved : (reconcile none registry [] statuses).classification ≡ pointer_missing
unfolding reconcile verdict select_where
unserved = refl

reconcile-IsServed_example :
    ((reconcile (some pointed) registry [] statuses).ready ≡ true)
    ↔ IsServed (some pointed) registry [] statuses
reconcile-IsServed_example = reconcile-IsServed (some pointed) registry [] statuses

cleanup_candidates-IsDisposable_example : IsDisposable registry pointed [] (codes "gen-c")
unfolding cleanup_candidates protected_ids filter_boolean newest_failed sort_newest insert_newest
    generation_ids has_id promotion_ids select_where text_eq
cleanup_candidates-IsDisposable_example =
    cleanup_candidates-IsDisposable (λ a b. false) registry pointed [] 1 (codes "gen-c" ∷ []) 103
      (codes "en-c") refl (Memᴰ.head refl)

promote-AllMayBecome_example :
    AllMayBecome before.generations
      (promote service new (some old) 3 promotion before).1.generations
unfolding transactions
promote-AllMayBecome_example =
    promote-AllMayBecome service new (some old) 3 promotion before at_old at_new refl refl

-- A rollback takes the generation that served back to READY, which TRANSITIONS does not list.
rollback_step : can_become serving ready ≡ false
unfolding can_become
rollback_step = refl
