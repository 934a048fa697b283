-- ===== src/Tests/RdfSyncRuns.antt =====
-- The identifiers and the classifier at work.
use custom_wikibase.Prelude.{
  ◌≡◌, refl, true, codes, text_eq, starts_with, strip_prefix, includes, err,
}
use custom_wikibase.RdfSync.EntityId.{is_entity_id, entity_graph_iri}
use custom_wikibase.RdfSync.Classify.{
  id_behind, entity_of_title, log_action, log_key, classify_log, edit_action, classify_change,
}
use custom_wikibase.RdfSync.Classify.Titles.{Names, classify_change-Names}
use custom_wikibase.Engine.Steps.{sanitize_code, find_code, code_run}
use custom_wikibase.Engine.Steps.ErrorCodes.{is_error_code, sanitize_code-is_error_code}
use custom_wikibase.Tests.Fixture.{event}

classifier : Unit {0}
unfolding text_eq starts_with strip_prefix includes is_entity_id id_behind entity_of_title
    log_action log_key classify_log edit_action classify_change
classifier = tt

sanitized :
    sanitize_code (codes "boom at BACKEND_VERIFY_FAILED: no") ≡ codes "BACKEND_VERIFY_FAILED"
unfolding sanitize_code find_code code_run
sanitized = refl

sanitized_without_code : sanitize_code (codes "invalid entity ID") ≡ codes "SYNC_FAILED"
unfolding sanitize_code find_code code_run
sanitized_without_code = refl

leading_zero : entity_graph_iri (codes "Q01") ≡ err (codes "invalid entity ID")
unfolding entity_graph_iri is_entity_id
leading_zero = refl

sanitize_code-is_error_code_example : is_error_code (sanitize_code (codes "HTTP 500")) ≡ true
sanitize_code-is_error_code_example = sanitize_code-is_error_code (codes "HTTP 500")

classify_change-Names_example :
    Names (codes "Item:Q1") (codes "Q1") × (is_entity_id (codes "Q1") ≡ true)
unfolding classifier
classify_change-Names_example = classify_change-Names (event (codes "t") 1 20 0) (codes "Q1") refl
