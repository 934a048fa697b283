-- ===== src/Coordinator/Conclusion.antt =====
-- The end of a deletion in services/rdf-sync/src/postgres-generation-coordinator-repository.js:
-- confirmed where every resource is gone, failed, or written to the metadata.
use custom_wikibase.Prelude.{
  ℕ, ◌+◌, Bool, true, false, not, ◌&&◌, ◌||◌, some, List, [], ◌∷◌, Text, codes, ◌==◌, ltb, length,
  text_eq, Exec, lift, modify, throw_if, ◌>>=◌, ◌>>◌,
}
use custom_wikibase.Serving.Tables.{
  Protection, unprotected, retirement_in_progress, select_where, update_where, transaction,
  option_eq,
}
use custom_wikibase.Engine.Steps.ErrorCodes.{is_error_code}
use custom_wikibase.Coordinator.{
  OperationRow, physical_delete_pending, physically_deleted, metadata_finalized, is_journal_state,
  RetirementJournal, absent_confirmed, AttemptRow, Tables,
}
use custom_wikibase.Coordinator.Statements.{
  Caller, has_row, is_held, joining, update_retirement, select_one,
}
use custom_wikibase.Coordinator.Checks.{require_uuid}
use custom_wikibase.Coordinator.Operations.{is_operation, is_lifecycle}
use custom_wikibase.Coordinator.Retirement.{is_retirement_of}
use custom_wikibase.Coordinator.Deletion.{has_authority, is_attempt_of, is_one_of}

abbrev pub is_absent : AttemptRow → Bool
is_absent a = is_one_of (absent_confirmed ∷ []) a.attempt_state

unfoldable pub all_absent : List AttemptRow → Bool
unfolding is_one_of
all_absent [] = true
all_absent (a ∷ l) = is_absent a && all_absent l

-- `SELECT count(*)=3 AND bool_and(attempt_state='ABSENT_CONFIRMED')`.
unfoldable pub is_all_gone : Text → ℕ → Text → Tables → Bool
is_all_gone id fence token db =
    let rows = select_where (is_attempt_of id fence token) db.attempts in
    length rows == 3 && all_absent rows

-- `confirmPhysicalDeletion`.
unfoldable pub confirm_physical_deletion : Caller → Text → ℕ → Text → Exec Tables RetirementJournal
confirm_physical_deletion c id fence token = do
  lift (require_uuid id)
  lift (require_uuid token)
  throw_if (not (ltb 0 fence)) (codes "invalid coordinator fence")
  joining (λ db.
      update_retirement (λ r. has_authority c id fence token db r && is_all_gone id fence token db)
        (λ r. record r { state = physically_deleted }) (codes "PHYSICAL_DELETE_PARTIAL"))

-- `o.claimed_by=$2 AND o.fence=$3`, whether the lease is over or not.
unfoldable pub is_owned_row : Caller → Text → ℕ → OperationRow → Bool
is_owned_row c id fence o =
    is_operation id o && option_eq o.claimed_by (some c.owner.owner_id) && o.fence == fence

-- `recordDeletionFailure`.
unfoldable pub record_deletion_failure :
    Caller → Text → ℕ → Text → Text → Exec Tables RetirementJournal
record_deletion_failure c id fence token code = do
  lift (require_uuid id)
  lift (require_uuid token)
  throw_if (not (ltb 0 fence) || not (is_error_code code)) (codes "invalid deletion failure")
  joining (λ db.
      update_retirement
        (λ r.
          has_row (is_owned_row c id fence) db.operations
          && is_retirement_of id r
          && is_journal_state r.state physical_delete_pending
          && option_eq r.deletion_token (some token))
        (λ r. record r { error_code = some code }) (codes "RETIREMENT_FENCE_CONFLICT"))

abbrev is_retirement_protection : Protection → Bool
is_retirement_protection retirement_in_progress = true
is_retirement_protection _ = false

unfoldable pub finalize_retired : Caller → Text → ℕ → Exec Tables RetirementJournal
finalize_retired c id fence = do
  r ← joining (λ db.
      select_one (λ r. is_held c id fence db && is_retirement_of id r)
        (codes "RETIREMENT_FENCE_CONFLICT") (λ t. t.retirements))
  throw_if (not (is_journal_state r.state physically_deleted)) (codes "RETIREMENT_FENCE_CONFLICT")
  modify (λ db. record db {
    generations =
        update_where
          (λ g.
            is_lifecycle r.source_identity r.generation_id g
            && is_retirement_protection g.protection_state)
          (λ g. record g {
            protection_state = unprotected;
            lifecycle_version = g.lifecycle_version + 1;
          })
          db.generations;
  })
  update_retirement (λ q. text_eq q.id r.id) (λ q. record q { state = metadata_finalized })
      (codes "TypeError")

-- `finalizeRetirement`.
unfoldable pub finalize_retirement : Caller → Text → ℕ → Exec Tables RetirementJournal
finalize_retirement c id fence = do
  lift (require_uuid id)
  throw_if (not (ltb 0 fence)) (codes "invalid coordinator fence")
  transaction (finalize_retired c id fence)
