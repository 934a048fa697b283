-- ===== src/Coordinator/Release.antt =====
-- `releaseRollbackProtection` of
-- services/rdf-sync/src/postgres-generation-coordinator-repository.js: the pointer forgets the
-- generation that a rollback would have returned to, once for each idempotency key.
use custom_wikibase.Prelude.{
  ◌+◌, Bool, not, ◌&&◌, ◌||◌, Option, none, some, [], ◌∷◌, ◌++◌, Text, codes, ◌==◌, text_eq, ok,
  err, Exec, pure, lift, gets, modify, throw_if, ◌>>=◌, ◌>>◌, if◌then◌else◌,
}
use custom_wikibase.Serving.Tables.{
  unprotected, PointerRow, update_where, transaction, option_eq, is_serving, is_rollback,
  is_preparing,
}
use custom_wikibase.Coordinator.{
  RetirementJournal, requested, waiting_eligibility, retirement_failed, retirement_ambiguous,
  is_journal_state, LifecycleRow, PhaseRow, ReleaseRow, Tables,
}
use custom_wikibase.Coordinator.Statements.{
  Caller, has_row, first_where, found_or, update_generation, update_serving_pointer, select_one,
}
use custom_wikibase.Coordinator.Checks.{ReleaseInput, check_release}
use custom_wikibase.Coordinator.Operations.{is_lifecycle}

-- `sameRelease`.
unfoldable pub is_same_release : ReleaseRow → ReleaseInput → Bool
is_same_release a b =
    text_eq a.operation_id b.operation_id
    && text_eq a.source_identity b.source_identity
    && text_eq a.query_service_id b.query_service_id
    && text_eq a.generation_id b.generation_id
    && text_eq a.expected_serving_generation_id b.expected_serving_generation_id
    && a.expected_pointer_version == b.expected_pointer_version

-- What the pointer must hold.
unfoldable pub is_release_pointer : ReleaseInput → PointerRow → Bool
is_release_pointer v p =
    option_eq p.generation_id (some v.expected_serving_generation_id)
    && option_eq p.previous_generation_id (some v.generation_id)
    && p.version == v.expected_pointer_version

-- A preparing promotion that names the generation.
unfoldable pub is_promoting : Text → Text → PhaseRow → Bool
is_promoting source id p =
    text_eq p.source_identity source
    && is_preparing p.state
    && (text_eq p.from_generation_id id || text_eq p.to_generation_id id)

abbrev pub is_journal_of : Text → Text → RetirementJournal → Bool
is_journal_of source id r = text_eq r.source_identity source && text_eq r.generation_id id

unfoldable pub is_waiting : RetirementJournal → Bool
is_waiting r = is_journal_state r.state requested || is_journal_state r.state waiting_eligibility

-- A retirement of the generation that is under way.
unfoldable pub is_retiring_now : Text → Text → RetirementJournal → Bool
is_retiring_now source id r =
    is_journal_of source id r
    && not (
        is_waiting r
        || is_journal_state r.state retirement_failed
        || is_journal_state r.state retirement_ambiguous)

unfoldable pub insert_release : ReleaseRow → Exec Tables ReleaseRow
insert_release row db =
    if has_row
      (λ r.
        text_eq r.id row.id
        || text_eq r.operation_id row.operation_id
        || text_eq r.idempotency_key row.idempotency_key)
      db.releases
    then (err (codes "duplicate key value violates unique constraint"), db)
    else (ok row, record db { releases = db.releases ++ row ∷ [] })

-- The pointer, the generation, its waiting retirement, and the record of it all.
unfoldable pub release_rows : Caller → ReleaseInput → LifecycleRow → Exec Tables ReleaseRow
release_rows c v g = do
  p ←
      update_serving_pointer
        (λ p.
          text_eq p.query_service_id v.query_service_id
          && p.version == v.expected_pointer_version
          && option_eq p.previous_generation_id (some v.generation_id))
        (λ p. record p { previous_generation_id = none; version = p.version + 1 })
        (codes "ROLLBACK_RELEASE_CAS_CONFLICT")
  h ←
      update_generation
        (λ h.
          is_lifecycle v.source_identity v.generation_id h
          && is_rollback h.protection_state
          && h.lifecycle_version == g.lifecycle_version)
        (λ h. record h {
          protection_state = unprotected;
          lifecycle_version = h.lifecycle_version + 1;
        })
        (codes "ROLLBACK_RELEASE_CAS_CONFLICT")
  modify (λ db. record db {
    retirements =
        update_where (λ r. is_journal_of v.source_identity v.generation_id r && is_waiting r)
          (λ r. record r { state = waiting_eligibility; eligibility_reasons = [] }) db.retirements;
  })
  insert_release (record {
    id = c.random_uuid 0;
    operation_id = v.operation_id;
    idempotency_key = v.idempotency_key;
    source_identity = v.source_identity;
    query_service_id = v.query_service_id;
    generation_id = v.generation_id;
    expected_serving_generation_id = v.expected_serving_generation_id;
    expected_pointer_version = v.expected_pointer_version;
    resulting_pointer_version = p.version;
    resulting_generation_version = h.lifecycle_version;
  })

unfoldable pub release_checked : Caller → ReleaseInput → Exec Tables ReleaseRow
release_checked c v = do
  p ←
      select_one
        (λ p.
          text_eq p.query_service_id v.query_service_id
          && text_eq p.source_identity v.source_identity)
        (codes "SERVING_POINTER_MISSING") (λ db. db.pointers)
  throw_if (not (is_release_pointer v p)) (codes "ROLLBACK_RELEASE_CAS_CONFLICT")
  g ←
      select_one (is_lifecycle v.source_identity v.generation_id) (codes "GENERATION_MISSING")
        (λ db. db.generations)
  throw_if (is_serving g.state || not (is_rollback g.protection_state))
      (codes "ROLLBACK_RELEASE_NOT_PROTECTED")
  promoting ← gets (λ db. has_row (is_promoting v.source_identity v.generation_id) db.promotions)
  throw_if promoting (codes "ROLLBACK_RELEASE_PROMOTION_ACTIVE")
  retiring ← gets (λ db. has_row (is_retiring_now v.source_identity v.generation_id) db.retirements)
  throw_if retiring (codes "ROLLBACK_RELEASE_RETIREMENT_ACTIVE")
  release_rows c v g

unfoldable pub prior_release : ReleaseInput → Tables → Option ReleaseRow
prior_release v db = first_where (λ r. text_eq r.idempotency_key v.idempotency_key) db.releases

-- A key that was used before gives what it gave then, or is refused where it asks for other things.
unfoldable pub repeat_release : ReleaseInput → ReleaseRow → Exec Tables ReleaseRow
repeat_release v r =
    throw_if (not (is_same_release r v)) (codes "ROLLBACK_RELEASE_IDEMPOTENCY_CONFLICT") >> pure r

-- `releaseRollbackProtection`.
unfoldable pub release_rollback_protection : Caller → ReleaseInput → Exec Tables ReleaseRow
release_rollback_protection c v =
    lift (check_release v)
    >> transaction (found_or (prior_release v) (repeat_release v) (release_checked c v))
