-- ===== src/Coordinator/Deletion.antt =====
-- The deletion of a generation's resources in
-- services/rdf-sync/src/postgres-generation-coordinator-repository.js: an attempt for each
-- resource, that goes from state to state under the operation's fence and the deletion's token.
use custom_wikibase.Prelude.{
  ℕ, suc, Bool, true, false, not, ◌&&◌, ◌||◌, Option, none, some, List, [], ◌∷◌, ◌++◌, Text, codes,
  ◌==◌, ltb, text_eq, ok, err, Exec, pure, lift, modify, throw_if, ◌>>=◌, ◌>>◌, if◌then◌else◌,
}
use custom_wikibase.Serving.Tables.{select_where, update_where, transaction, option_eq}
use custom_wikibase.Coordinator.{
  physical_delete_pending, is_journal_state, RetirementJournal, AttemptState, planned, fence_marked,
  delete_intent, delete_accepted, absent_confirmed, attempt_code, AttemptRow, Tables,
}
use custom_wikibase.Coordinator.Statements.{Caller, has_row, is_held, joining, select_one}
use custom_wikibase.Coordinator.Checks.{
  require_uuid, Resource, check_resource, check_deletion_record,
}
use custom_wikibase.Coordinator.Retirement.{is_retirement_of}

-- `r.operation_id=$1 AND … r.operation_fence=$3 AND r.deletion_token=$4 AND
-- r.state='PHYSICAL_DELETE_PENDING'`.
unfoldable pub is_authority : Text → ℕ → Text → RetirementJournal → Bool
is_authority id fence token r =
    is_retirement_of id r
    && r.operation_fence == fence
    && option_eq r.deletion_token (some token)
    && is_journal_state r.state physical_delete_pending

-- The same, of the operation that the caller holds.
unfoldable pub has_authority : Caller → Text → ℕ → Text → Tables → RetirementJournal → Bool
has_authority c id fence token db r = is_held c id fence db && is_authority id fence token r

-- The one retirement that the join with the operation finds.
unfoldable pub authority : Caller → Text → ℕ → Text → Exec Tables RetirementJournal
authority c id fence token = joining (λ db.
    select_one (has_authority c id fence token db) (codes "STALE_COORDINATOR_FENCE")
      (λ t. t.retirements))

-- The key of the table of attempts.
unfoldable pub is_attempt_of : Text → ℕ → Text → AttemptRow → Bool
is_attempt_of id fence token a =
    text_eq a.cleanup_operation_id id
    && a.operation_fence == fence
    && text_eq a.deletion_token token

unfoldable pub planned_attempt : Text → Text → Text → ℕ → Text → Resource → AttemptRow
planned_attempt uuid id generation fence token r = record {
  id = uuid;
  cleanup_operation_id = id;
  generation_id = generation;
  operation_fence = fence;
  deletion_token = token;
  resource_role = r.kind;
  namespace = r.namespace;
  resource_name = r.name;
  expected_uid = r.uid;
  expected_resource_version = r.resource_version;
  attempt_state = planned;
}

abbrev pub is_same_attempt : AttemptRow → AttemptRow → Bool
is_same_attempt a b =
    is_attempt_of a.cleanup_operation_id a.operation_fence a.deletion_token b
    && text_eq b.resource_role a.resource_role

-- `INSERT … ON CONFLICT(…) DO UPDATE SET updated_at=now()`: an attempt that is there stays as it is.
unfoldable pub insert_attempt : AttemptRow → List AttemptRow → List AttemptRow
insert_attempt a l = if has_row (is_same_attempt a) l then l else l ++ a ∷ []

-- The loop over the resources of the plan; the number counts the identifiers drawn.
unfoldable pub plan_resources :
    Caller → Text → Text → ℕ → Text → ℕ → List Resource → Exec Tables (Unit {0})
plan_resources c id generation fence token n [] = pure tt
plan_resources c id generation fence token n (r ∷ l) = do
  lift (check_resource r)
  modify (λ db. record db {
    attempts =
        insert_attempt (planned_attempt (c.random_uuid n) id generation fence token r) db.attempts;
  })
  plan_resources c id generation fence token (suc n) l

-- `recordDeletionPlan`.
unfoldable pub record_deletion_plan :
    Caller → Text → ℕ → Text → List Resource → Exec Tables (Unit {0})
record_deletion_plan c id fence token resources = do
  lift (require_uuid id)
  lift (require_uuid token)
  throw_if (not (ltb 0 fence)) (codes "invalid deletion plan")
  transaction (do
    r ← authority c id fence token
    plan_resources c id r.generation_id fence token 0 resources)

-- `$7::text IS NULL OR a.resource_role=$7`.
abbrev is_asked : Option Text → Text → Bool
is_asked none t = true
is_asked (some s) t = text_eq t s

unfoldable pub is_one_of : List AttemptState → AttemptState → Bool
is_one_of [] s = false
is_one_of (f ∷ from) s = attempt_code s == attempt_code f || is_one_of from s

-- The attempts that a step takes on.
unfoldable pub is_attempt_in :
    Caller
    → Text
    → ℕ
    → Text
    → Option Text
    → Option Text
    → List AttemptState
    → Tables
    → AttemptRow
    → Bool
is_attempt_in c id fence token role uid from db a =
    is_held c id fence db
    && is_attempt_of id fence token a
    && is_one_of from a.attempt_state
    && is_asked role a.resource_role
    && is_asked uid a.expected_uid

abbrev pub to_state : AttemptState → AttemptRow → AttemptRow
to_state to a = record a { attempt_state = to }

abbrev is_empty : {A : Type 0} → List A → Bool
is_empty [] = true
is_empty (a ∷ l) = false

-- The statement of `#deleteAttemptState`.
unfoldable pub update_attempts : (AttemptRow → Bool) → AttemptState → Exec Tables (List AttemptRow)
update_attempts test to db =
    let rows = select_where test db.attempts in
    if is_empty rows then (err (codes "STALE_COORDINATOR_FENCE"), db) else (
      ok (update_where test (to_state to) rows),
      record db { attempts = update_where test (to_state to) db.attempts },
    )

-- `#deleteAttemptState`.
unfoldable pub delete_attempt_state :
    Caller
    → Text
    → ℕ
    → Text
    → Option Text
    → Option Text
    → List AttemptState
    → AttemptState
    → Exec Tables (List AttemptRow)
delete_attempt_state c id fence token role uid from to = do
  lift (require_uuid id)
  lift (require_uuid token)
  throw_if (not (ltb 0 fence)) (codes "invalid deletion attempt")
  joining (λ db. update_attempts (is_attempt_in c id fence token role uid from db) to)

-- `markDeletionFence`.
unfoldable pub mark_deletion_fence : Caller → Text → ℕ → Text → Exec Tables (List AttemptRow)
mark_deletion_fence c id fence token =
    delete_attempt_state c id fence token none none (planned ∷ fence_marked ∷ []) fence_marked

-- `recordDeletionIntent`.
unfoldable pub record_deletion_intent :
    Caller → Text → ℕ → Text → Text → Text → Text → Exec Tables (List AttemptRow)
record_deletion_intent c id fence token role uid version =
    lift (check_deletion_record id token fence role uid version)
    >> delete_attempt_state c id fence token (some role) (some uid)
        (fence_marked ∷ delete_intent ∷ []) delete_intent

-- `recordDeletionAccepted`.
unfoldable pub record_deletion_accepted :
    Caller → Text → ℕ → Text → Option Text → Option Text → Exec Tables (List AttemptRow)
record_deletion_accepted c id fence token role uid =
    delete_attempt_state c id fence token role uid (delete_intent ∷ delete_accepted ∷ [])
      delete_accepted

-- `recordAbsenceConfirmed`.
unfoldable pub record_absence_confirmed :
    Caller → Text → ℕ → Text → Option Text → Option Text → Exec Tables (List AttemptRow)
record_absence_confirmed c id fence token role uid =
    delete_attempt_state c id fence token role uid (delete_accepted ∷ absent_confirmed ∷ [])
      absent_confirmed

-- `recordDeletionProgress`.
unfoldable pub record_deletion_progress :
    Caller → Text → ℕ → Text → Text → Text → Exec Tables (List AttemptRow)
record_deletion_progress c id fence token role uid =
    lift (check_deletion_record id token fence role uid (codes "recorded"))
    >> record_absence_confirmed c id fence token (some role) (some uid)

-- `assertDeletionAuthority`.
unfoldable pub assert_deletion_authority : Caller → Text → ℕ → Text → Exec Tables Bool
assert_deletion_authority c id fence token = do
  lift (require_uuid id)
  lift (require_uuid token)
  r ← authority c id fence token
  pure true
