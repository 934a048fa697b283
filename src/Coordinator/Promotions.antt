-- ===== src/Coordinator/Promotions.antt =====
-- The promotions of services/rdf-sync/src/postgres-generation-coordinator-repository.js: prepared,
-- the pointer moved, the router verified, the generations switched; and the release of the
-- generation that a rollback would have returned to.
use custom_wikibase.Prelude.{
  ℕ, ◌+◌, Bool, ◌&&◌, ◌||◌, Option, none, some, List, [], ◌∷◌, ◌++◌, Text, codes, ◌==◌, text_eq, ok,
  Exec, pure, throw, lift, gets, modify, throw_if, ◌>>=◌, ◌>>◌, if◌then◌else◌,
}
use custom_wikibase.Serving.Tables.{
  serving, retiring, unprotected, serving_protected, rollback_protected, preparing, committed,
  PointerRow, update_where, transaction, option_eq, is_serving, is_ready, is_rollback, is_released,
  is_preparing,
}
use custom_wikibase.Serving.Standalone.{
  Phase, prepared, pointer_updated, router_verified, generation_finalized, is_pointer_updated,
  is_router_verified,
}
use custom_wikibase.Coordinator.{PhaseRow, Tables}
use custom_wikibase.Coordinator.Statements.{
  Caller, has_row, first_where, update_promotion, update_generation, update_serving_pointer,
  select_one,
}
use custom_wikibase.Coordinator.Checks.{require_uuid, identifiers, check_generation_id}
use custom_wikibase.Coordinator.Operations.{is_lifecycle}

abbrev is_phase_row : Text → PhaseRow → Bool
is_phase_row id p = text_eq p.id id

unfoldable pub new_phase_row : Caller → Text → Text → Text → Text → ℕ → PhaseRow
new_phase_row c operation source from to version = record {
  id = c.random_uuid 0;
  operation_id = operation;
  source_identity = source;
  from_generation_id = from;
  to_generation_id = to;
  state = preparing;
  phase = prepared;
  expected_pointer_version = version;
  resulting_pointer_version = none;
}

abbrev insert_phase_row : PhaseRow → Exec Tables PhaseRow
insert_phase_row p db = (ok p, record db { promotions = db.promotions ++ p ∷ [] })

-- `preparePromotion`; the table's only key is the identifier.
unfoldable pub prepare_promotion : Caller → Text → Text → Text → Text → ℕ → Exec Tables PhaseRow
prepare_promotion c operation source from to version = do
  lift (require_uuid operation)
  lift (identifiers source to)
  lift (check_generation_id from)
  conflict ← gets (λ db. has_row (is_phase_row (c.random_uuid 0)) db.promotions)
  throw_if conflict (codes "PROMOTION_JOURNAL_CONFLICT")
  insert_phase_row (new_phase_row c operation source from to version)

-- `WHERE query_service_id=$1 AND source_identity=$3 AND generation_id=$4 AND version=$5`.
unfoldable pub is_swapped : Text → PhaseRow → PointerRow → Bool
is_swapped service p q =
    text_eq q.query_service_id service
    && text_eq q.source_identity p.source_identity
    && option_eq q.generation_id (some p.from_generation_id)
    && q.version == p.expected_pointer_version

unfoldable pub swapped : Text → PointerRow → PointerRow
swapped to q = record q {
  previous_generation_id = q.generation_id;
  generation_id = some to;
  version = q.version + 1;
}

-- The pointer moves, and the phase with it.
unfoldable pub swap_pointer : Text → PhaseRow → Exec Tables PhaseRow
swap_pointer service p = do
  updated ←
      update_serving_pointer (is_swapped service p) (swapped p.to_generation_id)
        (codes "SERVING_POINTER_CONFLICT")
  update_promotion (is_phase_row p.id)
      (λ r. record r { phase = pointer_updated; resulting_pointer_version = some updated.version })
      (codes "TypeError")

unfoldable pub swap_phase : Text → PhaseRow → Phase → Exec Tables PhaseRow
swap_phase service p prepared = swap_pointer service p
swap_phase service p pointer_updated = pure p
swap_phase service p router_verified = pure p
swap_phase service p generation_finalized = pure p

-- `casPointer`: a promotion whose pointer has moved is returned as it is.
unfoldable pub cas_pointer : Text → Text → Exec Tables PhaseRow
cas_pointer id service =
    lift (require_uuid id)
    >> transaction (do
      p ← select_one (is_phase_row id) (codes "PROMOTION_MISSING") (λ db. db.promotions)
      swap_phase service p p.phase)

-- `markRouterVerified`.
unfoldable pub mark_router_verified : Text → Exec Tables PhaseRow
mark_router_verified id =
    lift (require_uuid id)
    >> update_promotion
        (λ p. is_phase_row id p && (is_pointer_updated p.phase || is_router_verified p.phase))
        (λ p. record p { phase = router_verified }) (codes "PROMOTION_PHASE_CONFLICT")

-- The generation that a rollback would return to, before the protection moves on.
unfoldable pub rollback_target : Text → Tables → Option Text
rollback_target source db =
    elim (first_where (λ g. text_eq g.source_identity source && is_rollback g.protection_state)
      db.generations) [ none ↦ none | some g ↦ some g.generation_id ]

unfoldable pub drop_protection : Text → Exec Tables (Unit {0})
drop_protection source = modify (λ db. record db {
  generations =
      update_where (λ g. text_eq g.source_identity source && is_released g.protection_state)
        (λ g. record g {
          protection_state = unprotected;
          lifecycle_version = g.lifecycle_version + 1;
        })
        db.generations;
})

-- The serving generation becomes the one to return to, and the candidate serves.
unfoldable pub switch_lifecycles : PhaseRow → Exec Tables (Unit {0})
switch_lifecycles p = do
  drop_protection p.source_identity
  old ←
      update_generation
        (λ g. is_lifecycle p.source_identity p.from_generation_id g && is_serving g.state)
        (λ g. record g {
          state = retiring;
          protection_state = rollback_protected;
          lifecycle_version = g.lifecycle_version + 1;
        })
        (codes "PROMOTION_GENERATION_CONFLICT")
  new ←
      update_generation
        (λ g. is_lifecycle p.source_identity p.to_generation_id g && is_ready g.state)
        (λ g. record g {
          state = serving;
          protection_state = serving_protected;
          lifecycle_version = g.lifecycle_version + 1;
        })
        (codes "PROMOTION_GENERATION_CONFLICT")
  pure tt

unfoldable pub finish_promotion : Caller → PhaseRow → Exec Tables PhaseRow
finish_promotion c p = do
  released ← gets (rollback_target p.source_identity)
  switch_lifecycles p
  modify (λ db. record db {
    audits =
        db.audits
        ++ record {
          id = c.random_uuid 0;
          promotion_operation_id = p.operation_id;
          source_identity = p.source_identity;
          released_generation_id = released;
          rollback_generation_id = p.from_generation_id;
          serving_generation_id = p.to_generation_id;
        }
          ∷ [];
  })
  update_promotion (is_phase_row p.id)
      (λ r. record r { phase = generation_finalized; state = committed }) (codes "TypeError")

unfoldable pub finish_phase : Caller → PhaseRow → Phase → Exec Tables PhaseRow
finish_phase c p prepared = throw (codes "PROMOTION_PHASE_INVALID")
finish_phase c p pointer_updated = throw (codes "PROMOTION_PHASE_INVALID")
finish_phase c p router_verified = finish_promotion c p
finish_phase c p generation_finalized = pure p

-- `finalizePromotion`.
unfoldable pub finalize_promotion : Caller → Text → Exec Tables PhaseRow
finalize_promotion c id =
    lift (require_uuid id)
    >> transaction (do
      p ← select_one (is_phase_row id) (codes "PROMOTION_MISSING") (λ db. db.promotions)
      finish_phase c p p.phase)

-- `ORDER BY created_at DESC LIMIT 1`.
unfoldable pub last_where : {A : Type 0} → (A → Bool) → List A → Option A
last_where test [] = none
last_where test (a ∷ l) = elim (last_where test l) [
  | some b ↦ some b
  | none ↦ if test a then some a else none
]

-- `incompletePromotion`.
unfoldable pub incomplete_promotion : Text → Exec Tables (Option PhaseRow)
incomplete_promotion source =
    gets (λ db.
      last_where (λ p. text_eq p.source_identity source && is_preparing p.state) db.promotions)

-- `operationPromotion`.
unfoldable pub operation_promotion : Text → Exec Tables (Option PhaseRow)
operation_promotion id =
    lift (require_uuid id) >> gets (λ db. last_where (λ p. text_eq p.operation_id id) db.promotions)
