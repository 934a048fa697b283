-- ===== src/Serving/Pointer.antt =====
-- `PostgresServingPointerRepository` of
-- services/rdf-sync/src/postgres-serving-pointer-repository.js. The times that the statements
-- store (`now()`) are left out.
pub mod Rows
pub mod Promotion
use custom_wikibase.Prelude.{
  ℕ, zero, suc, ◌+◌, Bool, true, false, not, ◌&&◌, ◌||◌, Option, none, some, List, [], ◌∷◌, Text,
  codes, ◌==◌, leb, length, text_eq, starts_with, strip_prefix, is_some, is_digit, Result, ok, err,
  Exec, pure, throw, lift, throw_if, ◌>>=◌, ◌>>◌, if◌then◌else◌,
}
use custom_wikibase.Serving.Tables.{
  GenerationState, ready, serving, retiring, Protection, unprotected, serving_protected,
  rollback_protected, GenerationRow, PromotionState, preparing, committed, rolled_back,
  PromotionRow, PointerRow, RetirementState, rollback_protected_retirement, retiring_retirement,
  RetirementRow, Database, select_where, update_where, the_row, transaction, option_eq, is_serving,
  is_ready, is_retiring, is_valid, is_unprotected, is_rollback, is_released, is_committed,
  is_generation,
}

abbrev is_lower_or_digit : ℕ → Bool
is_lower_or_digit c = (leb b'a' c && leb c b'z') || is_digit c

-- `[a-z0-9-]*`, to the end.
unfoldable pub all_slug : Text → Bool
all_slug [] = true
all_slug (c ∷ s) = (is_lower_or_digit c || c == b'-') && all_slug s

-- `[a-z0-9][a-z0-9-]{0,n}`, to the end.
unfoldable pub is_slug : ℕ → Text → Bool
is_slug n [] = false
is_slug n (c ∷ s) = is_lower_or_digit c && all_slug s && leb (length s) n

-- `/^gen-[a-z0-9][a-z0-9-]{0,58}$/u`.
unfoldable pub is_generation_id : Text → Bool
is_generation_id id = elim (strip_prefix (codes "gen-") id) [ none ↦ false | some s ↦ is_slug 58 s ]

unfoldable pub require_generation : Text → Exec Database (Unit {0})
require_generation id = throw_if (not (is_generation_id id)) (codes "invalid generation ID")

-- `if (expected !== null) generation(expected)`.
unfoldable pub require_expected : Option Text → Exec Database (Unit {0})
require_expected none = pure tt
require_expected (some id) = require_generation id

-- `#locked`.
unfoldable pub locked : Text → Exec Database PointerRow
locked service db =
    elim (the_row (select_where (λ p. text_eq p.query_service_id service) db.pointers)) [
      | none ↦ throw (codes "SERVING_POINTER_MISSING") db
      | some p ↦ pure p db
    ]

-- The only row of a generation.
unfoldable pub generation_row : Text → Text → List GenerationRow → Option GenerationRow
generation_row source id l = the_row (select_where (is_generation source id) l)

unfoldable pub is_candidate : GenerationRow → Bool
is_candidate g =
    is_ready g.state
    && is_valid g.validation_status
    && text_eq g.normalization_model (codes "jwb-rdf-normalization-v1")
    && text_eq g.partition_model (codes "jwb-partition-v1")
    && g.has_manifest

unfoldable pub require_row :
    (GenerationRow → Bool) → Text → Option GenerationRow → Exec Database (Unit {0})
require_row test message none = throw message
require_row test message (some g) = throw_if (not (test g)) message

unfoldable pub is_rollback_target : GenerationRow → Bool
is_rollback_target g = is_retiring g.state && is_rollback g.protection_state

unfoldable pub insert_promotion : PromotionRow → Exec Database (Unit {0})
insert_promotion row db = elim (select_where (λ p. text_eq p.id row.id) db.promotions) [
  | [] ↦ pure tt (record db { promotions = row ∷ db.promotions })
  | _ ↦ throw (codes "duplicate key value violates unique constraint") db
]

abbrev set_generations : (List GenerationRow → List GenerationRow) → Exec Database (Unit {0})
set_generations f db = (ok tt, record db { generations = f db.generations })

-- `SET protection_state='NONE' … WHERE … protection_state IN('SERVING','ROLLBACK')`.
unfoldable pub release_protection : Text → List GenerationRow → List GenerationRow
release_protection source =
    update_where (λ g. text_eq g.source_identity source && is_released g.protection_state)
      (λ g. record g {
        protection_state = unprotected;
        lifecycle_version = g.lifecycle_version + 1;
      })

-- The serving generation steps down.
unfoldable pub step_down :
    Text
    → Option Text
    → (GenerationRow → Bool)
    → GenerationState
    → List GenerationRow
    → List GenerationRow
step_down source none test state l = l
step_down source (some id) test state l =
    update_where (λ g. is_generation source id g && is_serving g.state && test g)
      (λ g. record g {
        state = state;
        protection_state = rollback_protected;
        lifecycle_version = g.lifecycle_version + 1;
      })
      l

-- Another one takes its place.
unfoldable pub step_up :
    Text → Text → (GenerationRow → Bool) → List GenerationRow → List GenerationRow
step_up source id test =
    update_where (λ g. is_generation source id g && test g)
      (λ g. record g {
        state = serving;
        protection_state = serving_protected;
        lifecycle_version = g.lifecycle_version + 1;
      })

abbrev pub any_row : GenerationRow → Bool
any_row g = true

abbrev pub unprotected_row : GenerationRow → Bool
unprotected_row g = is_unprotected g.protection_state

unfoldable pub promoted : Text → Option Text → Text → List GenerationRow → List GenerationRow
promoted source current id l =
    step_up source id any_row
      (step_down source current any_row retiring (release_protection source l))

unfoldable pub rolled : Text → Option Text → Text → List GenerationRow → List GenerationRow
rolled source current id l =
    step_up source id unprotected_row
      (step_down source current unprotected_row ready (release_protection source l))

abbrev is_protected_retirement : RetirementState → Bool
is_protected_retirement rollback_protected_retirement = true
is_protected_retirement _ = false

unfoldable pub release_retirements : Text → List RetirementRow → List RetirementRow
release_retirements source =
    update_where (λ r. text_eq r.source_identity source && is_protected_retirement r.state)
      (λ r. record r { state = retiring_retirement })

-- `WHERE query_service_id=$1 AND version=$3`.
abbrev pub is_pointer_at : Text → ℕ → PointerRow → Bool
is_pointer_at service version p = text_eq p.query_service_id service && p.version == version

unfoldable pub move_pointer : Option Text → Option Text → PointerRow → PointerRow
move_pointer previous id p = record p {
  previous_generation_id = previous;
  generation_id = id;
  version = p.version + 1;
}

-- `UPDATE … RETURNING *`: the row, where exactly one was updated.
unfoldable pub update_pointer :
    Text → ℕ → (PointerRow → PointerRow) → Text → Exec Database PointerRow
update_pointer service version set message db =
    elim (the_row (select_where (is_pointer_at service version) db.pointers)) [
      | none ↦ throw message db
      | some p ↦
          pure (set p)
            (record db { pointers = update_where (is_pointer_at service version) set db.pointers })
    ]

unfoldable pub set_promotion :
    Text → (PromotionState → Bool) → PromotionState → Exec Database (Unit {0})
set_promotion id test state db = pure tt (record db {
  promotions =
      update_where (λ p. text_eq p.id id && test p.state) (λ p. record p { state = state })
        db.promotions;
})

abbrev pub any_state : PromotionState → Bool
any_state s = true

-- The body of the transaction of `promote`.
unfoldable pub promote_body : Text → Text → Option Text → ℕ → Text → Exec Database PointerRow
promote_body service id expected version promotion_id = do
  current ← locked service
  throw_if (not (current.version == version) || not (option_eq current.generation_id expected))
      (codes "SERVING_POINTER_CONFLICT")
  candidate ← (λ db. (ok (generation_row current.source_identity id db.generations), db))
  require_row is_candidate (codes "CANDIDATE_NOT_READY") candidate
  insert_promotion (record {
    id = promotion_id;
    source_identity = current.source_identity;
    from_generation_id = current.generation_id;
    to_generation_id = id;
    state = preparing;
  })
  (λ db. (
    ok tt,
    record db { retirements = release_retirements current.source_identity db.retirements },
  ))
  set_generations (promoted current.source_identity current.generation_id id)
  updated ←
      update_pointer service version (λ p. move_pointer p.generation_id (some id) p)
        (codes "SERVING_POINTER_CONFLICT")
  set_promotion promotion_id any_state committed
  pure updated

unfoldable pub promote : Text → Text → Option Text → ℕ → Text → Exec Database PointerRow
promote service id expected version promotion_id = do
  require_generation id
  require_expected expected
  transaction (promote_body service id expected version promotion_id)

-- The previous generation, which must be there.
unfoldable pub require_previous : Option Text → Exec Database Text
require_previous none = throw (codes "ROLLBACK_POINTER_CONFLICT")
require_previous (some id) = pure id

-- The body of the transaction of `rollback`.
unfoldable pub rollback_body : Text → ℕ → Text → Exec Database PointerRow
rollback_body service version promotion_id = do
  current ← locked service
  throw_if (not (current.version == version)) (codes "ROLLBACK_POINTER_CONFLICT")
  previous ← require_previous current.previous_generation_id
  target ← (λ db. (ok (generation_row current.source_identity previous db.generations), db))
  require_row is_rollback_target (codes "ROLLBACK_GENERATION_UNAVAILABLE") target
  set_generations (rolled current.source_identity current.generation_id previous)
  updated ←
      update_pointer service version
        (λ p. move_pointer current.generation_id p.previous_generation_id p)
        (codes "Cannot read properties of undefined")
  set_promotion promotion_id is_committed rolled_back
  pure updated

unfoldable pub rollback : Text → ℕ → Text → Exec Database PointerRow
rollback service version promotion_id = transaction (rollback_body service version promotion_id)
