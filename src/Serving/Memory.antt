-- ===== src/Serving/Memory.antt =====
-- The generation backend in memory, of services/rdf-sync/src/generation-rebuild-coordinator.js, with
-- `assertGenerationTransition` of packages/rdf-sync/src/generation.js. The identifier of a promotion and
-- the clock are arguments.
pub mod Consistent
pub mod Operations
pub mod Switches
pub mod Blind
pub mod Unserved
pub mod Reachable
use custom_wikibase.Prelude.{
  ℕ, Bool, true, false, not, ◌&&◌, ◌||◌, Option, none, some, is_some, List, [], ◌∷◌, ◌++◌, Text,
  codes, text_eq, length, Dict, lookup, insert, erase, Exec, pure, throw, gets, modify, throw_if,
  ◌>>=◌, ◌>>◌, if◌then◌else◌,
}
use custom_wikibase.RdfSync.Cursor.{Cursor}
use custom_wikibase.Serving.Tables.{
  GenerationState, creating, loading, catching_up, validating, ready, serving, retiring, retired,
  failed, ValidationState, pending, valid, PromotionState, committed, rolled_back, option_eq,
  is_ready, is_retiring, is_valid, is_committed,
}
use custom_wikibase.Serving.Pointer.{require_generation, is_generation_id}
use custom_wikibase.Serving.Transitions.{can_become}

-- What is stored of an entity.
pub record Entry : Type 0 where
  pub revision : ℕ
  pub value : Text

pub record Generation : Type 0 where
  pub state : GenerationState
  pub source_snapshot_cursor : Cursor
  pub catchup_cursor : Option Cursor
  pub validation_status : ValidationState
  pub is_served : Bool
  pub data_of : Dict Entry
  pub created_at : Text
  pub retired_at : Option Text

pub record MemoryPromotion : Type 0 where
  pub from : Option Text
  pub to : Text
  pub state : PromotionState

pub record Memory : Type 0 where
  pub generations : Dict Generation
  pub active : Option Text
  pub promotions : Dict MemoryPromotion

abbrev pub new_memory : Memory
new_memory = record { generations = []; active = none; promotions = [] }

-- `validateGenerationId`.
unfoldable pub validate_id : Text → Exec Memory (Unit {0})
validate_id id = throw_if (not (is_generation_id id)) (codes "invalid RDF generation ID")

-- `#row`.
unfoldable pub row : Text → Exec Memory Generation
row id m =
    if not (is_generation_id id)
    then throw (codes "invalid RDF generation ID") m
    else elim (lookup id m.generations) [
      | none ↦ throw (codes "GENERATION_NOT_FOUND") m
      | some g ↦ pure g m
    ]

-- A change of the row, which the map shares.
unfoldable pub set_row : Text → Generation → Exec Memory (Unit {0})
set_row id g = modify (λ m. record m { generations = insert id g m.generations })

unfoldable pub create_generation : Text → Cursor → Text → Exec Memory Generation
create_generation id cursor now = do
  validate_id id
  existing ← gets (λ m. is_some (lookup id m.generations))
  throw_if existing (codes "GENERATION_EXISTS")
  let g : Generation = record {
    state = creating;
    source_snapshot_cursor = cursor;
    catchup_cursor = none;
    validation_status = pending;
    is_served = false;
    data_of = [];
    created_at = now;
    retired_at = none;
  }
  set_row id g
  pure g

-- The name of a state.
unfoldable pub state_name : GenerationState → Text
state_name creating = codes "CREATING"
state_name loading = codes "LOADING"
state_name catching_up = codes "CATCHING_UP"
state_name validating = codes "VALIDATING"
state_name ready = codes "READY"
state_name serving = codes "SERVING"
state_name retiring = codes "RETIRING"
state_name retired = codes "RETIRED"
state_name failed = codes "FAILED"

-- `assertGenerationTransition`.
unfoldable pub assert_generation_transition :
    GenerationState → GenerationState → Exec Memory (Unit {0})
assert_generation_transition from to =
    throw_if (not (can_become from to))
      (codes "illegal RDF generation transition " ++ state_name from ++ codes "->" ++ state_name to)

unfoldable pub load_snapshot_into_generation : Text → Dict Entry → Exec Memory (Unit {0})
load_snapshot_into_generation id snapshot = do
  g ← row id
  assert_generation_transition g.state loading
  set_row id (record g { state = loading; data_of = snapshot })

abbrev pub is_loading : GenerationState → Bool
is_loading loading = true
is_loading _ = false

abbrev pub is_catching_up : GenerationState → Bool
is_catching_up catching_up = true
is_catching_up _ = false

abbrev pub is_validating : GenerationState → Bool
is_validating validating = true
is_validating _ = false

abbrev pub is_filling : GenerationState → Bool
is_filling s = is_loading s || is_catching_up s

unfoldable pub apply_entity_change_to_generation : Text → Text → ℕ → Text → Exec Memory (Unit {0})
apply_entity_change_to_generation id entity revision source = do
  g ← row id
  throw_if (not (is_filling g.state)) (codes "GENERATION_NOT_CATCHING_UP")
  set_row id (record g {
    state = catching_up;
    validation_status = pending;
    data_of = insert entity (record { revision = revision; value = source }) g.data_of;
  })

unfoldable pub delete_entity_from_generation : Text → Text → Exec Memory (Unit {0})
delete_entity_from_generation id entity = do
  g ← row id
  throw_if (not (is_filling g.state)) (codes "GENERATION_NOT_MUTABLE")
  set_row id (record g { data_of = erase entity g.data_of })

-- The number of entities; the query itself is only required to have text.
unfoldable pub query_generation : Text → Text → Exec Memory ℕ
query_generation id [] = throw (codes "invalid generation query")
query_generation id (c ∷ s) = do g ← row id; pure (length g.data_of)

abbrev pub or_else : Option Cursor → Option Cursor → Option Cursor
or_else none other = other
or_else (some c) other = some c

-- A generation that is ready and valid stays as it is.
unfoldable pub validate_generation : Text → Option Cursor → Exec Memory (Unit {0})
validate_generation id cursor = do
  g ← row id
  if is_ready g.state && is_valid g.validation_status
      then pure tt
      else if is_filling g.state
      then set_row id (record g {
        state = ready;
        catchup_cursor = or_else cursor g.catchup_cursor;
        validation_status = valid;
      })
      else if is_validating g.state
      then set_row id (record g { state = ready; validation_status = valid })
      else throw (codes "GENERATION_NOT_VALIDATABLE")

unfoldable pub get_serving_generation : Exec Memory (Option Generation)
get_serving_generation m = elim m.active [
  | none ↦ pure none m
  | some id ↦ (row id >>= λ g. pure (some g)) m
]

-- The generation that served retires.
unfoldable pub step_aside : Option Text → Exec Memory (Unit {0})
step_aside none = pure tt
step_aside (some id) = do p ← row id; set_row id (record p { state = retiring; is_served = false })

unfoldable pub take_over : Text → Text → Option Text → Exec Memory (Unit {0})
take_over promotion id previous = do
  g ← row id
  set_row id (record g { state = serving; is_served = true })
  modify (λ m. record m {
    active = some id;
    promotions =
        insert promotion (record { from = previous; to = id; state = committed }) m.promotions;
  })

-- `promoteGeneration`, which names the promotion.
unfoldable pub promote_generation : Text → Text → Option Text → Exec Memory (Option Text)
promote_generation promotion id expected = do
  g ← row id
  throw_if (not (is_ready g.state)) (codes "GENERATION_NOT_READY")
  active ← gets (λ m. m.active)
  throw_if (not (option_eq active expected)) (codes "SERVING_GENERATION_CONFLICT")
  step_aside active
  take_over promotion id active
  pure active

unfoldable pub come_back : Option Text → Exec Memory (Unit {0})
come_back none = pure tt
come_back (some id) = do p ← row id; set_row id (record p { state = serving; is_served = true })

unfoldable pub roll_back : Text → MemoryPromotion → Exec Memory (Option Text)
roll_back promotion p = do
  g ← row p.to
  set_row p.to (record g { state = ready; is_served = false })
  come_back p.from
  modify (λ m. record m {
    active = p.from;
    promotions = insert promotion (record p { state = rolled_back }) m.promotions;
  })
  pure p.from

unfoldable pub rollback_promotion : Text → Exec Memory (Option Text)
rollback_promotion promotion m = elim (lookup promotion m.promotions) [
  | none ↦ throw (codes "PROMOTION_NOT_ROLLBACKABLE") m
  | some p ↦
      if is_committed p.state && option_eq m.active (some p.to)
      then roll_back promotion p m
      else throw (codes "PROMOTION_NOT_ROLLBACKABLE") m
]

unfoldable pub retire_generation : Text → Text → Exec Memory (Unit {0})
retire_generation id now = do
  g ← row id
  throw_if g.is_served (codes "CANNOT_RETIRE_SERVING_GENERATION")
  if is_ready g.state
      then set_row id (record g { state = failed })
      else if is_retiring g.state
      then set_row id (record g { state = retired; retired_at = some now })
      else throw (codes "GENERATION_NOT_RETIRING")

abbrev pub is_over : GenerationState → Bool
is_over retired = true
is_over failed = true
is_over _ = false

unfoldable pub delete_generation : Text → Exec Memory (Unit {0})
delete_generation id = do
  g ← row id
  throw_if (g.is_served || not (is_over g.state)) (codes "GENERATION_NOT_DELETABLE")
  modify (λ m. record m { generations = erase id m.generations })

-- `listGenerations` and `serving`.
unfoldable pub list_generations : Memory → Dict Generation
list_generations m = m.generations

unfoldable pub served_data : Exec Memory (Option (Dict Entry))
served_data = do g ← get_serving_generation; pure (elim g [ none ↦ none | some g ↦ some g.data_of ])
