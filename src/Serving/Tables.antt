-- ===== src/Serving/Tables.antt =====
-- The tables that services/rdf-sync/src/postgres-serving-pointer-repository.js reads and writes, and
-- the statements of SQL that it uses, as functions on lists of rows.
use custom_wikibase.Prelude.{
  ◌≡◌, ℕ, Bool, true, false, ◌&&◌, Option, none, some, List, [], ◌∷◌, Text, text_eq, ok, err, Exec,
  if◌then◌else◌,
}

-- rdf_generation_state.
pub data GenerationState : Type 0 where
  creating loading catching_up validating ready serving retiring retired failed : GenerationState

pub data ValidationState : Type 0 where
  pending valid invalid : ValidationState

pub data Protection : Type 0 where
  unprotected serving_protected rollback_protected : Protection
  promotion_in_progress retirement_in_progress : Protection

pub record GenerationRow : Type 0 where
  pub source_identity : Text
  pub generation_id : Text
  pub state : GenerationState
  pub validation_status : ValidationState
  pub protection_state : Protection
  pub normalization_model : Text
  pub partition_model : Text
  pub has_manifest : Bool
  pub validation_checksum : Option Text
  pub lifecycle_version : ℕ

pub data PromotionState : Type 0 where
  preparing committed rolled_back promotion_failed : PromotionState

pub record PromotionRow : Type 0 where
  pub id : Text
  pub source_identity : Text
  pub from_generation_id : Option Text
  pub to_generation_id : Text
  pub state : PromotionState

pub record PointerRow : Type 0 where
  pub query_service_id : Text
  pub source_identity : Text
  pub generation_id : Option Text
  pub previous_generation_id : Option Text
  pub version : ℕ

pub data RetirementState : Type 0 where
  rollback_protected_retirement retiring_retirement other_retirement : RetirementState

pub record RetirementRow : Type 0 where
  pub source_identity : Text
  pub state : RetirementState

pub record Database : Type 0 where
  pub generations : List GenerationRow
  pub promotions : List PromotionRow
  pub pointers : List PointerRow
  pub retirements : List RetirementRow

module _ {A : Type 0} where
  -- `SELECT … WHERE`.
  unfoldable pub select_where : (A → Bool) → List A → List A
  select_where test [] = []
  select_where test (a ∷ l) = let rest = select_where test l in if test a then a ∷ rest else rest

  -- `UPDATE … SET … WHERE`.
  unfoldable pub update_where : (A → Bool) → (A → A) → List A → List A
  update_where test set [] = []
  update_where test set (a ∷ l) = (if test a then set a else a) ∷ update_where test set l

  -- The row of a result that must have exactly one.
  unfoldable pub the_row : List A → Option A
  the_row [] = none
  the_row (a ∷ []) = some a
  the_row (a ∷ b ∷ l) = none

  -- `BEGIN`, the body, and `COMMIT` or, after a throw, `ROLLBACK`.
  unfoldable pub transaction : {S : Type 0} → Exec S A → Exec S A
  transaction m s = elim (m s).0 [ ok a ↦ (ok a, (m s).1) | err e ↦ (err e, s) ]

abbrev pub option_eq : Option Text → Option Text → Bool
option_eq none none = true
option_eq (some a) (some b) = text_eq a b
option_eq _ _ = false

abbrev pub is_serving : GenerationState → Bool
is_serving serving = true
is_serving _ = false

abbrev pub is_serving_row : GenerationRow → Bool
is_serving_row g = is_serving g.state

abbrev pub is_ready : GenerationState → Bool
is_ready ready = true
is_ready _ = false

abbrev pub is_retiring : GenerationState → Bool
is_retiring retiring = true
is_retiring _ = false

abbrev pub is_valid : ValidationState → Bool
is_valid valid = true
is_valid _ = false

abbrev pub is_unprotected : Protection → Bool
is_unprotected unprotected = true
is_unprotected _ = false

abbrev pub is_rollback : Protection → Bool
is_rollback rollback_protected = true
is_rollback _ = false

-- `protection_state IN('SERVING','ROLLBACK')`.
abbrev pub is_released : Protection → Bool
is_released serving_protected = true
is_released rollback_protected = true
is_released _ = false

abbrev pub is_preparing : PromotionState → Bool
is_preparing preparing = true
is_preparing _ = false

abbrev pub is_committed : PromotionState → Bool
is_committed committed = true
is_committed _ = false

-- `source_identity=$1 AND generation_id=$2`.
abbrev pub is_generation : Text → Text → GenerationRow → Bool
is_generation source id g = text_eq g.source_identity source && text_eq g.generation_id id

pub the_row-eq-some : {A : Type 0} (l : List A) (a : A) → the_row l ≡ some a → l ≡ a ∷ []
unfolding the_row
the_row-eq-some [] a h = cc
the_row-eq-some (b ∷ []) a h = cc
the_row-eq-some (b ∷ c ∷ l) a h = cc
