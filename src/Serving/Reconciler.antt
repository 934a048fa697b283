-- ===== src/Serving/Reconciler.antt =====
-- services/rdf-sync/src/serving-reconciler.js: what the durable evidence says of the generation
-- that serves, and which generations may be cleaned up.
pub mod Readiness
pub mod Cleanup
use custom_wikibase.Prelude.{
  ℕ, zero, suc, Bool, true, false, not, ◌&&◌, ◌||◌, Option, none, some, List, [], ◌∷◌, ◌++◌, Text,
  codes, text_eq, Dict, lookup, includes, length, ltb, Result, ok, err, take, if◌then◌else◌,
}
use custom_wikibase.Serving.Tables.{
  GenerationState, retired, failed, PromotionState, is_serving, is_ready, is_preparing, option_eq,
  select_where,
}

pub record Generation : Type 0 where
  pub generation_id : Text
  pub state : GenerationState
  pub created_at : Text

pub record Promotion : Type 0 where
  pub id : Text
  pub state : PromotionState
  pub from_generation_id : Option Text
  pub to_generation_id : Option Text

pub record Pointer : Type 0 where
  pub generation_id : Option Text
  pub previous_generation_id : Option Text

pub data Classification : Type 0 where
  ambiguous_promotion pointer_missing pointer_target_missing : Classification
  pointer_registry_mismatch serving_generation_unavailable : Classification
  consistent_with_ready_candidate consistent : Classification

pub record Verdict : Type 0 where
  pub classification : Classification
  pub ready : Bool
  pub related : List Text

-- `[...new Set(ids.filter(Boolean))]`: without absent and empty ones, each once.
unfoldable pub distinct : List Text → List (Option Text) → List Text
distinct seen [] = seen
distinct seen (none ∷ ids) = distinct seen ids
distinct seen (some [] ∷ ids) = distinct seen ids
distinct seen (some (c ∷ s) ∷ ids) =
    distinct (if includes seen (c ∷ s) then seen else seen ++ (c ∷ s) ∷ []) ids

unfoldable pub verdict : Classification → Bool → List (Option Text) → Verdict
verdict classification ready related = record {
  classification = classification;
  ready = ready;
  related = distinct [] related;
}

abbrev map_some : {A : Type 0} → (A → Option Text) → List A → List (Option Text)
map_some f [] = []
map_some f (a ∷ l) = f a ∷ map_some f l

abbrev pub is_at : Option Text → Generation → Bool
is_at id g = option_eq (some g.generation_id) id

-- `serving.length !== 1 || serving[0].generationId !== pointer.generationId`, negated.
unfoldable pub serves_exactly : List Generation → Option Text → Bool
serves_exactly (g ∷ []) id = is_at id g
serves_exactly _ id = false

-- `healthByGeneration.get(id) === 'healthy'`.
unfoldable pub is_healthy : Dict Text → Option Text → Bool
is_healthy health none = false
is_healthy health (some id) = elim (lookup id health) [
  | none ↦ false
  | some status ↦ text_eq status (codes "healthy")
]

abbrev is_abandoned : Pointer → Generation → Bool
is_abandoned p g = is_ready g.state && not (is_at p.previous_generation_id g)

abbrev pub is_empty {ℓ} : {A : Type ℓ} → List A → Bool
is_empty [] = true
is_empty (_ ∷ _) = false

abbrev pub serving_of : List Generation → List Generation
serving_of = select_where (λ g. is_serving g.state)

abbrev pub active_of : List Promotion → List Promotion
active_of = select_where (λ p. is_preparing p.state)

-- With a pointer, and no promotion in flight.
unfoldable pub reconcile_pointer : Pointer → List Generation → Dict Text → Verdict
reconcile_pointer p generations health =
    let serving = serving_of generations in
    let abandoned = select_where (is_abandoned p) generations in
    if is_empty (select_where (is_at p.generation_id) generations)
    then verdict pointer_target_missing false (p.generation_id ∷ [])
    else if not (serves_exactly serving p.generation_id)
    then verdict pointer_registry_mismatch false
        (p.generation_id ∷ map_some (λ g. some g.generation_id) serving)
    else if not (is_healthy health p.generation_id)
    then verdict serving_generation_unavailable false (p.generation_id ∷ [])
    else verdict (if is_empty abandoned then consistent else consistent_with_ready_candidate) true
        (map_some (λ g. some g.generation_id) abandoned)

unfoldable pub reconcile : Option Pointer → List Generation → List Promotion → Dict Text → Verdict
reconcile pointer generations promotions health =
    let active = active_of promotions in
    if not (is_empty active)
    then verdict ambiguous_promotion false (map_some (λ p. some p.id) active)
    else elim pointer [
      | none ↦ verdict pointer_missing false []
      | some p ↦ reconcile_pointer p generations health
    ]

abbrev is_failed_state : GenerationState → Bool
is_failed_state failed = true
is_failed_state _ = false

abbrev pub is_disposable : GenerationState → Bool
is_disposable retired = true
is_disposable failed = true
is_disposable _ = false

-- `ids.filter(Boolean)`: without absent and empty ones.
unfoldable pub filter_boolean : List (Option Text) → List (Option Text)
filter_boolean [] = []
filter_boolean (none ∷ ids) = filter_boolean ids
filter_boolean (some [] ∷ ids) = filter_boolean ids
filter_boolean (some (c ∷ s) ∷ ids) = some (c ∷ s) ∷ filter_boolean ids

-- The generations that every active promotion names.
unfoldable pub promotion_ids : List Promotion → List (Option Text)
promotion_ids [] = []
promotion_ids (p ∷ l) =
    let rest = promotion_ids l in
    if is_preparing p.state then p.from_generation_id ∷ p.to_generation_id ∷ rest else rest

-- `set.has(id)`.
unfoldable pub has_id : List (Option Text) → Text → Bool
has_id [] id = false
has_id (k ∷ ids) id = option_eq (some id) k || has_id ids id

unfoldable pub generation_ids : List Generation → List Text
generation_ids [] = []
generation_ids (g ∷ l) = g.generation_id ∷ generation_ids l

-- `newer a b` is `String(b).localeCompare(String(a)) < 0`, the order of the host's language.
module _ (newer : Text → Text → Bool) where
  -- `.sort(newestFirst)`, which is stable.
  unfoldable pub insert_newest : Generation → List Generation → List Generation
  insert_newest g [] = g ∷ []
  insert_newest g (h ∷ l) =
      if newer h.created_at g.created_at then h ∷ insert_newest g l else g ∷ h ∷ l

  unfoldable pub sort_newest : List Generation → List Generation
  sort_newest [] = []
  sort_newest (g ∷ l) = insert_newest g (sort_newest l)

  -- The newest failed generations, as many as are retained.
  unfoldable pub newest_failed : List Generation → ℕ → List (Option Text)
  newest_failed generations retain =
      map_some (λ g. some g.generation_id)
        (take retain (sort_newest (select_where (λ g. is_failed_state g.state) generations)))

  unfoldable pub protected_ids : List Generation → Pointer → List Promotion → ℕ → List (Option Text)
  protected_ids generations p promotions retain =
      filter_boolean (p.generation_id ∷ p.previous_generation_id ∷ [])
      ++ (promotion_ids promotions ++ newest_failed generations retain)

  unfoldable pub cleanup_candidates :
      List Generation → Pointer → List Promotion → ℕ → Result (List Text)
  cleanup_candidates generations p promotions retain =
      if ltb 1 retain
      then err (codes "invalid failed-generation retention")
      else ok (
          generation_ids (
            select_where
              (λ g.
                is_disposable g.state
                && not (has_id (protected_ids generations p promotions retain) g.generation_id))
              generations))
