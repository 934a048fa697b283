-- ===== src/Serving/Standalone/Switch.antt =====
-- What the statements of `#finalize` make of the generations of the source.
use custom_wikibase.Prelude.{
  ◌≡◌, refl, ◌∙◌, Bool, true, ◌&&◌, ◌||◌, some, List, [], ◌∷◌, Text, text_eq_iff, text_eq_refl,
  length, arith, if◌then◌else◌,
}
use custom_wikibase.Serving.Tables.{
  GenerationRow, retiring, select_where, update_where, is_generation,
}
use custom_wikibase.Serving.Pointer.{release_protection, step_down, step_up, any_row}
use custom_wikibase.Serving.Pointer.Rows.{
  serving_ids, count_rows, all_are, serving_ids-release, count_rows-release, count_rows-step_down,
  step_down-none,
}
use custom_wikibase.Serving.Pointer.Promotion.{generation_row-count}
use custom_wikibase.Serving.Standalone.{JournalRow, is_eligible, promote_mode, rollback_mode}
use custom_wikibase.Serving.Standalone.Steps.{
  switched, has_one, is_target_state, is_target, is_serving_from,
}

-- The rows of a generation are ready or retiring.
unfoldable all_target : Text → Text → List GenerationRow → Bool
all_target source id [] = true
all_target source id (g ∷ l) =
    let rest = all_target source id l in
    if is_generation source id g then is_target_state g && rest else rest

module _ (source id : Text) where
  all_target-none :
      (l : List GenerationRow)
      → select_where (is_generation source id) l ≡ []
      → all_target source id l ≡ true
  unfolding select_where all_target
  all_target-none [] h = refl
  all_target-none (g ∷ l) h = ground (arith, all_target-none l)

  all_target-one :
      (l : List GenerationRow) (g : GenerationRow)
      → select_where (is_generation source id) l ≡ g ∷ []
      → is_target_state g ≡ true
      → all_target source id l ≡ true
  unfolding select_where all_target
  all_target-one [] g h t = cc
  all_target-one (k ∷ l) g h t = ground (arith, all_target-one l g, all_target-none l)

  all_target-release :
      (l : List GenerationRow)
      → all_target source id (release_protection source l) ≡ all_target source id l
  unfolding all_target release_protection update_where
  all_target-release [] = refl
  all_target-release (g ∷ l) = ground (arith, all_target-release l)

  all_target-step_down :
      (k : Text) (l : List GenerationRow)
      → all_target source id l ≡ true
      → all_target source id (step_down source (some k) any_row retiring l) ≡ true
  unfolding all_target step_down update_where
  all_target-step_down k [] h = refl
  all_target-step_down k (g ∷ l) h = ground (arith, all_target-step_down k l)

  no_target :
      (l : List GenerationRow)
      → count_rows source id l ≡ 0
      → length (select_where (is_target source id) l) ≡ 0
  unfolding count_rows select_where
  no_target [] h = refl
  no_target (g ∷ l) h = ground (arith, no_target l)

  one_target :
      (l : List GenerationRow)
      → count_rows source id l ≡ 1
      → all_target source id l ≡ true
      → length (select_where (is_target source id) l) ≡ 1
  unfolding count_rows select_where all_target
  one_target [] h t = absurd (omega arith)
  one_target (g ∷ l) h t = ground (arith, one_target l, no_target l)

  step_up-unchanged :
      (l : List GenerationRow)
      → count_rows source id l ≡ 0
      → serving_ids source (step_up source id is_target_state l) ≡ serving_ids source l
  unfolding count_rows serving_ids step_up update_where
  step_up-unchanged [] h = refl
  step_up-unchanged (g ∷ l) h = ground (arith, step_up-unchanged l)

  step_up-target :
      (l : List GenerationRow)
      → count_rows source id l ≡ 1
      → all_target source id l ≡ true
      → serving_ids source l ≡ []
      → serving_ids source (step_up source id is_target_state l) ≡ id ∷ []
  unfolding count_rows all_target serving_ids step_up update_where
  step_up-target [] h t n = absurd (omega arith)
  step_up-target (g ∷ l) h t n = ground (
    arith,
    step_up-target l,
    step_up-unchanged l,
    text_eq_iff g.source_identity source,
    text_eq_iff g.generation_id id,
  )

  no_serving :
      (l : List GenerationRow)
      → serving_ids source l ≡ []
      → length (select_where (is_serving_from source id) l) ≡ 0
  unfolding serving_ids select_where
  no_serving [] h = refl
  no_serving (g ∷ l) h = ground (arith, no_serving l)

  one_serving :
      (l : List GenerationRow)
      → serving_ids source l ≡ id ∷ []
      → length (select_where (is_serving_from source id) l) ≡ 1
  unfolding serving_ids select_where
  one_serving [] h = cc
  one_serving (g ∷ l) h =
      ground (arith, one_serving l, no_serving l, text_eq_iff g.generation_id id)

fit_target :
    (g : GenerationRow)
    → (is_eligible promote_mode g || is_eligible rollback_mode g) ≡ true
    → is_target_state g ≡ true
unfolding is_eligible
fit_target g h = ground arith

-- Both statements find their row, and the target is then the one that serves.
pub switched-serving :
    (source : Text) (p : JournalRow) (l : List GenerationRow) (g : GenerationRow)
    → serving_ids source l ≡ p.from_generation_id ∷ []
    → select_where (is_generation source p.to_generation_id) l ≡ g ∷ []
    → (is_eligible promote_mode g || is_eligible rollback_mode g) ≡ true
    → ((switched source p l).1 ≡ true)
      × (serving_ids source (switched source p l).0 ≡ p.to_generation_id ∷ [])
unfolding switched has_one all_are
switched-serving source p l g from to fit =
    let k = p.from_generation_id in
    let id = p.to_generation_id in
    let released = release_protection source l in
    let down = step_down source (some k) any_row retiring released in
    let target =
      all_target-step_down source id k released
        (all_target-release source id l ∙ all_target-one source id l g to (fit_target g fit)) in
    let one : count_rows source id down ≡ 1 =
      count_rows-step_down source id k any_row retiring released
      ∙ count_rows-release source id l
      ∙ generation_row-count source id l g to in
    let old : serving_ids source released ≡ k ∷ [] = serving_ids-release source l ∙ from in
    let none_left = step_down-none source k retiring released refl (rw old (rw text_eq_refl)) in
    (
      rw (one_serving source k released old, one_target source id down one target) refl,
      step_up-target source id down one target none_left,
    )
