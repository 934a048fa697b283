-- ===== src/Serving/Pointer/Rows.antt =====
-- Which generations of a source serve, before and after the statements of `promote`.
use custom_wikibase.Prelude.{
  ℕ, suc, ◌≡◌, refl, Bool, true, false, ◌&&◌, Option, none, some, List, [], ◌∷◌, Text, text_eq,
  text_eq_iff, arith, if◌then◌else◌,
}
use custom_wikibase.Serving.Tables.{
  GenerationRow, GenerationState, update_where, is_serving, is_generation,
}
use custom_wikibase.Serving.Pointer.{release_protection, step_down, step_up, any_row}

-- The serving generations of a source.
unfoldable pub serving_ids : Text → List GenerationRow → List Text
serving_ids source [] = []
serving_ids source (g ∷ l) =
    let rest = serving_ids source l in
    if text_eq g.source_identity source && is_serving g.state then g.generation_id ∷ rest else rest

abbrev pub ids_of : Option Text → List Text
ids_of none = []
ids_of (some id) = id ∷ []

-- The number of rows of a generation.
unfoldable pub count_rows : Text → Text → List GenerationRow → ℕ
count_rows source id [] = 0
count_rows source id (g ∷ l) =
    let rest = count_rows source id l in if is_generation source id g then suc rest else rest

unfoldable pub all_are : Text → List Text → Bool
all_are id [] = true
all_are id (k ∷ l) = text_eq k id && all_are id l

pub serving_ids-release :
    (source : Text) (l : List GenerationRow)
    → serving_ids source (release_protection source l) ≡ serving_ids source l
unfolding serving_ids release_protection update_where
serving_ids-release source [] = refl
serving_ids-release source (g ∷ l) = ground (arith, serving_ids-release source l)

pub count_rows-release :
    (source id : Text) (l : List GenerationRow)
    → count_rows source id (release_protection source l) ≡ count_rows source id l
unfolding count_rows release_protection update_where
count_rows-release source id [] = refl
count_rows-release source id (g ∷ l) = ground (arith, count_rows-release source id l)

pub count_rows-step_down :
    (source id k : Text) (test : GenerationRow → Bool) (st : GenerationState)
    (l : List GenerationRow)
    → count_rows source id (step_down source (some k) test st l) ≡ count_rows source id l
unfolding count_rows step_down update_where
count_rows-step_down source id k test st [] = refl
count_rows-step_down source id k test st (g ∷ l) =
    ground (arith, count_rows-step_down source id k test st l)

pub step_down-none :
    (source k : Text) (st : GenerationState) (l : List GenerationRow)
    → is_serving st ≡ false
    → all_are k (serving_ids source l) ≡ true
    → serving_ids source (step_down source (some k) any_row st l) ≡ []
unfolding serving_ids all_are step_down update_where
step_down-none source k st [] e h = refl
step_down-none source k st (g ∷ l) e h = ground (arith, step_down-none source k st l)

step_up-absent :
    (source id : Text) (test : GenerationRow → Bool) (l : List GenerationRow)
    → count_rows source id l ≡ 0
    → serving_ids source (step_up source id test l) ≡ serving_ids source l
unfolding serving_ids count_rows step_up update_where
step_up-absent source id test [] h = refl
step_up-absent source id test (g ∷ l) h = ground (arith, step_up-absent source id test l)

pub step_up-one :
    (source id : Text) (l : List GenerationRow)
    → count_rows source id l ≡ 1
    → serving_ids source l ≡ []
    → serving_ids source (step_up source id any_row l) ≡ id ∷ []
unfolding serving_ids count_rows step_up update_where
step_up-one source id [] h e = absurd (omega arith)
step_up-one source id (g ∷ l) h e = ground (
  arith,
  step_up-one source id l,
  step_up-absent source id any_row l,
  text_eq_iff g.source_identity source,
  text_eq_iff g.generation_id id,
)
