-- ===== src/Serving/Transitions.antt =====
-- TRANSITIONS of packages/rdf-sync/src/generation.js, and the transitions that a promotion takes.
use mathlib.Core.Path.{subst, sym, ap, ◌∙◌}
use custom_wikibase.Prelude.{
  ℕ, ◌≡◌, refl, Bool, true, false, ◌&&◌, Option, none, some, List, [], ◌∷◌, Text, arith,
  if◌then◌else◌, ok, Bool-cases, inl, inr, ◌⊎◌,
}
use custom_wikibase.Serving.Tables.{
  the_row-eq-some, GenerationState, creating, loading, catching_up, validating, ready, serving,
  retiring, retired, failed, GenerationRow, PointerRow, Database, select_where, update_where,
  is_serving, is_ready, is_generation,
}
use custom_wikibase.Serving.Pointer.Promotion.{body-generations, body-candidate, promote-body}
use custom_wikibase.Serving.Pointer.{
  locked, generation_row, is_candidate, promote, promoted, release_protection, step_down, step_up,
}

-- `TRANSITIONS[from].includes(to)`.
unfoldable pub can_become : GenerationState → GenerationState → Bool
can_become creating loading = true
can_become creating failed = true
can_become loading catching_up = true
can_become loading validating = true
can_become loading failed = true
can_become catching_up validating = true
can_become catching_up failed = true
can_become validating ready = true
can_become validating failed = true
can_become ready serving = true
can_become ready failed = true
can_become serving retiring = true
can_become retiring retired = true
can_become retiring serving = true
can_become retiring failed = true
can_become _ _ = false

-- The same generation, in the same state or in one that it can go to.
pub data MayBecome (g : GenerationRow) : GenerationRow → Type 0 where
  unmoved : (h : GenerationRow) → h.state ≡ g.state → MayBecome g h
  stepped : (h : GenerationRow) → can_become g.state h.state ≡ true → MayBecome g h

pub data AllMayBecome : List GenerationRow → List GenerationRow → Type 0 where
  none_left : AllMayBecome [] []
  one_more :
      (g h : GenerationRow) (l k : List GenerationRow)
      → MayBecome g h
      → AllMayBecome l k
      → AllMayBecome (g ∷ l) (h ∷ k)

unfoldable pub all_ready : Text → Text → List GenerationRow → Bool
all_ready source id [] = true
all_ready source id (g ∷ l) =
    let rest = all_ready source id l in
    if is_generation source id g then is_ready g.state && rest else rest

ready-serving : (s : GenerationState) → is_ready s ≡ true → can_become s serving ≡ true
unfolding can_become
ready-serving ready h = refl
ready-serving creating h = cc
ready-serving loading h = cc
ready-serving catching_up h = cc
ready-serving validating h = cc
ready-serving serving h = cc
ready-serving retiring h = cc
ready-serving retired h = cc
ready-serving failed h = cc

serving-retiring : (s : GenerationState) → is_serving s ≡ true → can_become s retiring ≡ true
unfolding can_become
serving-retiring serving h = refl
serving-retiring creating h = cc
serving-retiring loading h = cc
serving-retiring catching_up h = cc
serving-retiring validating h = cc
serving-retiring ready h = cc
serving-retiring retiring h = cc
serving-retiring retired h = cc
serving-retiring failed h = cc

Moved : GenerationRow → GenerationRow → Type 0
Moved g h =
    (h.state ≡ g.state)
    ⊎ (((h.state ≡ serving) × (is_ready g.state ≡ true))
        ⊎ ((h.state ≡ retiring) × (is_serving g.state ≡ true)))

moved-MayBecome : (g h : GenerationRow) → Moved g h → MayBecome g h
unfolding Moved
moved-MayBecome g h (inl e) = unmoved h e
moved-MayBecome g h (inr (inl (e, r))) = stepped h (rw e (ready-serving g.state r))
moved-MayBecome g h (inr (inr (e, r))) = stepped h (rw e (serving-retiring g.state r))

promoted-AllMayBecome :
    (source : Text) (current : Option Text) (id : Text) (l : List GenerationRow)
    → all_ready source id l ≡ true
    → AllMayBecome l (promoted source current id l)
unfolding promoted step_up step_down release_protection update_where all_ready Moved
promoted-AllMayBecome source none id [] h = none_left
promoted-AllMayBecome source (some k) id [] h = none_left
promoted-AllMayBecome source none id (g ∷ l) h =
    one_more g _ l _
      (moved-MayBecome g _ (elim (Bool-cases (is_generation source id g)) [
        | inl e ↦ inr (inl (ground arith, ground arith))
        | inr e ↦ inl (ground arith)
      ]))
      (promoted-AllMayBecome source none id l (ground arith))
promoted-AllMayBecome source (some k) id (g ∷ l) h =
    one_more g _ l _
      (moved-MayBecome g _ (elim (Bool-cases (is_generation source id g)) [
        | inl e ↦ inr (inl (ground arith, ground arith))
        | inr e ↦ elim (Bool-cases (is_generation source k g && is_serving g.state)) [
          | inl o ↦ inr (inr (ground arith, ground arith))
          | inr o ↦ inl (ground arith)
        ]
      ]))
      (promoted-AllMayBecome source (some k) id l (ground arith))

none-all_ready :
    (source id : Text) (l : List GenerationRow)
    → select_where (is_generation source id) l ≡ []
    → all_ready source id l ≡ true
unfolding select_where all_ready
none-all_ready source id [] h = refl
none-all_ready source id (k ∷ l) h = ground (arith, none-all_ready source id l)

one-all_ready :
    (source id : Text) (g : GenerationRow) (l : List GenerationRow)
    → select_where (is_generation source id) l ≡ g ∷ []
    → is_ready g.state ≡ true
    → all_ready source id l ≡ true
unfolding select_where all_ready
one-all_ready source id g [] h r = refl
one-all_ready source id g (k ∷ l) h r =
    ground (arith, one-all_ready source id g l, none-all_ready source id l)

candidate-all_ready :
    (source id : Text) (g : GenerationRow) (l : List GenerationRow)
    → generation_row source id l ≡ some g
    → is_candidate g ≡ true
    → all_ready source id l ≡ true
unfolding generation_row is_candidate
candidate-all_ready source id g l found fit =
    one-all_ready source id g l (the_row-eq-some _ g found) (ground arith)

-- A promotion that succeeds takes every generation only along a transition of the declared state
-- machine, or leaves it in its state.
pub promote-AllMayBecome :
    (service id : Text) (expected : Option Text) (version : ℕ) (pid : Text) (db : Database)
    (p p' : PointerRow)
    → locked service db ≡ (ok p, db)
    → (promote service id expected version pid db).0 ≡ ok p'
    → AllMayBecome db.generations (promote service id expected version pid db).1.generations
promote-AllMayBecome service id expected version pid db p p' pointed h =
    let (done, same) = promote-body service id expected version pid db h in
    let (g, found, fit) = body-candidate service id expected version pid db pointed done in
    let moved =
      promoted-AllMayBecome p.source_identity p.generation_id id db.generations
        (candidate-all_ready p.source_identity id g db.generations found fit) in
    subst (AllMayBecome db.generations)
      (sym (
        ap (λ d. d.generations) same
        ∙ body-generations service id expected version pid db pointed done))
      moved
