-- ===== src/Serving/Reconciler/Readiness.antt =====
-- When the reconciler reports a service as ready, and what a cleanup may take.
use custom_wikibase.Prelude.{
  ◌≡◌, ◌↔◌, refl, Bool, true, false, Option, none, some, List, [], ◌∷◌, Text, codes, text_eq_iff,
  text_eq_refl, Dict, lookup, arith, Option-cases, inl, inr,
}
use custom_wikibase.Serving.Tables.{select_where}
use custom_wikibase.Serving.Reconciler.{
  Generation, Promotion, Pointer, verdict, is_at, serves_exactly, is_healthy, serving_of, active_of,
  reconcile_pointer, Classification, is_empty, reconcile,
}

-- The service is ready: no promotion is in flight, exactly one generation serves and it is the one
-- that the pointer names, and it is healthy.
pub record IsServed (pointer : Option Pointer) (generations : List Generation)
    (promotions : List Promotion) (health : Dict Text) : Type 0 where
  pub settled : active_of promotions ≡ []
  pub target : Pointer
  pub pointed : pointer ≡ some target
  pub serving : Generation
  pub alone : serving_of generations ≡ serving ∷ []
  pub id : Text
  pub named : target.generation_id ≡ some id
  pub matches : serving.generation_id ≡ id
  pub healthy : lookup id health ≡ some (codes "healthy")

target_found :
    (id : Option Text) (g : Generation) (l : List Generation)
    → is_empty (select_where (is_at id) l) ≡ true
    → serving_of l ≡ g ∷ []
    → is_at id g ≡ false
unfolding select_where
target_found id g [] e h = cc
target_found id g (k ∷ l) e h = ground (arith, target_found id g l)

verdict-ready :
    (c : Classification) (r : Bool) (ids : List (Option Text)) → (verdict c r ids).ready ≡ r
unfolding verdict
verdict-ready c r ids = refl

module _ (generations : List Generation) (promotions : List Promotion) (health : Dict Text) where
  healthy_status :
      (id : Option Text)
      → is_healthy health id ≡ true
      → (k : Text) × (id ≡ some k) × (lookup k health ≡ some (codes "healthy"))
  unfolding is_healthy
  healthy_status none h = cc
  healthy_status (some k) h = elim (Option-cases (lookup k health)) [
    | inl e ↦ absurd (ground arith)
    | inr (s, e) ↦ (k, refl, ground (arith, text_eq_iff s (codes "healthy")))
  ]

  serves_one :
      (id : Option Text) (l : List Generation)
      → serves_exactly l id ≡ true
      → (g : Generation) × (l ≡ g ∷ []) × (is_at id g ≡ true)
  unfolding serves_exactly
  serves_one id [] h = cc
  serves_one id (g ∷ []) h = (g, refl, h)
  serves_one id (g ∷ k ∷ l) h = cc

  no_active : (l : List Promotion) → is_empty l ≡ true → l ≡ []
  no_active [] h = refl
  no_active (p ∷ l) h = cc

  pointer_checks :
      (p : Pointer)
      → (reconcile_pointer p generations health).ready ≡ true
      → (serves_exactly (serving_of generations) p.generation_id ≡ true)
        × (is_healthy health p.generation_id ≡ true)
  unfolding reconcile_pointer verdict
  pointer_checks p h = ground arith

  ready_checks :
      (pointer : Option Pointer)
      → (reconcile pointer generations promotions health).ready ≡ true
      → (p : Pointer) × (pointer ≡ some p)
        × (is_empty (active_of promotions) ≡ true)
        × ((reconcile_pointer p generations health).ready ≡ true)
  unfolding reconcile verdict
  ready_checks none h = absurd (ground arith)
  ready_checks (some p) h = (p, refl, ground arith, ground arith)

  ready-IsServed :
      (pointer : Option Pointer)
      → (reconcile pointer generations promotions health).ready ≡ true
      → IsServed pointer generations promotions health
  ready-IsServed pointer h =
      let (p, pointed, settled, ready) = ready_checks pointer h in
      let (exact, well) = pointer_checks p ready in
      let (g, alone, at) = serves_one p.generation_id _ exact in
      let (id, named, healthy) = healthy_status p.generation_id well in
      record {
        settled = no_active _ settled;
        target = p;
        pointed = pointed;
        serving = g;
        alone = alone;
        id = id;
        named = named;
        matches = (text_eq_iff g.generation_id id).0 (ground arith);
        healthy = healthy;
      }

  IsServed-ready :
      (pointer : Option Pointer)
      → IsServed pointer generations promotions health
      → (reconcile pointer generations promotions health).ready ≡ true
  unfolding reconcile reconcile_pointer verdict serves_exactly is_healthy
  IsServed-ready pointer s =
      let at : is_at (some s.id) s.serving ≡ true =
        (text_eq_iff s.serving.generation_id s.id).1 s.matches in
      ground (arith, target_found (some s.id) s.serving generations, text_eq_refl (codes "healthy"))

-- The reconciler reports a service as ready exactly if it is served.
pub reconcile-IsServed :
    (pointer : Option Pointer) (generations : List Generation) (promotions : List Promotion)
    (health : Dict Text)
    → ((reconcile pointer generations promotions health).ready ≡ true)
      ↔ IsServed pointer generations promotions health
reconcile-IsServed pointer generations promotions health = (
  ready-IsServed generations promotions health pointer,
  IsServed-ready generations promotions health pointer,
)
