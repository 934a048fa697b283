-- ===== src/Serving/Reconciler/Cleanup.antt =====
-- What a cleanup may take.
use mathlib.Core.List.{Memᴰ}
use mathlib.Core.Path.{subst}
use custom_wikibase.Prelude.{
  ℕ, ◌≡◌, ◌≢◌, refl, sym, ◌∙◌, none, text_eq, Bool, true, false, not, ◌&&◌, ◌||◌, Option, some,
  List, [], ◌∷◌, ◌++◌, Text, text_eq_iff, ok, arith, Bool-cases, inl, inr,
}
use custom_wikibase.Serving.Tables.{is_preparing, option_eq, select_where}
use custom_wikibase.Serving.Reconciler.{
  Generation, Promotion, Pointer, is_disposable, promotion_ids, filter_boolean, has_id,
  protected_ids, cleanup_candidates, generation_ids, newest_failed,
}

option_eq_self : (id : Text) → option_eq (some id) (some id) ≡ true
option_eq_self id = (text_eq_iff id id).1 refl

has_id-append :
    (id : Text) (a b : List (Option Text)) → has_id (a ++ b) id ≡ (has_id a id || has_id b id)
unfolding has_id
has_id-append id [] b = refl
has_id-append id (k ∷ a) b = ground (arith, has_id-append id a b)

-- An identifier with text is among those that the filter leaves where it is among all.
has_id-filter_boolean :
    (c : ℕ) (s : Text) (l : List (Option Text))
    → has_id (filter_boolean l) (c ∷ s) ≡ has_id l (c ∷ s)
unfolding has_id filter_boolean text_eq
has_id-filter_boolean c s [] = refl
has_id-filter_boolean c s (none ∷ l) = has_id-filter_boolean c s l
has_id-filter_boolean c s (some [] ∷ l) = has_id-filter_boolean c s l
has_id-filter_boolean c s (some (d ∷ t) ∷ l) = ground (arith, has_id-filter_boolean c s l)

pointed_apart :
    (id : Text) (a b : Option Text)
    → has_id (a ∷ b ∷ []) id ≡ false
    → (option_eq (some id) a ≡ false) × (option_eq (some id) b ≡ false)
unfolding has_id
pointed_apart id a b h = (ground arith, ground arith)

-- Each generation that is selected by a test is one of the list that passes it.
selected_one :
    (test : Generation → Bool) (id : Text) (l : List Generation)
    → Memᴰ id (generation_ids (select_where test l))
    → (g : Generation) × Memᴰ g l × (g.generation_id ≡ id) × (test g ≡ true)
unfolding generation_ids select_where
selected_one test id [] m = elim m [ ]
selected_one test id (g ∷ l) m = elim (Bool-cases (test g)) [
  | inl e ↦ taken (selected_one test id l) (rw e at m) e
  | inr e ↦
      let (h, mem, named, passed) = selected_one test id l (rw e at m) in
      (h, Memᴰ.tail mem, named, passed)
]
  where
    taken :
        (Memᴰ id (generation_ids (select_where test l))
          → (g : Generation) × Memᴰ g l × (g.generation_id ≡ id) × (test g ≡ true))
        → Memᴰ id (generation_ids (g ∷ select_where test l))
        → test g ≡ true
        → (h : Generation) × Memᴰ h (g ∷ l) × (h.generation_id ≡ id) × (test h ≡ true)
    taken rest (Memᴰ.head p) e = (g, Memᴰ.head refl, sym p, e)
    taken rest (Memᴰ.tail m') e =
        let (h, mem, named, passed) = rest m' in (h, Memᴰ.tail mem, named, passed)

ne_of_option_eq : (id : Text) (k : Option Text) → option_eq (some id) k ≡ false → k ≢ some id
ne_of_option_eq id k h e = let same : option_eq (some id) k ≡ true = rw e (option_eq_self id) in cc

promotion_ids-first :
    (id : Text) (q : Promotion) (l : List Promotion)
    → has_id (promotion_ids (q ∷ l)) id ≡ false
    → is_preparing q.state ≡ true
    → (q.from_generation_id ≢ some id) × (q.to_generation_id ≢ some id)
unfolding promotion_ids has_id
promotion_ids-first id q l h active = (
  ne_of_option_eq id q.from_generation_id (ground arith),
  ne_of_option_eq id q.to_generation_id (ground arith),
)

promotion_ids-absent :
    (id : Text) (l : List Promotion)
    → has_id (promotion_ids l) id ≡ false
    → (q : Promotion) → Memᴰ q l
    → is_preparing q.state ≡ true
    → (q.from_generation_id ≢ some id) × (q.to_generation_id ≢ some id)
unfolding promotion_ids has_id
promotion_ids-absent id [] h q m active = elim m [ ]
promotion_ids-absent id (q' ∷ l) h q (Memᴰ.head e) active =
    subst (λ r. (r.from_generation_id ≢ some id) × (r.to_generation_id ≢ some id)) (sym e)
      (promotion_ids-first id q' l h (subst (λ r. is_preparing r.state ≡ true) e active))
promotion_ids-absent id (q' ∷ l) h q (Memᴰ.tail m) active =
    promotion_ids-absent id l (ground arith) q m active

-- A generation that a cleanup may take: retired or failed, neither the one that the pointer names
-- nor the one before it, and in no promotion that is in flight.
pub record IsDisposable (generations : List Generation) (p : Pointer) (promotions : List Promotion)
    (id : Text) : Type 0 where
  pub generation : Generation
  pub member : Memᴰ generation generations
  pub named : generation.generation_id ≡ id
  pub retired_or_failed : is_disposable generation.state ≡ true
  pub not_serving : p.generation_id ≢ some id
  pub not_previous : p.previous_generation_id ≢ some id
  pub not_promoted :
      (q : Promotion)
      → Memᴰ q promotions
      → is_preparing q.state ≡ true
      → (q.from_generation_id ≢ some id) × (q.to_generation_id ≢ some id)

module _ (newer : Text → Text → Bool) (generations : List Generation) (p : Pointer)
    (promotions : List Promotion) (retain : ℕ) where
  unprotected :
      (c : ℕ) (s : Text)
      → has_id (protected_ids newer generations p promotions retain) (c ∷ s) ≡ false
      → (p.generation_id ≢ some (c ∷ s))
        × (p.previous_generation_id ≢ some (c ∷ s))
        × (has_id (promotion_ids promotions) (c ∷ s) ≡ false)
  unfolding protected_ids
  unprotected c s h =
      let parts =
        has_id-append (c ∷ s) (filter_boolean (p.generation_id ∷ p.previous_generation_id ∷ []))
          (promotion_ids promotions ++ newest_failed newer generations retain) in
      let rest =
        has_id-append (c ∷ s) (promotion_ids promotions) (newest_failed newer generations retain) in
      let pointed : has_id (p.generation_id ∷ p.previous_generation_id ∷ []) (c ∷ s) ≡ false =
        sym (has_id-filter_boolean c s (p.generation_id ∷ p.previous_generation_id ∷ []))
        ∙ ground (arith, parts) in
      let (current, previous) =
        pointed_apart (c ∷ s) p.generation_id p.previous_generation_id pointed in
      (
        ne_of_option_eq (c ∷ s) p.generation_id current,
        ne_of_option_eq (c ∷ s) p.previous_generation_id previous,
        ground (arith, parts, rest),
      )

  selected_ids :
      (ids : List Text)
      → cleanup_candidates newer generations p promotions retain ≡ ok ids
      → generation_ids (
          select_where
            (λ g.
              is_disposable g.state
              && not (has_id (protected_ids newer generations p promotions retain) g.generation_id))
            generations)
        ≡ ids
  unfolding cleanup_candidates
  selected_ids ids h = ground arith

  -- Whatever the order of the creation times, every generation with a non-empty identifier that the
  -- selection returns is disposable: it is retired or failed, the pointer names it neither as the one
  -- that serves nor as the one before, and no preparing promotion names it.
  pub cleanup_candidates-IsDisposable :
      (ids : List Text) (c : ℕ) (s : Text)
      → cleanup_candidates newer generations p promotions retain ≡ ok ids
      → Memᴰ (c ∷ s) ids
      → IsDisposable generations p promotions (c ∷ s)
  cleanup_candidates-IsDisposable ids c s h m =
      let id = c ∷ s in
      let (g, member, named, passed) =
        selected_one _ id generations (subst (Memᴰ id) (sym (selected_ids ids h)) m) in
      let (not_serving, not_previous, kept) = unprotected c s (
        subst (λ k. has_id (protected_ids newer generations p promotions retain) k ≡ false) named
          (ground arith)) in
      record {
        generation = g;
        member = member;
        named = named;
        retired_or_failed = ground arith;
        not_serving = not_serving;
        not_previous = not_previous;
        not_promoted = promotion_ids-absent id promotions kept;
      }
