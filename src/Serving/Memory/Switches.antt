-- ===== src/Serving/Memory/Switches.antt =====
-- The promotion of a generation in memory, and the invariant.
use mathlib.Core.Path.{subst}
use custom_wikibase.Prelude.{
  true, false, Option, none, some, ◌≡◌, refl, sym, ap, ◌∙◌, arith, Bool-cases, Option-cases, inl,
  inr, Text, codes, text_eq, text_eq_iff, Dict, lookup, insert, lookup-insert, ok, err, ◌>>=◌, ◌>>◌,
}
use custom_wikibase.Prelude.Runs.{Keeps}
use custom_wikibase.Serving.Tables.{retiring, option_eq, is_serving}
use custom_wikibase.Serving.Pointer.{is_generation_id}
use custom_wikibase.Serving.Memory.{
  Generation, Memory, MemoryPromotion, row, set_row, promote_generation, step_aside, take_over,
}
use custom_wikibase.Serving.Memory.Consistent.{
  IsConsistent, some-injective, lookup-here, lookup-there, named_row-Keeps, guard-keeps, gets-keeps,
}

pub row-found :
    (id : Text) (g : Generation) (m : Memory)
    → is_generation_id id ≡ true
    → lookup id m.generations ≡ some g
    → row id m ≡ (ok g, m)
unfolding row
row-found id g m good found = rw (good, found) refl

pub row-bad :
    (id : Text) (m : Memory)
    → is_generation_id id ≡ false
    → row id m ≡ (err (codes "invalid RDF generation ID"), m)
unfolding row
row-bad id m bad = rw bad refl

pub row-missing :
    (id : Text) (m : Memory)
    → is_generation_id id ≡ true
    → lookup id m.generations ≡ none
    → row id m ≡ (err (codes "GENERATION_NOT_FOUND"), m)
unfolding row
row-missing id m good missing = rw (good, missing) refl

-- One generation is served, and it is the active one.
pub switched-IsConsistent :
    (m : Memory) (id : Text) (g : Generation) (rest : Dict Generation)
    (promotions : Dict MemoryPromotion)
    → is_serving g.state ≡ true
    → g.is_served ≡ true
    → ((j : Text) (x : Generation)
        → text_eq id j ≡ false
        → lookup j rest ≡ some x
        → (x.is_served ≡ false) × (is_serving x.state ≡ false))
    → IsConsistent
        (record { generations = insert id g rest; active = some id; promotions = promotions })
unfolding IsConsistent
switched-IsConsistent m id g rest promotions serves served others = (
  (λ j x e. ground (arith, lookup-insert id j g rest, others j x)),
  λ j e. ground (arith, lookup-insert id j g rest, text_eq_iff id j),
)

pub take_over-IsConsistent :
    (promotion id : Text) (g : Generation) (m : Memory) (previous : Option Text)
    → is_generation_id id ≡ true
    → lookup id m.generations ≡ some g
    → ((j : Text) (x : Generation)
        → text_eq id j ≡ false
        → lookup j m.generations ≡ some x
        → (x.is_served ≡ false) × (is_serving x.state ≡ false))
    → IsConsistent ((take_over promotion id previous >> (λ s. (ok previous, s))) m).1
unfolding take_over ◌>>=◌ set_row
take_over-IsConsistent promotion id g m previous good found others =
    rw (row-found id g m good found) (switched-IsConsistent m id _ m.generations _ refl refl others)

-- What is not active is not served.
others_unserved :
    (m : Memory) (a : Option Text) (j : Text) (x : Generation)
    → IsConsistent m
    → m.active ≡ a
    → option_eq a (some j) ≡ false
    → lookup j m.generations ≡ some x
    → (x.is_served ≡ false) × (is_serving x.state ≡ false)
unfolding IsConsistent
others_unserved m a j x c active differ e =
    let unserved = (c.0 j x e).0 ∙ ap (λ o. option_eq o (some j)) active ∙ differ in
    (unserved, (c.0 j x e).1 ∙ unserved)

-- The same after one of them was written, which is not served either.
pub others_written :
    (m : Memory) (a j : Text) (p x : Generation)
    → IsConsistent m
    → m.active ≡ some a
    → p.is_served ≡ false
    → is_serving p.state ≡ false
    → lookup j (insert a p m.generations) ≡ some x
    → (x.is_served ≡ false) × (is_serving x.state ≡ false)
others_written m a j p x c active served serves e = elim (Bool-cases (text_eq a j)) [
  | inl here ↦
      subst (λ x. (x.is_served ≡ false) × (is_serving x.state ≡ false))
        (some-injective (sym (lookup-here a j p m.generations here) ∙ e)) (served, serves)
  | inr elsewhere ↦
      others_unserved m (some a) j x c active elsewhere
        (sym (lookup-there a j p m.generations elsewhere) ∙ e)
]

-- A generation that had a row has one after another row was written.
pub still_found :
    (m : Memory) (a id : Text) (p g : Generation)
    → lookup id m.generations ≡ some g
    → (h : Generation) × (lookup id (insert a p m.generations) ≡ some h)
still_found m a id p g found = elim (Bool-cases (text_eq a id)) [
  | inl here ↦ (p, lookup-here a id p m.generations here)
  | inr elsewhere ↦ (g, lookup-there a id p m.generations elsewhere ∙ found)
]

pub switch-IsConsistent :
    (promotion id : Text) (g : Generation) (m : Memory) (a : Option Text)
    → is_generation_id id ≡ true
    → lookup id m.generations ≡ some g
    → m.active ≡ a
    → IsConsistent m
    → IsConsistent ((step_aside a >> (take_over promotion id a >> (λ s. (ok a, s)))) m).1
unfolding step_aside set_row ◌>>=◌
switch-IsConsistent promotion id g m none good found active c =
    take_over-IsConsistent promotion id g m none good found
      λ j x differ e. others_unserved m none j x c active refl e
switch-IsConsistent promotion id g m (some a) good found active c =
    elim (Bool-cases (is_generation_id a)) [
      | inr bad ↦ rw (row-bad a m bad) c
      | inl good_a ↦ elim (Option-cases (lookup a m.generations)) [
        | inl missing ↦ rw (row-missing a m good_a missing) c
        | inr (p, found_a) ↦
            let q : Generation = record p { state = retiring; is_served = false } in
            let (h, found_h) = still_found m a id q g found in
            rw (row-found a p m good_a found_a) (
              take_over-IsConsistent promotion id h
                (record m { generations = insert a q m.generations }) (some a) good found_h
                λ j x differ e. others_written m a j q x c active refl refl e)
      ]
    ]

pub promote-Keeps :
    (promotion id : Text) (expected : Option Text)
    → Keeps IsConsistent (promote_generation promotion id expected)
unfolding promote_generation
promote-Keeps promotion id expected = named_row-Keeps IsConsistent id _ λ g m good found c.
    guard-keeps IsConsistent _ _ _ m c λ is_now. gets-keeps IsConsistent _ _ m (
      guard-keeps IsConsistent _ _ _ m c
        λ _. switch-IsConsistent promotion id g m m.active good found refl c)
