-- ===== src/Serving/Memory/Unserved.antt =====
-- A promotion and a rollback where no generation is served, and a rollback that is cut short.
use mathlib.Core.Path.{subst}
use custom_wikibase.Prelude.{
  true, false, ◌&&◌, Option, none, some, ◌≡◌, refl, sym, ap, ◌∙◌, arith, Bool-cases, Option-cases,
  inl, inr, ◌⊎◌, Text, text_eq, text_eq_iff, Dict, lookup, insert, ok, Exec, modify, pure, ◌>>=◌,
  ◌>>◌,
}
use custom_wikibase.Prelude.Runs.{Keeps}
use custom_wikibase.Serving.Tables.{
  ready, retiring, rolled_back, option_eq, is_serving, is_committed,
}
use custom_wikibase.Serving.Pointer.{is_generation_id}
use custom_wikibase.Serving.Memory.{
  Generation, Memory, MemoryPromotion, set_row, promote_generation, step_aside, take_over,
  rollback_promotion, roll_back, come_back,
}
use custom_wikibase.Serving.Memory.Consistent.{
  IsConsistent, some-injective, lookup-here, lookup-there, named_row-Keeps, guard-keeps, gets-keeps,
}
use custom_wikibase.Serving.Memory.Blind.{IsBlind}
use custom_wikibase.Serving.Memory.Switches.{
  take_over-IsConsistent, still_found, row-found, row-bad, row-missing, switched-IsConsistent,
  others_written, switch-IsConsistent,
}

-- No generation is marked as served, and none is in the state SERVING.
unfoldable pub NoneIsServed : Dict Generation → Type 0
NoneIsServed generations =
    (id : Text) (g : Generation)
    → lookup id generations ≡ some g
    → (g.is_served ≡ false) × (is_serving g.state ≡ false)

-- Exactly the active generation is served, or none is.
abbrev pub IsWeak : Memory → Type 0
IsWeak m = IsConsistent m ⊎ NoneIsServed m.generations

unserved-IsConsistent :
    (m : Memory) → NoneIsServed m.generations → IsConsistent (record m { active = none })
unfolding NoneIsServed IsConsistent
unserved-IsConsistent m u =
    ((λ id g e. ((u id g e).0, (u id g e).1 ∙ sym (u id g e).0)), λ id e. cc)

inactive-NoneIsServed : (m : Memory) → IsConsistent m → m.active ≡ none → NoneIsServed m.generations
unfolding NoneIsServed IsConsistent
inactive-NoneIsServed m c idle id g e =
    let unserved = (c.0 id g e).0 ∙ ap (λ a. option_eq a (some id)) idle in
    (unserved, (c.0 id g e).1 ∙ unserved)

-- An operation that does not look at which generation is active keeps the weaker property too.
pub blind-Keeps :
    {A : Type 0} (op : Exec Memory A) → Keeps IsConsistent op → IsBlind op → Keeps IsWeak op
unfolding Keeps
blind-Keeps op kept blind m (inl c) = inl (kept m c)
blind-Keeps op kept blind m (inr u) = inr (
    subst (λ s. NoneIsServed s.generations) (blind none m)
      (inactive-NoneIsServed _ (kept _ (unserved-IsConsistent m u))
        (ap (λ s. s.active) (blind none m))))

written-NoneIsServed :
    (id : Text) (p : Generation) (generations : Dict Generation)
    → p.is_served ≡ false
    → is_serving p.state ≡ false
    → NoneIsServed generations
    → NoneIsServed (insert id p generations)
unfolding NoneIsServed
written-NoneIsServed id p generations served serves u j x e = elim (Bool-cases (text_eq id j)) [
  | inl here ↦
      subst (λ x. (x.is_served ≡ false) × (is_serving x.state ≡ false))
        (some-injective (sym (lookup-here id j p generations here) ∙ e)) (served, serves)
  | inr elsewhere ↦ u j x (sym (lookup-there id j p generations elsewhere) ∙ e)
]

switch-IsWeak :
    (promotion id : Text) (g : Generation) (m : Memory) (a : Option Text)
    → is_generation_id id ≡ true
    → lookup id m.generations ≡ some g
    → NoneIsServed m.generations
    → IsWeak ((step_aside a >> (take_over promotion id a >> (λ s. (ok a, s)))) m).1
unfolding step_aside set_row ◌>>=◌ NoneIsServed
switch-IsWeak promotion id g m none good found u =
    inl (take_over-IsConsistent promotion id g m none good found λ j x differ e. u j x e)
switch-IsWeak promotion id g m (some a) good found u = elim (Bool-cases (is_generation_id a)) [
  | inr bad ↦ rw (row-bad a m bad) (inr u)
  | inl good_a ↦ elim (Option-cases (lookup a m.generations)) [
    | inl missing ↦ rw (row-missing a m good_a missing) (inr u)
    | inr (p, found_a) ↦
        let q : Generation = record p { state = retiring; is_served = false } in
        let (h, found_h) = still_found m a id q g found in
        rw (row-found a p m good_a found_a) (
          inl (
            take_over-IsConsistent promotion id h
              (record m { generations = insert a q m.generations }) (some a) good found_h
              λ j x differ e. written-NoneIsServed a q m.generations refl refl u j x e))
  ]
]

pub promote-KeepsWeak :
    (promotion id : Text) (expected : Option Text)
    → Keeps IsWeak (promote_generation promotion id expected)
unfolding promote_generation
promote-KeepsWeak promotion id expected = named_row-Keeps IsWeak id _ λ g m good found w.
    guard-keeps IsWeak _ _ _ m w λ is_now. gets-keeps IsWeak _ _ m (
      guard-keeps IsWeak _ _ _ m w λ _. elim w [
        | inl c ↦ inl (switch-IsConsistent promotion id g m m.active good found refl c)
        | inr u ↦ switch-IsWeak promotion id g m m.active good found u
      ])

-- The rest of a rollback, after the generation that served has stepped back.
come_back-IsWeak :
    (promotion : Text) (p : MemoryPromotion) (m : Memory) (from : Option Text)
    → NoneIsServed m.generations
    → IsWeak
        ((come_back from
            >> (modify (λ s. record s {
              active = from;
              promotions = insert promotion (record p { state = rolled_back }) s.promotions;
            })
                >> pure from))
          m).1
unfolding come_back set_row ◌>>=◌ NoneIsServed
come_back-IsWeak promotion p m none u = inr u
come_back-IsWeak promotion p m (some f) u = elim (Bool-cases (is_generation_id f)) [
  | inr bad ↦ rw (row-bad f m bad) (inr u)
  | inl good ↦ elim (Option-cases (lookup f m.generations)) [
    | inl missing ↦ rw (row-missing f m good missing) (inr u)
    | inr (h, found) ↦
        rw (row-found f h m good found)
          (inl (switched-IsConsistent m f _ m.generations _ refl refl λ j x differ e. u j x e))
  ]
]

-- After the active generation has stepped back none is served.
stepped_back-NoneIsServed :
    (m : Memory) (id : Text) (q : Generation)
    → m.active ≡ some id
    → q.is_served ≡ false
    → is_serving q.state ≡ false
    → IsWeak m
    → NoneIsServed (insert id q m.generations)
unfolding NoneIsServed
stepped_back-NoneIsServed m id q active served serves (inl c) j x e =
    others_written m id j q x c active served serves e
stepped_back-NoneIsServed m id q active served serves (inr u) j x e =
    written-NoneIsServed id q m.generations served serves u j x e

roll_back-IsWeak :
    (promotion : Text) (p : MemoryPromotion) (m : Memory)
    → m.active ≡ some p.to
    → IsWeak m
    → IsWeak (roll_back promotion p m).1
unfolding roll_back set_row ◌>>=◌
roll_back-IsWeak promotion p m active w = elim (Bool-cases (is_generation_id p.to)) [
  | inr bad ↦ rw (row-bad p.to m bad) w
  | inl good ↦ elim (Option-cases (lookup p.to m.generations)) [
    | inl missing ↦ rw (row-missing p.to m good missing) w
    | inr (g, found) ↦
        let q : Generation = record g { state = ready; is_served = false } in
        rw (row-found p.to g m good found) (
          come_back-IsWeak promotion p (record m { generations = insert p.to q m.generations })
            p.from (stepped_back-NoneIsServed m p.to q active refl refl w))
  ]
]

pub active-eq-some : (o : Option Text) (id : Text) → option_eq o (some id) ≡ true → o ≡ some id
active-eq-some none id e = cc
active-eq-some (some a) id e = ap (λ x. some x) ((text_eq_iff a id).0 e)

-- Any rollback, also one that throws when it has changed the state.
pub rollback-KeepsWeak : (promotion : Text) → Keeps IsWeak (rollback_promotion promotion)
unfolding Keeps rollback_promotion
rollback-KeepsWeak promotion m w = elim (Option-cases (lookup promotion m.promotions)) [
  | inl missing ↦ rw (rollback_promotion, missing) w
  | inr (p, found) ↦ elim (Bool-cases (is_committed p.state && option_eq m.active (some p.to))) [
    | inl ours ↦
        rw (rollback_promotion, found, ours)
          (roll_back-IsWeak promotion p m (active-eq-some m.active p.to (ground arith)) w)
    | inr not_ours ↦ rw (rollback_promotion, found, not_ours) w
  ]
]
