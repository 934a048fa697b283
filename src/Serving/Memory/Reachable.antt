-- ===== src/Serving/Memory/Reachable.antt =====
-- The states that the operations reach.
use mathlib.Core.Path.{subst}
use custom_wikibase.Prelude.{
  ℕ, Bool, true, false, ◌&&◌, Option, none, some, ◌≡◌, refl, sym, ap, ◌∙◌, arith, Bool-cases,
  Option-cases, inl, inr, Text, Dict, lookup, insert, ok, err, Exec, modify, pure, ◌>>=◌, ◌>>◌,
}
use custom_wikibase.Prelude.Results.{ok-injective}
use custom_wikibase.Prelude.Runs.{Keeps, run_after}
use custom_wikibase.RdfSync.Cursor.{Cursor}
use custom_wikibase.Serving.Tables.{
  ready, serving, rolled_back, option_eq, is_serving, is_committed,
}
use custom_wikibase.Serving.Pointer.{is_generation_id}
use custom_wikibase.Serving.Memory.{
  Entry, Generation, Memory, MemoryPromotion, new_memory, row, set_row, create_generation,
  load_snapshot_into_generation, apply_entity_change_to_generation, delete_entity_from_generation,
  validate_generation, promote_generation, rollback_promotion, roll_back, come_back,
  retire_generation, delete_generation,
}
use custom_wikibase.Serving.Memory.Consistent.{IsConsistent, load-Keeps}
use custom_wikibase.Serving.Memory.Blind.{
  IsBlind, create-IsBlind, load-IsBlind, apply-IsBlind, delete_entity-IsBlind, validate-IsBlind,
  retire-IsBlind, delete-IsBlind,
}
use custom_wikibase.Serving.Memory.Unserved.{
  IsWeak, blind-Keeps, promote-KeepsWeak, rollback-KeepsWeak, active-eq-some,
}
use custom_wikibase.Serving.Memory.Operations.{
  create-Keeps, apply-Keeps, delete_entity-Keeps, validate-Keeps, retire-Keeps, delete-Keeps,
}
use custom_wikibase.Serving.Memory.Switches.{
  promote-Keeps, row-found, row-bad, row-missing, switched-IsConsistent, others_written,
}

row-eq-ok :
    (id : Text) (g : Generation) (m t : Memory)
    → row id m ≡ (ok g, t)
    → (lookup id m.generations ≡ some g) × (m ≡ t)
row-eq-ok id g m t e = elim (Bool-cases (is_generation_id id)) [
  | inr bad ↦ let f = sym (row-bad id m bad) ∙ e in cc
  | inl good ↦ elim (Option-cases (lookup id m.generations)) [
    | inl missing ↦ let f = sym (row-missing id m good missing) ∙ e in cc
    | inr (h, found) ↦
        let f = sym (row-found id h m good found) ∙ e in
        (found ∙ ap (λ g. some g) (ok-injective (ap (λ x. x.0) f)), ap (λ x. x.1) f)
  ]
]

-- The rest of a rollback, after the generation that served has stepped back.
restored : Text → MemoryPromotion → Option Text → Exec Memory (Option Text)
restored promotion p from =
    come_back from
    >> (modify (λ m. record m {
      active = from;
      promotions = insert promotion (record p { state = rolled_back }) m.promotions;
    })
        >> pure from)

modify-eq :
    {A : Type 0} (k : Memory → Memory) (a r : A) (s m' : Memory)
    → (modify k >> pure a) s ≡ (ok r, m')
    → k s ≡ m'
unfolding ◌>>=◌
modify-eq k a r s m' e = ap (λ x. x.1) e

-- Nobody is active, and nobody is served.
nobody-IsConsistent :
    (promotion : Text) (p : MemoryPromotion) (g : Generation) (m : Memory) (r : Option Text)
    (m' : Memory)
    → IsConsistent m
    → m.active ≡ some p.to
    → g.is_served ≡ false
    → is_serving g.state ≡ false
    → restored promotion p none (record m { generations = insert p.to g m.generations })
      ≡ (ok r, m')
    → IsConsistent m'
unfolding restored come_back IsConsistent ◌>>=◌
nobody-IsConsistent promotion p g m r m' c active served serves e =
    subst IsConsistent (ap (λ x. x.1) e) (
      (λ j x found.
          let (a, b) = others_written m p.to j g x c active served serves found in (a, b ∙ sym a)),
      λ j none_active. cc,
    )

restored-IsConsistent :
    (promotion : Text) (p : MemoryPromotion) (g : Generation) (m : Memory) (from r : Option Text)
    (m' : Memory)
    → IsConsistent m
    → m.active ≡ some p.to
    → g.is_served ≡ false
    → is_serving g.state ≡ false
    → restored promotion p from (record m { generations = insert p.to g m.generations })
      ≡ (ok r, m')
    → IsConsistent m'
unfolding restored come_back set_row
restored-IsConsistent promotion p g m none r m' c active served serves e =
    nobody-IsConsistent promotion p g m r m' c active served serves e
restored-IsConsistent promotion p g m (some f) r m' c active served serves e =
    run_after _ _ e λ _ m2 e1 e2. run_after _ _ e1 λ h m3 is_h e3.
      let q : Generation = record h { state = serving; is_served = true } in
      subst IsConsistent (modify-eq _ _ _ _ _ e2) (
        subst
          (λ s. IsConsistent (record s {
            active = some f;
            promotions = insert promotion (record p { state = rolled_back }) s.promotions;
          }))
          (ap (λ x. x.1) e3)
          (subst
            (λ s. IsConsistent (record {
              generations = insert f q s.generations;
              active = some f;
              promotions = insert promotion (record p { state = rolled_back }) s.promotions;
            }))
            (row-eq-ok f h _ m3 is_h).1
            (switched-IsConsistent m f q (insert p.to g m.generations) _ refl refl
              λ j x differ found. others_written m p.to j g x c active served serves found)))

roll_back-IsConsistent :
    (promotion : Text) (p : MemoryPromotion) (m : Memory) (r : Option Text) (m' : Memory)
    → IsConsistent m
    → m.active ≡ some p.to
    → roll_back promotion p m ≡ (ok r, m')
    → IsConsistent m'
unfolding roll_back restored set_row
roll_back-IsConsistent promotion p m r m' c active e = run_after _ _ e λ g t is_g e1.
    run_after _ _ e1 λ _ m1 is_set e2.
      let q : Generation = record g { state = ready; is_served = false } in
      restored-IsConsistent promotion p q m p.from r m' c active refl refl (
        subst
          (λ s.
            restored promotion p p.from (record s { generations = insert p.to q s.generations })
            ≡ (ok r, m'))
          (sym (row-eq-ok p.to g m t is_g).1)
          (subst (λ s. restored promotion p p.from s ≡ (ok r, m')) (sym (ap (λ x. x.1) is_set)) e2))

rollback-IsConsistent :
    (promotion : Text) (m : Memory) (r : Option Text) (m' : Memory)
    → IsConsistent m
    → rollback_promotion promotion m ≡ (ok r, m')
    → IsConsistent m'
unfolding rollback_promotion
rollback-IsConsistent promotion m r m' c e = elim (Option-cases (lookup promotion m.promotions)) [
  | inl missing ↦ let f = rw (rollback_promotion, missing) at e in cc
  | inr (p, found) ↦ elim (Bool-cases (is_committed p.state && option_eq m.active (some p.to))) [
    | inl ours ↦
        roll_back-IsConsistent promotion p m r m' c (active-eq-some m.active p.to (ground arith))
          (rw ours at (rw (rollback_promotion, found) at e))
    | inr not_ours ↦ let f = rw not_ours at (rw (rollback_promotion, found) at e) in cc
  ]
]

-- The states that are reached from the empty memory, whether the operations succeed or throw. The
-- Boolean says that every rollback so far has succeeded or left the state as it was.
pub data Reachable : Bool → Memory → Type 0 where
  at_start : Reachable true new_memory
  created :
      (b : Bool) (m : Memory) (id : Text) (cursor : Cursor) (now : Text)
      → Reachable b m
      → Reachable b (create_generation id cursor now m).1
  loaded :
      (b : Bool) (m : Memory) (id : Text) (snapshot : Dict Entry)
      → Reachable b m
      → Reachable b (load_snapshot_into_generation id snapshot m).1
  changed :
      (b : Bool) (m : Memory) (id entity : Text) (revision : ℕ) (source : Text)
      → Reachable b m
      → Reachable b (apply_entity_change_to_generation id entity revision source m).1
  entity_deleted :
      (b : Bool) (m : Memory) (id entity : Text)
      → Reachable b m
      → Reachable b (delete_entity_from_generation id entity m).1
  validated :
      (b : Bool) (m : Memory) (id : Text) (cursor : Option Cursor)
      → Reachable b m
      → Reachable b (validate_generation id cursor m).1
  promoted_to :
      (b : Bool) (m : Memory) (promotion id : Text) (expected : Option Text)
      → Reachable b m
      → Reachable b (promote_generation promotion id expected m).1
  went_back :
      (b : Bool) (m : Memory) (promotion : Text) (r : Option Text) (m' : Memory)
      → Reachable b m
      → rollback_promotion promotion m ≡ (ok r, m')
      → Reachable b m'
  refused :
      (b : Bool) (m : Memory) (promotion e : Text)
      → Reachable b m
      → rollback_promotion promotion m ≡ (err e, m)
      → Reachable b (rollback_promotion promotion m).1
  cut_short :
      (b : Bool) (m : Memory) (promotion e : Text) (m' : Memory)
      → Reachable b m
      → rollback_promotion promotion m ≡ (err e, m')
      → Reachable false m'
  retired_one :
      (b : Bool) (m : Memory) (id now : Text)
      → Reachable b m
      → Reachable b (retire_generation id now m).1
  deleted :
      (b : Bool) (m : Memory) (id : Text) → Reachable b m → Reachable b (delete_generation id m).1

-- Where no rollback was cut short, exactly the active generation is served; else it is, or none is.
abbrev pub IsOrderly : Bool → Memory → Type 0
IsOrderly true m = IsConsistent m
IsOrderly false m = IsWeak m

both-Keep :
    {A : Type 0} (op : Exec Memory A)
    → Keeps IsConsistent op
    → Keeps IsWeak op
    → (b : Bool) (m : Memory) → IsOrderly b m
    → IsOrderly b (op m).1
unfolding Keeps
both-Keep op strong weak true m c = strong m c
both-Keep op strong weak false m w = weak m w

blind-Keep :
    {A : Type 0} (op : Exec Memory A)
    → Keeps IsConsistent op
    → IsBlind op
    → (b : Bool) (m : Memory) → IsOrderly b m
    → IsOrderly b (op m).1
blind-Keep op kept blind = both-Keep op kept (blind-Keeps op kept blind)

orderly-IsWeak : (b : Bool) (m : Memory) → IsOrderly b m → IsWeak m
orderly-IsWeak true m c = inl c
orderly-IsWeak false m w = w

rollback-IsOrderly :
    (promotion : Text) (b : Bool) (m : Memory) (r : Option Text) (m' : Memory)
    → IsOrderly b m
    → rollback_promotion promotion m ≡ (ok r, m')
    → IsOrderly b m'
unfolding Keeps
rollback-IsOrderly promotion true m r m' c e = rollback-IsConsistent promotion m r m' c e
rollback-IsOrderly promotion false m r m' w e =
    subst IsWeak (ap (λ x. x.1) e) (rollback-KeepsWeak promotion m w)

rollback-IsWeak :
    (promotion : Text) (m : Memory) → IsWeak m → IsWeak (rollback_promotion promotion m).1
unfolding Keeps
rollback-IsWeak promotion m w = rollback-KeepsWeak promotion m w

-- In every state that the operations reach, whether they succeed or throw, a generation is marked as
-- served, and is in the state SERVING, exactly if it is the active one, and the active one has a row;
-- or else some rollback has thrown when it had changed the state, and no generation is marked as served
-- or in that state, whichever is active.
pub Reachable-IsOrderly : (b : Bool) (m : Memory) → Reachable b m → IsOrderly b m
unfolding IsConsistent lookup
Reachable-IsOrderly _ m at_start = ((λ id g e. cc), λ id e. cc)
Reachable-IsOrderly b _ (created _ m id cursor now h) =
    blind-Keep _ (create-Keeps id cursor now) (create-IsBlind id cursor now) b m
      (Reachable-IsOrderly b m h)
Reachable-IsOrderly b _ (loaded _ m id snapshot h) =
    blind-Keep _ (load-Keeps id snapshot) (load-IsBlind id snapshot) b m (Reachable-IsOrderly b m h)
Reachable-IsOrderly b _ (changed _ m id entity revision source h) =
    blind-Keep _ (apply-Keeps id entity revision source) (apply-IsBlind id entity revision source) b
      m (Reachable-IsOrderly b m h)
Reachable-IsOrderly b _ (entity_deleted _ m id entity h) =
    blind-Keep _ (delete_entity-Keeps id entity) (delete_entity-IsBlind id entity) b m
      (Reachable-IsOrderly b m h)
Reachable-IsOrderly b _ (validated _ m id cursor h) =
    blind-Keep _ (validate-Keeps id cursor) (validate-IsBlind id cursor) b m
      (Reachable-IsOrderly b m h)
Reachable-IsOrderly b _ (promoted_to _ m promotion id expected h) =
    both-Keep _ (promote-Keeps promotion id expected) (promote-KeepsWeak promotion id expected) b m
      (Reachable-IsOrderly b m h)
Reachable-IsOrderly b _ (went_back _ m promotion r m' h e) =
    rollback-IsOrderly promotion b m r m' (Reachable-IsOrderly b m h) e
Reachable-IsOrderly b _ (refused _ m promotion e h same) =
    subst (IsOrderly b) (sym (ap (λ x. x.1) same)) (Reachable-IsOrderly b m h)
Reachable-IsOrderly _ _ (cut_short b m promotion e m' h thrown) =
    subst IsWeak (ap (λ x. x.1) thrown)
      (rollback-IsWeak promotion m (orderly-IsWeak b m (Reachable-IsOrderly b m h)))
Reachable-IsOrderly b _ (retired_one _ m id now h) =
    blind-Keep _ (retire-Keeps id now) (retire-IsBlind id now) b m (Reachable-IsOrderly b m h)
Reachable-IsOrderly b _ (deleted _ m id h) =
    blind-Keep _ (delete-Keeps id) (delete-IsBlind id) b m (Reachable-IsOrderly b m h)
