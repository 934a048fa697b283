-- ===== src/Serving/Memory/Consistent.antt =====
-- The invariant of the generations in memory, and the operations that begin with a row.
use mathlib.Core.Path.{subst}
use custom_wikibase.Prelude.{
  Bool, true, false, not, none, some, is_some, ◌≡◌, refl, sym, ap, ◌∙◌, arith, Bool-cases,
  Option-cases, inl, inr, Text, text_eq, text_eq_iff, Dict, lookup, insert, lookup-insert, Exec,
  throw_if, gets, ◌>>=◌, ◌>>◌,
}
use custom_wikibase.Prelude.Runs.{Keeps}
use custom_wikibase.Serving.Tables.{
  GenerationState, creating, loading, catching_up, validating, ready, serving, retiring, retired,
  failed, option_eq, is_serving,
}
use custom_wikibase.Serving.Pointer.{is_generation_id}
use custom_wikibase.Serving.Transitions.{can_become}
use custom_wikibase.Serving.Memory.{
  Entry, Generation, Memory, row, set_row, load_snapshot_into_generation,
  assert_generation_transition,
}

-- Of every generation, `serving` and the state say whether it is the active one, which exists.
unfoldable pub IsConsistent : Memory → Type 0
IsConsistent m =
    ((id : Text) (g : Generation)
      → lookup id m.generations ≡ some g
      → (g.is_served ≡ option_eq m.active (some id)) × (is_serving g.state ≡ g.is_served))
    × ((id : Text) → m.active ≡ some id → is_some (lookup id m.generations) ≡ true)

pub not_serving :
    (test : GenerationState → Bool) (s : GenerationState)
    → test serving ≡ false
    → test s ≡ true
    → is_serving s ≡ false
not_serving test creating unserved h = refl
not_serving test loading unserved h = refl
not_serving test catching_up unserved h = refl
not_serving test validating unserved h = refl
not_serving test ready unserved h = refl
not_serving test serving unserved h = cc
not_serving test retiring unserved h = refl
not_serving test retired unserved h = refl
not_serving test failed unserved h = refl

pub some-injective : {A : Type 0} {a b : A} → some a ≡ some b → a ≡ b
some-injective {a = a} e = ap (λ o. elim o [ none ↦ a | some x ↦ x ]) e

pub lookup-here :
    {V : Type 0} (k j : Text) (v : V) (m : Dict V)
    → text_eq k j ≡ true
    → lookup j (insert k v m) ≡ some v
lookup-here k j v m same = lookup-insert k j v m ∙ rw same refl

pub lookup-there :
    {V : Type 0} (k j : Text) (v : V) (m : Dict V)
    → text_eq k j ≡ false
    → lookup j (insert k v m) ≡ lookup j m
lookup-there k j v m differ = lookup-insert k j v m ∙ rw differ refl

-- A row is written that says whether it is the active one.
pub put-IsConsistent :
    (m : Memory) (id : Text) (h : Generation)
    → IsConsistent m
    → h.is_served ≡ option_eq m.active (some id)
    → is_serving h.state ≡ h.is_served
    → IsConsistent (record m { generations = insert id h m.generations })
unfolding IsConsistent
put-IsConsistent m id h (rows, exists) served serves = (kept, still)
  where
    kept :
        (j : Text) (x : Generation)
        → lookup j (insert id h m.generations) ≡ some x
        → (x.is_served ≡ option_eq m.active (some j)) × (is_serving x.state ≡ x.is_served)
    kept j x e = elim (Bool-cases (text_eq id j)) [
      | inl here ↦
          subst
            (λ x. (x.is_served ≡ option_eq m.active (some j)) × (is_serving x.state ≡ x.is_served))
            (some-injective (sym (lookup-here id j h m.generations here) ∙ e))
            (served ∙ ap (λ i. option_eq m.active (some i)) ((text_eq_iff id j).0 here), serves)
      | inr elsewhere ↦ rows j x (sym (lookup-there id j h m.generations elsewhere) ∙ e)
    ]

    still : (j : Text) → m.active ≡ some j → is_some (lookup j (insert id h m.generations)) ≡ true
    still j e = ground (arith, lookup-insert id j h m.generations, exists j e)

-- A row is replaced by one that is served alike.
pub insert-IsConsistent :
    (m : Memory) (id : Text) (g h : Generation)
    → IsConsistent m
    → lookup id m.generations ≡ some g
    → h.is_served ≡ g.is_served
    → is_serving h.state ≡ g.is_served
    → IsConsistent (record m { generations = insert id h m.generations })
unfolding IsConsistent
insert-IsConsistent m id g h c found same serves =
    put-IsConsistent m id h c (same ∙ (c.0 id g found).0) (serves ∙ sym same)

-- An operation that begins with the row of a generation.
pub named_row-Keeps :
    {A : Type 0} (P : Memory → Type 0) (id : Text) (f : Generation → Exec Memory A)
    → ((g : Generation) (m : Memory)
        → is_generation_id id ≡ true
        → lookup id m.generations ≡ some g
        → P m
        → P (f g m).1)
    → Keeps P (row id >>= f)
unfolding Keeps row ◌>>=◌
named_row-Keeps P id f step m p = elim (Bool-cases (is_generation_id id)) [
  | inl good ↦ elim (Option-cases (lookup id m.generations)) [
    | inl missing ↦ rw (good, missing) p
    | inr (g, found) ↦ rw (good, found) (step g m good found p)
  ]
  | inr bad ↦ rw bad p
]

pub row-Keeps :
    {A : Type 0} (P : Memory → Type 0) (id : Text) (f : Generation → Exec Memory A)
    → ((g : Generation) (m : Memory) → lookup id m.generations ≡ some g → P m → P (f g m).1)
    → Keeps P (row id >>= f)
row-Keeps P id f step = named_row-Keeps P id f λ g m good found p. step g m found p

-- A guard, and what follows it.
pub guard-keeps :
    {A : Type 0} (P : Memory → Type 0) (t : Bool) (e : Text) (k : Exec Memory A) (m : Memory)
    → P m
    → (t ≡ false → P (k m).1)
    → P ((throw_if t e >> k) m).1
unfolding throw_if ◌>>=◌
guard-keeps P true e k m p step = p
guard-keeps P false e k m p step = step refl

pub not-false : {b : Bool} → not b ≡ false → b ≡ true
not-false {b = true} e = refl
not-false {b = false} e = cc

-- A generation in a state that a test tells from SERVING is not served.
pub idle :
    (m : Memory) (id : Text) (g : Generation) (test : GenerationState → Bool)
    → IsConsistent m
    → lookup id m.generations ≡ some g
    → test serving ≡ false
    → test g.state ≡ true
    → false ≡ g.is_served
unfolding IsConsistent
idle m id g test c found unserved h = sym (not_serving test g.state unserved h) ∙ (c.0 id g found).1

pub load-Keeps :
    (id : Text) (snapshot : Dict Entry)
    → Keeps IsConsistent (load_snapshot_into_generation id snapshot)
unfolding load_snapshot_into_generation assert_generation_transition set_row can_become
load-Keeps id snapshot = row-Keeps IsConsistent id _ λ g m found c.
    guard-keeps IsConsistent _ _ _ m c λ good.
      insert-IsConsistent m id g _ c found refl
        (idle m id g (λ s. can_become s loading) c found refl (not-false good))

pub gets-keeps :
    {A B : Type 0} (P : Memory → Type 0) (f : Memory → A) (k : A → Exec Memory B) (m : Memory)
    → P (k (f m) m).1
    → P ((gets f >>= k) m).1
unfolding ◌>>=◌
gets-keeps P f k m p = p

-- What has no row is not active.
pub missing-not_active :
    (m : Memory) (id : Text)
    → IsConsistent m
    → lookup id m.generations ≡ none
    → false ≡ option_eq m.active (some id)
unfolding IsConsistent
missing-not_active m id (rows, exists) missing = elim (Option-cases m.active) [
  | inl idle_now ↦ rw idle_now refl
  | inr (a, active) ↦ ground (arith, text_eq_iff a id, exists a active)
]

pub set_row-keeps :
    {B : Type 0} (P : Memory → Type 0) (id : Text) (h : Generation) (k : Exec Memory B) (m : Memory)
    → P (k (record m { generations = insert id h m.generations })).1
    → P ((set_row id h >> k) m).1
unfolding set_row ◌>>=◌
set_row-keeps P id h k m p = p
