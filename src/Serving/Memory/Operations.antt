-- ===== src/Serving/Memory/Operations.antt =====
-- The operations on the generations in memory but for promotions and rollbacks, and the invariant.
use custom_wikibase.Prelude.{
  ℕ, false, ◌&&◌, Option, none, some, is_some, ◌≡◌, refl, sym, arith, Bool-cases, inl, inr, Text,
  text_eq_iff, text_eq_refl, lookup, lookup-erase,
}
use custom_wikibase.Prelude.Runs.{Keeps}
use custom_wikibase.RdfSync.Cursor.{Cursor}
use custom_wikibase.Serving.Tables.{is_ready, is_retiring, is_valid}
use custom_wikibase.Serving.Memory.{
  set_row, validate_id, create_generation, apply_entity_change_to_generation,
  delete_entity_from_generation, validate_generation, retire_generation, delete_generation,
  is_filling, is_validating,
}
use custom_wikibase.Serving.Memory.Consistent.{
  IsConsistent, insert-IsConsistent, row-Keeps, guard-keeps, gets-keeps, set_row-keeps,
  put-IsConsistent, missing-not_active, idle, not-false,
}

is_some-none : {A : Type 0} (o : Option A) → is_some o ≡ false → o ≡ none
is_some-none none e = refl
is_some-none (some a) e = cc

pub create-Keeps :
    (id : Text) (cursor : Cursor) (now : Text)
    → Keeps IsConsistent (create_generation id cursor now)
unfolding create_generation validate_id Keeps
create-Keeps id cursor now m c = guard-keeps IsConsistent _ _ _ m c λ good.
    gets-keeps IsConsistent _ _ m (
      guard-keeps IsConsistent _ _ _ m c λ absent. set_row-keeps IsConsistent id _ _ m (
        put-IsConsistent m id _ c
          (missing-not_active m id c (is_some-none (lookup id m.generations) absent)) refl))

pub apply-Keeps :
    (id entity : Text) (revision : ℕ) (source : Text)
    → Keeps IsConsistent (apply_entity_change_to_generation id entity revision source)
unfolding apply_entity_change_to_generation set_row
apply-Keeps id entity revision source = row-Keeps IsConsistent id _ λ g m found c.
    guard-keeps IsConsistent _ _ _ m c λ good.
      insert-IsConsistent m id g _ c found refl
        (idle m id g is_filling c found refl (not-false good))

pub delete_entity-Keeps :
    (id entity : Text) → Keeps IsConsistent (delete_entity_from_generation id entity)
unfolding delete_entity_from_generation set_row IsConsistent
delete_entity-Keeps id entity = row-Keeps IsConsistent id _ λ g m found c.
    guard-keeps IsConsistent _ _ _ m c
      λ good. insert-IsConsistent m id g _ c found refl (c.0 id g found).1

pub validate-Keeps :
    (id : Text) (cursor : Option Cursor) → Keeps IsConsistent (validate_generation id cursor)
unfolding validate_generation set_row
validate-Keeps id cursor = row-Keeps IsConsistent id _ λ g m found c.
    elim (Bool-cases (is_ready g.state && is_valid g.validation_status)) [
      | inl done ↦ rw done c
      | inr not_done ↦ elim (Bool-cases (is_filling g.state)) [
        | inl filling ↦
            rw (not_done, filling)
              (insert-IsConsistent m id g _ c found refl
                (idle m id g is_filling c found refl filling))
        | inr not_filling ↦ elim (Bool-cases (is_validating g.state)) [
          | inl going ↦
              rw (not_done, not_filling, going)
                (insert-IsConsistent m id g _ c found refl
                  (idle m id g is_validating c found refl going))
          | inr other ↦ rw (not_done, not_filling, other) c
        ]
      ]
    ]

pub retire-Keeps : (id now : Text) → Keeps IsConsistent (retire_generation id now)
unfolding retire_generation set_row
retire-Keeps id now = row-Keeps IsConsistent id _ λ g m found c.
    guard-keeps IsConsistent _ _ _ m c λ unserved. elim (Bool-cases (is_ready g.state)) [
      | inl is_now ↦ rw is_now (insert-IsConsistent m id g _ c found refl (sym unserved))
      | inr is_not ↦ elim (Bool-cases (is_retiring g.state)) [
        | inl leaving ↦
            rw (is_not, leaving) (insert-IsConsistent m id g _ c found refl (sym unserved))
        | inr staying ↦ rw (is_not, staying) c
      ]
    ]

pub delete-Keeps : (id : Text) → Keeps IsConsistent (delete_generation id)
unfolding delete_generation IsConsistent
delete-Keeps id = row-Keeps IsConsistent id _ λ g m found c.
    guard-keeps IsConsistent _ _ _ m c λ gone.
      let unserved : g.is_served ≡ false = ground arith in
      (
        (λ j x e. ground (arith, lookup-erase id j m.generations, c.0 j x)),
        λ j e. ground (
          arith,
          lookup-erase id j m.generations,
          text_eq_iff id j,
          text_eq_refl id,
          c.1 j e,
          c.0 id g found,
        ),
      )
