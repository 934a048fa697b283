-- ===== src/Serving/Memory/Blind.antt =====
-- The operations that do not look at which generation is active.
use custom_wikibase.Prelude.{
  ℕ, Bool, true, false, ◌&&◌, Option, is_some, ◌≡◌, refl, Bool-cases, Option-cases, inl, inr, Text,
  Dict, lookup, Exec, throw_if, ◌>>=◌, ◌>>◌,
}
use custom_wikibase.RdfSync.Cursor.{Cursor}
use custom_wikibase.Serving.Tables.{is_ready, is_retiring, is_valid}
use custom_wikibase.Serving.Pointer.{is_generation_id}
use custom_wikibase.Serving.Memory.{
  Entry, Generation, Memory, row, set_row, is_filling, is_validating, create_generation,
  validate_id, load_snapshot_into_generation, assert_generation_transition,
  apply_entity_change_to_generation, delete_entity_from_generation, validate_generation,
  retire_generation, delete_generation,
}

-- With another active generation the operation leaves the same, but for which one is active.
abbrev pub IsBlind : {A : Type 0} → Exec Memory A → Type 0
IsBlind op =
    (a : Option Text) (m : Memory)
    → (op (record m { active = a })).1 ≡ record (op m).1 { active = a }

module _ {A : Type 0} where
  row-IsBlind :
      (id : Text) (k : Generation → Exec Memory A)
      → ((g : Generation) → IsBlind (k g))
      → IsBlind (row id >>= k)
  unfolding row ◌>>=◌
  row-IsBlind id k blind a m = elim (Bool-cases (is_generation_id id)) [
    | inl good ↦ elim (Option-cases (lookup id m.generations)) [
      | inl missing ↦ rw (good, missing) refl
      | inr (g, found) ↦ rw (good, found) (blind g a m)
    ]
    | inr bad ↦ rw bad refl
  ]

  guard-IsBlind :
      (t : Bool) (e : Text) (k : Exec Memory A) → IsBlind k → IsBlind (throw_if t e >> k)
  unfolding throw_if ◌>>=◌
  guard-IsBlind true e k blind a m = refl
  guard-IsBlind false e k blind a m = blind a m

pub create-IsBlind :
    (id : Text) (cursor : Cursor) (now : Text) → IsBlind (create_generation id cursor now)
unfolding create_generation validate_id set_row ◌>>=◌
create-IsBlind id cursor now a m =
    guard-IsBlind _ _ _
      (λ a m. guard-IsBlind (is_some (lookup id m.generations)) _ _ (λ a m. refl) a m) a m

pub load-IsBlind :
    (id : Text) (snapshot : Dict Entry) → IsBlind (load_snapshot_into_generation id snapshot)
unfolding load_snapshot_into_generation assert_generation_transition set_row
load-IsBlind id snapshot = row-IsBlind id _ (λ g. guard-IsBlind _ _ _ (λ a m. refl))

pub apply-IsBlind :
    (id entity : Text) (revision : ℕ) (source : Text)
    → IsBlind (apply_entity_change_to_generation id entity revision source)
unfolding apply_entity_change_to_generation set_row
apply-IsBlind id entity revision source = row-IsBlind id _ (λ g. guard-IsBlind _ _ _ (λ a m. refl))

pub delete_entity-IsBlind : (id entity : Text) → IsBlind (delete_entity_from_generation id entity)
unfolding delete_entity_from_generation set_row
delete_entity-IsBlind id entity = row-IsBlind id _ (λ g. guard-IsBlind _ _ _ (λ a m. refl))

pub validate-IsBlind :
    (id : Text) (cursor : Option Cursor) → IsBlind (validate_generation id cursor)
unfolding validate_generation set_row
validate-IsBlind id cursor = row-IsBlind id _ λ g a m.
    elim (Bool-cases (is_ready g.state && is_valid g.validation_status)) [
      | inl done ↦ rw done refl
      | inr not_done ↦ elim (Bool-cases (is_filling g.state)) [
        | inl filling ↦ rw (not_done, filling) refl
        | inr not_filling ↦ elim (Bool-cases (is_validating g.state)) [
          | inl going ↦ rw (not_done, not_filling, going) refl
          | inr other ↦ rw (not_done, not_filling, other) refl
        ]
      ]
    ]

pub retire-IsBlind : (id now : Text) → IsBlind (retire_generation id now)
unfolding retire_generation set_row
retire-IsBlind id now = row-IsBlind id _ λ g. guard-IsBlind _ _ _ λ a m.
    elim (Bool-cases (is_ready g.state)) [
      | inl is_now ↦ rw is_now refl
      | inr is_not ↦ elim (Bool-cases (is_retiring g.state)) [
        | inl leaving ↦ rw (is_not, leaving) refl
        | inr staying ↦ rw (is_not, staying) refl
      ]
    ]

pub delete-IsBlind : (id : Text) → IsBlind (delete_generation id)
unfolding delete_generation
delete-IsBlind id = row-IsBlind id _ (λ g. guard-IsBlind _ _ _ (λ a m. refl))
