-- ===== src/RdfSync/Classify/Titles.antt =====
-- What the classifier says of the entity and of the trust in a row.
use custom_wikibase.Prelude.{
  ◌≡◌, inl, inr, Bool, true, false, not, Option, some, ◌++◌, Text, codes, strip_prefix,
  strip_prefix-eq-some, strip_prefix-append, Option-cases, arith,
}
use custom_wikibase.RdfSync.EntityId.{is_entity_id}
use custom_wikibase.RdfSync.Classify.{
  Event, Action, non_entity_change, unknown, id_behind, entity_of_title, log_action, classify_log,
  edit_action, classify_change, is_unknown, log_key,
}

id_behind-eq-some :
    (p title id : Text) → id_behind p title ≡ some id → (title ≡ p ++ id) × (is_entity_id id ≡ true)
unfolding id_behind
id_behind-eq-some p title id h = elim (Option-cases (strip_prefix p title)) [
  | inl e ↦ ground arith
  | inr (rest, e) ↦ ground (arith, strip_prefix-eq-some p title rest e)
]

id_behind-append : (p id : Text) → is_entity_id id ≡ true → id_behind p (p ++ id) ≡ some id
unfolding id_behind
id_behind-append p id h = rw (strip_prefix-append p id, id_behind, h)

-- The titles that name an entity, and which one.
pub data Names (title id : Text) : Type 0 where
  item : title ≡ codes "Item:" ++ id → Names title id
  property : title ≡ codes "Property:" ++ id → Names title id

entity_of_title-Names :
    (title id : Text) → entity_of_title title ≡ some id → Names title id × (is_entity_id id ≡ true)
unfolding entity_of_title
entity_of_title-Names title id h = elim (Option-cases (id_behind (codes "Item:") title)) [
  | inl e ↦
      let (named, valid) = id_behind-eq-some (codes "Property:") title id (ground arith) in
      (property named, valid)
  | inr (i, e) ↦
      let (named, valid) = id_behind-eq-some (codes "Item:") title id (ground arith) in
      (item named, valid)
]

classify_log-entity_id :
    (entity : Option Text) (event : Event) → (classify_log entity event).entity_id ≡ entity
unfolding classify_log
classify_log-entity_id entity event = ground arith

entity_id-eq :
    (event : Event) (id : Text)
    → (classify_change event).entity_id ≡ some id
    → entity_of_title event.title ≡ some id
unfolding classify_change
entity_id-eq event id h = ground (arith, classify_log-entity_id (entity_of_title event.title) event)

-- The entity that a row is classified for is the one that its title names, and the identifier is
-- well formed: its graph name exists.
pub classify_change-Names :
    (event : Event) (id : Text)
    → (classify_change event).entity_id ≡ some id
    → Names event.title id × (is_entity_id id ≡ true)
classify_change-Names event id h = entity_of_title-Names event.title id (entity_id-eq event id h)

abbrev pub is_lifecycle_or_edit : Action → Bool
is_lifecycle_or_edit non_entity_change = false
is_lifecycle_or_edit unknown = false
is_lifecycle_or_edit _ = true

edit_action-closed :
    (event : Event)
    → not (is_unknown (edit_action event)) ≡ is_lifecycle_or_edit (edit_action event)
unfolding edit_action
edit_action-closed event = ground arith

log_action-closed :
    (key : Text) (a : Action) → log_action key ≡ some a → is_lifecycle_or_edit a ≡ true
unfolding log_action
log_action-closed key a h = ground arith

classify_log_closed :
    (entity : Option Text) (event : Event)
    → (classify_log entity event).authoritative
      ≡ is_lifecycle_or_edit (classify_log entity event).action
unfolding classify_log
classify_log_closed entity event = elim (Option-cases (log_action (log_key event))) [
  | inl e ↦ ground arith
  | inr (a, e) ↦ ground (arith, log_action-closed (log_key event) a e)
]

-- The classifier fails closed: it is sure of a row exactly if it reports an edit or a lifecycle
-- change, and never if the change is unknown or no entity's.
pub classify_change_closed :
    (event : Event)
    → (classify_change event).authoritative ≡ is_lifecycle_or_edit (classify_change event).action
unfolding classify_change
classify_change_closed event =
    ground
      (arith, classify_log_closed (entity_of_title event.title) event, edit_action-closed event)
