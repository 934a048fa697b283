-- ===== src/RdfSync/Classify.antt =====
-- `classifyChange` of packages/rdf-sync/src/protocol.js: which change of an entity a row of the
-- change feed reports.
pub mod Titles
use mathlib.Core.Option.{get_or}
use custom_wikibase.Prelude.{
  ℕ, Bool, true, false, not, ◌||◌, Option, none, some, List, [], ◌++◌, Text, codes, text_eq,
  starts_with, strip_prefix, includes, is_some, if◌then◌else◌,
}
use custom_wikibase.RdfSync.EntityId.{is_entity_id}

-- A row of the feed. A revision that the feed leaves out is 0: `observe` refuses it as it refuses
-- an absent one, and an old revision of 0 equals no indexed revision.
pub record Event : Type 0 where
  pub type : Text
  pub title : Text
  pub logtype : Option Text
  pub logaction : Option Text
  pub tags : List Text
  pub comment : Text
  pub redirect : Bool
  pub timestamp : Text
  pub rcid : ℕ
  pub revid : ℕ
  pub old_revid : ℕ

pub data Action : Type 0 where
  entity_edit entity_delete entity_undelete entity_redirect : Action
  entity_redirect_removed entity_merge non_entity_change unknown : Action

pub record Classified : Type 0 where
  pub action : Action
  pub entity_id : Option Text
  pub authoritative : Bool

-- The identifier behind a prefix of a title.
unfoldable pub id_behind : Text → Text → Option Text
id_behind p title = elim (strip_prefix p title) [
  | none ↦ none
  | some id ↦ if is_entity_id id then some id else none
]

-- `/^(?:Item|Property):([QP][1-9][0-9]*)$/u`.
unfoldable pub entity_of_title : Text → Option Text
entity_of_title title = elim (id_behind (codes "Item:") title) [
  | some id ↦ some id
  | none ↦ id_behind (codes "Property:") title
]

-- `actions[key]`.
unfoldable pub log_action : Text → Option Action
log_action key =
    if text_eq key (codes "delete/delete")
    then some entity_delete
    else if text_eq key (codes "delete/restore")
    then some entity_undelete
    else if text_eq key (codes "merge/merge")
    then some entity_merge
    else none

-- `${event.logtype ?? ''}/${event.logaction ?? ''}`.
unfoldable pub log_key : Event → Text
log_key event = get_or event.logtype [] ++ (codes "/" ++ get_or event.logaction [])

unfoldable pub classify_log : Option Text → Event → Classified
classify_log entity event = elim (log_action (log_key event)) [
  | some action ↦ record { action = action; entity_id = entity; authoritative = true }
  | none ↦ record {
    action = if is_some entity then unknown else non_entity_change;
    entity_id = entity;
    authoritative = false;
  }
]

abbrev is_edit_type : Text → Bool
is_edit_type t = text_eq t (codes "edit") || text_eq t (codes "new")

-- The rows that report a page edit, for a title that names an entity.
unfoldable pub edit_action : Event → Action
edit_action event =
    if not (is_edit_type event.type)
    then unknown
    else if includes event.tags (codes "mw-removed-redirect")
    then entity_redirect_removed
    else if includes event.tags (codes "mw-new-redirect")
        || starts_with (codes "/* wbcreateredirect:") event.comment
    then entity_redirect
    else if starts_with (codes "/* wbmergeitems-") event.comment
    then entity_merge
    else if event.redirect
    then unknown
    else entity_edit

abbrev pub is_unknown : Action → Bool
is_unknown unknown = true
is_unknown _ = false

unfoldable pub classify_change : Event → Classified
classify_change event =
    let entity = entity_of_title event.title in
    if text_eq event.type (codes "log") then classify_log entity event else elim entity [
      | none ↦ record { action = non_entity_change; entity_id = none; authoritative = false }
      | some id ↦
          let action = edit_action event in
          record { action = action; entity_id = some id; authoritative = not (is_unknown action) }
    ]
