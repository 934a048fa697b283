-- ===== src/RdfSync/Repository.antt =====
-- `MemorySyncRepository` of packages/rdf-sync/src/state.js: the durable state of the synchronizer.
-- `structuredClone` copies what goes in and out, so a row is a value. A method that stores the time
-- takes it as `now`.
use custom_wikibase.Prelude.{
  ℕ, ◌+◌, Bool, true, false, Option, none, some, List, [], ◌∷◌, ◌++◌, Text, codes, text_eq, Dict,
  lookup, insert, erase, Exec, pure, throw, if◌then◌else◌,
}
use custom_wikibase.RdfSync.Cursor.{Cursor, is_regression}
use custom_wikibase.RdfSync.Fence.{SyncState, bootstrapping, rebuilding}

pub record SourceRow : Type 0 where
  pub source_identity : Text
  pub cursor : Option Cursor
  pub status : SyncState
  pub last_poll_at : Option Text
  pub last_success_at : Option Text
  pub error_code : Option Text

-- ENTITY_SYNC_STATES.
pub data EntityState : Type 0 where
  current pending failed gapped deleted restoring redirected : EntityState

pub record EntityRow : Type 0 where
  pub entity_id : Text
  pub indexed_revision : ℕ
  pub latest_seen_revision : ℕ
  pub status : EntityState
  pub checksum : Option Text
  pub last_success_at : Option Text
  pub error_code : Option Text

pub record RebuildRow : Type 0 where
  pub id : Text
  pub state : SyncState
  pub start_cursor : Cursor
  pub end_cursor : Option Cursor
  pub started_at : Text
  pub completed_at : Option Text
  pub backend_type : Text
  pub error_code : Option Text

-- What `finishRebuild` assigns to the row; a field that is left out stays.
pub record RebuildResult : Type 0 where
  pub state : SyncState
  pub end_cursor : Option Cursor
  pub error_code : Option Text
  pub completed_at : Text

pub data SchemaState : Type 0 where
  schema_pending schema_current : SchemaState

pub record MemorySyncRepository : Type 0 where
  pub source : SourceRow
  pub entities : Dict EntityRow
  pub rebuilds : List RebuildRow
  pub graphs : Dict (Unit {0})
  pub schema_state : SchemaState

unfoldable pub new_repository : Text → MemorySyncRepository
new_repository source_identity = record {
  source = record {
    source_identity = source_identity;
    cursor = none;
    status = bootstrapping;
    last_poll_at = none;
    last_success_at = none;
    error_code = none;
  };
  entities = [];
  rebuilds = [];
  graphs = [];
  schema_state = schema_pending;
}

abbrev Repo : Type 0 → Type 0
Repo = Exec MemorySyncRepository

unfoldable pub load_source : Exec MemorySyncRepository SourceRow
load_source r = pure r.source r

unfoldable pub record_poll : Text → Exec MemorySyncRepository (Unit {0})
record_poll at r = pure tt (record r { source = record r.source { last_poll_at = some at } })

unfoldable pub set_source_status : SyncState → Option Text → Exec MemorySyncRepository (Unit {0})
set_source_status status code r =
    pure tt (record r { source = record r.source { status = status; error_code = code } })

-- The row of an entity that was never seen.
unfoldable pub fresh_entity : Text → EntityRow
fresh_entity id = record {
  entity_id = id;
  indexed_revision = 0;
  latest_seen_revision = 0;
  status = pending;
  checksum = none;
  last_success_at = none;
  error_code = none;
}

-- `entities.get(id) ?? { … }`.
unfoldable pub entity_row : Text → Dict EntityRow → EntityRow
entity_row id d = elim (lookup id d) [ none ↦ fresh_entity id | some row ↦ row ]

unfoldable pub load_entity : Text → Exec MemorySyncRepository EntityRow
load_entity id r = pure (entity_row id r.entities) r

unfoldable pub save_entity : EntityRow → Exec MemorySyncRepository (Unit {0})
save_entity row r = pure tt (record r { entities = insert row.entity_id row r.entities })

-- The guard of `commitEvent`: the stored cursor may be absent.
unfoldable pub regresses : Option Cursor → Cursor → Bool
regresses none next = false
regresses (some old) next = is_regression old next

-- `if (entity) this.entities.set(…)`.
unfoldable pub save_if : Option EntityRow → Dict EntityRow → Dict EntityRow
save_if none d = d
save_if (some row) d = insert row.entity_id row d

unfoldable pub commit_event :
    Text → Cursor → Option EntityRow → Exec MemorySyncRepository (Unit {0})
commit_event now cursor entity r =
    if regresses r.source.cursor cursor
    then throw (codes "CURSOR_REGRESSION") r
    else pure tt (record r {
      source = record r.source { cursor = some cursor; last_success_at = some now };
      entities = save_if entity r.entities;
    })

unfoldable pub advance_cursor : Text → Cursor → Exec MemorySyncRepository (Unit {0})
unfolding commit_event
advance_cursor now cursor = commit_event now cursor none

unfoldable pub start_rebuild : RebuildRow → Exec MemorySyncRepository (Unit {0})
start_rebuild row r = pure tt (record r {
  rebuilds = r.rebuilds ++ row ∷ [];
  source = record r.source { status = rebuilding };
})

abbrev or_else {ℓ} : {A : Type ℓ} → Option A → Option A → Option A
or_else (some a) _ = some a
or_else none b = b

-- `Object.assign(row, value)`.
unfoldable pub assign_rebuild : RebuildResult → RebuildRow → RebuildRow
assign_rebuild v row = record row {
  state = v.state;
  end_cursor = or_else v.end_cursor row.end_cursor;
  error_code = or_else v.error_code row.error_code;
  completed_at = some v.completed_at;
}

-- The first row with the identifier, assigned to in place; `none` where there is no such row.
unfoldable pub update_rebuild : Text → RebuildResult → List RebuildRow → Option (List RebuildRow)
update_rebuild id v [] = none
update_rebuild id v (row ∷ rows) =
    if text_eq row.id id
    then some (assign_rebuild v row ∷ rows)
    else elim (update_rebuild id v rows) [ none ↦ none | some rows' ↦ some (row ∷ rows') ]

unfoldable pub finish_rebuild : Text → RebuildResult → Exec MemorySyncRepository (Unit {0})
finish_rebuild id v r = elim (update_rebuild id v r.rebuilds) [
  | none ↦ throw (codes "Cannot convert undefined or null to object") r
  | some rows ↦
      pure tt (record r { rebuilds = rows; source = record r.source { status = v.state } })
]

unfoldable pub register_graph : Text → Exec MemorySyncRepository (Unit {0})
register_graph iri r = pure tt (record r { graphs = insert iri tt r.graphs })

unfoldable pub unregister_graph : Text → Exec MemorySyncRepository (Unit {0})
unregister_graph iri r = pure tt (record r { graphs = erase iri r.graphs })

unfoldable pub set_schema_state : SchemaState → Exec MemorySyncRepository (Unit {0})
set_schema_state s r = pure tt (record r { schema_state = s })

unfoldable pub count_state : (EntityState → Bool) → Dict EntityRow → ℕ
count_state test [] = 0
count_state test ((_, row) ∷ d) = (if test row.status then 1 else 0) + count_state test d

abbrev pub is_current : EntityState → Bool
is_current current = true
is_current _ = false

abbrev pub is_failed : EntityState → Bool
is_failed failed = true
is_failed gapped = true
is_failed _ = false

-- The numbers of current rows, and of rows that failed or have a gap.
unfoldable pub counts : MemorySyncRepository → ℕ × ℕ
unfolding count_state
counts r = (count_state is_current r.entities, count_state is_failed r.entities)
