-- ===== src/Engine/World.antt =====
-- What the engine of services/rdf-sync/src/sync-engine.js is built from: its collaborators, and the
-- state that a call of it changes. `Outside` is the state of all that the process does not own:
-- the wiki, the RDF store and the clocks.
use custom_wikibase.Prelude.{
  ℕ, Bool, Option, List, [], ◌∷◌, ◌++◌, Text, Dict, Result, ok, Exec, pure,
}
use custom_wikibase.RdfSync.Cursor.{Cursor}
use custom_wikibase.RdfSync.Classify.{Event, Action, Classified}
use custom_wikibase.RdfSync.Repository.{MemorySyncRepository}

pub record FetchedRdf : Type 0 where
  pub entity_id : Text
  pub revision : ℕ
  pub rdf : Text

pub record Partition : Type 0 where
  pub entity_graph_iri : Option Text
  pub entity_rdf : Text
  pub schema_graph_iri : Option Text
  pub schema_rdf : Text

pub record Resolved : Type 0 where
  pub id : Text
  pub revision : ℕ
  pub deleted : Bool

-- An answer that is absent, or whose entities are no array, reads as one that is not unambiguous.
pub record Resolution : Type 0 where
  pub unambiguous : Bool
  pub entities : List Resolved

-- The options of the constructor. Each may change what is outside, and throw.
pub record Collaborators (Outside : Type 0) : Type 0 where
  pub source_identity : Text
  pub backend_type : Text
  pub read_changes : Option Cursor → ℕ → Exec Outside (List Event)
  pub fetch : Text → ℕ → Exec Outside FetchedRdf
  pub partition : FetchedRdf → Result Partition
  pub resolve : Classified → Event → Exec Outside Resolution
  -- `createHash("sha256").update(text).digest("hex")`
  pub sha256 : Text → Text
  -- the graph's name and what the named file holds
  pub replace_named_graph : Text → Option Text → Exec Outside (Unit {0})
  pub delete_named_graph : Text → Exec Outside (Unit {0})
  -- whether the answer's field `boolean` is `true`
  pub query : Text → Exec Outside Bool
  -- `clock()`, `new Date()` and `randomUUID()`
  pub clock : Outside → Text × Outside
  pub system_clock : Outside → Text × Outside
  pub random_uuid : Outside → Text × Outside

pub record Context : Type 0 where
  pub entity_id : Option Text
  pub revision : ℕ
  pub rcid : ℕ
  pub event_type : Action
  pub backend_type : Text

pub record LogEntry : Type 0 where
  pub name : Text
  pub context : Context
  pub result : Text
  pub error_code : Text

-- The durable repository, the temporary files, and the calls of the metrics and the logger.
pub record World (Outside : Type 0) : Type 0 where
  pub repo : MemorySyncRepository
  pub outside : Outside
  pub files : Dict Text
  pub metrics : List Text
  pub log : List LogEntry

module _ {Outside : Type 0} where
  unfoldable pub on_repo : {A : Type 0} → Exec MemorySyncRepository A → Exec (World Outside) A
  on_repo m w = let (r, repo') = m w.repo in (r, record w { repo = repo' })

  unfoldable pub on_outside : {A : Type 0} → Exec Outside A → Exec (World Outside) A
  on_outside m w = let (r, outside') = m w.outside in (r, record w { outside = outside' })

  -- A reading of a clock, which does not throw.
  unfoldable pub reading : (Outside → Text × Outside) → Exec (World Outside) Text
  reading m w = let (t, outside') = m w.outside in (ok t, record w { outside = outside' })

  unfoldable pub increment : Text → Exec (World Outside) (Unit {0})
  increment name w = pure tt (record w { metrics = w.metrics ++ name ∷ [] })

  unfoldable pub write_log : LogEntry → Exec (World Outside) (Unit {0})
  write_log entry w = pure tt (record w { log = w.log ++ entry ∷ [] })

  -- A change of the temporary files.
  unfoldable pub on_files : (Dict Text → Dict Text) → World Outside → World Outside
  on_files f w = record w { files = f w.files }
