-- ===== src/Tests/Fixture.antt =====
-- The fixture of services/rdf-sync/src/sync-engine.test.js: a store of graphs, and collaborators
-- that fetch, partition and confirm.
use custom_wikibase.Prelude.{
  ℕ, Bool, true, false, none, some, List, [], ◌∷◌, ◌++◌, Text, codes, Dict, decimal, insert, erase,
  ok, err,
}
use custom_wikibase.RdfSync.Classify.{Event}
use custom_wikibase.RdfSync.Repository.{new_repository}
use custom_wikibase.Engine.World.{Collaborators, World}

abbrev pub Store : Type 0
Store = Dict Text

abbrev pub is_stored : Store → Bool
is_stored [] = false
is_stored (_ ∷ _) = true

abbrev pub tools : List Event → Collaborators Store
tools events = record {
  source_identity = codes "local";
  backend_type = codes "test";
  read_changes = λ cursor limit store. (ok events, store);
  fetch = λ id revision store.
      (ok (record { entity_id = id; revision = revision; rdf = decimal revision }), store);
  partition = λ f. ok (record {
    entity_graph_iri = none;
    entity_rdf = f.rdf;
    schema_graph_iri = none;
    schema_rdf = [];
  });
  resolve = λ classified event store. (ok (record { unambiguous = false; entities = [] }), store);
  sha256 = λ text. codes "sha256:" ++ text;
  replace_named_graph = λ iri file store. elim file [
    | none ↦ (err (codes "ENOENT"), store)
    | some rdf ↦ (ok tt, insert iri rdf store)
  ];
  delete_named_graph = λ iri store. (ok tt, erase iri store);
  query = λ sparql store. (ok (is_stored store), store);
  clock = λ store. (codes "2026-08-19T00:00:30Z", store);
  system_clock = λ store. (codes "2026-08-19T00:00:31Z", store);
  random_uuid = λ store. (codes "u", store);
}

abbrev pub event : Text → ℕ → ℕ → ℕ → Event
event timestamp rcid revid old_revid = record {
  type = codes "edit";
  title = codes "Item:Q1";
  logtype = none;
  logaction = none;
  tags = [];
  comment = [];
  redirect = false;
  timestamp = timestamp;
  rcid = rcid;
  revid = revid;
  old_revid = old_revid;
}

abbrev pub start : World Store
start = record {
  repo = new_repository (codes "local");
  outside = [];
  files = [];
  metrics = [];
  log = [];
}
