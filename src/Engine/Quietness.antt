-- ===== src/Engine/Quietness.antt =====
-- The calls of the engine that leave the source row and the entity rows alone: all that happens
-- outside the process, between the fence and the commit.
use custom_wikibase.Prelude.{ℕ, ◌≡◌, refl, Option, List, [], ◌∷◌, Text, Exec}
use custom_wikibase.RdfSync.Repository.{
  SchemaState, register_graph, unregister_graph, set_schema_state, entity_row, load_entity,
  load_source,
}
use custom_wikibase.Engine.World.{
  Collaborators, LogEntry, Partition, on_repo, on_outside, on_files, reading, increment, write_log,
}
use custom_wikibase.Engine.Triples.{
  Rows, Triple, Quiet, Quiet-pure, Quiet-lift, Quiet-throw_if, Quiet-when, Quiet-bind,
}
use custom_wikibase.Engine.Steps.{crash, replace_graph, verify}
use custom_wikibase.Engine.Edit.{write_schema, write_graphs}
use custom_wikibase.Engine.Events.{drop_graphs}

module _ {Outside : Type 0} where
  pub Quiet-on_outside : {A : Type 0} (m : Exec Outside A) → Quiet (on_outside m)
  unfolding on_outside
  Quiet-on_outside m = record { source_same = λ w. refl; entities_same = λ w. refl }

  pub Quiet-reading : (m : Outside → Text × Outside) → Quiet (reading m)
  unfolding reading
  Quiet-reading m = record { source_same = λ w. refl; entities_same = λ w. refl }

  pub Quiet-increment : (name : Text) → Quiet {Outside = Outside} (increment name)
  unfolding increment
  Quiet-increment name = record { source_same = λ w. refl; entities_same = λ w. refl }

  pub Quiet-write_log : (entry : LogEntry) → Quiet {Outside = Outside} (write_log entry)
  unfolding write_log
  Quiet-write_log entry = record { source_same = λ w. refl; entities_same = λ w. refl }

  -- These do not throw, so they keep any predicate of the rows.
  pub Triple-increment :
      {P : Rows} {E : Text → Rows} (name : Text)
      → Triple {Outside = Outside} P (increment name) (λ _. P) E
  unfolding increment
  Triple-increment name = record { at = λ w p. p }

  pub Triple-write_log :
      {P : Rows} {E : Text → Rows} (entry : LogEntry)
      → Triple {Outside = Outside} P (write_log entry) (λ _. P) E
  unfolding write_log
  Triple-write_log entry = record { at = λ w p. p }

  pub Triple-reading :
      {P : Rows} {E : Text → Rows} (m : Outside → Text × Outside) → Triple P (reading m) (λ _. P) E
  unfolding reading
  Triple-reading m = record { at = λ w p. p }

  -- The row that is loaded is the one that the rows hold.
  pub Triple-load_entity :
      {P : Rows} {E : Text → Rows} (id : Text)
      → Triple {Outside = Outside} P
          (on_repo (load_entity id))
          (λ row s d. P s d × (row ≡ entity_row id d))
          E
  unfolding on_repo load_entity
  Triple-load_entity id = record { at = λ w p. (p, refl) }

  pub Quiet-load_entity : (id : Text) → Quiet {Outside = Outside} (on_repo (load_entity id))
  unfolding on_repo load_entity
  Quiet-load_entity id = record { source_same = λ w. refl; entities_same = λ w. refl }

  pub Quiet-crash :
      (selected : Option Text) (point : Text) → Quiet {Outside = Outside} (crash selected point)
  unfolding crash
  Quiet-crash selected point = Quiet-throw_if _ _

  pub Quiet-register_graph : (iri : Text) → Quiet {Outside = Outside} (on_repo (register_graph iri))
  unfolding on_repo register_graph
  Quiet-register_graph iri = record { source_same = λ w. refl; entities_same = λ w. refl }

  pub Quiet-unregister_graph :
      (iri : Text) → Quiet {Outside = Outside} (on_repo (unregister_graph iri))
  unfolding on_repo unregister_graph
  Quiet-unregister_graph iri = record { source_same = λ w. refl; entities_same = λ w. refl }

  pub Quiet-set_schema_state :
      (s : SchemaState) → Quiet {Outside = Outside} (on_repo (set_schema_state s))
  unfolding on_repo set_schema_state
  Quiet-set_schema_state s = record { source_same = λ w. refl; entities_same = λ w. refl }

  pub Quiet-load_source : Quiet {Outside = Outside} (on_repo load_source)
  unfolding on_repo load_source
  Quiet-load_source = record { source_same = λ w. refl; entities_same = λ w. refl }

module _ {Outside : Type 0} (c : Collaborators Outside) where
  pub Quiet-replace_graph :
      (iri rdf id : Text) (revision : ℕ) → Quiet (replace_graph c iri rdf id revision)
  unfolding replace_graph on_outside on_files
  Quiet-replace_graph iri rdf id revision = record {
    source_same = λ w. refl;
    entities_same = λ w. refl;
  }

  ruleset quiet_steps = (
    Quiet-bind, Quiet-pure, Quiet-lift, Quiet-throw_if, Quiet-when, Quiet-on_outside, Quiet-reading,
    Quiet-increment, Quiet-write_log, Quiet-crash, Quiet-register_graph, Quiet-unregister_graph,
    Quiet-set_schema_state, Quiet-replace_graph,
  )

  pub Quiet-verify : (id : Text) (revision : ℕ) → Quiet (verify c id revision)
  unfolding verify
  Quiet-verify id revision = search quiet_steps

  pub Quiet-write_schema :
      (id : Text) (revid : ℕ) (part : Partition) → Quiet (write_schema c id revid part)
  unfolding write_schema
  Quiet-write_schema id revid part = search quiet_steps depth 8

  pub Quiet-write_graphs :
      (id : Text) (revid : ℕ) (crash_at : Option Text) → Quiet (write_graphs c id revid crash_at)
  unfolding write_graphs
  Quiet-write_graphs id revid crash_at =
      search (quiet_steps, Quiet-verify, Quiet-write_schema) depth 20

  pub Quiet-drop_graphs : (iris : List Text) → Quiet (drop_graphs c iris)
  unfolding drop_graphs
  Quiet-drop_graphs [] = Quiet-pure tt
  Quiet-drop_graphs (iri ∷ iris) =
      Quiet-bind _ _ (Quiet-on_outside _)
        λ _. Quiet-bind _ _ (Quiet-unregister_graph iri) λ _. Quiet-drop_graphs iris
