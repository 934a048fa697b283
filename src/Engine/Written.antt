-- ===== src/Engine/Written.antt =====
-- What stands behind the row of an entity that an edit has written: the fetched text, and the
-- store's own answer.
pub mod Edit
use custom_wikibase.Prelude.{
  ℕ, ◌≡◌, refl, sym, ◌∙◌, ap, Bool, true, false, not, ◌&&◌, Option, none, some, List, [], ◌∷◌, Text,
  codes, Dict, Exec, Result, ok, err, pure, lift, when, throw_if, insert, text_eq_iff, Bool-cases,
  inl, inr, arith, starts_with, if◌then◌else◌, ◌>>=◌, ◌>>◌,
}
use mathlib.Core.Path.{subst}
use custom_wikibase.RdfSync.EntityId.{entity_graph_iri}
use custom_wikibase.RdfSync.Cursor.{Cursor}
use custom_wikibase.RdfSync.Classify.{Event}
use custom_wikibase.RdfSync.Fence.{Decision, duplicate, writes}
use custom_wikibase.RdfSync.Repository.{
  SourceRow, EntityRow, entity_row, regresses, commit_event, save_entity, save_if, current,
  restoring,
}
use custom_wikibase.Engine.World.{
  Collaborators, Context, FetchedRdf, Partition, World, on_repo, on_outside, reading,
}
use custom_wikibase.Engine.Triples.{
  Rows, Triple, Holds, Quiet, Quiet-throw_if, Quiet-lift, Quiet-when, Triple-bind, Triple-Quiet,
  Triple-pure, Triple-if, Triple-given, Triple-weaken,
}
use custom_wikibase.Engine.Quietness.{
  Quiet-on_outside, Quiet-crash, Quiet-register_graph, Quiet-replace_graph, Quiet-write_schema,
  Triple-increment, Triple-write_log, Triple-reading,
}
use custom_wikibase.Engine.Steps.{verify, ask_query, mark_rebuild}
use custom_wikibase.Engine.Edit.{
  Outcome, stop, applied, restored, commit_cursor, record_gap, skip_stale, write_graphs,
  commit_edit, apply_edit, edit, stale_outcome, indexed_row, is_gap,
}
use custom_wikibase.Engine.Revisions.Edit.{RowIsValid, Kept, load_entity-Kept, entity_row-insert}
use custom_wikibase.Engine.Revisions.Events.{RowsAreValid}

abbrev pub Anything : Rows
Anything s d = Unit {0}

module _ {Outside : Type 0} (c : Collaborators Outside) where
  -- A revision of an entity that was fetched, partitioned to the text with the given checksum, and
  -- then found in the entity's graph by the store itself.
  pub record Evidence (id : Text) (revid : ℕ) (checksum : Text) : Type 0 where
    pub fetched : FetchedRdf
    pub at_fetch : Outside
    pub was_fetched : (c.fetch id revid at_fetch).0 ≡ ok fetched
    pub part : Partition
    pub was_partitioned : c.partition fetched ≡ ok part
    pub has_checksum : checksum ≡ c.sha256 part.entity_rdf
    pub iri : Text
    pub is_graph : entity_graph_iri id ≡ ok iri
    pub at_query : Outside
    pub was_confirmed : (c.query (ask_query iri id revid) at_query).0 ≡ ok true

  -- The row of a written revision.
  pub record RowIsWritten (id : Text) (revid : ℕ) (row : EntityRow) : Type 0 where
    pub indexed : row.indexed_revision ≡ revid
    pub status : row.status ≡ current
    pub no_error : row.error_code ≡ none
    pub checksum : Text
    pub has_checksum : row.checksum ≡ some checksum
    pub evidence : Evidence id revid checksum

  pub anyhow :
      {A : Type 0} (m : Exec (World Outside) A)
      → Quiet m
      → Triple Anything m (λ _. Anything) (λ _. Anything)
  anyhow m q = Triple-Quiet m q (λ e s d p. p)

  -- A call that returned has an answer from outside behind it.
  on_outside-answer :
      {A : Type 0} (m : Exec Outside A)
      → Triple Anything
          (on_outside m)
          (λ a s d. Unit {0} × ((o : Outside) × ((m o).0 ≡ ok a)))
          (λ _. Anything)
  unfolding on_outside
  on_outside-answer {A} m = record { at = λ w p. answered (m w.outside) w (w.outside) refl }
    where
      answered :
          (r : Result A × Outside) (w : World Outside) (o : Outside)
          → (m o) ≡ r
          → Holds
              (λ a s d. Unit {0} × ((o : Outside) × ((m o).0 ≡ ok a)))
              (λ _. Anything)
              (r.0, record w { outside = r.1 })
      answered (ok a, o') w o e = (tt, (o, ap (λ p. p.0) e))
      answered (err x, o') w o e = tt

  lift-answer :
      {A : Type 0} (r : Result A)
      → Triple {Outside = Outside} Anything
          (lift r)
          (λ a s d. Unit {0} × (r ≡ ok a))
          (λ _. Anything)
  lift-answer (ok a) = record { at = λ w p. (tt, refl) }
  lift-answer (err e) = record { at = λ w p. tt }

  throw_if-passed :
      (b : Bool) (e : Text)
      → Triple {Outside = Outside} Anything
          (throw_if b e)
          (λ _ s d. Unit {0} × (b ≡ false))
          (λ _. Anything)
  unfolding throw_if
  throw_if-passed true e = record { at = λ w p. tt }
  throw_if-passed false e = record { at = λ w p. (tt, refl) }

  -- The answer of the store to the question whether the graph holds the revision.
  Answer : Text → ℕ → Bool → Type 0
  Answer id revid verified =
      (iri : Text) × (o : Outside) × (entity_graph_iri id ≡ ok iri)
      × ((c.query (ask_query iri id revid) o).0 ≡ ok verified)

  verify-Answer :
      (id : Text) (revid : ℕ)
      → Triple Anything (verify c id revid) (λ b s d. Unit {0} × Answer id revid b) (λ _. Anything)
  unfolding verify Answer
  verify-Answer id revid = Triple-bind _ _ (lift-answer _) λ iri. Triple-given _ λ is_graph.
      Triple-weaken _ (on_outside-answer _) (λ s d p. p)
        (λ b s d h. (tt, (iri, (h.1).0, is_graph, (h.1).1))) (λ e s d h. h)

  -- The fetched text and its partition.
  Fetched : Text → ℕ → Partition → Type 0
  Fetched id revid part =
      (fetched : FetchedRdf) × ((o : Outside) × ((c.fetch id revid o).0 ≡ ok fetched))
      × (c.partition fetched ≡ ok part)

  write_graphs-end :
      (id : Text) (revid : ℕ) (part : Partition) (verified : Bool)
      → Fetched id revid part
      → Answer id revid verified
      → Triple {Outside = Outside} Anything
          (throw_if (not verified) (codes "BACKEND_VERIFY_FAILED")
            >> pure (c.sha256 part.entity_rdf))
          (λ checksum s d. Unit {0} × Evidence id revid checksum)
          (λ _. Anything)
  unfolding Answer Fetched
  write_graphs-end id revid part false f answer =
      Triple-bind _ _ (throw_if-passed true _) λ _. Triple-given _ λ e. cc
  write_graphs-end id revid part true (fetched, (o, f), p) (iri, o', g, q) =
      Triple-bind _ _ (anyhow _ (Quiet-throw_if _ _)) λ _. Triple-pure _ λ s d h. (
        tt,
        record {
          fetched = fetched;
          at_fetch = o;
          was_fetched = f;
          part = part;
          was_partitioned = p;
          has_checksum = refl;
          iri = iri;
          is_graph = g;
          at_query = o';
          was_confirmed = q;
        },
      )

  pub write_graphs-Evidence :
      (id : Text) (revid : ℕ) (crash_at : Option Text)
      → Triple Anything
          (write_graphs c id revid crash_at)
          (λ checksum s d. Unit {0} × Evidence id revid checksum)
          (λ _. Anything)
  unfolding write_graphs Fetched
  write_graphs-Evidence id revid crash_at = Triple-bind _ _ (on_outside-answer _) λ fetched.
      Triple-given _ λ was_fetched. Triple-bind _ _ (anyhow _ (Quiet-crash crash_at _)) λ _.
        Triple-bind _ _ (lift-answer _) λ part. Triple-given _ λ was_partitioned.
          Triple-bind _ _ (anyhow _ (Quiet-crash crash_at _)) λ _.
            Triple-bind _ _ (anyhow _ (Quiet-lift _)) λ graph.
              Triple-bind _ _ (anyhow _ (Quiet-replace_graph c _ _ _ _)) λ _.
                Triple-bind _ _ (anyhow _ (Quiet-register_graph _)) λ _.
                  Triple-bind _ _ (anyhow _ (Quiet-when _ _ (Quiet-write_schema c id revid part)))
                    λ _. Triple-bind _ _ (anyhow _ (Quiet-crash crash_at _)) λ _.
                      Triple-bind _ _ (verify-Answer id revid) λ verified. Triple-given _ λ answer.
                        write_graphs-end id revid part verified
                          (fetched, was_fetched, was_partitioned) answer
