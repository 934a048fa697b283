-- ===== src/Engine/Steps.antt =====
-- The private helpers of `RdfSyncEngine`: injected crashes, the error code of an error, the
-- replacement and the verification of a graph, and the request for a rebuild.
pub mod ErrorCodes
use custom_wikibase.Prelude.{
  ℕ, zero, suc, Bool, false, ◌&&◌, ◌||◌, Option, none, some, [], ◌∷◌, ◌++◌, Text, codes, length,
  text_eq, leb, ◌==◌, is_digit, is_upper, decimal, lookup, insert, erase, Exec, lift, throw_if,
  ◌>>=◌, ◌>>◌, if◌then◌else◌,
}
use custom_wikibase.RdfSync.EntityId.{entity_graph_iri}
use custom_wikibase.RdfSync.Fence.{rebuild_required}
use custom_wikibase.RdfSync.Repository.{set_source_status}
use custom_wikibase.Engine.World.{
  Collaborators, Context, World, on_repo, on_outside, on_files, write_log,
}

-- `[A-Z0-9_]`.
abbrev pub is_code_char : ℕ → Bool
is_code_char c = is_upper c || is_digit c || c == b'_'

-- The longest run of such characters at the front, of at most `n`.
unfoldable pub code_run : ℕ → Text → Text
code_run zero s = []
code_run (suc n) [] = []
code_run (suc n) (c ∷ s) = if is_code_char c then c ∷ code_run n s else []

-- The first match of `/[A-Z][A-Z0-9_]{2,63}/u`.
unfoldable pub find_code : Text → Option Text
find_code [] = none
find_code (c ∷ s) =
    let rest = find_code s in
    if is_upper c && leb 2 (length (code_run 63 s)) then some (c ∷ code_run 63 s) else rest

unfoldable pub sanitize_code : Text → Text
sanitize_code message = elim (find_code message) [ none ↦ codes "SYNC_FAILED" | some code ↦ code ]

abbrev pub injected_prefix : Text
injected_prefix = codes "INJECTED_"

-- `selected === point`.
unfoldable pub is_selected : Option Text → Text → Bool
is_selected none point = false
is_selected (some s) point = text_eq s point

-- `/tmp/wfp-rdf-sync-${entityId}-${revision}.nt`.
unfoldable pub temporary_path : Text → ℕ → Text
temporary_path id revision =
    codes "/tmp/wfp-rdf-sync-" ++ id ++ codes "-" ++ decimal revision ++ codes ".nt"

unfoldable pub ask_query : Text → Text → ℕ → Text
ask_query iri id revision =
    codes "ASK { GRAPH <"
    ++ iri
    ++ codes "> { ?entity <http://schema.org/version> ?version FILTER(STRENDS(STR(?entity), \"/"
    ++ id
    ++ codes "\") && STR(?version) = \""
    ++ decimal revision
    ++ codes "\") } }"

module _ {Outside : Type 0} where
  unfoldable pub crash : Option Text → Text → Exec (World Outside) (Unit {0})
  crash selected point = throw_if (is_selected selected point) (injected_prefix ++ point)

  -- `try { … } finally { … }`.
  abbrev pub finally :
      {A : Type 0}
      → Exec (World Outside) A
      → (World Outside → World Outside)
      → Exec (World Outside) A
  finally m cleanup w = let (r, w') = m w in (r, cleanup w')

  unfoldable pub mark_rebuild : Text → Context → Exec (World Outside) (Unit {0})
  mark_rebuild code context = do
    on_repo (set_source_status rebuild_required (some code))
    write_log (record {
      name = codes "rdf_sync_rebuild_required";
      context = context;
      result = codes "rebuild_required";
      error_code = code;
    })

module _ {Outside : Type 0} (c : Collaborators Outside) where
  -- The store reads the file that stands at the path.
  unfoldable pub replace_from_file : Text → Text → Exec (World Outside) (Unit {0})
  replace_from_file iri path w = on_outside (c.replace_named_graph iri (lookup path w.files)) w

  unfoldable pub replace_graph : Text → Text → Text → ℕ → Exec (World Outside) (Unit {0})
  unfolding replace_from_file
  replace_graph iri rdf id revision w =
      let path = temporary_path id revision in
      finally (replace_from_file iri path) (on_files (erase path)) (on_files (insert path rdf) w)

  unfoldable pub verify : Text → ℕ → Exec (World Outside) Bool
  verify id revision = do
    iri ← lift (entity_graph_iri id)
    on_outside (c.query (ask_query iri id revision))
