-- ===== src/RdfSync/EntityId/Graphs.antt =====
-- The names of the graphs of entities and of schemas.
use custom_wikibase.Prelude.{ℕ, zero, suc, ap, ◌≡◌, ◌≢◌, ◌∙◌, sym, [], ◌∷◌, ◌++◌, Text, ok, arith}
use custom_wikibase.RdfSync.EntityId.{
  entity_prefix, schema_prefix, entity_graph_iri, schema_graph_iri,
}

entity_graph_iri-eq-ok : (id g : Text) → entity_graph_iri id ≡ ok g → g ≡ entity_prefix ++ id
unfolding entity_graph_iri
entity_graph_iri-eq-ok id g h = ground arith

schema_graph_iri-eq-ok : (id g : Text) → schema_graph_iri id ≡ ok g → g ≡ schema_prefix ++ id
unfolding schema_graph_iri
schema_graph_iri-eq-ok id g h = ground arith

abbrev code_at : ℕ → Text → ℕ
code_at n [] = 0
code_at zero (c ∷ s) = c
code_at (suc n) (c ∷ s) = code_at n s

-- An entity's graph is never the schema graph of a property.
pub entity_graph_iri-ne-schema_graph_iri :
    (a b g h : Text) → entity_graph_iri a ≡ ok g → schema_graph_iri b ≡ ok h → g ≢ h
entity_graph_iri-ne-schema_graph_iri a b g h p q e =
    let same : entity_prefix ++ a ≡ schema_prefix ++ b =
      sym (entity_graph_iri-eq-ok a g p) ∙ e ∙ schema_graph_iri-eq-ok b h q in
    let ninth : ◌≡◌ {A = ℕ} b'e' b's' = ap (code_at 8) same in absurd (omega arith)
