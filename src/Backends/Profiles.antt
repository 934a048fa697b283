-- ===== src/Backends/Profiles.antt =====
-- services/rdf-backends/src/profiles.js: what the stores that were qualified can do.
use custom_wikibase.Prelude.{Bool, true, false, [], ◌∷◌, Text, codes, Dict, insert}
use custom_wikibase.Backends.Metadata.{RdfBackendMetadata}

-- `base`.
abbrev pub base_capabilities : Dict Bool
base_capabilities =
    (codes "sparql11Query", true)
    ∷ (codes "sparql11Update", true)
    ∷ (codes "namedGraphs", true)
    ∷ (codes "transactionalUpdate", false)
    ∷ (codes "graphStoreProtocol", true)
    ∷ (codes "serviceFederation", false)
    ∷ (codes "fullTextSearch", false)
    ∷ (codes "geoSparql", false)
    ∷ (codes "wikibaseLabelService", false)
    ∷ (codes "isolatedGenerations", false)
    ∷ (codes "atomicServingCutover", false)
    ∷ (codes "rollbackCutover", false)
    ∷ (codes "generationDelete", false)
    ∷ (codes "generationQuery", false)
    ∷ []

unfoldable pub with_capability : Text → Bool → Dict Bool → Dict Bool
with_capability name value capabilities = insert name value capabilities

-- The profile of both `fuseki-tdb2` and `oxigraph`.
unfoldable pub transactional_profile : Text → RdfBackendMetadata
transactional_profile backend = record {
  backend_type = backend;
  capabilities =
      with_capability (codes "serviceFederation") true
        (with_capability (codes "transactionalUpdate") true base_capabilities);
}

unfoldable pub virtuoso_profile : RdfBackendMetadata
virtuoso_profile = record {
  backend_type = codes "virtuoso";
  capabilities =
      with_capability (codes "fullTextSearch") true
        (with_capability (codes "serviceFederation") true base_capabilities);
}

unfoldable pub blazegraph_profile : RdfBackendMetadata
blazegraph_profile = record {
  backend_type = codes "blazegraph-wdqs";
  capabilities =
      with_capability (codes "wikibaseLabelService") true
        (with_capability (codes "graphStoreProtocol") false base_capabilities);
}

-- RDF_BACKEND_PROFILES.
unfoldable pub profiles : Dict RdfBackendMetadata
profiles =
    (codes "fuseki-tdb2", transactional_profile (codes "fuseki-tdb2"))
    ∷ (codes "oxigraph", transactional_profile (codes "oxigraph"))
    ∷ (codes "virtuoso", virtuoso_profile)
    ∷ (codes "blazegraph-wdqs", blazegraph_profile)
    ∷ []
