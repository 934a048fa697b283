-- ===== src/Tests/ProfileRuns.antt =====
-- The profiles pass the validation of the metadata, and one of them holds no graph store.
use custom_wikibase.Prelude.{
  ◌≡◌, refl, Bool, true, false, ◌&&◌, [], ◌∷◌, codes, text_eq, includes, Dict, lookup, insert, ok,
  err,
}
use custom_wikibase.Prelude.Results.{◌>>=◌}
use custom_wikibase.Backends.Metadata.{
  RdfBackendMetadata, keys, not_in, refuse, boolean_of, normalized, type_of_backend, map_of,
  validate_rdf_backend_metadata, has_capability,
}
use custom_wikibase.Backends.Normal.{as_value, values}
use custom_wikibase.Backends.Profiles.{
  with_capability, transactional_profile, virtuoso_profile, blazegraph_profile, profiles,
}

abbrev is_accepted : RdfBackendMetadata → Bool
is_accepted d = elim (validate_rdf_backend_metadata (as_value d)) [ ok _ ↦ true | err _ ↦ false ]

all_accepted : Dict RdfBackendMetadata → Bool
all_accepted [] = true
all_accepted ((name, d) ∷ ds) = text_eq name d.backend_type && is_accepted d && all_accepted ds

profiles_accepted : all_accepted profiles ≡ true
unfolding all_accepted text_eq includes lookup insert ◌>>=◌ keys not_in refuse boolean_of normalized
    type_of_backend map_of validate_rdf_backend_metadata values with_capability
    transactional_profile virtuoso_profile blazegraph_profile profiles
profiles_accepted = refl

no_graph_store : has_capability blazegraph_profile (codes "graphStoreProtocol") ≡ false
unfolding text_eq lookup insert has_capability with_capability blazegraph_profile
no_graph_store = refl
