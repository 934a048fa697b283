-- ===== src/Backends/Metadata.antt =====
-- `validateRdfBackendMetadata` of packages/rdf-domain/src/rdf-backend.js, and the profiles of
-- services/rdf-backends/src/profiles.js.
use custom_wikibase.Prelude.{
  Bool, false, Option, none, some, List, [], ◌∷◌, ◌++◌, Text, codes, includes, Dict, lookup, Result,
  ok, err, if◌then◌else◌,
}
use custom_wikibase.Prelude.Results.{◌>>=◌, ◌>>◌}

-- A value of JavaScript: a string, a Boolean, or anything else that is no object of interest here.
pub data Value : Type 0 where
  text : Text → Value
  boolean : Bool → Value
  other : Value

pub data CapabilitiesValue : Type 0 where
  not_object : CapabilitiesValue
  object : Dict Value → CapabilitiesValue

pub data MetadataValue : Type 0 where
  not_metadata : MetadataValue
  metadata : Value → CapabilitiesValue → MetadataValue

pub record RdfBackendMetadata : Type 0 where
  pub backend_type : Text
  pub capabilities : Dict Bool

-- RDF_BACKEND_TYPES.
abbrev pub backend_types : List Text
backend_types =
    codes "virtuoso"
    ∷ codes "fuseki-tdb2"
    ∷ codes "blazegraph-wdqs"
    ∷ codes "oxigraph"
    ∷ codes "qlever"
    ∷ []

-- RDF_BACKEND_CAPABILITY_NAMES.
abbrev pub capability_names : List Text
capability_names =
    codes "sparql11Query"
    ∷ codes "sparql11Update"
    ∷ codes "namedGraphs"
    ∷ codes "transactionalUpdate"
    ∷ codes "graphStoreProtocol"
    ∷ codes "serviceFederation"
    ∷ codes "fullTextSearch"
    ∷ codes "geoSparql"
    ∷ codes "wikibaseLabelService"
    ∷ codes "isolatedGenerations"
    ∷ codes "atomicServingCutover"
    ∷ codes "rollbackCutover"
    ∷ codes "generationDelete"
    ∷ codes "generationQuery"
    ∷ []

-- `Object.keys(map)`.
unfoldable pub keys {ℓ} : {V : Type ℓ} → Dict V → List Text
keys [] = []
keys ((k, v) ∷ m) = k ∷ keys m

-- `names.filter((name) => !known.includes(name))`, the known names first.
unfoldable pub not_in : List Text → List Text → List Text
not_in known [] = []
not_in known (n ∷ ns) = let rest = not_in known ns in if includes known n then rest else n ∷ rest

-- `names.join(', ')`.
unfoldable pub join_names : List Text → Text
join_names [] = []
join_names (n ∷ []) = n
join_names (n ∷ m ∷ ns) = n ++ codes ", " ++ join_names (m ∷ ns)

-- `if (names.length > 0) throw …`.
unfoldable pub refuse : Text → List Text → Result (Unit {0})
refuse message [] = ok tt
refuse message (n ∷ ns) = err (message ++ join_names (n ∷ ns))

unfoldable pub boolean_of : Text → Option Value → Result Bool
boolean_of name (some (boolean b)) = ok b
boolean_of name _ = err (codes "RDF backend capability " ++ name ++ codes " must be boolean")

-- The loop over the names.
unfoldable pub normalized : List Text → Dict Value → Result (Dict Bool)
normalized [] m = ok []
normalized (n ∷ ns) m =
    boolean_of n (lookup n m) >>= λ b. normalized ns m >>= λ rest. ok ((n, b) ∷ rest)

unfoldable pub type_of_backend : Value → Result Text
type_of_backend (text t) =
    if includes backend_types t then ok t else err (codes "RDF backend type is not supported")
type_of_backend _ = err (codes "RDF backend type is not supported")

unfoldable pub map_of : CapabilitiesValue → Result (Dict Value)
map_of not_object = err (codes "RDF backend capabilities must be an object")
map_of (object m) = ok m

unfoldable pub validate_rdf_backend_metadata : MetadataValue → Result RdfBackendMetadata
validate_rdf_backend_metadata not_metadata = err (codes "RDF backend metadata must be an object")
validate_rdf_backend_metadata (metadata type capabilities) = do
  backend ← type_of_backend type
  m ← map_of capabilities
  refuse (codes "unknown RDF backend capabilities: ") (not_in capability_names (keys m))
  refuse (codes "missing RDF backend capabilities: ") (not_in (keys m) capability_names)
  values ← normalized capability_names m
  ok (record { backend_type = backend; capabilities = values })

-- `metadata.capabilities[name]`, in a condition.
unfoldable pub has_capability : RdfBackendMetadata → Text → Bool
has_capability d name = elim (lookup name d.capabilities) [ none ↦ false | some b ↦ b ]

-- `notImplemented`, of the abstract class.
unfoldable pub not_implemented {ℓ} : {A : Type ℓ} → Text → Result A
not_implemented operation = err (codes "RdfBackend." ++ operation ++ codes " is not implemented")
