-- ===== src/Backends/Sparql.antt =====
-- The class of services/rdf-backends/src/sparql-http-backend.js. Its methods read the backend, and act on
-- the world; only `initialize` changes the backend, which it returns. A header that is given twice is
-- spelled alike.
use custom_wikibase.Prelude.{
  ℕ, Bool, true, false, not, ◌&&◌, Option, none, some, List, [], ◌∷◌, ◌++◌, Text, codes, ◌==◌, take,
  text_eq, decimal, Dict, Result, ok, err, Exec, pure, throw, lift, throw_if, try_catch, ◌>>=◌,
  ◌>>◌, if◌then◌else◌,
}
use custom_wikibase.Serving.Pointer.{is_slug}
use custom_wikibase.Backends.Metadata.{
  MetadataValue, RdfBackendMetadata, validate_rdf_backend_metadata, has_capability,
}
use custom_wikibase.Backends.Digest.{Credentials, truthy}
use custom_wikibase.Backends.Http.{
  Response, Answer, null_answer, answer, Net, is_ok, merge, request, checked_url, require_graph_iri,
  graph_url, logical_dataset_url,
}

pub record Options : Type 0 where
  pub metadata : MetadataValue
  pub query_url : Text
  pub update_url : Option Text
  pub graph_store_url : Option Text
  pub dataset_graph_iri : Option Text
  pub headers : Dict Text
  pub digest_auth : Option Credentials

pub record SparqlHttpBackend : Type 0 where
  pub metadata : RdfBackendMetadata
  pub query_url : Text
  pub update_url : Option Text
  pub graph_store_url : Option Text
  pub dataset_graph_iri : Option Text
  pub headers : Dict Text
  pub digest_auth : Option Credentials
  pub instance_id : Option Text

pub record Snapshot : Type 0 where
  pub source : Text
  pub media_type : Text

pub record Export : Type 0 where
  pub bytes : ℕ
  pub sha256 : Text

pub data Health : Type 0 where
  healthy : Bool → Health
  unhealthy : Text → Health

abbrev n_triples : Text
n_triples = codes "application/n-triples"

-- `requireCapability`.
unfoldable pub require_capability {ℓ} : {W : Type ℓ} → RdfBackendMetadata → Text → Exec W (Unit {ℓ})
require_capability d name =
    if has_capability d name
    then pure tt
    else throw (d.backend_type ++ codes " does not support required capability " ++ name)

unfoldable pub http_error : Text → Response → Text
http_error what r = what ++ codes " failed with HTTP " ++ decimal r.status

-- The error with the start of the body.
unfoldable pub http_error_text : Text → Response → Text
http_error_text what r = http_error what r ++ codes ": " ++ take 300 r.body

module _ {W : Type 0} where
  abbrev checked_option : Net W → Option Text → Result (Option Text)
  checked_option n o = elim (truthy o) [
    | none ↦ ok none
    | some t ↦ elim (checked_url n t) [ err e ↦ err e | ok u ↦ ok (some u) ]
  ]

  abbrev checked_iri : Net W → Option Text → Result (Unit {0})
  checked_iri n o = elim (truthy o) [ none ↦ ok tt | some t ↦ require_graph_iri n t ]

  -- The constructor.
  unfoldable pub new_backend : Net W → Options → Exec W SparqlHttpBackend
  new_backend n o = do
    metadata ← lift (validate_rdf_backend_metadata o.metadata)
    query ← lift (checked_url n o.query_url)
    update ← lift (checked_option n o.update_url)
    store ← lift (checked_option n o.graph_store_url)
    lift (checked_iri n o.dataset_graph_iri)
    pure (record {
      metadata = metadata;
      query_url = query;
      update_url = update;
      graph_store_url = store;
      dataset_graph_iri = o.dataset_graph_iri;
      headers = o.headers;
      digest_auth = o.digest_auth;
      instance_id = none;
    })

  -- A request with the headers of the backend after its own.
  unfoldable pub send :
      Net W → SparqlHttpBackend → Text → Text → Dict Text → Option Text → Bool → Exec W Response
  send n b url method own body authenticate =
      request n b.digest_auth url
        (record { method = method; headers = merge own b.headers; body = body }) authenticate

  unfoldable pub query : Net W → SparqlHttpBackend → Text → Exec W Answer
  query n b [] = throw (codes "SPARQL query must be non-empty")
  query n b (c ∷ s) = do
    r ←
        send n b b.query_url (codes "POST")
          ((codes "accept", codes "application/sparql-results+json")
            ∷ (codes "content-type", codes "application/sparql-query")
            ∷ [])
          (some (c ∷ s)) false
    throw_if (not (is_ok r)) (http_error_text (codes "SPARQL query") r)
    lift (n.json r.body)

  -- `typeof result.boolean === 'boolean'`, where `null` has no members.
  unfoldable pub responsive : Answer → Exec W Health
  responsive null_answer = throw (codes "Cannot read properties of null (reading 'boolean')")
  responsive (answer none) = pure (healthy false)
  responsive (answer (some b)) = pure (healthy true)

  unfoldable pub health : Net W → SparqlHttpBackend → Exec W Health
  health n b =
      try_catch (query n b (codes "ASK { ?s ?p ?o }") >>= responsive) λ e. pure (unhealthy e)

  unfoldable pub initialize : Net W → Text → SparqlHttpBackend → Exec W (SparqlHttpBackend × Health)
  initialize n id b = do
    throw_if (not (is_slug 62 id)) (codes "invalid RDF instance identifier")
    let named : SparqlHttpBackend = record b { instance_id = some id }
    h ← health n named
    pure (named, h)

  unfoldable pub reset_token : SparqlHttpBackend → Exec W Text
  reset_token b = elim b.instance_id [
    | none ↦ throw (codes "backend is not initialized")
    | some id ↦ pure (codes "reset:" ++ id)
  ]

  -- `putGraph`, at the graph store.
  unfoldable pub put_graph_at :
      Net W → SparqlHttpBackend → Snapshot → Option Text → Option Text → Exec W ℕ
  put_graph_at n b s graph none = throw (codes "graph store endpoint is unavailable")
  put_graph_at n b s graph (some store) = do
    throw_if (not (text_eq s.media_type n_triples))
        (codes "M2 snapshot must use application/n-triples")
    body ← n.read_file s.source
    url ← lift (graph_url n (some store) graph)
    r ← send n b url (codes "PUT") ((codes "content-type", s.media_type) ∷ []) (some body) true
    throw_if (not (is_ok r)) (http_error_text (codes "graph load") r)
    pure (n.byte_length body)

  unfoldable pub put_graph : Net W → SparqlHttpBackend → Snapshot → Option Text → Exec W ℕ
  put_graph n b s graph = put_graph_at n b s graph b.graph_store_url

  unfoldable pub delete_named_graph : Net W → SparqlHttpBackend → Text → Exec W (Unit {0})
  delete_named_graph n b graph = do
    require_capability b.metadata (codes "graphStoreProtocol")
    lift (require_graph_iri n graph)
    url ← lift (graph_url n b.graph_store_url (some graph))
    r ← send n b url (codes "DELETE") [] none true
    throw_if (not (is_ok r) && not (r.status == 404)) (http_error (codes "graph delete") r)

  unfoldable pub clear_all : Net W → SparqlHttpBackend → Exec W (Unit {0})
  clear_all n b = do
    require_capability b.metadata (codes "sparql11Update")
    elim b.update_url [
      | none ↦ throw (codes "internal update endpoint is unavailable")
      | some url ↦ do
        r ←
            send n b url (codes "POST")
              ((codes "content-type", codes "application/sparql-update") ∷ [])
              (some (codes "CLEAR ALL")) true
        throw_if (not (is_ok r)) (http_error_text (codes "dataset reset") r)
    ]

  abbrev clear_dataset : Net W → SparqlHttpBackend → Option Text → Option Text → Exec W (Unit {0})
  clear_dataset n b (some graph) (some store) = delete_named_graph n b graph
  clear_dataset n b _ _ = clear_all n b

  unfoldable pub reset : Net W → SparqlHttpBackend → Text → Exec W (Unit {0})
  reset n b token = elim b.instance_id [
    | none ↦ throw (codes "invalid reset confirmation token")
    | some id ↦
        if text_eq token (codes "reset:" ++ id)
        then clear_dataset n b (truthy b.dataset_graph_iri) b.graph_store_url
        else throw (codes "invalid reset confirmation token")
  ]

  unfoldable pub replace_dataset : Net W → SparqlHttpBackend → Snapshot → Exec W ℕ
  replace_dataset n b s = do
    require_capability b.metadata (codes "graphStoreProtocol")
    token ← reset_token b
    reset n b token
    put_graph n b s b.dataset_graph_iri

  -- `loadSnapshot` and `rebuild`.
  unfoldable pub load_snapshot : Net W → SparqlHttpBackend → Snapshot → Exec W ℕ
  load_snapshot = replace_dataset

  unfoldable pub rebuild_dataset : Net W → SparqlHttpBackend → Option Snapshot → Exec W ℕ
  rebuild_dataset n b none = throw (codes "rebuild requires a canonical snapshot")
  rebuild_dataset n b (some s) = replace_dataset n b s

  unfoldable pub replace_named_graph : Net W → SparqlHttpBackend → Snapshot → Text → Exec W ℕ
  replace_named_graph n b s graph = do
    require_capability b.metadata (codes "graphStoreProtocol")
    lift (require_graph_iri n graph)
    put_graph n b s (some graph)

  unfoldable pub apply_entity_change : Net W → SparqlHttpBackend → Snapshot → Text → Exec W ℕ
  apply_entity_change n b s graph = do
    require_capability b.metadata (codes "namedGraphs")
    replace_named_graph n b s graph

  unfoldable pub export_dataset :
      Net W → SparqlHttpBackend → Text → Text → List Text → Exec W Export
  export_dataset n b destination media_type graphs = do
    throw_if (not (text_eq media_type n_triples))
        (codes "M2 export supports application/n-triples only")
    url ← lift (logical_dataset_url n b.query_url graphs)
    r ←
        send n b url (codes "POST")
          ((codes "accept", media_type)
            ∷ (codes "content-type", codes "application/sparql-query")
            ∷ [])
          (some (codes "CONSTRUCT { ?s ?p ?o } WHERE { ?s ?p ?o }")) false
    throw_if (not (is_ok r)) (http_error (codes "RDF export") r)
    n.write_file destination r.body
    pure (record { bytes = n.byte_length r.body; sha256 = n.sha256 r.body })

-- `sparqlQueryEndpoint` and `internalUpdateEndpoint`: a URL with its kind of access.
unfoldable pub sparql_query_endpoint : SparqlHttpBackend → Text × Text
sparql_query_endpoint b = (b.query_url, codes "public-read")

unfoldable pub internal_update_endpoint : SparqlHttpBackend → Option (Text × Text)
internal_update_endpoint b = elim b.update_url [
  | none ↦ none
  | some u ↦ some (u, codes "internal-write")
]
