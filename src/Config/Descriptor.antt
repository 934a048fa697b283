-- ===== src/Config/Descriptor.antt =====
-- packages/rdf-sync/src/generation-descriptor.js: what the worker says of its generation before it
-- opens a connection. A field that is missing is `none`, which `String` prints as `undefined`.
use custom_wikibase.Prelude.{
  Bool, false, ◌&&◌, ◌||◌, Option, none, some, ◌++◌, Text, codes, text_eq, Result, ok, err,
}
use custom_wikibase.Prelude.Results.{◌>>=◌, ◌>>◌, check}
use custom_wikibase.QueryRouter.{is_source}
use custom_wikibase.Serving.Pointer.{is_generation_id}
use custom_wikibase.Config.Values.{Url, Host, has_no_credentials}
use custom_wikibase.Config.Worker.{WorkerConfig}

pub record EndpointValue : Type 0 where
  pub url : Option Text
  pub access : Option Text

-- The argument, an object.
pub record Description : Type 0 where
  pub generation_id : Option Text
  pub source_identity : Option Text
  pub backend_type : Option Text
  pub partition_model : Option Text
  pub normalization_model : Option Text
  pub query_endpoint : Option EndpointValue
  pub internal_update_endpoint : Option EndpointValue

pub record Endpoint : Type 0 where
  pub url : Text
  pub access : Text

pub record GenerationDescriptor : Type 0 where
  pub generation_id : Text
  pub source_identity : Text
  pub backend_type : Text
  pub normalization_model : Text
  pub partition_model : Text
  pub query_endpoint : Endpoint
  pub internal_update_endpoint : Endpoint

-- `String(value)`.
unfoldable pub string_of : Option Text → Text
string_of none = codes "undefined"
string_of (some t) = t

-- `value === text`.
unfoldable pub is_exactly : Option Text → Text → Bool
is_exactly none t = false
is_exactly (some s) t = text_eq s t

abbrev pub partition_model_v1 : Text
partition_model_v1 = codes "jwb-partition-v1"

abbrev pub normalization_model_v1 : Text
normalization_model_v1 = codes "jwb-rdf-normalization-v1"

unfoldable pub is_generation_backend : Text → Bool
is_generation_backend b =
    text_eq b (codes "virtuoso") || text_eq b (codes "oxigraph") || text_eq b (codes "fuseki-tdb2")

unfoldable pub fixed_host : Text → Text → Text
fixed_host short id =
    codes "rdf-"
    ++ short
    ++ codes "-"
    ++ id
    ++ codes "."
    ++ codes "jwb-query-local"
    ++ codes ".svc.cluster.local"

unfoldable pub is_service_of : Text → Text → Bool
is_service_of short host =
    text_eq host (fixed_host short (codes "gen-a"))
    || text_eq host (fixed_host short (codes "gen-b"))

-- `fixedKubernetesHost`, the alternatives of the pattern.
unfoldable pub is_fixed_kubernetes_host : Text → Bool
is_fixed_kubernetes_host host =
    is_service_of (codes "virtuoso") host
    || is_service_of (codes "oxigraph") host
    || is_service_of (codes "fuseki") host

-- `fixedStandaloneHost`.
unfoldable pub is_fixed_standalone_host : Text → Bool
is_fixed_standalone_host host = text_eq host (codes "backend-a") || text_eq host (codes "backend-b")

unfoldable pub is_local_host : Text → Bool
is_local_host host =
    text_eq host (codes "127.0.0.1")
    || is_fixed_kubernetes_host host
    || is_fixed_standalone_host host

unfoldable pub is_local_endpoint : Url → Bool
is_local_endpoint u =
    text_eq u.protocol (codes "http:") && is_local_host u.hostname && has_no_credentials u

-- `endpoint`.
unfoldable pub endpoint : Host → Option EndpointValue → Text → Result Endpoint
endpoint h none access = err (codes "invalid generation endpoint descriptor")
endpoint h (some value) access = do
  check (is_exactly value.access access) (codes "invalid generation endpoint descriptor")
  url ← h.parse_url (string_of value.url)
  check (is_local_endpoint url) (codes "generation endpoint must be local")
  ok (record { url = url.href; access = access })

unfoldable pub validate_generation_descriptor : Host → Description → Result GenerationDescriptor
validate_generation_descriptor h v = do
  let generation = string_of v.generation_id
  let source = string_of v.source_identity
  let backend = string_of v.backend_type
  check (is_generation_id generation) (codes "invalid generation ID")
  check (is_source source) (codes "invalid source identity")
  check (is_generation_backend backend) (codes "invalid generation backend")
  check (is_exactly v.partition_model partition_model_v1) (codes "unsupported RDF partition model")
  check (is_exactly v.normalization_model normalization_model_v1)
      (codes "unsupported RDF normalization model")
  query ← endpoint h v.query_endpoint (codes "internal-read")
  update ← endpoint h v.internal_update_endpoint (codes "internal-write")
  ok (record {
    generation_id = generation;
    source_identity = source;
    backend_type = backend;
    normalization_model = normalization_model_v1;
    partition_model = partition_model_v1;
    query_endpoint = query;
    internal_update_endpoint = update;
  })

-- What the worker says of its generation, with the endpoints of its driver.
unfoldable pub worker_description : WorkerConfig → Text → Text → Description
worker_description c query update = record {
  generation_id = some c.generation_id;
  source_identity = some c.source_identity;
  backend_type = some c.backend_type;
  partition_model = some c.partition_model;
  normalization_model = some c.normalization_model;
  query_endpoint = some (record { url = some query; access = some (codes "internal-read") });
  internal_update_endpoint =
      some (record { url = some update; access = some (codes "internal-write") });
}
