-- ===== src/Tests/RouterRuns.antt =====
-- The router resolves the pointer to the generation gen-a.
use custom_wikibase.Prelude.{
  ◌≡◌, refl, none, some, [], ◌∷◌, Text, codes, text_eq, strip_prefix, ok, true, inl, inr, ◌>>=◌,
}
use custom_wikibase.Serving.Tables.{select_where, the_row}
use custom_wikibase.Serving.Pointer.{all_slug, is_slug, is_generation_id}
use custom_wikibase.QueryRouter.{
  Descriptor, ServingPointer, Target, Resolver, all_source, is_source, is_routable, profile_of,
  target_at, standalone_host, kubernetes_host, is_namespace, host_of, is_trusted, derive_target,
  get_descriptor, validate_pointer, cached_target, look_up, resolve,
}
use custom_wikibase.QueryRouter.Routes.{RoutesTo, CacheIsTrusted, resolve-RoutesTo}
use custom_wikibase.QueryRouter.Hosts.{RoutesTo-host_injective}
use custom_wikibase.Config.Worker.{is_slot}
use custom_wikibase.Config.Descriptor.{is_local_host}
use custom_wikibase.Config.Described.{derive_target-is_local_host}

abbrev runtime : Text
runtime = codes "kubernetes"

abbrev oxigraph_a : Descriptor
oxigraph_a = record {
  source_identity = codes "wiki";
  generation_id = codes "gen-a";
  backend_type = codes "oxigraph";
  state = codes "SERVING";
  protection_state = codes "SERVING";
  normalization_model = codes "jwb-rdf-normalization-v1";
  partition_model = codes "jwb-partition-v1";
  runtime_type = runtime;
  namespace = some (codes "jwb-query-local");
}

abbrev empty_cache : Resolver
empty_cache = record { cache = none; table = oxigraph_a ∷ [] }

abbrev at_a : ServingPointer
at_a = record { source_identity = codes "wiki"; generation_id = some (codes "gen-a"); version = 1 }

abbrev url : Text
url = codes "http://rdf-oxigraph-gen-a.jwb-query-local.svc.cluster.local:7878/query"

abbrev target_a : Target
target_a = record {
  query_url = url;
  health_url = url;
  allowed_hostname = codes "rdf-oxigraph-gen-a.jwb-query-local.svc.cluster.local";
}

routing : Unit {0}
unfolding text_eq strip_prefix ◌>>=◌ select_where the_row all_slug is_slug is_generation_id
    all_source is_source is_routable profile_of target_at standalone_host kubernetes_host
    is_namespace host_of is_trusted derive_target get_descriptor validate_pointer cached_target
    look_up resolve
routing = tt

resolved_a : (resolve runtime at_a empty_cache).0 ≡ ok target_a
unfolding routing
resolved_a = refl

empty-CacheIsTrusted : CacheIsTrusted (codes "wiki") runtime empty_cache
empty-CacheIsTrusted c e = cc

target_a-RoutesTo : RoutesTo (codes "wiki") empty_cache.table runtime (codes "gen-a") target_a
unfolding routing
target_a-RoutesTo = record {
  descriptor = oxigraph_a;
  listed = refl;
  lifecycle = inr (inl (refl, refl));
  normalized = refl;
  partitioned = refl;
  runs = refl;
  profile = record { short = codes "oxigraph"; port = codes "7878"; path = codes "/query" };
  known = refl;
  host = codes "rdf-oxigraph-gen-a.jwb-query-local.svc.cluster.local";
  hosted = refl;
  reached = refl;
}

resolve-RoutesTo_example :
    (id : Text) × (at_a.generation_id ≡ some id)
    × RoutesTo (codes "wiki") empty_cache.table runtime id target_a
    × CacheIsTrusted (codes "wiki") runtime (resolve runtime at_a empty_cache).1
unfolding routing
resolve-RoutesTo_example =
    resolve-RoutesTo runtime at_a empty_cache target_a empty-CacheIsTrusted refl

RoutesTo-host_injective_example : ◌≡◌ {A = Text} (codes "gen-a") (codes "gen-a")
RoutesTo-host_injective_example =
    RoutesTo-host_injective (codes "wiki") empty_cache.table runtime (codes "gen-a") (codes "gen-a")
      target_a target_a target_a-RoutesTo target_a-RoutesTo refl

derive_target-is_local_host_example : is_local_host target_a.allowed_hostname ≡ true
unfolding routing is_slot
derive_target-is_local_host_example =
    derive_target-is_local_host (codes "wiki") runtime oxigraph_a target_a refl refl
