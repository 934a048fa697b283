-- ===== src/QueryRouter.antt =====
-- apps/query-router/src/generation-resolver.js: where the router sends the queries of the generation
-- that the serving pointer names. The table `rdf_generation` is a part of the state.
pub mod Routes
pub mod Hosts
use custom_wikibase.Prelude.{
  ℕ, Bool, true, false, not, ◌&&◌, ◌||◌, Option, none, some, List, [], ◌∷◌, ◌++◌, Text, codes, ◌==◌,
  leb, ltb, length, is_digit, text_eq, Result, ok, err, Exec, pure, throw, lift, throw_if, ◌>>=◌,
  if◌then◌else◌,
}
use custom_wikibase.Serving.Tables.{select_where, the_row}
use custom_wikibase.Serving.Pointer.{is_generation_id}

-- A row, after `normalize`. A column that is null reads as the empty text, which passes no test.
pub record Descriptor : Type 0 where
  pub source_identity : Text
  pub generation_id : Text
  pub backend_type : Text
  pub state : Text
  pub protection_state : Text
  pub normalization_model : Text
  pub partition_model : Text
  pub runtime_type : Text
  pub namespace : Option Text

-- What the router reads of the serving pointer.
pub record ServingPointer : Type 0 where
  pub source_identity : Text
  pub generation_id : Option Text
  pub version : ℕ

pub record Target : Type 0 where
  pub query_url : Text
  pub health_url : Text
  pub allowed_hostname : Text

pub record Cached : Type 0 where
  pub pointer_version : ℕ
  pub generation_id : Text
  pub target : Target

pub record Resolver : Type 0 where
  pub cache : Option Cached
  pub table : List Descriptor

abbrev pub unresolvable : Text
unresolvable = codes "ROUTER_TARGET_UNRESOLVABLE"

abbrev is_source_start : ℕ → Bool
is_source_start c = (leb b'a' c && leb c b'z') || is_digit c

-- `[a-z0-9.-]*`, to the end.
unfoldable pub all_source : Text → Bool
all_source [] = true
all_source (c ∷ s) = (is_source_start c || c == b'.' || c == b'-') && all_source s

-- SOURCE, `/^[a-z0-9][a-z0-9.-]{0,127}$/u`.
unfoldable pub is_source : Text → Bool
is_source [] = false
is_source (c ∷ s) = is_source_start c && all_source s && leb (length s) 127

-- RUNTIMES.
unfoldable pub is_runtime : Text → Bool
is_runtime runtime =
    text_eq runtime (codes "kubernetes")
    || text_eq runtime (codes "compose")
    || text_eq runtime (codes "standalone-compose")

-- `routableLifecycle`.
unfoldable pub is_routable : Descriptor → Bool
is_routable v =
    (text_eq v.state (codes "READY") && text_eq v.protection_state (codes "NONE"))
    || (text_eq v.state (codes "SERVING") && text_eq v.protection_state (codes "SERVING"))
    || (text_eq v.state (codes "RETIRING") && text_eq v.protection_state (codes "ROLLBACK"))

-- The constructor.
unfoldable pub new_resolver : Text → List Descriptor → Result Resolver
new_resolver runtime table =
    if is_runtime runtime
    then ok (record { cache = none; table = table })
    else err (codes "invalid generation resolver configuration")

pub record Profile : Type 0 where
  pub short : Text
  pub port : Text
  pub path : Text

-- The profiles, of the backends that BACKENDS names.
unfoldable pub profile_of : Text → Option Profile
profile_of backend =
    if text_eq backend (codes "virtuoso")
    then some (record { short = codes "virtuoso"; port = codes "8890"; path = codes "/sparql" })
    else if text_eq backend (codes "oxigraph")
    then some (record { short = codes "oxigraph"; port = codes "7878"; path = codes "/query" })
    else if text_eq backend (codes "fuseki-tdb2")
    then some (record { short = codes "fuseki"; port = codes "3030"; path = codes "/jwb/query" })
    else none

-- `http://${host}:${port}${path}`, for queries and for health.
unfoldable pub target_at : Text → Profile → Target
target_at host profile =
    let url = codes "http://" ++ host ++ codes ":" ++ profile.port ++ profile.path in
    record { query_url = url; health_url = url; allowed_hostname = host }

unfoldable pub standalone_host : Text → Option Text
standalone_host id =
    if text_eq id (codes "gen-a")
    then some (codes "backend-a")
    else if text_eq id (codes "gen-b")
    then some (codes "backend-b")
    else none

unfoldable pub kubernetes_host : Text → Text → Text → Text
kubernetes_host short id namespace =
    codes "rdf-" ++ short ++ codes "-" ++ id ++ codes "." ++ namespace ++ codes ".svc.cluster.local"

unfoldable pub is_namespace : Option Text → Bool
is_namespace none = false
is_namespace (some namespace) = text_eq namespace (codes "jwb-query-local")

-- The host of a generation, in the runtime.
unfoldable pub host_of : Text → Descriptor → Profile → Option Text
host_of runtime v profile =
    if text_eq runtime (codes "standalone-compose")
    then standalone_host v.generation_id
    else if text_eq runtime (codes "kubernetes") && is_namespace v.namespace
    then some (kubernetes_host profile.short v.generation_id (codes "jwb-query-local"))
    else none

abbrev pub stored_runtime : Text → Text
stored_runtime runtime =
    if text_eq runtime (codes "standalone-compose") then codes "compose" else runtime

-- The guard of `deriveTarget`, but for the backend.
unfoldable pub is_trusted : Text → Text → Descriptor → Bool
is_trusted source runtime v =
    text_eq v.source_identity source
    && is_source v.source_identity
    && is_generation_id v.generation_id
    && text_eq v.runtime_type (stored_runtime runtime)
    && text_eq v.normalization_model (codes "jwb-rdf-normalization-v1")
    && text_eq v.partition_model (codes "jwb-partition-v1")
    && is_routable v

unfoldable pub derive_target : Text → Text → Descriptor → Result Target
derive_target source runtime v =
    if not (is_trusted source runtime v)
    then err unresolvable
    else elim (profile_of v.backend_type) [
      | none ↦ err unresolvable
      | some profile ↦ elim (host_of runtime v profile) [
        | none ↦ err unresolvable
        | some host ↦ ok (target_at host profile)
      ]
    ]

-- `WHERE source_identity=$1 AND generation_id=$2`.
abbrev pub describes : Text → Text → Descriptor → Bool
describes source id v = text_eq v.source_identity source && text_eq v.generation_id id

-- `PostgresGenerationDescriptorRepository`.
unfoldable pub get_descriptor : Text → Text → List Descriptor → Result Descriptor
get_descriptor source id table =
    if not (is_source source && is_generation_id id)
    then err unresolvable
    else elim (the_row (select_where (describes source id) table)) [
      | none ↦ err unresolvable
      | some v ↦ ok v
    ]

-- `validatePointer`; the generation that the pointer names.
unfoldable pub validate_pointer : ServingPointer → Result Text
validate_pointer p = elim p.generation_id [
  | none ↦ err unresolvable
  | some id ↦
      if not (is_source p.source_identity) || not (is_generation_id id) || ltb p.version 1
      then err unresolvable
      else ok id
]

unfoldable pub cached_target : ℕ → Text → Option Cached → Option Target
cached_target version id none = none
cached_target version id (some c) =
    if c.pointer_version == version && text_eq c.generation_id id then some c.target else none

-- The part after the cache.
unfoldable pub look_up : Text → ServingPointer → Text → Exec Resolver Target
look_up runtime p id = do
  v ← (λ r. (get_descriptor p.source_identity id r.table, r))
  target ← lift (derive_target p.source_identity runtime v)
  (λ r. pure target (record r {
    cache = some (record { pointer_version = p.version; generation_id = id; target = target });
  }))

unfoldable pub resolve : Text → ServingPointer → Exec Resolver Target
resolve runtime p = do
  id ← lift (validate_pointer p)
  (λ r. elim (cached_target p.version id r.cache) [
    | some target ↦ pure target r
    | none ↦ look_up runtime p id r
  ])
