-- ===== src/Config/Worker.antt =====
-- `loadConfig` of apps/rdf-sync-worker/src/config.js.
use custom_wikibase.Prelude.{
  ℕ, Bool, true, ◌&&◌, ◌||◌, Option, none, some, [], ◌∷◌, Text, codes, text_eq, lookup, Result, ok,
  err, if◌then◌else◌,
}
use custom_wikibase.Prelude.Results.{◌>>=◌, ◌>>◌, check}
use custom_wikibase.QueryRouter.{is_source}
use custom_wikibase.Config.Values.{
  Env, Url, Host, env_or, bounded, has_no_credentials, without_slash, is_wikibase_host,
  is_database_url, is_user_and_password, is_local_database, is_cluster_database,
  is_compose_database,
}

pub data Runtime : Type 0 where
  local_compose standalone_compose kubernetes : Runtime

pub record WorkerConfig : Type 0 where
  pub backend_type : Text
  pub runtime_type : Runtime
  pub source_url : Text
  pub canonical_public_url : Text
  pub source_identity : Text
  pub generation_id : Text
  pub normalization_model : Text
  pub partition_model : Text
  pub poll_interval_ms : ℕ
  pub page_size : ℕ
  pub batch_size : ℕ
  pub port : ℕ
  pub database_url : Text
  pub crash_at : Option Text

-- The names that a runtime may have.
unfoldable pub runtime_of : Text → Text → Result Runtime
runtime_of message name =
    if text_eq name (codes "local-compose")
    then ok local_compose
    else if text_eq name (codes "standalone-compose")
    then ok standalone_compose
    else if text_eq name (codes "kubernetes")
    then ok kubernetes
    else err message

-- BACKENDS.
unfoldable pub is_worker_backend : Text → Bool
is_worker_backend b =
    text_eq b (codes "fuseki-tdb2") || text_eq b (codes "virtuoso") || text_eq b (codes "oxigraph")

-- CRASH_POINTS.
unfoldable pub is_crash_point : Text → Bool
is_crash_point p =
    text_eq p (codes "AFTER_RC_FETCH")
    || text_eq p (codes "AFTER_RDF_FETCH")
    || text_eq p (codes "AFTER_BACKEND_UPDATE")
    || text_eq p (codes "AFTER_FENCE_BEFORE_CURSOR")

-- `/^gen-(?:a|b)$/u`.
unfoldable pub is_slot : Text → Bool
is_slot id = text_eq id (codes "gen-a") || text_eq id (codes "gen-b")

-- The hosts of the wiki, for a runtime.
unfoldable pub is_source_host : Runtime → Text → Bool
is_source_host local_compose host = text_eq host (codes "127.0.0.1")
is_source_host standalone_compose host = is_wikibase_host host
is_source_host kubernetes host =
    text_eq host (codes "japan-wikibase.jwb-instance-local-01.svc.cluster.local")

unfoldable pub is_trusted_url : Runtime → Url → Bool
is_trusted_url runtime u =
    text_eq u.protocol (codes "http:") && is_source_host runtime u.hostname && has_no_credentials u

-- `trustedUrl`.
unfoldable pub trusted_url : Host → Text → Runtime → Result Url
trusted_url h value runtime = do
  url ← h.parse_url value
  check (is_trusted_url runtime url) (codes "source URL must be local HTTP")
  ok url

unfoldable pub is_origin : Url → Bool
is_origin u =
    (text_eq u.protocol (codes "http:") || text_eq u.protocol (codes "https:"))
    && has_no_credentials u
    && text_eq u.pathname (codes "/")
    && text_eq u.search []
    && text_eq u.hash []

-- `publicUrl`.
unfoldable pub public_url : Host → Text → Result Url
public_url h value = do
  url ← h.parse_url value
  check (is_origin url) (codes "canonical public URL must be an HTTP origin")
  ok url

-- `databasePattern`.
unfoldable pub is_worker_database : Runtime → Text → Bool
is_worker_database kubernetes = is_database_url is_user_and_password is_cluster_database
is_worker_database standalone_compose = is_database_url is_user_and_password is_compose_database
is_worker_database local_compose = is_database_url is_user_and_password is_local_database

abbrev pub default_public_url : Runtime → Text
default_public_url standalone_compose = codes "http://127.0.0.1:8280"
default_public_url _ = codes "http://127.0.0.1:8180"

-- `env.JWB_SYNC_CRASH_AT || null`.
unfoldable pub crash_of : Env → Option Text
crash_of env = elim (lookup (codes "JWB_SYNC_CRASH_AT") env) [
  | none ↦ none
  | some [] ↦ none
  | some (c ∷ s) ↦ some (c ∷ s)
]

abbrev pub is_allowed_crash : Option Text → Bool
is_allowed_crash none = true
is_allowed_crash (some p) = is_crash_point p

unfoldable pub load_config : Host → Env → Result WorkerConfig
load_config h env = do
  runtime ←
      runtime_of (codes "JWB_SYNC_RUNTIME must be allowlisted")
        (env_or (codes "JWB_SYNC_RUNTIME") (codes "local-compose") env)
  let backend = env_or (codes "JWB_SYNC_BACKEND") [] env
  check (is_worker_backend backend) (codes "JWB_SYNC_BACKEND must be allowlisted")
  source ←
      trusted_url h (env_or (codes "JWB_SYNC_SOURCE_URL") (codes "http://127.0.0.1:8180") env)
        runtime
  canonical ←
      public_url h (env_or (codes "JWB_CANONICAL_PUBLIC_URL") (default_public_url runtime) env)
  let identity = env_or (codes "JWB_SYNC_SOURCE_IDENTITY") (codes "jwb-local") env
  check (is_source identity) (codes "invalid source identity")
  let generation = env_or (codes "JWB_SYNC_GENERATION_ID") [] env
  check (is_slot generation) (codes "fixed local generation ID is required")
  poll ← bounded h (lookup (codes "JWB_SYNC_POLL_INTERVAL_MS") env) 100 60000 2000
  page ← bounded h (lookup (codes "JWB_SYNC_PAGE_SIZE") env) 1 100 50
  batch ← bounded h (lookup (codes "JWB_SYNC_BATCH_SIZE") env) 1 100 50
  port ← bounded h (lookup (codes "JWB_SYNC_HEALTH_PORT") env) 1024 65535 9191
  check (is_allowed_crash (crash_of env))
      (codes "JWB_SYNC_CRASH_AT must be an allowlisted qualification point")
  let database = env_or (codes "JWB_SYNC_DATABASE_URL") [] env
  check (is_worker_database runtime database) (codes "trusted PostgreSQL URL is required")
  ok (record {
    backend_type = backend;
    runtime_type = runtime;
    source_url = without_slash source.href;
    canonical_public_url = without_slash canonical.href;
    source_identity = identity;
    generation_id = generation;
    normalization_model = codes "jwb-rdf-normalization-v1";
    partition_model = codes "jwb-partition-v1";
    poll_interval_ms = poll;
    page_size = page;
    batch_size = batch;
    port = port;
    database_url = database;
    crash_at = crash_of env;
  })
