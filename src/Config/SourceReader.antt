-- ===== src/Config/SourceReader.antt =====
-- `loadSourceReaderConfig` of apps/rdf-source-reader/src/config.js.
use custom_wikibase.Prelude.{ℕ, Bool, true, false, [], ◌∷◌, Text, codes, lookup, Result, ok}
use custom_wikibase.Prelude.Results.{◌>>=◌, ◌>>◌, check}
use custom_wikibase.QueryRouter.{is_source}
use custom_wikibase.Config.Values.{
  Env, Host, env_or, bounded, without_slash, is_database_url, is_user_and_password,
  is_local_database, is_cluster_database, is_compose_database,
}
use custom_wikibase.Config.Worker.{
  Runtime, local_compose, standalone_compose, kubernetes, runtime_of, trusted_url,
}

pub record ReaderConfig : Type 0 where
  pub source_url : Text
  pub runtime_type : Runtime
  pub source_identity : Text
  pub database_url : Text
  pub poll_interval_ms : ℕ
  pub page_size : ℕ

-- `[^@/]+(?::[^@/]*)?`, of a text without `@` and `/`: the password may be left out.
unfoldable pub is_user : Text → Bool
is_user [] = false
is_user (c ∷ s) = true

-- The patterns of the database, for a runtime.
unfoldable pub is_reader_database : Runtime → Text → Bool
is_reader_database kubernetes = is_database_url is_user_and_password is_cluster_database
is_reader_database standalone_compose = is_database_url is_user_and_password is_compose_database
is_reader_database local_compose = is_database_url is_user is_local_database

unfoldable pub load_source_reader_config : Host → Env → Result ReaderConfig
load_source_reader_config h env = do
  runtime ←
      runtime_of (codes "source reader runtime must be allowlisted")
        (env_or (codes "JWB_SOURCE_READER_RUNTIME") (codes "local-compose") env)
  source ←
      trusted_url h (env_or (codes "JWB_SOURCE_READER_URL") (codes "http://127.0.0.1:8180") env)
        runtime
  let identity = env_or (codes "JWB_SOURCE_READER_IDENTITY") (codes "jwb-local") env
  check (is_source identity) (codes "invalid source identity")
  let database = env_or (codes "JWB_SOURCE_READER_DATABASE_URL") [] env
  check (is_reader_database runtime database) (codes "local PostgreSQL URL is required")
  poll ← bounded h (lookup (codes "JWB_SOURCE_READER_POLL_MS") env) 100 60000 1000
  page ← bounded h (lookup (codes "JWB_SOURCE_READER_PAGE_SIZE") env) 1 100 50
  ok (record {
    source_url = without_slash source.href;
    runtime_type = runtime;
    source_identity = identity;
    database_url = database;
    poll_interval_ms = poll;
    page_size = page;
  })
