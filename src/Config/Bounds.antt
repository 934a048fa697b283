-- ===== src/Config/Bounds.antt =====
-- What `load_config` and `load_source_reader_config` make of the environment.
use mathlib.Core.Path.{subst}
use custom_wikibase.Prelude.{
  ℕ, true, Option, none, some, [], ◌∷◌, ◌≤◌, ◌≡◌, ◌⊎◌, refl, arith, Text, codes, text_eq,
  text_eq_iff, ok, Bool-cases, inl, inr,
}
use custom_wikibase.Prelude.Results.{after, after_check, ok-injective}
use custom_wikibase.QueryRouter.{is_source}
use custom_wikibase.Config.Values.{
  Env, Host, Url, env_or, without_slash, has_no_credentials, is_wikibase_host, is_empty_text,
  bounded,
}
use custom_wikibase.Config.Worker.{
  Runtime, local_compose, standalone_compose, kubernetes, WorkerConfig, is_source_host,
  is_worker_backend, is_slot, is_trusted_url, trusted_url, is_origin, default_public_url,
  public_url, is_worker_database, is_allowed_crash, load_config,
}
use custom_wikibase.Config.SourceReader.{
  ReaderConfig, is_reader_database, load_source_reader_config,
}

abbrev pub IsBetween : ℕ → ℕ → ℕ → Type 0
IsBetween min max n = (min ≤ n) × (n ≤ max)

pub bounded-IsBetween :
    (h : Host) (v : Option Text) (min max fallback : ℕ) {n : ℕ}
    → bounded h v min max fallback ≡ ok n
    → IsBetween min max n
unfolding bounded
bounded-IsBetween h none min max fallback e = ground arith
bounded-IsBetween h (some v) min max fallback e = ground arith

-- The host of the wiki, for a runtime.
abbrev pub IsSourceHost : Runtime → Text → Type 0
IsSourceHost local_compose host = host ≡ codes "127.0.0.1"
IsSourceHost standalone_compose host = is_wikibase_host host ≡ true
IsSourceHost kubernetes host = host ≡ codes "japan-wikibase.jwb-instance-local-01.svc.cluster.local"

abbrev pub HasNoCredentials : Url → Type 0
HasNoCredentials u = (u.username ≡ []) × (u.password ≡ [])

-- The source of the runtime, over HTTP, without credentials.
abbrev pub IsSource : Runtime → Url → Type 0
IsSource runtime u =
    (u.protocol ≡ codes "http:") × IsSourceHost runtime u.hostname × HasNoCredentials u

-- A scheme and a host, and no more.
abbrev pub IsOrigin : Url → Type 0
IsOrigin u =
    ((u.protocol ≡ codes "http:") ⊎ (u.protocol ≡ codes "https:"))
    × HasNoCredentials u
    × (u.pathname ≡ codes "/")
    × (u.search ≡ [])
    × (u.hash ≡ [])

-- The text that is kept of a URL is that of what the host's parser read, which has the property.
abbrev pub IsParsed : Host → (Url → Type 0) → Text → Text → Type 0
IsParsed h P value kept =
    (u : Url) × (h.parse_url value ≡ ok u) × (kept ≡ without_slash u.href) × P u

is_empty_text-nil : (s : Text) → is_empty_text s ≡ true → s ≡ []
is_empty_text-nil [] e = refl
is_empty_text-nil (c ∷ s) e = cc

has_no_credentials-HasNoCredentials : (u : Url) → has_no_credentials u ≡ true → HasNoCredentials u
unfolding has_no_credentials
has_no_credentials-HasNoCredentials u e =
    (is_empty_text-nil u.username (ground arith), is_empty_text-nil u.password (ground arith))

is_source_host-IsSourceHost :
    (runtime : Runtime) (host : Text)
    → is_source_host runtime host ≡ true
    → IsSourceHost runtime host
unfolding is_source_host
is_source_host-IsSourceHost local_compose host e = (text_eq_iff _ _).0 e
is_source_host-IsSourceHost standalone_compose host e = e
is_source_host-IsSourceHost kubernetes host e = (text_eq_iff _ _).0 e

is_trusted_url-IsSource :
    (runtime : Runtime) (u : Url) → is_trusted_url runtime u ≡ true → IsSource runtime u
unfolding is_trusted_url
is_trusted_url-IsSource runtime u e = (
  (text_eq_iff _ _).0 (ground arith),
  is_source_host-IsSourceHost runtime u.hostname (ground arith),
  has_no_credentials-HasNoCredentials u (ground arith),
)

is_origin-IsOrigin : (u : Url) → is_origin u ≡ true → IsOrigin u
unfolding is_origin
is_origin-IsOrigin u e = (
  elim (Bool-cases (text_eq u.protocol (codes "http:"))) [
    | inl http ↦ inl ((text_eq_iff _ _).0 http)
    | inr other ↦ inr ((text_eq_iff _ _).0 (ground arith))
  ],
  has_no_credentials-HasNoCredentials u (ground arith),
  (text_eq_iff _ _).0 (ground arith),
  (text_eq_iff _ _).0 (ground arith),
  (text_eq_iff _ _).0 (ground arith),
)

trusted_url-IsParsed :
    (h : Host) (t : Text) (runtime : Runtime) (u : Url)
    → trusted_url h t runtime ≡ ok u
    → IsParsed h (IsSource runtime) t (without_slash u.href)
unfolding trusted_url
trusted_url-IsParsed h t runtime u e = after e λ v parsed e1. after_check _ e1 λ is_trusted e2.
    subst (λ u. IsParsed h (IsSource runtime) t (without_slash u.href)) (ok-injective e2)
      (v, parsed, refl, is_trusted_url-IsSource runtime v is_trusted)

public_url-IsParsed :
    (h : Host) (t : Text) (u : Url)
    → public_url h t ≡ ok u
    → IsParsed h IsOrigin t (without_slash u.href)
unfolding public_url
public_url-IsParsed h t u e = after e λ v parsed e1. after_check _ e1 λ is_public e2.
    subst (λ u. IsParsed h IsOrigin t (without_slash u.href)) (ok-injective e2)
      (v, parsed, refl, is_origin-IsOrigin v is_public)

-- What an accepted configuration of the sync worker is.
unfoldable pub WorkerIsSafe : Host → Env → WorkerConfig → Type 0
WorkerIsSafe h env c =
    IsBetween 100 60000 c.poll_interval_ms
    × IsBetween 1 100 c.page_size
    × IsBetween 1 100 c.batch_size
    × IsBetween 1024 65535 c.port
    × (is_worker_backend c.backend_type ≡ true)
    × (is_slot c.generation_id ≡ true)
    × (is_source c.source_identity ≡ true)
    × (is_worker_database c.runtime_type c.database_url ≡ true)
    × (is_allowed_crash c.crash_at ≡ true)
    × (c.normalization_model ≡ codes "jwb-rdf-normalization-v1")
    × (c.partition_model ≡ codes "jwb-partition-v1")
    × IsParsed h (IsSource c.runtime_type)
        (env_or (codes "JWB_SYNC_SOURCE_URL") (codes "http://127.0.0.1:8180") env) c.source_url
    × IsParsed h IsOrigin
        (env_or (codes "JWB_CANONICAL_PUBLIC_URL") (default_public_url c.runtime_type) env)
        c.canonical_public_url

-- A sync worker that starts has its numbers in the declared ranges, an allowlisted backend, one of the
-- two fixed generations, a well-formed source identity, a trusted database of its runtime, no crash
-- point but an allowlisted one, and the two fixed models. What the host's URL parser reads in the
-- source URL of the environment or its default is a source of the worker's runtime over HTTP without
-- credentials, what it reads in the public URL is an HTTP origin, and these two are what the worker
-- keeps.
pub load_config-WorkerIsSafe :
    (h : Host) (env : Env) (c : WorkerConfig) → load_config h env ≡ ok c → WorkerIsSafe h env c
unfolding load_config WorkerIsSafe
load_config-WorkerIsSafe h env c e0 = after e0 λ _ _ e1. after_check _ e1 λ backend e2.
    after e2 λ source is_source e3. after e3 λ public is_public e4. after_check _ e4 λ identity e5.
      after_check _ e5 λ slot e6. after e6 λ _ is_poll e7. after e7 λ _ is_page e8.
        after e8 λ _ is_batch e9. after e9 λ _ is_port e10. after_check _ e10 λ crash e11.
          after_check _ e11 λ database e12. subst (WorkerIsSafe h env) (ok-injective e12) (
            bounded-IsBetween h _ _ _ _ is_poll,
            bounded-IsBetween h _ _ _ _ is_page,
            bounded-IsBetween h _ _ _ _ is_batch,
            bounded-IsBetween h _ _ _ _ is_port,
            backend,
            slot,
            identity,
            database,
            crash,
            refl,
            refl,
            trusted_url-IsParsed h _ _ source is_source,
            public_url-IsParsed h _ public is_public,
          )

-- What an accepted configuration of the source reader is.
unfoldable pub ReaderIsSafe : Host → Env → ReaderConfig → Type 0
ReaderIsSafe h env c =
    IsBetween 100 60000 c.poll_interval_ms
    × IsBetween 1 100 c.page_size
    × (is_source c.source_identity ≡ true)
    × (is_reader_database c.runtime_type c.database_url ≡ true)
    × IsParsed h (IsSource c.runtime_type)
        (env_or (codes "JWB_SOURCE_READER_URL") (codes "http://127.0.0.1:8180") env) c.source_url

-- A source reader that starts has its numbers in the declared ranges, a well-formed source identity,
-- a database of its runtime, and a source of its runtime over HTTP without credentials.
pub load_source_reader_config-ReaderIsSafe :
    (h : Host) (env : Env) (c : ReaderConfig)
    → load_source_reader_config h env ≡ ok c
    → ReaderIsSafe h env c
unfolding load_source_reader_config ReaderIsSafe
load_source_reader_config-ReaderIsSafe h env c e0 = after e0 λ _ _ e1.
    after e1 λ source is_source e2. after_check _ e2 λ identity e3. after_check _ e3 λ database e4.
      after e4 λ _ is_poll e5. after e5 λ _ is_page e6.
        subst (ReaderIsSafe h env) (ok-injective e6) (
          bounded-IsBetween h _ _ _ _ is_poll,
          bounded-IsBetween h _ _ _ _ is_page,
          identity,
          database,
          trusted_url-IsParsed h _ _ source is_source,
        )
