-- ===== src/Backends/Http.antt =====
-- `request` of services/rdf-backends/src/sparql-http-backend.js, and the URLs that it is given. The world
-- that the calls act on is a parameter, with what they do to it. A body is the list of its UTF-16 units.
use custom_wikibase.Prelude.{
  ℕ, Bool, not, ◌&&◌, ◌||◌, Option, none, some, List, [], ◌∷◌, ◌++◌, Text, codes, ◌==◌, leb, ltb,
  length, text_eq, strip_prefix, starts_with, Dict, insert, Result, ok, err, Exec, pure, lift,
  ◌>>=◌, if◌then◌else◌,
}
use custom_wikibase.Config.Values.{Url, Host, has_no_credentials}
use custom_wikibase.Backends.Digest.{Credentials, truthy, parse_digest_challenge, authorization}

pub record Init : Type 0 where
  pub method : Text
  pub headers : Dict Text
  pub body : Option Text

pub record Response : Type 0 where
  pub status : ℕ
  pub challenge : Option Text
  pub body : Text

-- What the code reads of a JSON document: whether it is `null`, and the member `boolean`.
pub data Answer : Type 0 where
  null_answer : Answer
  answer : Option Bool → Answer

-- `fetch` under its time limit, the files, the random bytes and the digests, and what a URL does.
pub record Net (W : Type 0) : Type 0 where
  pub host : Host
  pub set_parameter : Url → Text → Text → Text
  pub append_parameter : Url → Text → Text → Url
  pub fetch : Text → Init → Exec W Response
  pub read_file : Text → Exec W Text
  pub write_file : Text → Text → Exec W (Unit {0})
  pub random_hex : Exec W Text
  pub json : Text → Result Answer
  pub md5 : Text → Text
  pub sha256 : Text → Text
  pub byte_length : Text → ℕ

-- `response.ok`.
unfoldable pub is_ok : Response → Bool
is_ok r = leb 200 r.status && ltb r.status 300

-- `{ ...first, ...second }`.
unfoldable pub merge {ℓ} : {V : Type ℓ} → Dict V → Dict V → Dict V
merge first [] = first
merge first ((k, v) ∷ second) = merge (insert k v first) second

-- The challenge, after `Digest `, where the response asks for one.
unfoldable pub challenge_of : Response → Option Text
challenge_of r =
    if not (r.status == 401)
    then none
    else elim r.challenge [ none ↦ none | some t ↦ strip_prefix (codes "Digest ") t ]

module _ {W : Type 0} where
  unfoldable pub answer_challenge : Net W → Credentials → Text → Init → Text → Exec W Response
  answer_challenge n auth url init challenge = do
    values ← lift (parse_digest_challenge challenge)
    target ← lift (n.host.parse_url url)
    cnonce ← n.random_hex
    n.fetch url (record init {
      headers =
          insert (codes "authorization")
            (authorization n.md5 auth values init.method (target.pathname ++ target.search) cnonce)
            init.headers;
    })

  -- The first response stands, unless it holds a challenge.
  unfoldable pub after_first :
      Net W → Credentials → Text → Init → Response → Option Text → Exec W Response
  after_first n auth url init first none = pure first
  after_first n auth url init first (some challenge) = answer_challenge n auth url init challenge

  unfoldable pub digest_request : Net W → Credentials → Text → Init → Exec W Response
  digest_request n auth url init = do
    first ← n.fetch url init
    after_first n auth url init first (challenge_of first)

  unfoldable pub request : Net W → Option Credentials → Text → Init → Bool → Exec W Response
  request n none url init authenticate = n.fetch url init
  request n (some auth) url init authenticate =
      if authenticate then digest_request n auth url init else n.fetch url init

  -- `checkedUrl`.
  unfoldable pub checked_url : Net W → Text → Result Text
  checked_url n value = elim (n.host.parse_url value) [
    | err e ↦ err e
    | ok url ↦
        if (text_eq url.protocol (codes "http:") || text_eq url.protocol (codes "https:"))
          && has_no_credentials url
        then ok url.href
        else err (codes "invalid RDF endpoint URL")
  ]

  -- `requireGraphIri`.
  unfoldable pub require_graph_iri : Net W → Text → Result (Unit {0})
  require_graph_iri n value = elim (n.host.parse_url value) [
    | err e ↦ err e
    | ok url ↦
        if text_eq url.protocol (codes "http:")
          || text_eq url.protocol (codes "https:")
          || text_eq url.protocol (codes "urn:")
        then ok tt
        else err (codes "invalid named graph IRI")
  ]

  -- `graphUrl`.
  unfoldable pub graph_url : Net W → Option Text → Option Text → Result Text
  graph_url n base graph = elim (truthy base) [
    | none ↦ err (codes "graph store endpoint is unavailable")
    | some b ↦ elim (n.host.parse_url b) [
      | err e ↦ err e
      | ok url ↦ elim (truthy graph) [
        | none ↦ ok (n.set_parameter url (codes "default") [])
        | some g ↦ ok (n.set_parameter url (codes "graph") g)
      ]
    ]
  ]

  unfoldable pub append_graphs : Net W → List Text → Url → Result Url
  append_graphs n [] url = ok url
  append_graphs n (g ∷ gs) url = elim (require_graph_iri n g) [
    | err e ↦ err e
    | ok _ ↦
        if starts_with (codes "urn:jwb:") g
        then append_graphs n gs (n.append_parameter url (codes "default-graph-uri") g)
        else err (codes "logical dataset graph is not managed")
  ]

  -- `logicalDatasetUrl`.
  unfoldable pub logical_dataset_url : Net W → Text → List Text → Result Text
  logical_dataset_url n base graphs =
      if ltb 10000 (length graphs)
      then err (codes "invalid logical dataset graph list")
      else elim (n.host.parse_url base) [
        | err e ↦ err e
        | ok url ↦ elim (append_graphs n graphs url) [ err e ↦ err e | ok u ↦ ok u.href ]
      ]
