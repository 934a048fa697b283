-- ===== src/Tests/BackendRuns.antt =====
-- A store that asks for a digest takes a graph at the second request.
use mathlib.Core.Path.{subst}
use custom_wikibase.Prelude.{
  ℕ, suc, ◌≤◌, ◌≡◌, refl, sym, ap, ◌∙◌, ◌≢◌, Bool-cases, inl, inr, arith, Bool, true, false, Option,
  none, some, is_some, [], ◌∷◌, ◌++◌, Text, codes, text_eq, text_eq_refl, text_eq_iff, strip_prefix,
  includes, Dict, lookup, insert, lookup-insert, length, Result, ok, Exec, ◌>>=◌, throw_if,
  try_catch, if◌then◌else◌,
}
use custom_wikibase.Prelude.Results.{ok-injective}
use custom_wikibase.Prelude.Results as Results
use custom_wikibase.Prelude.Runs.{Keeps}
use custom_wikibase.Serving.Pointer.{all_slug, is_slug}
use custom_wikibase.Config.Values.{Url}
use custom_wikibase.Backends.Metadata.{
  RdfBackendMetadata, capability_names, keys, not_in, refuse, boolean_of, normalized,
  type_of_backend, map_of, validate_rdf_backend_metadata, has_capability, backend_types, join_names,
}
use custom_wikibase.Backends.Normal.{as_value, values, validate_rdf_backend_metadata-as_value}
use custom_wikibase.Backends.Digest.{
  quoted, token, token_value, value_of, scan_step, scan, split_commas, trim_start, trim_end,
  trim_all, truthy, offers_auth, parse_digest_challenge, field, authorization,
}
use custom_wikibase.Backends.Http.{
  Init, Response, answer, Net, is_ok, merge, challenge_of, answer_challenge, after_first,
  digest_request, request, require_graph_iri, graph_url,
}
use custom_wikibase.Backends.Sparql.{
  SparqlHttpBackend, Snapshot, Health, require_capability, send, query, responsive, health,
  initialize, reset, put_graph_at, put_graph, replace_named_graph,
}
use custom_wikibase.Backends.Stored.{Puts, replace_named_graph-Held}
use custom_wikibase.Backends.Requests.{reads-Keep, initialize_returns, request_bounded}

record Store : Type 0 where
  graphs : Dict Text
  requests : ℕ

abbrev counted : Store → Store
counted w = record w { requests = suc w.requests }

abbrev responds : ℕ → Option Text → Response
responds status challenge = record { status = status; challenge = challenge; body = codes "{}" }

abbrev stored : Text → Option Text → Store → Result Response × Store
stored url none w = (ok (responds 400 none), counted w)
stored url (some body) w = (
  ok (responds 201 none),
  record w { graphs = insert url body w.graphs; requests = suc w.requests },
)

abbrev read_only : Text
read_only = codes "http://127.0.0.1/sparql"

-- The URL of the queries takes no graph.
abbrev queried : Bool → Store → Result Response × Store
queried true w = (ok (responds 405 none), counted w)
queried false w = (ok (responds 200 none), counted w)

abbrev fetched : Text → Init → Exec Store Response
fetched url init w =
    if text_eq url read_only
    then queried (text_eq init.method (codes "PUT")) w
    else if is_some (lookup (codes "authorization") init.headers)
    then stored url init.body w
    else (
      ok (responds 401 (some (codes "Digest realm=\"jwb\", nonce=abc, qop=\"auth\""))),
      counted w,
    )

abbrev url_of : Text → Url
url_of t = record {
  protocol = codes "http:";
  hostname = codes "127.0.0.1";
  username = [];
  password = [];
  pathname = codes "/store";
  search = [];
  hash = [];
  href = t;
}

abbrev net : Net Store
net = record {
  host = record { parse_url = λ t. ok (url_of t); number = λ t. none };
  set_parameter = λ u name value. u.href ++ codes "?" ++ name ++ codes "=" ++ value;
  append_parameter = λ u name value. u;
  fetch = fetched;
  read_file = λ source w. (ok (codes "<s> <p> <o> ."), w);
  write_file = λ destination body w. (ok tt, w);
  random_hex = λ w. (ok (codes "00"), w);
  json = λ t. ok (answer (some true));
  md5 = λ t. codes "0123";
  sha256 = λ t. codes "4567";
  byte_length = length;
}

abbrev content : Store → Text → Option Text
content w url = lookup url w.graphs

failed-Puts :
    {A : Type 0} (status : ℕ) (c : Option Text) (w : Store) {r : Response} {w' : Store}
    → is_ok (responds status c) ≡ false
    → ◌≡◌ {A = Result Response × Store} (ok (responds status c), w) (ok r, w')
    → is_ok r ≡ true
    → A
failed-Puts status c w bad e good =
    let good' = subst (λ v. is_ok v ≡ true) (sym (ok-injective (ap (λ x. x.0) e))) good in cc

stored-Puts :
    (url : Text) (body : Option Text) (w : Store) {r : Response} {w' : Store}
    → stored url body w ≡ (ok r, w')
    → is_ok r ≡ true
    → content w' url ≡ body
unfolding is_ok
stored-Puts url none w e good = failed-Puts 400 none _ refl e good
stored-Puts url (some body) w e good =
    subst (λ v. content v url ≡ some body) (ap (λ x. x.1) e)
      (lookup-insert url url body w.graphs ∙ rw (text_eq_refl url))

net-Puts : Puts net content
unfolding Puts is_ok
net-Puts url init w r w' e put good = elim (Bool-cases (text_eq url read_only)) [
  | inl query_here ↦
      failed-Puts 405 none (counted w) refl
        (rw ((text_eq_iff init.method (codes "PUT")).1 put) at (rw query_here at e)) good
  | inr elsewhere ↦ elim (Bool-cases (is_some (lookup (codes "authorization") init.headers))) [
    | inl has ↦ stored-Puts url init.body w (rw has at (rw elsewhere at e)) good
    | inr lacks ↦ failed-Puts 401 _ _ refl (rw lacks at (rw elsewhere at e)) good
  ]
]

abbrev capabilities : Dict Bool
capabilities =
    (codes "sparql11Query", true)
    ∷ (codes "sparql11Update", true)
    ∷ (codes "namedGraphs", true)
    ∷ (codes "transactionalUpdate", false)
    ∷ (codes "graphStoreProtocol", true)
    ∷ (codes "serviceFederation", true)
    ∷ (codes "fullTextSearch", true)
    ∷ (codes "geoSparql", false)
    ∷ (codes "wikibaseLabelService", false)
    ∷ (codes "isolatedGenerations", false)
    ∷ (codes "atomicServingCutover", false)
    ∷ (codes "rollbackCutover", false)
    ∷ (codes "generationDelete", false)
    ∷ (codes "generationQuery", false)
    ∷ []

abbrev virtuoso : RdfBackendMetadata
virtuoso = record { backend_type = codes "virtuoso"; capabilities = capabilities }

abbrev backend : SparqlHttpBackend
backend = record {
  metadata = virtuoso;
  query_url = read_only;
  update_url = none;
  graph_store_url = some (codes "http://127.0.0.1/store");
  dataset_graph_iri = none;
  headers = [];
  digest_auth = some (record { username = codes "dba"; password = codes "secret" });
  instance_id = some (codes "gen-a");
}

abbrev empty_store : Store
empty_store = record { graphs = []; requests = 0 }

abbrev file : Snapshot
file = record { source = codes "/tmp/q1.nt"; media_type = codes "application/n-triples" }

abbrev graph : Text
graph = codes "urn:jwb:entity:Q1"

abbrev graph_at : Text
graph_at = codes "http://127.0.0.1/store?graph=urn:jwb:entity:Q1"

abbrev filled : Store
filled = record { graphs = (graph_at, codes "<s> <p> <o> .") ∷ []; requests = 2 }

running : Unit {0}
unfolding text_eq strip_prefix includes lookup insert ◌>>=◌ throw_if try_catch keys has_capability
    join_names quoted token token_value value_of scan_step scan split_commas trim_start trim_end
    trim_all truthy offers_auth parse_digest_challenge field authorization is_ok merge challenge_of
    answer_challenge after_first digest_request request require_graph_iri graph_url
    require_capability send query responsive health initialize reset put_graph_at put_graph
    replace_named_graph all_slug is_slug
running = tt

replaced : replace_named_graph net backend file graph empty_store ≡ (ok 13, filled)
unfolding running
replaced = refl

replace_named_graph-Held_example :
    (body : Text) × (w1 : Store) × (url : Text) × (net.read_file file.source empty_store
      ≡ (ok body, w1))
    × (graph_url net backend.graph_store_url (some graph) ≡ ok url)
    × (content filled url ≡ some body)
    × (13 ≡ net.byte_length body)
replace_named_graph-Held_example =
    replace_named_graph-Held net content net-Puts backend file graph empty_store 13 filled replaced

accepted : validate_rdf_backend_metadata (as_value virtuoso) ≡ ok virtuoso
unfolding running not_in refuse boolean_of normalized type_of_backend map_of
    validate_rdf_backend_metadata values Results.◌>>=◌
accepted = refl

-- A token that was left empty.
other_token : (id : Text) → backend.instance_id ≡ some id → [] ≢ codes "reset:" ++ id
other_token id named same = cc

abbrev put : Init
put = record { method = codes "PUT"; headers = []; body = some (codes "<s> <p> <o> .") }

net-one :
    (url : Text) (init : Init) (w : Store) → (net.fetch url init w).1.requests ≡ suc w.requests
net-one url init w = ground arith

-- No graph was stored.
abbrev NoGraph : Store → Type 0
NoGraph w = w.graphs ≡ []

queried-NoGraph : (put : Bool) (w : Store) → NoGraph w → NoGraph (queried put w).1
queried-NoGraph true w none_yet = none_yet
queried-NoGraph false w none_yet = none_yet

net-NoGraph : (init : Init) → Keeps NoGraph (net.fetch read_only init)
unfolding Keeps text_eq
net-NoGraph init w none_yet = queried-NoGraph (text_eq init.method (codes "PUT")) w none_yet

validate_rdf_backend_metadata-as_value_example :
    (includes backend_types (codes "virtuoso") ≡ true)
    × (keys capabilities ≡ capability_names)
    × (validate_rdf_backend_metadata (as_value virtuoso) ≡ ok virtuoso)
validate_rdf_backend_metadata-as_value_example =
    validate_rdf_backend_metadata-as_value (as_value virtuoso) virtuoso accepted

initialize_returns_example :
    (h : Health) × ((initialize net (codes "gen-b") backend empty_store).0
      ≡ ok (record backend { instance_id = some (codes "gen-b") }, h))
unfolding running
initialize_returns_example = initialize_returns net (codes "gen-b") backend empty_store refl

request_bounded_example :
    ((request net backend.digest_auth graph_at put true empty_store).1.requests ≤ 2)
    × ((request net backend.digest_auth graph_at put false empty_store).1.requests ≡ 1)
    × ((request net none graph_at put true empty_store).1.requests ≡ 1)
request_bounded_example =
    request_bounded net (λ w. w.requests) net-one (λ w. refl) backend.digest_auth graph_at put
      empty_store

reads-Keep_example :
    Keeps NoGraph (query net backend (codes "ASK {}")) × Keeps NoGraph (health net backend)
reads-Keep_example = reads-Keep net NoGraph backend (codes "ASK {}") net-NoGraph
