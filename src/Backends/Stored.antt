-- ===== src/Backends/Stored.antt =====
-- What a graph store holds after a graph was put into it, whether it asked for a digest or not.
use mathlib.Core.Path.{subst}
use custom_wikibase.Prelude.{
  ℕ, Bool, true, false, not, Option, none, some, ◌≡◌, refl, sym, ap, ◌∙◌, arith, Bool-cases, inl,
  inr, Text, codes, ok, Exec, ◌>>=◌,
}
use custom_wikibase.Prelude.Results.{ok-injective}
use custom_wikibase.Prelude.Runs.{run_after, lift_after, throw_if_after}
use custom_wikibase.Backends.Metadata.{RdfBackendMetadata, has_capability}
use custom_wikibase.Backends.Digest.{Credentials}
use custom_wikibase.Backends.Http.{
  Init, Response, Net, is_ok, challenge_of, after_first, answer_challenge, digest_request, request,
  graph_url,
}
use custom_wikibase.Backends.Sparql.{
  SparqlHttpBackend, Snapshot, send, put_graph_at, put_graph, replace_named_graph,
  require_capability,
}

-- The documented meaning of PUT: where it succeeds, the graph at the URL is the body.
unfoldable pub Puts : {W : Type 0} → Net W → (W → Text → Option Text) → Type 0
Puts {W} n content =
    (url : Text) (init : Init) (w : W) (r : Response) (w' : W)
    → n.fetch url init w ≡ (ok r, w')
    → init.method ≡ codes "PUT"
    → is_ok r ≡ true
    → content w' url ≡ init.body

not-false : {b : Bool} → not b ≡ false → b ≡ true
not-false {b = true} e = refl
not-false {b = false} e = cc

require_cases :
    {W B : Type 0} {P : Type 0} (d : RdfBackendMetadata) (name : Text) (k : Exec W B) (w : W)
    {b : B} {w' : W}
    → (require_capability d name >>= λ _. k) w ≡ (ok b, w')
    → (k w ≡ (ok b, w') → P)
    → P
unfolding require_capability ◌>>=◌
require_cases d name k w e c = elim (Bool-cases (has_capability d name)) [
  | inl has ↦ c (rw has at e)
  | inr lacks ↦ ground arith
]

module _ {W : Type 0} (n : Net W) (content : W → Text → Option Text) (puts : Puts n content) where
  Stores : Exec W Response → Text → Option Text → Type 0
  Stores m url body =
      (w : W) (r : Response) (w' : W) → m w ≡ (ok r, w') → is_ok r ≡ true → content w' url ≡ body

  answer_challenge-Stores :
      (auth : Credentials) (url : Text) (init : Init) (challenge : Text)
      → init.method ≡ codes "PUT"
      → Stores (answer_challenge n auth url init challenge) url init.body
  unfolding answer_challenge Stores Puts
  answer_challenge-Stores auth url init challenge put w r w' e good = lift_after _ _ e λ _ _ e1.
      lift_after _ _ e1 λ _ _ e2. run_after _ _ e2 λ _ w1 _ e3. puts url _ w1 r w' e3 put good

  digest_request-Stores :
      (auth : Credentials) (url : Text) (init : Init)
      → init.method ≡ codes "PUT"
      → Stores (digest_request n auth url init) url init.body
  unfolding digest_request after_first Stores Puts
  digest_request-Stores auth url init put w r w' e good =
      run_after _ _ e λ first w1 is_first e1. answered first w1 is_first (challenge_of first) e1
    where
      answered :
          (first : Response) (w1 : W)
          → n.fetch url init w ≡ (ok first, w1)
          → (c : Option Text) → after_first n auth url init first c w1 ≡ (ok r, w')
          → content w' url ≡ init.body
      answered first w1 is_first none e1 = puts url init w r w' (is_first ∙ e1) put good
      answered first w1 is_first (some c) e1 =
          answer_challenge-Stores auth url init c put w1 r w' e1 good

  request-Stores :
      (auth : Option Credentials) (url : Text) (init : Init) (authenticate : Bool)
      → init.method ≡ codes "PUT"
      → Stores (request n auth url init authenticate) url init.body
  unfolding request Stores Puts
  request-Stores none url init authenticate put w r w' e good = puts url init w r w' e put good
  request-Stores (some auth) url init true put w r w' e good =
      digest_request-Stores auth url init put w r w' e good
  request-Stores (some auth) url init false put w r w' e good = puts url init w r w' e put good

  -- The file was read, and the store holds it at the graph's URL.
  Held : SparqlHttpBackend → Text → Option Text → Option Text → W → ℕ → W → Type 0
  Held b source graph store w k w' =
      (body : Text) × (w1 : W) × (url : Text) × (n.read_file source w ≡ (ok body, w1))
      × (graph_url n store graph ≡ ok url)
      × (content w' url ≡ some body)
      × (k ≡ n.byte_length body)

  put_graph_at-Held :
      (b : SparqlHttpBackend) (s : Snapshot) (graph store : Option Text) (w : W) (k : ℕ) (w' : W)
      → put_graph_at n b s graph store w ≡ (ok k, w')
      → Held b s.source graph store w k w'
  unfolding put_graph_at send Stores Held
  put_graph_at-Held b s graph none w k w' e = cc
  put_graph_at-Held b s graph (some store) w k w' e = throw_if_after _ _ _ e λ _ e1.
      run_after _ _ e1 λ body w1 is_body e2. lift_after _ _ e2 λ url is_url e3.
        run_after _ _ e3 λ r w2 is_r e4. throw_if_after _ _ _ e4 λ good e5. (
          body,
          w1,
          url,
          is_body,
          is_url,
          subst (λ v. content v url ≡ some body) (ap (λ x. x.1) e5)
              (request-Stores b.digest_auth url _ true refl _ r w2 is_r (not-false good)),
          sym (ok-injective (ap (λ x. x.0) e5)),
        )

  -- When a named graph is replaced, the graph store holds the text of the file at the URL of that graph,
  -- and the length of that text is returned, where PUT stores what it is given; the first answer may
  -- have been a challenge.
  pub replace_named_graph-Held :
      (b : SparqlHttpBackend) (s : Snapshot) (graph : Text) (w : W) (k : ℕ) (w' : W)
      → replace_named_graph n b s graph w ≡ (ok k, w')
      → (body : Text) × (w1 : W) × (url : Text) × (n.read_file s.source w ≡ (ok body, w1))
        × (graph_url n b.graph_store_url (some graph) ≡ ok url)
        × (content w' url ≡ some body)
        × (k ≡ n.byte_length body)
  unfolding replace_named_graph put_graph Held
  replace_named_graph-Held b s graph w k w' e = require_cases b.metadata _ _ w e λ e1.
      lift_after _ _ e1 λ _ _ e2. put_graph_at-Held b s (some graph) b.graph_store_url w k w' e2
