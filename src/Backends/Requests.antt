-- ===== src/Backends/Requests.antt =====
-- What the methods of the backend send, and where: reads go to the query URL alone, a digest costs one
-- more request, and a reset without its token sends nothing.
use custom_wikibase.Prelude.{
  ℕ, suc, ◌+◌, ◌≤◌, Bool, true, false, Option, none, some, [], ◌∷◌, ◌++◌, ◌≡◌, ◌≢◌, refl, arith,
  Bool-cases, Option-cases, inl, inr, Text, codes, text_eq, text_eq_iff, Result, ok, err, Exec,
  pure, lift, throw_if, try_catch, recover, continue, ◌>>=◌,
}
use custom_wikibase.Prelude.Runs.{Keeps, bind-Keeps, lift-Keeps, throw_if-Keeps, try_catch-Keeps}
use custom_wikibase.Serving.Pointer.{is_slug}
use custom_wikibase.Backends.Digest.{Credentials, parse_digest_challenge}
use custom_wikibase.Backends.Http.{
  Init, Response, Answer, null_answer, answer, Net, answer_challenge, after_first, digest_request,
  request,
}
use custom_wikibase.Backends.Sparql.{
  SparqlHttpBackend, Health, unhealthy, send, query, responsive, health, initialize, reset,
}

text_ne : (s t : Text) → s ≢ t → text_eq s t ≡ false
text_ne s t h = elim (Bool-cases (text_eq s t)) [
  | inl same ↦ absurd (h ((text_eq_iff s t).0 same))
  | inr differ ↦ differ
]

module _ {W : Type 0} (n : Net W) where
  module _ (P : W → Type 0) (b : SparqlHttpBackend)
      (reads : (init : Init) → Keeps P (n.fetch b.query_url init)) where
    request-Keeps :
        (auth : Option Credentials) (init : Init) → Keeps P (request n auth b.query_url init false)
    unfolding request Keeps
    request-Keeps none init s p = reads init s p
    request-Keeps (some auth) init s p = reads init s p

    query-Keeps : (sparql : Text) → Keeps P (query n b sparql)
    unfolding query send Keeps
    query-Keeps [] s p = p
    query-Keeps (c ∷ t) s p =
        bind-Keeps P _ _ (request-Keeps b.digest_auth _)
          (λ r. bind-Keeps P _ _ (throw_if-Keeps P _ _) λ _. lift-Keeps P (n.json r.body)) s p

    responsive-Keeps : (a : Answer) → Keeps P (responsive a)
    unfolding responsive Keeps
    responsive-Keeps null_answer s p = p
    responsive-Keeps (answer none) s p = p
    responsive-Keeps (answer (some _)) s p = p

    health-Keeps : Keeps P (health n b)
    unfolding health
    health-Keeps =
        try_catch-Keeps P _ _ (bind-Keeps P _ _ (query-Keeps _) responsive-Keeps)
          (λ e. lift-Keeps P (ok (unhealthy e)))

  -- The constructor's URL for queries is the only place that queries and the test of health send requests to:
  -- they keep what requests to it keep.
  pub reads-Keep :
      (P : W → Type 0) (b : SparqlHttpBackend) (sparql : Text)
      → ((init : Init) → Keeps P (n.fetch b.query_url init))
      → Keeps P (query n b sparql) × Keeps P (health n b)
  reads-Keep P b sparql reads = (query-Keeps P b reads sparql, health-Keeps P b reads)

  recover_returns :
      (r : Result Health) (w : W)
      → (h : Health) × ((recover (λ e. pure (unhealthy e)) r w).0 ≡ ok h)
  recover_returns (ok h) w = (h, refl)
  recover_returns (err e) w = (unhealthy e, refl)

  health_returns : (b : SparqlHttpBackend) (w : W) → (h : Health) × ((health n b w).0 ≡ ok h)
  unfolding health try_catch
  health_returns b w = recover_returns _ _

  -- A backend is initialized under every well-formed name, whatever its store answers; only the name
  -- of the instance changes.
  pub initialize_returns :
      (id : Text) (b : SparqlHttpBackend) (w : W)
      → is_slug 62 id ≡ true
      → (h : Health) × ((initialize n id b w).0 ≡ ok (record b { instance_id = some id }, h))
  unfolding initialize ◌>>=◌ throw_if
  initialize_returns id b w good =
      let (h, returned) = health_returns (record b { instance_id = some id }) w in
      (h, rw (good, returned))

  -- A reset without the token of the instance throws, and leaves the world as it is.
  pub reset_refused :
      (b : SparqlHttpBackend) (token : Text) (w : W)
      → ((id : Text) → b.instance_id ≡ some id → token ≢ codes "reset:" ++ id)
      → reset n b token w ≡ (err (codes "invalid reset confirmation token"), w)
  unfolding reset
  reset_refused b token w wrong = elim (Option-cases b.instance_id) [
    | inl unnamed ↦ rw unnamed
    | inr (id, named) ↦ rw (named, text_ne _ _ (wrong id named))
  ]

  module _ (count : W → ℕ)
      (one : (url : Text) (init : Init) (w : W) → count (n.fetch url init w).1 ≡ suc (count w))
      (free : (w : W) → count (n.random_hex w).1 ≡ count w) where
    Costs : {A : Type 0} → ℕ → Exec W A → Type 0
    Costs k m = (w : W) → count (m w).1 ≤ count w + k

    continue-cost :
        {A B : Type 0} (j k : ℕ) (r : Result A) (f : A → Exec W B) (w w' : W)
        → ((a : A) → Costs k (f a))
        → count w' ≤ count w + j
        → count (continue r f w').1 ≤ count w + (j + k)
    unfolding Costs
    continue-cost j k (ok a) f w w' rest first = let later = rest a w' in omega arith
    continue-cost j k (err e) f w w' rest first = omega arith

    bind-Costs :
        {A B : Type 0} (j k : ℕ) (m : Exec W A) (f : A → Exec W B)
        → Costs j m
        → ((a : A) → Costs k (f a))
        → Costs (j + k) (m >>= f)
    unfolding Costs ◌>>=◌
    bind-Costs j k m f first rest w = continue-cost j k (m w).0 f w (m w).1 rest (first w)

    lift-Costs : {A : Type 0} (r : Result A) → Costs 0 (lift r)
    unfolding Costs
    lift-Costs r w = omega arith

    fetch-Costs : (url : Text) (init : Init) → Costs 1 (n.fetch url init)
    unfolding Costs
    fetch-Costs url init w = let cost = one url init w in omega arith

    random_hex-Costs : Costs 0 n.random_hex
    unfolding Costs
    random_hex-Costs w = let cost = free w in omega arith

    after_first-Costs :
        (auth : Credentials) (url : Text) (init : Init) (first : Response) (challenge : Option Text)
        → Costs 1 (after_first n auth url init first challenge)
    unfolding after_first answer_challenge Costs
    after_first-Costs auth url init first none w = omega arith
    after_first-Costs auth url init first (some challenge) w =
        bind-Costs 0 1 _ _ (lift-Costs (parse_digest_challenge challenge))
          (λ _.
            bind-Costs 0 1 _ _ (lift-Costs (n.host.parse_url url))
              λ _. bind-Costs 0 1 _ _ random_hex-Costs λ _. fetch-Costs url _)
          w

    request-Costs :
        (auth : Option Credentials) (url : Text) (init : Init) (authenticate : Bool)
        → Costs 2 (request n auth url init authenticate)
    unfolding request digest_request Costs
    request-Costs none url init authenticate w = let cost = fetch-Costs url init w in omega arith
    request-Costs (some auth) url init true w =
        bind-Costs 1 1 _ _ (fetch-Costs url init) (λ first. after_first-Costs auth url init first _)
          w
    request-Costs (some auth) url init false w = let cost = fetch-Costs url init w in omega arith

  -- A request is sent twice at most, where each call of `fetch` counts one and the random bytes nothing;
  -- without credentials, or where none are wanted, it is sent once.
  pub request_bounded :
      (count : W → ℕ)
      → ((url : Text) (init : Init) (w : W) → count (n.fetch url init w).1 ≡ suc (count w))
      → ((w : W) → count (n.random_hex w).1 ≡ count w)
      → (auth : Option Credentials) (url : Text) (init : Init) (w : W)
      → (count (request n auth url init true w).1 ≤ count w + 2)
        × (count (request n auth url init false w).1 ≡ suc (count w))
        × (count (request n none url init true w).1 ≡ suc (count w))
  unfolding request Costs
  request_bounded count one free none url init w =
      let cost = one url init w in (omega arith, cost, cost)
  request_bounded count one free (some auth) url init w =
      (request-Costs count one free (some auth) url init true w, one url init w, one url init w)
