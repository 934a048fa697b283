-- ===== src/Config/Described.antt =====
-- What the descriptor of a generation accepts: itself, the worker's description, and the router's hosts.
use mathlib.Core.Path.{subst}
use custom_wikibase.Prelude.{
  true, Option, none, some, ◌≡◌, refl, sym, arith, Text, codes, text_eq, text_eq_refl, text_eq_iff,
  strip_prefix, ◌⊎◌, inl, inr, Option-cases, ok,
}
use custom_wikibase.Prelude.Results.{◌>>=◌, check, after, after_check, ok-injective}
use custom_wikibase.QueryRouter.{
  is_source, Descriptor, Profile, Target, profile_of, target_at, standalone_host, kubernetes_host,
  host_of, derive_target,
}
use custom_wikibase.Serving.Pointer.{is_generation_id, is_slug, all_slug}
use custom_wikibase.Config.Values.{Env, Url, Host}
use custom_wikibase.Config.Worker.{WorkerConfig, is_worker_backend, is_slot, load_config}
use custom_wikibase.Config.Bounds.{WorkerIsSafe, load_config-WorkerIsSafe}
use custom_wikibase.Config.Descriptor.{
  EndpointValue, Description, Endpoint, GenerationDescriptor, string_of, is_exactly,
  partition_model_v1, normalization_model_v1, is_generation_backend, fixed_host, is_service_of,
  is_fixed_kubernetes_host, is_fixed_standalone_host, is_local_host, is_local_endpoint, endpoint,
  validate_generation_descriptor, worker_description,
}

-- A descriptor, as an argument.
unfoldable pub described : GenerationDescriptor → Description
described d = record {
  generation_id = some d.generation_id;
  source_identity = some d.source_identity;
  backend_type = some d.backend_type;
  partition_model = some d.partition_model;
  normalization_model = some d.normalization_model;
  query_endpoint =
      some (record { url = some d.query_endpoint.url; access = some d.query_endpoint.access });
  internal_update_endpoint = some (record {
    url = some d.internal_update_endpoint.url;
    access = some d.internal_update_endpoint.access;
  });
}

-- The `href` of a URL reads as that URL.
unfoldable pub IsStable : Host → Type 0
IsStable h = (t : Text) (u : Url) → h.parse_url t ≡ ok u → h.parse_url u.href ≡ ok u

endpoint-eq-ok :
    (h : Host) (t a : Text) (u : Url)
    → h.parse_url t ≡ ok u
    → is_local_endpoint u ≡ true
    → endpoint h (some (record { url = some t; access = some a })) a
      ≡ ok (record { url = u.href; access = a })
unfolding endpoint is_exactly string_of ◌>>=◌ check
endpoint-eq-ok h t a u p q = rw (text_eq_refl a, p, q)

Again : Host → Text → Endpoint → Type 0
Again h a p = endpoint h (some (record { url = some p.url; access = some p.access })) a ≡ ok p

endpoint-Again :
    (h : Host)
    → IsStable h
    → (v : Option EndpointValue) (a : Text) {p : Endpoint} → endpoint h v a ≡ ok p
    → Again h a p
unfolding endpoint IsStable Again
endpoint-Again h stable none a e = cc
endpoint-Again h stable (some v) a e = after_check _ e λ _ e1. after e1 λ u is_u e2.
    after_check _ e2 λ is_local e3.
      subst (Again h a) (ok-injective e3) (endpoint-eq-ok h u.href a u (stable _ u is_u) is_local)

-- The tests that a description has to pass, and its endpoints.
validate-eq-ok :
    (h : Host) (v : Description) (q u : Endpoint)
    → is_generation_id (string_of v.generation_id) ≡ true
    → is_source (string_of v.source_identity) ≡ true
    → is_generation_backend (string_of v.backend_type) ≡ true
    → is_exactly v.partition_model partition_model_v1 ≡ true
    → is_exactly v.normalization_model normalization_model_v1 ≡ true
    → endpoint h v.query_endpoint (codes "internal-read") ≡ ok q
    → endpoint h v.internal_update_endpoint (codes "internal-write") ≡ ok u
    → validate_generation_descriptor h v
      ≡ ok (record {
        generation_id = string_of v.generation_id;
        source_identity = string_of v.source_identity;
        backend_type = string_of v.backend_type;
        normalization_model = normalization_model_v1;
        partition_model = partition_model_v1;
        query_endpoint = q;
        internal_update_endpoint = u;
      })
unfolding validate_generation_descriptor ◌>>=◌ check
validate-eq-ok h v q u a b c d e f g = rw (a, b, c, d, e, f, g)

Stable : Host → GenerationDescriptor → Type 0
Stable h d = validate_generation_descriptor h (described d) ≡ ok d

-- A descriptor that was validated is validated again, to itself, where the `href` of a URL reads as that URL.
pub validate_generation_descriptor-described :
    (h : Host)
    → IsStable h
    → (v : Description) (d : GenerationDescriptor) → validate_generation_descriptor h v ≡ ok d
    → validate_generation_descriptor h (described d) ≡ ok d
unfolding validate_generation_descriptor Stable Again described string_of is_exactly text_eq
validate_generation_descriptor-described h stable v d e0 = after_check _ e0 λ id e1.
    after_check _ e1 λ source e2. after_check _ e2 λ backend e3. after_check _ e3 λ _ e4.
      after_check _ e4 λ _ e5. after e5 λ q is_q e6. after e6 λ u is_u e7.
        subst (Stable h) (ok-injective e7) (
          validate-eq-ok h
            (described (record {
              generation_id = string_of v.generation_id;
              source_identity = string_of v.source_identity;
              backend_type = string_of v.backend_type;
              normalization_model = normalization_model_v1;
              partition_model = partition_model_v1;
              query_endpoint = q;
              internal_update_endpoint = u;
            }))
            q u id source backend refl refl (endpoint-Again h stable _ _ is_q)
            (endpoint-Again h stable _ _ is_u))

is_slot-cases : (id : Text) → is_slot id ≡ true → (id ≡ codes "gen-a") ⊎ (id ≡ codes "gen-b")
unfolding is_slot
is_slot-cases id e = ground (arith, text_eq_iff id (codes "gen-a"), text_eq_iff id (codes "gen-b"))

is_slot-is_generation_id : (id : Text) → is_slot id ≡ true → is_generation_id id ≡ true
unfolding is_generation_id strip_prefix is_slug all_slug
is_slot-is_generation_id id e = elim (is_slot-cases id e) [
  | inl p ↦ subst (λ i. is_generation_id i ≡ true) (sym p) refl
  | inr p ↦ subst (λ i. is_generation_id i ≡ true) (sym p) refl
]

is_worker_backend-is_generation_backend :
    (b : Text) → is_worker_backend b ≡ true → is_generation_backend b ≡ true
unfolding is_worker_backend is_generation_backend
is_worker_backend-is_generation_backend b e = ground arith

-- The worker never refuses its own description: what its configuration accepted is described by a
-- descriptor with the same names, where both endpoints of the driver are local URLs.
pub worker_description-is_valid :
    (h : Host) (env : Env) (c : WorkerConfig) (query update : Text) (q u : Url)
    → load_config h env ≡ ok c
    → h.parse_url query ≡ ok q
    → is_local_endpoint q ≡ true
    → h.parse_url update ≡ ok u
    → is_local_endpoint u ≡ true
    → validate_generation_descriptor h (worker_description c query update)
      ≡ ok (record {
        generation_id = c.generation_id;
        source_identity = c.source_identity;
        backend_type = c.backend_type;
        normalization_model = normalization_model_v1;
        partition_model = partition_model_v1;
        query_endpoint = record { url = q.href; access = codes "internal-read" };
        internal_update_endpoint = record { url = u.href; access = codes "internal-write" };
      })
unfolding worker_description string_of is_exactly WorkerIsSafe
worker_description-is_valid h env c query update q u e is_q local_q is_u local_u =
    let (_, _, _, _, backend, slot, identity, _, _, normal, partition, _, _) =
      load_config-WorkerIsSafe h env c e in
    validate-eq-ok h (worker_description c query update) _ _ (is_slot-is_generation_id _ slot)
      identity (is_worker_backend-is_generation_backend _ backend) ((text_eq_iff _ _).1 partition)
      ((text_eq_iff _ _).1 normal) (endpoint-eq-ok h query _ q is_q local_q)
      (endpoint-eq-ok h update _ u is_u local_u)

profile_of-short :
    (backend : Text) (p : Profile)
    → profile_of backend ≡ some p
    → (p.short ≡ codes "virtuoso") ⊎ ((p.short ≡ codes "oxigraph") ⊎ (p.short ≡ codes "fuseki"))
unfolding profile_of
profile_of-short backend p e = ground arith

-- A host that is computed, on each side of its own name.
AtSlot : Text → Text → Type 0
AtSlot short id = is_local_host (kubernetes_host short id (codes "jwb-query-local")) ≡ true

AtSlot-same : {short s id i : Text} → id ≡ i → short ≡ s → AtSlot s i → AtSlot short id
AtSlot-same {short = short} {i = i} a p r =
    subst (AtSlot short) (sym a) (subst (λ x. AtSlot x i) (sym p) r)

AtSlot-short :
    (id short : Text)
    → (id ≡ codes "gen-a") ⊎ (id ≡ codes "gen-b")
    → (short ≡ codes "virtuoso") ⊎ ((short ≡ codes "oxigraph") ⊎ (short ≡ codes "fuseki"))
    → AtSlot short id
unfolding AtSlot is_local_host kubernetes_host is_fixed_kubernetes_host is_service_of fixed_host
    text_eq
AtSlot-short id short (inl a) (inl p) = AtSlot-same a p refl
AtSlot-short id short (inl a) (inr (inl p)) = AtSlot-same a p refl
AtSlot-short id short (inl a) (inr (inr p)) = AtSlot-same a p refl
AtSlot-short id short (inr a) (inl p) = AtSlot-same a p refl
AtSlot-short id short (inr a) (inr (inl p)) = AtSlot-same a p refl
AtSlot-short id short (inr a) (inr (inr p)) = AtSlot-same a p refl

slot_host-is_local :
    (id backend : Text) (p : Profile)
    → is_slot id ≡ true
    → profile_of backend ≡ some p
    → is_local_host (kubernetes_host p.short id (codes "jwb-query-local")) ≡ true
unfolding AtSlot
slot_host-is_local id backend p slot e =
    AtSlot-short id p.short (is_slot-cases id slot) (profile_of-short backend p e)

standalone_host-is_local :
    (id : Text) (host : Text) → standalone_host id ≡ some host → is_local_host host ≡ true
unfolding standalone_host is_local_host is_fixed_standalone_host text_eq
standalone_host-is_local id host e = ground arith

-- Every host that the router derives for one of the two fixed generations is a host that the
-- descriptor accepts as local.
pub derive_target-is_local_host :
    (source runtime : Text) (v : Descriptor) (t : Target)
    → is_slot v.generation_id ≡ true
    → derive_target source runtime v ≡ ok t
    → is_local_host t.allowed_hostname ≡ true
unfolding derive_target host_of target_at AtSlot
derive_target-is_local_host source runtime v t slot e =
    elim (Option-cases (profile_of v.backend_type)) [
      | inl unknown ↦ ground arith
      | inr (p, some_p) ↦ ground (
        arith,
        standalone_host-is_local v.generation_id t.allowed_hostname,
        slot_host-is_local v.generation_id v.backend_type p,
      )
    ]
