-- ===== src/QueryRouter/Routes.antt =====
-- Where the router sends the queries of a generation.
use mathlib.Core.Path.{subst}
use custom_wikibase.Prelude.{
  ℕ, ◌≡◌, refl, ◌&&◌, sym, ap, ◌∙◌, true, Option, none, some, List, [], ◌∷◌, Text, codes, text_eq,
  text_eq_iff, ok, err, arith, ◌>>=◌, ◌⊎◌, Bool-cases, Option-cases, Result-cases, inl, inr,
}
use custom_wikibase.Serving.Tables.{the_row-eq-some, select_where, the_row}
use custom_wikibase.QueryRouter.{
  Descriptor, ServingPointer, Target, Cached, Resolver, Profile, profile_of, target_at, host_of,
  is_routable, is_trusted, stored_runtime, derive_target, describes, get_descriptor,
  validate_pointer, cached_target, look_up, resolve,
}

-- `READY`, `SERVING` or `RETIRING`, each with the protection that goes with it.
abbrev pub IsOpen : Descriptor → Type 0
IsOpen v =
    ((v.state ≡ codes "READY") × (v.protection_state ≡ codes "NONE"))
    ⊎ (((v.state ≡ codes "SERVING") × (v.protection_state ≡ codes "SERVING"))
        ⊎ ((v.state ≡ codes "RETIRING") × (v.protection_state ≡ codes "ROLLBACK")))

-- The target is that of the one row that the registry has of the source's generation, which is one
-- that a query may reach, of the models and the runtime of the router, on a backend that is known.
pub record RoutesTo (source : Text) (table : List Descriptor) (runtime id : Text) (target : Target)
    : Type 0 where
  pub descriptor : Descriptor
  pub listed : select_where (describes source id) table ≡ descriptor ∷ []
  pub lifecycle : IsOpen descriptor
  pub normalized : descriptor.normalization_model ≡ codes "jwb-rdf-normalization-v1"
  pub partitioned : descriptor.partition_model ≡ codes "jwb-partition-v1"
  pub runs : descriptor.runtime_type ≡ stored_runtime runtime
  pub profile : Profile
  pub known : profile_of descriptor.backend_type ≡ some profile
  pub host : Text
  pub hosted : host_of runtime descriptor profile ≡ some host
  pub reached : target ≡ target_at host profile

-- What the cache holds is what the registry's row of the source's generation that it names leads to.
abbrev pub CacheIsTrusted : Text → Text → Resolver → Type 0
CacheIsTrusted source runtime r =
    (c : Cached) → r.cache ≡ some c → RoutesTo source r.table runtime c.generation_id c.target

pub selected_generation :
    (source id : Text) (table : List Descriptor) (v : Descriptor)
    → select_where (describes source id) table ≡ v ∷ []
    → v.generation_id ≡ id
unfolding select_where
selected_generation source id [] v h = cc
selected_generation source id (w ∷ table) v h =
    ground (arith, selected_generation source id table v, text_eq_iff w.generation_id id)

get_descriptor-listed :
    (source id : Text) (table : List Descriptor) (v : Descriptor)
    → get_descriptor source id table ≡ ok v
    → select_where (describes source id) table ≡ v ∷ []
unfolding get_descriptor
get_descriptor-listed source id table v h =
    elim (Option-cases (the_row (select_where (describes source id) table))) [
      | inl e ↦ absurd (ground arith)
      | inr (w, e) ↦ the_row-eq-some _ v (e ∙ ap some (ground arith))
    ]

derive_target-is_trusted :
    (source runtime : Text) (v : Descriptor) (target : Target)
    → derive_target source runtime v ≡ ok target
    → is_trusted source runtime v ≡ true
unfolding derive_target
derive_target-is_trusted source runtime v target h = ground arith

derive_target-reaches :
    (source runtime : Text) (v : Descriptor) (target : Target)
    → derive_target source runtime v ≡ ok target
    → (profile : Profile) × (host : Text) × (profile_of v.backend_type ≡ some profile)
      × (host_of runtime v profile ≡ some host)
      × (target ≡ target_at host profile)
unfolding derive_target
derive_target-reaches source runtime v target h = elim (Option-cases (profile_of v.backend_type)) [
  | inl e ↦ absurd (ground arith)
  | inr (profile, e) ↦ elim (Option-cases (host_of runtime v profile)) [
    | inl o ↦ absurd (ground arith)
    | inr (host, o) ↦ (profile, host, e, o, ground arith)
  ]
]

is_routable-IsOpen : (v : Descriptor) → is_routable v ≡ true → IsOpen v
unfolding is_routable
is_routable-IsOpen v h =
    elim (Bool-cases
      (text_eq v.state (codes "READY") && text_eq v.protection_state (codes "NONE"))) [
        | inl e ↦ inl ((text_eq_iff _ _).0 (ground arith), (text_eq_iff _ _).0 (ground arith))
        | inr e ↦
            elim (Bool-cases
              (text_eq v.state (codes "SERVING") && text_eq v.protection_state (codes "SERVING"))) [
                | inl o ↦
                    inr
                      (inl ((text_eq_iff _ _).0 (ground arith), (text_eq_iff _ _).0 (ground arith)))
                | inr o ↦
                    inr
                      (inr ((text_eq_iff _ _).0 (ground arith), (text_eq_iff _ _).0 (ground arith)))
              ]
      ]

derive_target-RoutesTo :
    (source id runtime : Text) (table : List Descriptor) (v : Descriptor) (target : Target)
    → select_where (describes source id) table ≡ v ∷ []
    → derive_target source runtime v ≡ ok target
    → RoutesTo source table runtime id target
unfolding is_trusted
derive_target-RoutesTo source id runtime table v target listed h =
    let trusted = derive_target-is_trusted source runtime v target h in
    let (profile, host, known, hosted, reached) = derive_target-reaches source runtime v target h in
    record {
      descriptor = v;
      listed = listed;
      lifecycle = is_routable-IsOpen v (ground arith);
      normalized = (text_eq_iff _ _).0 (ground arith);
      partitioned = (text_eq_iff _ _).0 (ground arith);
      runs = (text_eq_iff _ _).0 (ground arith);
      profile = profile;
      known = known;
      host = host;
      hosted = hosted;
      reached = reached;
    }

cached_target-RoutesTo :
    (source : Text) (table : List Descriptor) (runtime : Text) (version : ℕ) (id : Text)
    (cache : Option Cached) (target : Target)
    → ((c : Cached) → cache ≡ some c → RoutesTo source table runtime c.generation_id c.target)
    → cached_target version id cache ≡ some target
    → RoutesTo source table runtime id target
unfolding cached_target
cached_target-RoutesTo source table runtime version id none target trusted h = absurd (ground arith)
cached_target-RoutesTo source table runtime version id (some c) target trusted h =
    let same : c.generation_id ≡ id = ground (arith, text_eq_iff c.generation_id id) in
    let found : c.target ≡ target = ground arith in
    subst (λ k. RoutesTo source table runtime k target) same
      (subst (RoutesTo source table runtime c.generation_id) found (trusted c refl))

validate_pointer-eq-ok :
    (p : ServingPointer) (id : Text) → validate_pointer p ≡ ok id → p.generation_id ≡ some id
unfolding validate_pointer
validate_pointer-eq-ok p id h = elim (Option-cases p.generation_id) [
  | inl e ↦ absurd (ground arith)
  | inr (k, e) ↦ ground arith
]

module _ (runtime : Text) (p : ServingPointer) (r : Resolver) where
  entry_for : Text → Target → Cached
  entry_for id target = record { pointer_version = p.version; generation_id = id; target = target }

  look_up-stages :
      (id : Text) (target : Target)
      → (look_up runtime p id r).0 ≡ ok target
      → (v : Descriptor) × (get_descriptor p.source_identity id r.table ≡ ok v)
        × (derive_target p.source_identity runtime v ≡ ok target)
        × ((look_up runtime p id r).1.cache ≡ some (entry_for id target))
        × ((look_up runtime p id r).1.table ≡ r.table)
  unfolding look_up ◌>>=◌ entry_for
  look_up-stages id target h = elim (Result-cases (get_descriptor p.source_identity id r.table)) [
    | inl (e, q) ↦ absurd (ground arith)
    | inr (v, q) ↦ elim (Result-cases (derive_target p.source_identity runtime v)) [
      | inl (e, o) ↦ absurd (ground arith)
      | inr (t, o) ↦ (v, q, ground arith, ground arith, ground arith)
    ]
  ]

  look_up-RoutesTo :
      (id : Text) (target : Target)
      → (look_up runtime p id r).0 ≡ ok target
      → RoutesTo p.source_identity r.table runtime id target
        × CacheIsTrusted p.source_identity runtime (look_up runtime p id r).1
  unfolding entry_for
  look_up-RoutesTo id target h =
      let (v, q, o, kept, unchanged) = look_up-stages id target h in
      let routes : RoutesTo p.source_identity r.table runtime id target =
        derive_target-RoutesTo p.source_identity id runtime r.table v target
          (get_descriptor-listed p.source_identity id r.table v q) o in
      (
        routes,
        λ c e.
            let same : entry_for id target ≡ c = ground arith in
            subst (λ t. RoutesTo p.source_identity t runtime c.generation_id c.target)
              (sym unchanged)
              (subst (λ k. RoutesTo p.source_identity r.table runtime k.generation_id k.target) same
                routes),
      )

  resolve-cached :
      (id : Text) (target : Target)
      → validate_pointer p ≡ ok id
      → cached_target p.version id r.cache ≡ some target
      → resolve runtime p r ≡ (ok target, r)
  unfolding resolve ◌>>=◌
  resolve-cached id target q h = ground arith

  resolve-look_up :
      (id : Text)
      → validate_pointer p ≡ ok id
      → cached_target p.version id r.cache ≡ none
      → resolve runtime p r ≡ look_up runtime p id r
  unfolding resolve ◌>>=◌
  resolve-look_up id q h = ground arith

  resolve-refused : (e : Text) → validate_pointer p ≡ err e → (resolve runtime p r).0 ≡ err e
  unfolding resolve ◌>>=◌
  resolve-refused e q = ground arith

-- A resolution that succeeds, with a cache that agrees with the registry on the generations of the
-- pointer's source, leads to the backend of the registry's one row of the generation that the pointer
-- names, from the cache or not. The row is open to queries and of the models and the runtime that the
-- router serves, and the cache that is left agrees with the registry again.
pub resolve-RoutesTo :
    (runtime : Text) (p : ServingPointer) (r : Resolver) (target : Target)
    → CacheIsTrusted p.source_identity runtime r
    → (resolve runtime p r).0 ≡ ok target
    → (id : Text) × (p.generation_id ≡ some id)
      × RoutesTo p.source_identity r.table runtime id target
      × CacheIsTrusted p.source_identity runtime (resolve runtime p r).1
resolve-RoutesTo runtime p r target trusted h = elim (Result-cases (validate_pointer p)) [
  | inl (e, q) ↦ let refused = resolve-refused runtime p r e q in absurd (ground arith)
  | inr (id, q) ↦ elim (Option-cases (cached_target p.version id r.cache)) [
    | inl o ↦
        let same = resolve-look_up runtime p r id q o in
        let (routes, kept) =
          look_up-RoutesTo runtime p r id target (sym (ap (λ x. x.0) same) ∙ h) in
        (
          id,
          validate_pointer-eq-ok p id q,
          routes,
          subst (CacheIsTrusted p.source_identity runtime) (sym (ap (λ x. x.1) same)) kept,
        )
    | inr (t, o) ↦
        let same = resolve-cached runtime p r id t q o in
        let found : t ≡ target = ground arith in
        (
          id,
          validate_pointer-eq-ok p id q,
          subst (RoutesTo p.source_identity r.table runtime id) found (
              cached_target-RoutesTo p.source_identity r.table runtime p.version id r.cache t
                trusted o),
          subst (CacheIsTrusted p.source_identity runtime) (sym (ap (λ x. x.1) same)) trusted,
        )
  ]
]
