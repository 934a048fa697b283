-- ===== src/QueryRouter/Hosts.antt =====
-- The hosts at which the router reaches generations.
use mathlib.Core.List.{append_cancel_left, append_cancel_right}
use mathlib.Core.Path.{subst}
use custom_wikibase.Prelude.{
  ℕ, ◌≡◌, sym, ap, ◌∙◌, some, List, [], ◌∷◌, ◌++◌, Text, codes, text_eq, text_eq_iff, arith,
  Bool-cases, inl, inr, ◌⊎◌,
}
use custom_wikibase.QueryRouter.{
  Descriptor, Target, Profile, profile_of, target_at, host_of, standalone_host, kubernetes_host,
  is_namespace,
}
use custom_wikibase.QueryRouter.Routes.{RoutesTo, selected_generation}

abbrev virtuoso : Text
virtuoso = codes "virtuoso"

abbrev oxigraph : Text
oxigraph = codes "oxigraph"

abbrev fuseki : Text
fuseki = codes "fuseki"

abbrev IsShort : Text → Type 0
IsShort s = (s ≡ virtuoso) ⊎ ((s ≡ oxigraph) ⊎ (s ≡ fuseki))

profile_of-IsShort :
    (backend : Text) (profile : Profile) → profile_of backend ≡ some profile → IsShort profile.short
unfolding profile_of
profile_of-IsShort backend profile h = elim (Bool-cases (text_eq backend (codes "virtuoso"))) [
  | inl e ↦ inl (ground arith)
  | inr e ↦ elim (Bool-cases (text_eq backend (codes "oxigraph"))) [
    | inl q ↦ inr (inl (ground arith))
    | inr q ↦ elim (Bool-cases (text_eq backend (codes "fuseki-tdb2"))) [
      | inl o ↦ inr (inr (ground arith))
      | inr o ↦ absurd (ground arith)
    ]
  ]
]

abbrev initial : Text → ℕ
initial [] = 0
initial (c ∷ s) = c

initials :
    (s t u v a b : Text)
    → s ≡ u
    → t ≡ v
    → (s ++ codes "-" ++ a) ≡ (t ++ codes "-" ++ b)
    → initial (u ++ codes "-" ++ a) ≡ initial (v ++ codes "-" ++ b)
initials s t u v a b p q h =
    sym (ap (λ x. initial (x ++ codes "-" ++ a)) p)
    ∙ ap initial h
    ∙ ap (λ x. initial (x ++ codes "-" ++ b)) q

-- The short names differ in their first letter.
short_injective :
    (s t a b : Text) → IsShort s → IsShort t → (s ++ codes "-" ++ a) ≡ (t ++ codes "-" ++ b) → s ≡ t
short_injective s t a b (inl p) (inl q) h = p ∙ sym q
short_injective s t a b (inl p) (inr (inl q)) h =
    let e : ◌≡◌ {A = ℕ} 118 111 = initials s t virtuoso oxigraph a b p q h in absurd (omega arith)
short_injective s t a b (inl p) (inr (inr q)) h =
    let e : ◌≡◌ {A = ℕ} 118 102 = initials s t virtuoso fuseki a b p q h in absurd (omega arith)
short_injective s t a b (inr (inl p)) (inl q) h =
    let e : ◌≡◌ {A = ℕ} 111 118 = initials s t oxigraph virtuoso a b p q h in absurd (omega arith)
short_injective s t a b (inr (inl p)) (inr (inl q)) h = p ∙ sym q
short_injective s t a b (inr (inl p)) (inr (inr q)) h =
    let e : ◌≡◌ {A = ℕ} 111 102 = initials s t oxigraph fuseki a b p q h in absurd (omega arith)
short_injective s t a b (inr (inr p)) (inl q) h =
    let e : ◌≡◌ {A = ℕ} 102 118 = initials s t fuseki virtuoso a b p q h in absurd (omega arith)
short_injective s t a b (inr (inr p)) (inr (inl q)) h =
    let e : ◌≡◌ {A = ℕ} 102 111 = initials s t fuseki oxigraph a b p q h in absurd (omega arith)
short_injective s t a b (inr (inr p)) (inr (inr q)) h = p ∙ sym q

kubernetes_host_injective :
    (s t id k namespace : Text)
    → IsShort s
    → IsShort t
    → kubernetes_host s id namespace ≡ kubernetes_host t k namespace
    → id ≡ k
unfolding kubernetes_host
kubernetes_host_injective s t id k namespace p q h =
    let front = append_cancel_right _ _ (codes ".") (
      append_cancel_right _ _ namespace (append_cancel_right _ _ (codes ".svc.cluster.local") h)) in
    let rest =
      append_cancel_left (codes "rdf-") (s ++ codes "-" ++ id) (t ++ codes "-" ++ k) front in
    let same = short_injective s t id k p q rest in
    append_cancel_left (t ++ codes "-") id k
      (subst (λ x. (x ++ codes "-" ++ id) ≡ (t ++ codes "-" ++ k)) same rest)

standalone_host_injective :
    (id k host : Text) → standalone_host id ≡ some host → standalone_host k ≡ some host → id ≡ k
unfolding standalone_host
standalone_host_injective id k host p q = ground (
  arith,
  text_eq_iff id (codes "gen-a"),
  text_eq_iff id (codes "gen-b"),
  text_eq_iff k (codes "gen-a"),
  text_eq_iff k (codes "gen-b"),
)

module _ (runtime : Text) (v w : Descriptor) (profile other : Profile) where
  host_of-eq-some :
      (host : Text)
      → profile_of v.backend_type ≡ some profile
      → profile_of w.backend_type ≡ some other
      → host_of runtime v profile ≡ some host
      → host_of runtime w other ≡ some host
      → v.generation_id ≡ w.generation_id
  unfolding host_of is_namespace
  host_of-eq-some host p q h k = elim (Bool-cases (text_eq runtime (codes "standalone-compose"))) [
    | inl e ↦
        standalone_host_injective v.generation_id w.generation_id host (ground arith) (ground arith)
    | inr e ↦
        kubernetes_host_injective profile.short other.short v.generation_id w.generation_id
          (codes "jwb-query-local") (profile_of-IsShort v.backend_type profile p)
          (profile_of-IsShort w.backend_type other q) (ground arith)
  ]

-- Two generations of one source that one registry leads to the same host are the same generation.
pub RoutesTo-host_injective :
    (source : Text) (table : List Descriptor) (runtime id k : Text) (target other : Target)
    → RoutesTo source table runtime id target
    → RoutesTo source table runtime k other
    → target.allowed_hostname ≡ other.allowed_hostname
    → id ≡ k
unfolding target_at
RoutesTo-host_injective source table runtime id k target other a b h =
    let same : a.host ≡ b.host =
      sym (ap (λ t. t.allowed_hostname) a.reached) ∙ h ∙ ap (λ t. t.allowed_hostname) b.reached in
    sym (selected_generation source id table a.descriptor a.listed)
    ∙ host_of-eq-some runtime a.descriptor b.descriptor a.profile b.profile b.host a.known b.known
        (a.hosted ∙ ap some same) b.hosted
    ∙ selected_generation source k table b.descriptor b.listed
