-- ===== src/Backends/Normal.antt =====
-- What validated metadata is: all capabilities, in their order, and stable under the validation.
use mathlib.Core.Path.{subst}
use custom_wikibase.Prelude.{
  Bool, true, false, some, List, [], ◌∷◌, not, ◌&&◌, ◌≡◌, refl, ap, arith, Text, text_eq,
  text_eq_iff, text_eq_refl, Bool-cases, inl, inr, includes, Dict, lookup, ok,
}
use custom_wikibase.Prelude.Results.{◌>>=◌, after, ok-injective}
use custom_wikibase.Backends.Metadata.{
  Value, text, boolean, other, object, MetadataValue, metadata, not_metadata, RdfBackendMetadata,
  backend_types, capability_names, keys, not_in, refuse, boolean_of, normalized, type_of_backend,
  map_of, validate_rdf_backend_metadata,
}

-- A dictionary of Booleans, as an argument.
unfoldable pub values : Dict Bool → Dict Value
values [] = []
values ((n, b) ∷ m) = (n, boolean b) ∷ values m

-- The metadata, as an argument.
abbrev pub as_value : RdfBackendMetadata → MetadataValue
as_value d = metadata (text d.backend_type) (object (values d.capabilities))

keys-normalized :
    (ns : List Text) (m : Dict Value) (d : Dict Bool) → normalized ns m ≡ ok d → keys d ≡ ns
unfolding keys normalized
keys-normalized [] m d e = ground arith
keys-normalized (n ∷ ns) m d e = after e λ b _ e1. after e1 λ rest is_rest e2.
    subst (λ d. keys d ≡ n ∷ ns) (ok-injective e2)
      (ap (λ l. n ∷ l) (keys-normalized ns m rest is_rest))

keys-values : (d : Dict Bool) → keys (values d) ≡ keys d
unfolding keys values
keys-values [] = refl
keys-values ((n, b) ∷ d) = ap (λ l. n ∷ l) (keys-values d)

-- Every entry of the first is the one that the second finds.
Found : Dict Bool → Dict Bool → Type 0
Found [] m = Unit
Found ((n, b) ∷ d) m = (lookup n (values m) ≡ some (boolean b)) × Found d m

distinct : List Text → Bool
distinct [] = true
distinct (n ∷ ns) = not (includes ns n) && distinct ns

Found-weaken :
    (d m : Dict Bool) (n : Text) (b : Bool)
    → includes (keys d) n ≡ false
    → Found d m
    → Found d ((n, b) ∷ m)
unfolding Found keys values lookup includes
Found-weaken [] m n b absent f = tt
Found-weaken ((j, c) ∷ d) m n b absent (here, rest) =
    (ground (arith, text_eq_iff n j, text_eq_iff j n), Found-weaken d m n b (ground arith) rest)

Found-self : (d : Dict Bool) → distinct (keys d) ≡ true → Found d d
unfolding Found keys values lookup distinct
Found-self [] e = tt
Found-self ((n, b) ∷ d) e =
    (rw (text_eq_refl n), Found-weaken d d n b (ground arith) (Found-self d (ground arith)))

normalized-keys : (d m : Dict Bool) → Found d m → normalized (keys d) (values m) ≡ ok d
unfolding Found keys normalized boolean_of ◌>>=◌
normalized-keys [] m f = refl
normalized-keys ((n, b) ∷ d) m (here, rest) = rw (here, normalized-keys d m rest)

type_of_backend-ok :
    (v : Value) (t : Text) → type_of_backend v ≡ ok t → includes backend_types t ≡ true
unfolding type_of_backend
type_of_backend-ok (text s) t e = elim (Bool-cases (includes backend_types s)) [
  | inl known ↦ subst (λ t. includes backend_types t ≡ true) (ok-injective (rw known at e)) known
  | inr unknown ↦ ground arith
]
type_of_backend-ok (boolean b) t e = cc
type_of_backend-ok other t e = cc

nothing_new : not_in capability_names capability_names ≡ []
unfolding not_in includes text_eq
nothing_new = refl

names-distinct : distinct capability_names ≡ true
unfolding distinct includes text_eq
names-distinct = refl

normal_again :
    (b : Text) (d : Dict Bool)
    → includes backend_types b ≡ true
    → keys d ≡ capability_names
    → validate_rdf_backend_metadata (metadata (text b) (object (values d)))
      ≡ ok (record { backend_type = b; capabilities = d })
unfolding validate_rdf_backend_metadata type_of_backend map_of refuse ◌>>=◌
normal_again b d known named =
    let same : normalized capability_names (values d) ≡ ok d =
      subst (λ ns. normalized ns (values d) ≡ ok d) named
        (normalized-keys d d (Found-self d (rw (named, names-distinct)))) in
    rw (known, keys-values d, named, nothing_new, same)

Normal : RdfBackendMetadata → Type 0
Normal d =
    (includes backend_types d.backend_type ≡ true)
    × (keys d.capabilities ≡ capability_names)
    × (validate_rdf_backend_metadata (as_value d) ≡ ok d)

-- Validated metadata names a known backend and has a value for each capability, in their order, and
-- nothing else; it is validated again, to itself.
pub validate_rdf_backend_metadata-as_value :
    (v : MetadataValue) (d : RdfBackendMetadata)
    → validate_rdf_backend_metadata v ≡ ok d
    → (includes backend_types d.backend_type ≡ true)
      × (keys d.capabilities ≡ capability_names)
      × (validate_rdf_backend_metadata (as_value d) ≡ ok d)
unfolding validate_rdf_backend_metadata Normal
validate_rdf_backend_metadata-as_value not_metadata d e = cc
validate_rdf_backend_metadata-as_value (metadata type capabilities) d e = after e λ b is_b e1.
    after e1 λ m _ e2. after e2 λ _ _ e3. after e3 λ _ _ e4. after e4 λ c is_c e5.
      let known = type_of_backend-ok type b is_b in
      let named = keys-normalized capability_names m c is_c in
      subst Normal (ok-injective e5) (known, named, normal_again b c known named)
