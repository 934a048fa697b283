-- ===== src/Coordinator/Fences.antt =====
-- The identifiers and the fences of the operations of
-- services/rdf-sync/src/postgres-generation-coordinator-repository.js, through every statement.
use custom_wikibase.Prelude.{
  ◌≡◌, refl, sym, ap, ◌∙◌, Bool, true, false, not, ◌&&◌, ◌||◌, none, some, List, [], ◌∷◌, ◌++◌,
  Text, text_eq, text_eq_iff, text_eq_refl, text_eq_comm, ℕ, ◌+◌, ◌<◌, leb, if◌then◌else◌, arith,
  Bool-cases, inl, inr,
}
use custom_wikibase.Serving.Tables.{update_where}
use custom_wikibase.Coordinator.{OperationRow, AttemptRow}
use custom_wikibase.Coordinator.Statements.{Caller, is_held_row, has_row, first_where}
use custom_wikibase.Coordinator.Operations.{is_operation, claimed}
use custom_wikibase.Coordinator.Conclusion.{is_owned_row}
use custom_wikibase.Coordinator.Kept.{KeepsFence, IsInvariant, claimed-KeepsFence}

-- The primary key: no two operations have one identifier.
unfoldable pub is_keyed : List OperationRow → Bool
is_keyed [] = true
is_keyed (o ∷ l) = not (has_row (is_operation o.id) l) && is_keyed l

-- The operation's fence is at least the number.
unfoldable pub is_above : Text → ℕ → List OperationRow → Bool
is_above id n [] = true
is_above id n (o ∷ l) = (not (text_eq o.id id) || leb n o.fence) && is_above id n l

pub has_row-update :
    (id : Text) (test : OperationRow → Bool) (set : OperationRow → OperationRow)
    (l : List OperationRow)
    → KeepsFence set
    → has_row (is_operation id) (update_where test set l) ≡ has_row (is_operation id) l
unfolding has_row update_where
has_row-update id test set [] k = refl
has_row-update id test set (o ∷ l) k = ground (arith, k.same_id o, has_row-update id test set l k)

pub has_row-append :
    (id : Text) (o : OperationRow) (l : List OperationRow)
    → has_row (is_operation id) (l ++ o ∷ []) ≡ has_row (is_operation id) l || text_eq o.id id
unfolding has_row
has_row-append id o [] = ground arith
has_row-append id o (q ∷ l) = ground (arith, has_row-append id o l)

is_keyed-update :
    (test : OperationRow → Bool) (set : OperationRow → OperationRow) (l : List OperationRow)
    → KeepsFence set
    → is_keyed l ≡ true
    → is_keyed (update_where test set l) ≡ true
unfolding is_keyed update_where
is_keyed-update test set [] k h = refl
is_keyed-update test set (o ∷ l) k h =
    ground (arith, k.same_id o, has_row-update o.id test set l k, is_keyed-update test set l k)

is_keyed-append :
    (o : OperationRow) (l : List OperationRow)
    → has_row (is_operation o.id) l ≡ false
    → is_keyed l ≡ true
    → is_keyed (l ++ o ∷ []) ≡ true
unfolding is_keyed has_row
is_keyed-append o [] f h = refl
is_keyed-append o (q ∷ l) f h =
    ground (arith, has_row-append q.id o l, text_eq_comm q.id o.id, is_keyed-append o l)

is_above-update :
    (id : Text) (n : ℕ) (test : OperationRow → Bool) (set : OperationRow → OperationRow)
    (l : List OperationRow)
    → KeepsFence set
    → is_above id n l ≡ true
    → is_above id n (update_where test set l) ≡ true
unfolding is_above update_where
is_above-update id n test set [] k h = refl
is_above-update id n test set (o ∷ l) k h =
    ground (arith, k.same_id o, k.no_less o, is_above-update id n test set l k)

is_above-append :
    (id : Text) (n : ℕ) (o : OperationRow) (l : List OperationRow)
    → text_eq o.id id ≡ false
    → is_above id n l ≡ true
    → is_above id n (l ++ o ∷ []) ≡ true
unfolding is_above
is_above-append id n o [] f h = ground arith
is_above-append id n o (q ∷ l) f h = ground (arith, is_above-append id n o l f)

-- A fresh identifier is another one.
fresh-other :
    (id : Text) (o : OperationRow) (l : List OperationRow)
    → has_row (is_operation id) l ≡ true
    → has_row (is_operation o.id) l ≡ false
    → text_eq o.id id ≡ false
fresh-other id o l h f = elim (Bool-cases (text_eq o.id id)) [
  | inr e ↦ e
  | inl e ↦ ground (arith, ap (λ i. has_row (is_operation i) l) ((text_eq_iff o.id id).0 e))
]

pub Keyed-IsInvariant : IsInvariant (λ l a. is_keyed l ≡ true)
Keyed-IsInvariant = record {
  updates = λ test set l a k q. is_keyed-update test set l k q;
  inserts = λ o l a f q. is_keyed-append o l f q;
  steps = λ test to l a s q. q;
  plans = λ b l a role q. q;
}

unfoldable pub Above : Text → ℕ → List OperationRow → List AttemptRow → Type 0
Above id n l a = (has_row (is_operation id) l ≡ true) × (is_above id n l ≡ true)

pub Above-IsInvariant : (id : Text) (n : ℕ) → IsInvariant (Above id n)
unfolding Above
Above-IsInvariant id n = record {
  updates = λ test set l a k q.
      (has_row-update id test set l k ∙ q.0, is_above-update id n test set l k q.1);
  inserts = λ o l a f q. (
    has_row-append id o l ∙ ap (λ b. b || text_eq o.id id) q.0,
    is_above-append id n o l (fresh-other id o l q.0 f) q.1,
  );
  steps = λ test to l a s q. q;
  plans = λ b l a role q. q;
}

pub some-injective : {A : Type 0} {a b : A} → some a ≡ some b → a ≡ b
some-injective {a = a} p = ap (λ x. elim x [ none ↦ a | some r ↦ r ]) p

first_where-head :
    (test : OperationRow → Bool) (q : OperationRow) (l : List OperationRow) (o : OperationRow)
    → test q ≡ true
    → first_where test (q ∷ l) ≡ some o
    → q ≡ o
unfolding first_where
first_where-head test q l o e h =
    some-injective (ap (λ b. if b then some q else first_where test l) (sym e) ∙ h)

-- The row that is found is there.
pub first_where-has_row :
    (test : OperationRow → Bool) (l : List OperationRow) (o : OperationRow)
    → first_where test l ≡ some o
    → has_row (is_operation o.id) l ≡ true
unfolding first_where has_row
first_where-has_row test [] o h = cc
first_where-has_row test (q ∷ l) o h = elim (Bool-cases (test q)) [
  | inl e ↦ ground (arith, ap (λ r. r.id) (first_where-head test q l o e h), text_eq_refl o.id)
  | inr e ↦ ground (arith, first_where-has_row test l o)
]

none-is_above :
    (id : Text) (n : ℕ) (l : List OperationRow)
    → has_row (is_operation id) l ≡ false
    → is_above id n l ≡ true
unfolding is_above has_row
none-is_above id n [] h = refl
none-is_above id n (o ∷ l) h = ground (arith, none-is_above id n l)

claimed-rest :
    (c : Caller) (id : Text) (n : ℕ) (l : List OperationRow)
    → has_row (is_operation id) l ≡ false
    → is_above id n (update_where (is_operation id) (claimed c) l) ≡ true
claimed-rest c id n l h =
    none-is_above id n _
      (has_row-update id (is_operation id) (claimed c) l (claimed-KeepsFence c) ∙ h)

pub claimed-is_above :
    (c : Caller) (test : OperationRow → Bool) (l : List OperationRow) (o : OperationRow)
    → is_keyed l ≡ true
    → first_where test l ≡ some o
    → is_above o.id (o.fence + 1) (update_where (is_operation o.id) (claimed c) l) ≡ true
unfolding first_where is_keyed is_above update_where claimed
claimed-is_above c test [] o k h = cc
claimed-is_above c test (q ∷ l) o k h = elim (Bool-cases (test q)) [
  | inl e ↦ ground (
    arith,
    ap (λ r. r.id) (first_where-head test q l o e h),
    ap (λ r. r.fence) (first_where-head test q l o e h),
    ap (λ r. has_row (is_operation r.id) l) (first_where-head test q l o e h),
    text_eq_refl o.id,
    claimed-rest c o.id (o.fence + 1) l,
  )
  | inr e ↦
      ground
        (arith, first_where-has_row test l o, claimed-is_above c test l o, fresh-other o.id q l)
]

pub above-is_held :
    (w : Caller) (id : Text) (n fence : ℕ) (l : List OperationRow)
    → fence < n
    → is_above id n l ≡ true
    → has_row (is_held_row w id fence) l ≡ false
unfolding has_row is_above is_held_row
above-is_held w id n fence [] b h = refl
above-is_held w id n fence (o ∷ l) b h = ground (arith, above-is_held w id n fence l b)

pub above-is_owned :
    (w : Caller) (id : Text) (n fence : ℕ) (l : List OperationRow)
    → fence < n
    → is_above id n l ≡ true
    → has_row (is_owned_row w id fence) l ≡ false
unfolding has_row is_above is_owned_row
above-is_owned w id n fence [] b h = refl
above-is_owned w id n fence (o ∷ l) b h = ground (arith, above-is_owned w id n fence l b)
