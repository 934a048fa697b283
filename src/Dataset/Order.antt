-- ===== src/Dataset/Order.antt =====
-- A sorted list without repetitions is determined by what is in it.
use custom_wikibase.Prelude.{
  Bool, true, false, ◌&&◌, List, [], ◌∷◌, ◌≡◌, refl, sym, ◌∙◌, arith, Text, text_eq, text_eq_iff,
  text_lt, text_lt_irrefl, text_lt_trans, text_lt_or_ge, text_eq_refl, includes, Bool-cases, inl,
  inr,
}
use custom_wikibase.Dataset.Lines.{
  without, unique, insert_line, sort_lines, includes-sort_lines, includes-unique, includes-without,
}

-- The first is less than each of the list.
above : Text → List Text → Bool
above x [] = true
above x (y ∷ ys) = text_lt x y && above x ys

Strict : List Text → Type 0
Strict [] = Unit
Strict (x ∷ xs) = (above x xs ≡ true) × Strict xs

above-absent : (x : Text) (l : List Text) → above x l ≡ true → includes l x ≡ false
unfolding above includes
above-absent x [] h = ground arith
above-absent x (y ∷ ys) h = ground (arith, text_lt_irrefl x, text_eq_iff y x, above-absent x ys)

above_trans :
    (z x : Text) (l : List Text) → text_lt z x ≡ true → above x l ≡ true → above z l ≡ true
unfolding above
above_trans z x [] p h = ground arith
above_trans z x (y ∷ ys) p h = ground (arith, text_lt_trans z x y, above_trans z x ys)

above-insert_line :
    (z x : Text) (l : List Text)
    → text_lt z x ≡ true
    → above z l ≡ true
    → above z (insert_line x l) ≡ true
unfolding above insert_line
above-insert_line z x [] p h = ground arith
above-insert_line z x (y ∷ ys) p h = ground (arith, above-insert_line z x ys)

insert_line-Strict :
    (x : Text) (l : List Text) → includes l x ≡ false → Strict l → Strict (insert_line x l)
unfolding Strict insert_line includes above
insert_line-Strict x [] absent s = (refl, tt)
insert_line-Strict x (y ∷ ys) absent (first, s) = elim (Bool-cases (text_lt y x)) [
  | inl less ↦
      rw less (above-insert_line y x ys less first, insert_line-Strict x ys (ground arith) s)
  | inr not_less ↦
      let less : text_lt x y ≡ true = ground (arith, text_lt_or_ge y x) in
      rw not_less (ground (arith, above_trans x y ys less first), (first, s))
]

-- Strictness of a list that was made unique and sorted.
Distinct : List Text → Type 0
Distinct [] = Unit
Distinct (x ∷ xs) = (includes xs x ≡ false) × Distinct xs

Distinct-without : (x : Text) (l : List Text) → Distinct l → Distinct (without x l)
unfolding Distinct without
Distinct-without x [] d = tt
Distinct-without x (y ∷ ys) (absent, d) = elim (Bool-cases (text_eq x y)) [
  | inl same ↦ rw same (Distinct-without x ys d)
  | inr differ ↦ rw differ (rw (includes-without x ys y, differ, absent), Distinct-without x ys d)
]

Distinct-unique : (l : List Text) → Distinct (unique l)
unfolding Distinct unique
Distinct-unique [] = tt
Distinct-unique (x ∷ xs) = (
  rw (includes-without x (unique xs) x, text_eq_refl x),
  Distinct-without x (unique xs) (Distinct-unique xs),
)

sort_lines-Strict : (l : List Text) → Distinct l → Strict (sort_lines l)
unfolding Distinct sort_lines Strict
sort_lines-Strict [] d = tt
sort_lines-Strict (x ∷ xs) (absent, d) =
    insert_line-Strict x (sort_lines xs) (includes-sort_lines xs x ∙ absent)
      (sort_lines-Strict xs d)

Same : List Text → List Text → Type 0
Same l m = (t : Text) → includes l t ≡ includes m t

head_least :
    (x y : Text) (xs ys : List Text)
    → above y ys ≡ true
    → Same (x ∷ xs) (y ∷ ys)
    → text_lt x y ≡ false
unfolding Same includes above
head_least x y xs ys first same = ground (
  arith,
  same x,
  text_eq_refl x,
  text_eq_iff y x,
  text_lt_irrefl x,
  above_trans x y ys,
  above-absent x ys,
)

tails_same :
    (x y : Text) (xs ys : List Text)
    → x ≡ y
    → above x xs ≡ true
    → above y ys ≡ true
    → Same (x ∷ xs) (y ∷ ys)
    → Same xs ys
unfolding Same includes
tails_same x y xs ys p first first' same t = ground (
  arith,
  p,
  same t,
  text_eq_iff x t,
  text_eq_iff y t,
  above-absent x xs first,
  above-absent y ys first',
)

Strict-same : (l m : List Text) → Strict l → Strict m → Same l m → l ≡ m
unfolding Strict Same includes
Strict-same [] [] s r same = refl
Strict-same [] (y ∷ ys) s r same = ground (arith, same y, text_eq_refl y)
Strict-same (x ∷ xs) [] s r same = ground (arith, same x, text_eq_refl x)
Strict-same (x ∷ xs) (y ∷ ys) (first, s) (first', r) same =
    let least = head_least x y xs ys first' same in
    let least' = head_least y x ys xs first (λ t. sym (same t)) in
    let p : x ≡ y = ground (arith, text_lt_or_ge x y, text_eq_iff x y) in
    let tails = Strict-same xs ys s r (tails_same x y xs ys p first first' same) in cc

-- The list that `[...new Set(lines)].sort()` makes depends on what is in the lines alone.
pub sort_lines-unique_same :
    (l m : List Text)
    → ((t : Text) → includes l t ≡ includes m t)
    → sort_lines (unique l) ≡ sort_lines (unique m)
unfolding Same
sort_lines-unique_same l m same =
    Strict-same _ _ (sort_lines-Strict _ (Distinct-unique l))
      (sort_lines-Strict _ (Distinct-unique m))
      λ t.
        includes-sort_lines (unique l) t
        ∙ includes-unique l t
        ∙ same t
        ∙ sym (includes-unique m t)
        ∙ sym (includes-sort_lines (unique m) t)
