-- ===== src/Prelude/Strings.antt =====
-- Text as the list of its code points, with the tests that the program makes of it: equality,
-- the order of `<` on strings, prefixes, and the decimal print of a number.
use Prim.Native.Nat.{ℕ, zero, suc, ◌+◌, ◌/◌, ◌%◌}
use Prim.Native.Char.{code}
use Prim.Native.String.{String}
use mathlib.Core.Path.{◌≡◌}
use mathlib.Core.Logic.{◌↔◌, ◌⊎◌}
use mathlib.Core.Bool.{Bool, true, false, ◌&&◌, ◌||◌}
use mathlib.Core.Option.{Option, none, some}
use mathlib.Core.List.{List, [], ◌∷◌, ◌++◌}
use native.Mathlib.Omega.{arith}
use custom_wikibase.Prelude.Tests.{ltb, leb, ◌==◌, if◌then◌else◌}

abbrev pub Text : Type 0
Text = List ℕ

abbrev pub codes : String → Text
codes String.[] = []
codes (String.◌∷◌ c s) = code c ∷ codes s

module _ {ℓ} {A : Type ℓ} where
  abbrev pub length : List A → ℕ
  length [] = 0
  length (x ∷ xs) = suc (length xs)

  abbrev pub take : ℕ → List A → List A
  take zero xs = []
  take (suc n) [] = []
  take (suc n) (x ∷ xs) = x ∷ take n xs

-- `===` on strings.
unfoldable pub text_eq : Text → Text → Bool
text_eq [] [] = true
text_eq (a ∷ s) (b ∷ t) = a == b && text_eq s t
text_eq _ _ = false

pub text_eq_iff : (s t : Text) → (text_eq s t ≡ true) ↔ (s ≡ t)
unfolding text_eq
text_eq_iff [] [] = ground arith
text_eq_iff (a ∷ s) (b ∷ t) = ground (arith, text_eq_iff s t)
text_eq_iff [] (b ∷ t) = ground arith
text_eq_iff (a ∷ s) [] = ground arith

pub text_eq_refl : (s : Text) → text_eq s s ≡ true
text_eq_refl s = (text_eq_iff s s).1 refl
  where
    refl : s ≡ s
    refl = λ _. s

pub text_eq_comm : (s t : Text) → text_eq s t ≡ text_eq t s
unfolding text_eq
text_eq_comm [] [] = ground arith
text_eq_comm (a ∷ s) (b ∷ t) = ground (arith, text_eq_comm s t)
text_eq_comm [] (b ∷ t) = ground arith
text_eq_comm (a ∷ s) [] = ground arith

-- `<` on strings: the first difference decides.
unfoldable pub text_lt : Text → Text → Bool
text_lt [] [] = false
text_lt [] (b ∷ t) = true
text_lt (a ∷ s) [] = false
text_lt (a ∷ s) (b ∷ t) = ltb a b || (a == b && text_lt s t)

pub text_lt_irrefl : (s : Text) → text_lt s s ≡ false
unfolding text_lt
text_lt_irrefl [] = ground arith
text_lt_irrefl (a ∷ s) = ground (arith, text_lt_irrefl s)

pub text_lt_trans : (s t u : Text) → text_lt s t ≡ true → text_lt t u ≡ true → text_lt s u ≡ true
unfolding text_lt
text_lt_trans [] [] u p q = ground arith
text_lt_trans [] (b ∷ t) [] p q = ground arith
text_lt_trans [] (b ∷ t) (c ∷ u) p q = ground arith
text_lt_trans (a ∷ s) [] u p q = ground arith
text_lt_trans (a ∷ s) (b ∷ t) [] p q = ground arith
text_lt_trans (a ∷ s) (b ∷ t) (c ∷ u) p q = ground (arith, text_lt_trans s t u)

-- `text.startsWith(prefix)`, the prefix first.
unfoldable pub starts_with : Text → Text → Bool
starts_with [] _ = true
starts_with (p ∷ ps) [] = false
starts_with (p ∷ ps) (c ∷ cs) = p == c && starts_with ps cs

-- What follows a prefix, where the text has it.
unfoldable pub strip_prefix : Text → Text → Option Text
strip_prefix [] cs = some cs
strip_prefix (p ∷ ps) [] = none
strip_prefix (p ∷ ps) (c ∷ cs) = if p == c then strip_prefix ps cs else none

pub strip_prefix-append : (p s : Text) → strip_prefix p (p ++ s) ≡ some s
unfolding strip_prefix
strip_prefix-append [] s = ground arith
strip_prefix-append (c ∷ p) s = ground (arith, strip_prefix-append p s)

pub strip_prefix-eq-some : (p t s : Text) → strip_prefix p t ≡ some s → t ≡ p ++ s
unfolding strip_prefix
strip_prefix-eq-some [] t s h = ground arith
strip_prefix-eq-some (c ∷ p) [] s h = ground arith
strip_prefix-eq-some (c ∷ p) (d ∷ t) s h = ground (arith, strip_prefix-eq-some p t s)

-- `tags.includes(tag)`.
unfoldable pub includes : List Text → Text → Bool
unfolding text_eq
includes [] t = false
includes (s ∷ l) t = text_eq s t || includes l t

abbrev pub is_digit : ℕ → Bool
is_digit c = leb b'0' c && leb c b'9'

abbrev pub is_upper : ℕ → Bool
is_upper c = leb b'A' c && leb c b'Z'

-- The decimal print of a number, with one unit of fuel for each digit.
decimal_from : ℕ → ℕ → Text
decimal_from zero n = []
decimal_from (suc f) n =
    let rest = decimal_from f (n / 10) in
    if ltb n 10 then (b'0' + n) ∷ [] else rest ++ (b'0' + n % 10) ∷ []

unfoldable pub decimal : ℕ → Text
unfolding decimal_from
decimal n = decimal_from (suc n) n

pub text_lt_or_ge : (s t : Text) → text_lt s t ≡ false → (text_lt t s ≡ true) ⊎ (text_eq s t ≡ true)
unfolding text_lt text_eq
text_lt_or_ge [] [] h = ground arith
text_lt_or_ge [] (b ∷ t) h = ground arith
text_lt_or_ge (a ∷ s) [] h = ground arith
text_lt_or_ge (a ∷ s) (b ∷ t) h = ground (arith, text_lt_or_ge s t)
