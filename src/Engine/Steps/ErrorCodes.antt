-- ===== src/Engine/Steps/ErrorCodes.antt =====
-- The error codes that the engine stores.
use custom_wikibase.Prelude.{
  ℕ, zero, suc, ◌≡◌, ◌≤◌, refl, Bool, true, false, ◌&&◌, inl, inr, some, Option-cases, [], ◌∷◌,
  Text, length, leb, is_upper, arith,
}
use custom_wikibase.Engine.Steps.{is_code_char, code_run, find_code, sanitize_code}

unfoldable pub all_code_chars : Text → Bool
all_code_chars [] = true
all_code_chars (c ∷ s) = is_code_char c && all_code_chars s

-- `/^[A-Z][A-Z0-9_]{2,63}$/u`, the test of `safeCode` before a code is stored.
unfoldable pub is_error_code : Text → Bool
unfolding all_code_chars
is_error_code [] = false
is_error_code (c ∷ s) = is_upper c && all_code_chars s && leb 2 (length s) && leb (length s) 63

code_run_chars : (n : ℕ) (s : Text) → all_code_chars (code_run n s) ≡ true
unfolding all_code_chars code_run
code_run_chars zero s = refl
code_run_chars (suc n) [] = refl
code_run_chars (suc n) (c ∷ s) = ground (arith, code_run_chars n s)

length-code_run-le : (n : ℕ) (s : Text) → length (code_run n s) ≤ n
unfolding code_run
length-code_run-le zero s = omega arith
length-code_run-le (suc n) [] = omega arith
length-code_run-le (suc n) (c ∷ s) = ground (arith, length-code_run-le n s)

find_code-is_error_code : (s code : Text) → find_code s ≡ some code → is_error_code code ≡ true
unfolding find_code is_error_code
find_code-is_error_code [] code h = cc
find_code-is_error_code (c ∷ s) code h =
    ground (arith, find_code-is_error_code s code, code_run_chars 63 s, length-code_run-le 63 s)

-- Whatever the message of an error, the code that the engine stores for it passes the repository's
-- test: a letter and 2 to 63 capital letters, digits or underscores.
pub sanitize_code-is_error_code : (message : Text) → is_error_code (sanitize_code message) ≡ true
unfolding sanitize_code
sanitize_code-is_error_code message = elim (Option-cases (find_code message)) [
  | inl e ↦ rw (e, sanitize_code) (unfold is_error_code in refl)
  | inr (code, e) ↦ rw (e, sanitize_code) (find_code-is_error_code message code e)
]
