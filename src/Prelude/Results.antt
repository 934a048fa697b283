-- ===== src/Prelude/Results.antt =====
-- Calls that may throw and change nothing, one after the other.
use mathlib.Core.Path.{◌≡◌, refl, ap}
use mathlib.Core.Bool.{Bool, true, false}
use custom_wikibase.Prelude.Strings.{Text}
use custom_wikibase.Prelude.Tests.{if◌then◌else◌}
use custom_wikibase.Prelude.Effects.{Result, ok, err}

pub ok-injective {ℓ} : {A : Type ℓ} {a b : A} → ok a ≡ ok b → a ≡ b
ok-injective {a = a} e = ap (λ r. elim r [ ok x ↦ x | err _ ↦ a ]) e

-- `if (!test) throw new Error(message)`.
unfoldable pub check : Bool → Text → Result (Unit {0})
check test e = if test then ok tt else err e

infixl 5 ◌>>=◌ ◌>>◌
unfoldable pub ◌>>=◌ {ℓ} : {A B : Type ℓ} → Result A → (A → Result B) → Result B
call >>= next = elim call [ ok a ↦ next a | err e ↦ err e ]

abbrev pub ◌>>◌ : {B : Type 0} → Result (Unit {0}) → Result B → Result B
call >> next = call >>= λ _. next

-- A chain that succeeded has a first call that did: for a proof that goes on inside the chain.
pub after {ℓ ℓ'} :
    {A B : Type ℓ} {P : Type ℓ'} {call : Result A} {next : A → Result B} {b : B}
    → (call >>= next) ≡ ok b
    → ((a : A) → call ≡ ok a → next a ≡ ok b → P)
    → P
unfolding ◌>>=◌
after {call = ok a} e k = k a refl e
after {call = err _} e k = cc

-- The same for a test that was made.
pub after_check {ℓ} :
    {B : Type 0} {P : Type ℓ} {t : Bool} {k : Result B} {b : B} (e : Text)
    → (check t e >> k) ≡ ok b
    → (t ≡ true → k ≡ ok b → P)
    → P
unfolding ◌>>=◌ check
after_check {t = true} e p k = k refl p
after_check {t = false} e p k = cc
