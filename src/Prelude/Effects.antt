-- ===== src/Prelude/Effects.antt =====
-- Asynchronous methods that change state and may throw. What was written before a throw stays
-- written, so the state comes back beside the error too. An error is its message.
use mathlib.Core.Bool.{Bool, true, false}
use mathlib.Core.Path.{◌≡◌, refl}
use mathlib.Core.Logic.{◌⊎◌, inl, inr}
use custom_wikibase.Prelude.Strings.{Text}

pub data Result {ℓ} (A : Type ℓ) : Type ℓ where
  ok : A → Result A
  err : Text → Result A

pub Result-cases {ℓ} :
    {A : Type ℓ} (r : Result A) → ((e : Text) × (r ≡ err e)) ⊎ ((a : A) × (r ≡ ok a))
Result-cases (ok a) = inr (a, refl)
Result-cases (err e) = inl (e, refl)

abbrev pub Exec {ℓ} : Type ℓ → Type ℓ → Type ℓ
Exec S A = S → Result A × S

module _ {ℓ} {S A : Type ℓ} where
  abbrev pub pure : A → Exec S A
  pure a s = (ok a, s)

  -- `throw new Error(message)`.
  abbrev pub throw : Text → Exec S A
  throw e s = (err e, s)

  -- A call that changes no state.
  abbrev pub lift : Result A → Exec S A
  lift r s = (r, s)

  abbrev pub gets : (S → A) → Exec S A
  gets f s = (ok (f s), s)

  abbrev pub recover : (Text → Exec S A) → Result A → S → Result A × S
  recover handler (ok a) s = (ok a, s)
  recover handler (err e) s = handler e s

  -- `try { … } catch (error) { … }`.
  unfoldable pub try_catch : Exec S A → (Text → Exec S A) → Exec S A
  try_catch m handler s = let (r, s') = m s in recover handler r s'

module _ {ℓ} {S A B : Type ℓ} where
  abbrev pub continue : Result A → (A → Exec S B) → Exec S B
  continue (ok a) f s = f a s
  continue (err e) f s = (err e, s)

module _ {S : Type 0} where
  abbrev pub modify : (S → S) → Exec S (Unit {0})
  modify f s = (ok tt, f s)

  -- `if (test) { … }` with nothing else.
  unfoldable pub when : Bool → Exec S (Unit {0}) → Exec S (Unit {0})
  when true m = m
  when false m = pure tt

  -- `if (test) throw new Error(message)`.
  unfoldable pub throw_if : Bool → Text → Exec S (Unit {0})
  throw_if true e = throw e
  throw_if false e = pure tt

infixl 5 ◌>>=◌ ◌>>◌
unfoldable pub ◌>>=◌ {ℓ} : {S A B : Type ℓ} → Exec S A → (A → Exec S B) → Exec S B
◌>>=◌ m f s = let (r, s') = m s in continue r f s'

abbrev pub ◌>>◌ : {S B : Type 0} → Exec S (Unit {0}) → Exec S B → Exec S B
m >> k = m >>= λ _. k
