-- ===== src/Prelude/Runs.antt =====
-- What a run that succeeds says of its first call, and what every call of a run keeps.
use mathlib.Core.Path.{◌≡◌, refl, sym, ◌∙◌}
use mathlib.Core.Bool.{Bool, true, false}
use custom_wikibase.Prelude.Strings.{Text}
use custom_wikibase.Prelude.Effects.{
  Result, ok, err, Exec, continue, lift, throw_if, recover, try_catch, ◌>>=◌, ◌>>◌,
}

bind-continue {ℓ} :
    {S A B : Type ℓ} (m : Exec S A) (f : A → Exec S B) (s : S)
    → (m >>= f) s ≡ continue (m s).0 f (m s).1
unfolding ◌>>=◌
bind-continue m f s = refl

module _ {ℓ ℓ'} {S A B : Type ℓ} {P : Type ℓ'} where
  continue_after :
      (x : Result A × S) (f : A → Exec S B) {b : B} {s' : S}
      → continue x.0 f x.1 ≡ (ok b, s')
      → ((a : A) (t : S) → x ≡ (ok a, t) → f a t ≡ (ok b, s') → P)
      → P
  continue_after (ok a, t) f e k = k a t refl e
  continue_after (err c, t) f e k = cc

  pub run_after :
      (m : Exec S A) (f : A → Exec S B) {s : S} {b : B} {s' : S}
      → (m >>= f) s ≡ (ok b, s')
      → ((a : A) (t : S) → m s ≡ (ok a, t) → f a t ≡ (ok b, s') → P)
      → P
  run_after m f {s = s} e k = continue_after (m s) f (sym (bind-continue m f s) ∙ e) k

  lift_cases :
      (r : Result A) (f : A → Exec S B) {s : S} {b : B} {s' : S}
      → continue r f s ≡ (ok b, s')
      → ((a : A) → r ≡ ok a → f a s ≡ (ok b, s') → P)
      → P
  lift_cases (ok a) f e k = k a refl e
  lift_cases (err c) f e k = cc

  pub lift_after :
      (r : Result A) (f : A → Exec S B) {s : S} {b : B} {s' : S}
      → (lift r >>= f) s ≡ (ok b, s')
      → ((a : A) → r ≡ ok a → f a s ≡ (ok b, s') → P)
      → P
  lift_after r f {s = s} e k = lift_cases r f (sym (bind-continue (lift r) f s) ∙ e) k

throw_if_cases {ℓ} :
    {S B : Type 0} {P : Type ℓ} (t : Bool) (e : Text) (k : Exec S B) (s : S) {b : B} {s' : S}
    → (throw_if t e >> k) s ≡ (ok b, s')
    → (t ≡ false → k s ≡ (ok b, s') → P)
    → P
unfolding ◌>>=◌ throw_if
throw_if_cases true e k s p c = cc
throw_if_cases false e k s p c = c refl p

pub throw_if_after {ℓ} :
    {S B : Type 0} {P : Type ℓ} (t : Bool) (e : Text) (k : Exec S B) {s : S} {b : B} {s' : S}
    → (throw_if t e >> k) s ≡ (ok b, s')
    → (t ≡ false → k s ≡ (ok b, s') → P)
    → P
throw_if_after t e k {s = s} p c = throw_if_cases t e k s p c

-- A call that keeps a predicate of the state, whether it succeeds or throws.
unfoldable pub Keeps : {S A : Type 0} → (S → Type 0) → Exec S A → Type 0
Keeps {S} P m = (s : S) → P s → P (m s).1

module _ {S : Type 0} (P : S → Type 0) where
  continue-Keeps :
      {A B : Type 0} (r : Result A) (k : A → Exec S B) (s : S)
      → ((a : A) → Keeps P (k a))
      → P s
      → P (continue r k s).1
  unfolding Keeps
  continue-Keeps (ok a) k s keeps p = keeps a s p
  continue-Keeps (err e) k s keeps p = p

  pub bind-Keeps :
      {A B : Type 0} (m : Exec S A) (k : A → Exec S B)
      → Keeps P m
      → ((a : A) → Keeps P (k a))
      → Keeps P (m >>= k)
  unfolding Keeps ◌>>=◌
  bind-Keeps m k first rest s p = continue-Keeps (m s).0 k (m s).1 rest (first s p)

  pub lift-Keeps : {A : Type 0} (r : Result A) → Keeps P (lift r)
  unfolding Keeps
  lift-Keeps r s p = p

  pub throw_if-Keeps : (t : Bool) (e : Text) → Keeps P (throw_if t e)
  unfolding Keeps throw_if
  throw_if-Keeps true e s p = p
  throw_if-Keeps false e s p = p

  recover-Keeps :
      {A : Type 0} (handler : Text → Exec S A) (r : Result A) (s : S)
      → ((e : Text) → Keeps P (handler e))
      → P s
      → P (recover handler r s).1
  unfolding Keeps
  recover-Keeps handler (ok a) s keeps p = p
  recover-Keeps handler (err e) s keeps p = keeps e s p

  pub try_catch-Keeps :
      {A : Type 0} (m : Exec S A) (handler : Text → Exec S A)
      → Keeps P m
      → ((e : Text) → Keeps P (handler e))
      → Keeps P (try_catch m handler)
  unfolding Keeps try_catch
  try_catch-Keeps m handler first rest s p = recover-Keeps handler (m s).0 (m s).1 rest (first s p)
