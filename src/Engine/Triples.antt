-- ===== src/Engine/Triples.antt =====
-- A logic for the engine's methods: what a call makes of the durable source row and entity rows,
-- by whether it returns or throws.
use custom_wikibase.Prelude.{
  ◌≡◌, refl, sym, ◌∙◌, Bool, true, false, Text, Dict, Result, ok, err, Exec, pure, throw, lift,
  when, throw_if, recover, try_catch, continue, ◌>>=◌, if◌then◌else◌,
}
use custom_wikibase.RdfSync.Repository.{SourceRow, EntityRow}
use custom_wikibase.Engine.World.{World}
use mathlib.Core.Path.{subst₂}

-- A predicate of the durable rows.
abbrev pub Rows : Type 1
Rows = SourceRow → Dict EntityRow → Type 0

module _ {Outside A : Type 0} where
  -- What holds of the rows after a call.
  abbrev pub Holds : (A → Rows) → (Text → Rows) → Result A × World Outside → Type 0
  Holds Q E (ok a, w) = Q a w.repo.source w.repo.entities
  Holds Q E (err e, w) = E e w.repo.source w.repo.entities

  pub record Triple (P : Rows) (m : Exec (World Outside) A) (Q : A → Rows) (E : Text → Rows)
      : Type 0 where
    pub at : (w : World Outside) → P w.repo.source w.repo.entities → Holds Q E (m w)

  -- A call that leaves both alone.
  pub record Quiet (m : Exec (World Outside) A) : Type 0 where
    pub source_same : (w : World Outside) → (m w).1.repo.source ≡ w.repo.source
    pub entities_same : (w : World Outside) → (m w).1.repo.entities ≡ w.repo.entities

module _ {Outside A : Type 0} where
  pub Quiet-pure : (a : A) → Quiet {Outside = Outside} (pure a)
  Quiet-pure a = record { source_same = λ w. refl; entities_same = λ w. refl }

  pub Quiet-throw : (e : Text) → Quiet {Outside = Outside} {A = A} (throw e)
  Quiet-throw e = record { source_same = λ w. refl; entities_same = λ w. refl }

  pub Quiet-lift : (r : Result A) → Quiet {Outside = Outside} (lift r)
  Quiet-lift r = record { source_same = λ w. refl; entities_same = λ w. refl }

module _ {Outside : Type 0} where
  pub Quiet-throw_if : (b : Bool) (e : Text) → Quiet {Outside = Outside} (throw_if b e)
  unfolding throw_if
  Quiet-throw_if true e = Quiet-throw e
  Quiet-throw_if false e = Quiet-pure tt

  pub Quiet-when : (b : Bool) (m : Exec (World Outside) (Unit {0})) → Quiet m → Quiet (when b m)
  unfolding when
  Quiet-when true m q = q
  Quiet-when false m q = Quiet-pure tt

module _ {Outside A B : Type 0} where
  pub Quiet-bind :
      (m : Exec (World Outside) A) (f : A → Exec (World Outside) B)
      → Quiet m
      → ((a : A) → Quiet (f a))
      → Quiet (m >>= f)
  unfolding ◌>>=◌
  Quiet-bind m f q k = record {
    source_same = λ w. after_source (m w).0 (m w).1 w (q.source_same w);
    entities_same = λ w. after_entities (m w).0 (m w).1 w (q.entities_same w);
  }
    where
      after_source :
          (r : Result A) (w' w : World Outside)
          → w'.repo.source ≡ w.repo.source
          → (continue r f w').1.repo.source ≡ w.repo.source
      after_source (ok a) w' w e = (k a).source_same w' ∙ e
      after_source (err x) w' w e = e

      after_entities :
          (r : Result A) (w' w : World Outside)
          → w'.repo.entities ≡ w.repo.entities
          → (continue r f w').1.repo.entities ≡ w.repo.entities
      after_entities (ok a) w' w e = (k a).entities_same w' ∙ e
      after_entities (err x) w' w e = e

  -- Sequencing: what the first call ensures is what the second may assume.
  pub Triple-bind :
      {P : Rows} {R : A → Rows} {Q : B → Rows} {E : Text → Rows} (m : Exec (World Outside) A)
      (f : A → Exec (World Outside) B)
      → Triple P m R E
      → ((a : A) → Triple (R a) (f a) Q E)
      → Triple P (m >>= f) Q E
  unfolding ◌>>=◌
  Triple-bind {P} {R} {Q} {E} m f t k = record { at = λ w p. after (m w).0 (m w).1 (t.at w p) }
    where
      after : (r : Result A) (w' : World Outside) → Holds R E (r, w') → Holds Q E (continue r f w')
      after (ok a) w' h = (k a).at w' h
      after (err x) w' h = h

module _ {Outside A : Type 0} where
  -- A call that leaves the rows alone keeps any predicate of them, also where it throws.
  pub Triple-Quiet :
      {P : Rows} {E : Text → Rows} (m : Exec (World Outside) A)
      → Quiet m
      → ((e : Text) (s : SourceRow) (d : Dict EntityRow) → P s d → E e s d)
      → Triple P m (λ a. P) E
  Triple-Quiet {P} {E} m q weaken = record {
    at =
        λ w p. after (m w).0 (m w).1 (subst₂ P (sym (q.source_same w)) (sym (q.entities_same w)) p);
  }
    where
      after :
          (r : Result A) (w' : World Outside)
          → P w'.repo.source w'.repo.entities
          → Holds (λ a. P) E (r, w')
      after (ok a) w' h = h
      after (err x) w' h = weaken x w'.repo.source w'.repo.entities h

  pub Triple-pure :
      {P : Rows} {Q : A → Rows} {E : Text → Rows} (a : A)
      → ((s : SourceRow) (d : Dict EntityRow) → P s d → Q a s d)
      → Triple {Outside = Outside} P (pure a) Q E
  Triple-pure a h = record { at = λ w p. h w.repo.source w.repo.entities p }

  -- The branches may use what the test decided.
  pub Triple-test :
      {P : Rows} {Q : A → Rows} {E : Text → Rows} (b : Bool) {m n : Exec (World Outside) A}
      → (b ≡ true → Triple P m Q E)
      → (b ≡ false → Triple P n Q E)
      → Triple P (if b then m else n) Q E
  Triple-test true t u = t refl
  Triple-test false t u = u refl

  pub Triple-if :
      {P : Rows} {Q : A → Rows} {E : Text → Rows} (b : Bool) {m n : Exec (World Outside) A}
      → Triple P m Q E
      → Triple P n Q E
      → Triple P (if b then m else n) Q E
  Triple-if true t u = t
  Triple-if false t u = u

  pub Triple-try :
      {P : Rows} {Q : A → Rows} {R E : Text → Rows} (m : Exec (World Outside) A)
      (handler : Text → Exec (World Outside) A)
      → Triple P m Q R
      → ((e : Text) → Triple (R e) (handler e) Q E)
      → Triple P (try_catch m handler) Q E
  unfolding try_catch
  Triple-try {P} {Q} {R} {E} m handler t k = record { at = λ w p. after (m w).0 (m w).1 (t.at w p) }
    where
      after :
          (r : Result A) (w' : World Outside) → Holds Q R (r, w') → Holds Q E (recover handler r w')
      after (ok a) w' h = h
      after (err x) w' h = (k x).at w' h

  -- Consequence.
  pub Triple-weaken :
      {P P' : Rows} {Q Q' : A → Rows} {E E' : Text → Rows} (m : Exec (World Outside) A)
      → Triple P m Q E
      → ((s : SourceRow) (d : Dict EntityRow) → P' s d → P s d)
      → ((a : A) (s : SourceRow) (d : Dict EntityRow) → Q a s d → Q' a s d)
      → ((e : Text) (s : SourceRow) (d : Dict EntityRow) → E e s d → E' e s d)
      → Triple P' m Q' E'
  Triple-weaken {Q} {Q'} {E} {E'} m t pre post fail = record {
    at = λ w p. after (m w).0 (m w).1 (t.at w (pre w.repo.source w.repo.entities p));
  }
    where
      after : (r : Result A) (w' : World Outside) → Holds Q E (r, w') → Holds Q' E' (r, w')
      after (ok a) w' h = post a w'.repo.source w'.repo.entities h
      after (err x) w' h = fail x w'.repo.source w'.repo.entities h

module _ {Outside A : Type 0} where
  -- A fact that does not speak of the rows moves out of the pre-condition.
  pub Triple-given :
      {F : Type 0} {P : Rows} {Q : A → Rows} {E : Text → Rows} (m : Exec (World Outside) A)
      → (F → Triple P m Q E)
      → Triple (λ s d. P s d × F) m Q E
  Triple-given m t = record { at = λ w p. (t p.1).at w p.0 }

module _ {Outside A B : Type 0} where
  -- The rest of a block may use that the call that it follows returned.
  pub Triple-bind-lift :
      {P : Rows} {Q : B → Rows} {E : Text → Rows} (r : Result A) (f : A → Exec (World Outside) B)
      → ((a : A) → r ≡ ok a → Triple P (f a) Q E)
      → ((e : Text) (s : SourceRow) (d : Dict EntityRow) → P s d → E e s d)
      → Triple P (lift r >>= f) Q E
  unfolding ◌>>=◌
  Triple-bind-lift (ok a) f t weaken = t a refl
  Triple-bind-lift (err e) f t weaken = record {
    at = λ w p. weaken e w.repo.source w.repo.entities p;
  }
