-- ===== src/Serving/Pointer/Promotion.antt =====
-- `promote` of the serving pointer.
use custom_wikibase.Prelude.{
  ℕ, ◌≡◌, refl, true, Option, some, List, [], ◌∷◌, Text, ok, arith, throw_if, ◌>>=◌, Option-cases,
  inl, inr,
}
use custom_wikibase.Serving.Tables.{
  GenerationRow, PointerRow, Database, select_where, transaction, is_generation,
}
use custom_wikibase.Serving.Pointer.{
  locked, generation_row, is_candidate, require_row, insert_promotion, update_pointer,
  set_promotion, promote_body, promote, promoted, require_generation, require_expected,
  move_pointer,
}
use custom_wikibase.Serving.Pointer.Rows.{serving_ids, count_rows}

generation_row-none :
    (source id : Text) (l : List GenerationRow)
    → select_where (is_generation source id) l ≡ []
    → count_rows source id l ≡ 0
unfolding select_where count_rows
generation_row-none source id [] h = refl
generation_row-none source id (k ∷ l) h = ground (arith, generation_row-none source id l)

pub generation_row-count :
    (source id : Text) (l : List GenerationRow) (g : GenerationRow)
    → select_where (is_generation source id) l ≡ g ∷ []
    → count_rows source id l ≡ 1
unfolding select_where count_rows
generation_row-count source id [] g h = cc
generation_row-count source id (k ∷ l) g h =
    ground (arith, generation_row-count source id l g, generation_row-none source id l)

module _ (service id : Text) (expected : Option Text) (version : ℕ) (pid : Text) (db : Database)
    {p p' : PointerRow} (pointed : locked service db ≡ (ok p, db))
    (done : (promote_body service id expected version pid db).0 ≡ ok p') where
  pub body-generations :
      (promote_body service id expected version pid db).1.generations
      ≡ promoted p.source_identity p.generation_id id db.generations
  unfolding promote_body throw_if ◌>>=◌ require_row insert_promotion update_pointer set_promotion
  body-generations = ground arith

  pub body-candidate :
      (g : GenerationRow) × (generation_row p.source_identity id db.generations ≡ some g)
      × (is_candidate g ≡ true)
  unfolding promote_body throw_if ◌>>=◌ require_row insert_promotion update_pointer set_promotion
  body-candidate = elim (Option-cases (generation_row p.source_identity id db.generations)) [
    | inl e ↦ absurd (ground arith)
    | inr (g, e) ↦ (g, e, ground arith)
  ]

pub promote-body :
    (service id : Text) (expected : Option Text) (version : ℕ) (pid : Text) (db : Database)
    {p' : PointerRow}
    → (promote service id expected version pid db).0 ≡ ok p'
    → ((promote_body service id expected version pid db).0 ≡ ok p')
      × ((promote service id expected version pid db).1
          ≡ (promote_body service id expected version pid db).1)
unfolding promote transaction require_generation require_expected throw_if ◌>>=◌
promote-body service id expected version pid db h = ground arith

-- What a commit of `promote` leaves: the only row of the new generation was a candidate (ready,
-- valid, of the known models, with a manifest), the pointer stood at the expected version, it has
-- moved to the new generation and remembers the old one, and the new generation is the only one of
-- the source that serves.
pub record HandedOver (id : Text) (version : ℕ) (db : Database) (p p' : PointerRow) (db' : Database)
    : Type 0 where
  pub candidate : GenerationRow
  pub was_found : generation_row p.source_identity id db.generations ≡ some candidate
  pub was_candidate : is_candidate candidate ≡ true
  pub was_expected : p.version ≡ version
  pub has_moved : p' ≡ move_pointer p.generation_id (some id) p
  pub serves : serving_ids p.source_identity db'.generations ≡ id ∷ []
