-- ===== src/Dataset/Canonical.antt =====
-- The lines that `normalizeWikibaseRdf` keeps.
use mathlib.Core.Path.{subst}
use custom_wikibase.Prelude.{
  Bool, true, false, not, ◌&&◌, Option, none, some, List, [], ◌∷◌, ◌≡◌, refl, sym, ap, ◌∙◌, arith,
  Bool-cases, inl, inr, Text, text_eq_iff, includes, Result, ok,
}
use custom_wikibase.Prelude.Results.{after, after_check, ok-injective}
use custom_wikibase.Dataset.Lines.{trim, split_lines, join_lines, unique, sort_lines}
use custom_wikibase.Dataset.Order.{sort_lines-unique_same}
use custom_wikibase.Dataset.Normalizer.{
  Evidence, Selection, Normalization, classify_line, add_line, is_skipped, select_lines,
  normalize_wikibase_rdf,
}

-- The lines of a text, without the space around them.
unfoldable pub trimmed_lines : List Text → List Text
trimmed_lines [] = []
trimmed_lines (l ∷ ls) = trim l ∷ trimmed_lines ls

abbrev is_statement : Result (Option Evidence) → Bool
is_statement (ok none) = true
is_statement _ = false

-- A line that is a statement of the dataset, not about its export.
unfoldable pub is_kept : Text → Text → Bool
is_kept kind line = not (is_skipped line) && is_statement (classify_line kind line)

-- What is kept of some lines.
KeepsOf : Text → List Text → Selection → Type 0
KeepsOf kind lines s =
    (t : Text) → includes s.0 t ≡ (includes (trimmed_lines lines) t && is_kept kind t)

is_kept-classified :
    (kind line : Text) (e : Option Evidence)
    → is_skipped line ≡ false
    → classify_line kind line ≡ ok e
    → is_kept kind line ≡ is_statement (ok e)
unfolding is_kept
is_kept-classified kind line e full c = rw (full, c)

is_kept-skipped : (kind line : Text) → is_skipped line ≡ true → is_kept kind line ≡ false
unfolding is_kept
is_kept-skipped kind line skipped = rw skipped

add_line-KeepsOf :
    (kind raw : Text) (lines : List Text) (e : Option Evidence) (s : Selection)
    → is_skipped (trim raw) ≡ false
    → classify_line kind (trim raw) ≡ ok e
    → KeepsOf kind lines s
    → KeepsOf kind (raw ∷ lines) (add_line (trim raw) e s)
unfolding KeepsOf trimmed_lines add_line includes
add_line-KeepsOf kind raw lines none s full c rest t =
    ground (arith, rest t, text_eq_iff (trim raw) t, is_kept-classified kind (trim raw) none full c)
add_line-KeepsOf kind raw lines (some e) s full c rest t =
    ground
      (arith, rest t, text_eq_iff (trim raw) t, is_kept-classified kind (trim raw) (some e) full c)

skipped-KeepsOf :
    (kind raw : Text) (lines : List Text) (s : Selection)
    → is_skipped (trim raw) ≡ true
    → KeepsOf kind lines s
    → KeepsOf kind (raw ∷ lines) s
unfolding KeepsOf trimmed_lines includes
skipped-KeepsOf kind raw lines s skipped rest t =
    ground (arith, rest t, text_eq_iff (trim raw) t, is_kept-skipped kind (trim raw) skipped)

select_lines-KeepsOf :
    (kind : Text) (lines : List Text) (s : Selection)
    → select_lines kind lines ≡ ok s
    → KeepsOf kind lines s
unfolding select_lines KeepsOf trimmed_lines includes
select_lines-KeepsOf kind [] s e = subst (KeepsOf kind []) (ok-injective e) nothing
  where
    nothing : KeepsOf kind [] ([], [])
    nothing t = refl
select_lines-KeepsOf kind (raw ∷ lines) s e = elim (Bool-cases (is_skipped (trim raw))) [
  | inl skipped ↦
      skipped-KeepsOf kind raw lines s skipped (select_lines-KeepsOf kind lines s (rw skipped at e))
  | inr full ↦ after (rw full at e) λ note is_note e1. after e1 λ rest is_rest e2.
      subst (KeepsOf kind (raw ∷ lines)) (ok-injective e2) (
        add_line-KeepsOf kind raw lines note rest full is_note
          (select_lines-KeepsOf kind lines rest is_rest))
]

-- What the normalization makes of what it keeps.
Normalizes : (Text → Text) → Selection → Normalization → Type 0
Normalizes sha256 s n =
    (n.rdf ≡ join_lines (sort_lines (unique s.0))) × (n.semantic_checksum ≡ sha256 n.rdf)

normalize_wikibase_rdf-Normalizes :
    (sha256 : Text → Text) (kind rdf : Text) (n : Normalization)
    → normalize_wikibase_rdf sha256 rdf kind ≡ ok n
    → (s : Selection) × KeepsOf kind (split_lines rdf) s × Normalizes sha256 s n
unfolding normalize_wikibase_rdf Normalizes
normalize_wikibase_rdf-Normalizes sha256 kind rdf n e = after_check _ e λ _ e1.
    after e1 λ s is_s e2. (
      s,
      select_lines-KeepsOf kind (split_lines rdf) s is_s,
      subst (Normalizes sha256 s) (ok-injective e2) (refl, refl),
    )

-- Two texts of one kind with the same lines, in whatever order, however often and with whatever space
-- around them, have one normalization, if they have any: the same text and the same checksum.
pub normalize_wikibase_rdf-same :
    (sha256 : Text → Text) (kind rdf rdf' : Text) (n n' : Normalization)
    → normalize_wikibase_rdf sha256 rdf kind ≡ ok n
    → normalize_wikibase_rdf sha256 rdf' kind ≡ ok n'
    → ((t : Text)
        → includes (trimmed_lines (split_lines rdf)) t
          ≡ includes (trimmed_lines (split_lines rdf')) t)
    → (n.rdf ≡ n'.rdf) × (n.semantic_checksum ≡ n'.semantic_checksum)
unfolding KeepsOf Normalizes
normalize_wikibase_rdf-same sha256 kind rdf rdf' n n' e e' same =
    let (s, kept, (text, sum)) = normalize_wikibase_rdf-Normalizes sha256 kind rdf n e in
    let (s', kept', (text', sum')) = normalize_wikibase_rdf-Normalizes sha256 kind rdf' n' e' in
    let equal =
      text
      ∙ ap join_lines (
          sort_lines-unique_same s.0 s'.0
            λ t. kept t ∙ ap (λ b. b && is_kept kind t) (same t) ∙ sym (kept' t))
      ∙ sym text' in
    (equal, sum ∙ ap sha256 equal ∙ sym sum')
