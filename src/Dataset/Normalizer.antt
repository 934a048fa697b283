-- ===== src/Dataset/Normalizer.antt =====
-- packages/rdf-sync/src/canonical-rdf-normalizer.js: the lines of statements that are kept, and what is
-- noted of the others. SHA-256 and the parsing of dates are parameters.
use custom_wikibase.Prelude.{
  ℕ, Bool, true, false, not, ◌&&◌, ◌||◌, Option, none, some, List, [], ◌∷◌, ◌++◌, Text, codes, ◌==◌,
  leb, is_digit, text_eq, starts_with, includes, is_upper, Result, ok, err, if◌then◌else◌,
}
use custom_wikibase.Prelude.Results.{◌>>=◌, ◌>>◌, check}
use custom_wikibase.Dataset.Lines.{
  is_white, trimmed_start, trimmed_end, trim, split_lines, join_lines, unique, sort_lines,
}

pub record Statement : Type 0 where
  pub subject : Text
  pub predicate : Text
  pub object : Text

pub record Evidence : Type 0 where
  pub category : Text
  pub predicate : Text
  pub object : Text

abbrev pub dump_subject : Text
dump_subject = codes "<http://wikiba.se/ontology#Dump>"

abbrev pub license : Text
license = codes "http://creativecommons.org/ns#license"

abbrev pub software_version : Text
software_version = codes "http://schema.org/softwareVersion"

abbrev pub dump_predicates : List Text
dump_predicates =
    codes "http://www.w3.org/1999/02/22-rdf-syntax-ns#type"
    ∷ license
    ∷ software_version
    ∷ codes "http://schema.org/dateModified"
    ∷ codes "http://www.w3.org/2002/07/owl#imports"
    ∷ []

abbrev pub entity_export_predicates : List Text
entity_export_predicates = license ∷ software_version ∷ []

-- `[^>]*>`: what stands before the first `>`, and after it.
unfoldable pub until_close : Text → Option (Text × Text)
until_close [] = none
until_close (c ∷ s) =
    if c == b'>'
    then some ([], s)
    else elim (until_close s) [ none ↦ none | some (a, r) ↦ some (c ∷ a, r) ]

-- `<([^>]+)>`.
unfoldable pub iri : Text → Option (Text × Text)
iri [] = none
iri (c ∷ s) = elim (until_close s) [
  | none ↦ none
  | some (a, r) ↦ elim a [ [] ↦ none | d ∷ t ↦ if c == b'<' then some (d ∷ t, r) else none ]
]

abbrev is_alphanumeric : ℕ → Bool
is_alphanumeric c = is_digit c || is_upper c || (leb b'a' c && leb c b'z')

-- `[A-Za-z0-9._-]*`.
unfoldable pub label : Text → Text × Text
label [] = ([], [])
label (c ∷ s) =
    let (a, r) = label s in
    if is_alphanumeric c || c == b'.' || c == b'_' || c == b'-' then (c ∷ a, r) else ([], c ∷ s)

-- `_:[A-Za-z0-9][A-Za-z0-9._-]*`.
unfoldable pub blank_node : Text → Option (Text × Text)
blank_node (a ∷ b ∷ c ∷ s) =
    let (t, r) = label s in
    if a == b'_' && b == b':' && is_alphanumeric c then some (a ∷ b ∷ c ∷ t, r) else none
blank_node _ = none

unfoldable pub subject_of : Text → Option (Text × Text)
subject_of s = elim (iri s) [ some (i, r) ↦ some (b'<' ∷ i ++ b'>' ∷ [], r) | none ↦ blank_node s ]

-- `\s+`.
unfoldable pub spaces : Text → Option Text
spaces [] = none
spaces (c ∷ s) = if is_white c then some (trimmed_start s) else none

-- The text before a last character that is a full stop.
unfoldable pub before_stop : Text → Option Text
before_stop [] = none
before_stop (c ∷ []) = if c == b'.' then some [] else none
before_stop (c ∷ d ∷ s) = elim (before_stop (d ∷ s)) [ none ↦ none | some t ↦ some (c ∷ t) ]

-- What `.` matches: no line terminator.
abbrev is_inline : ℕ → Bool
is_inline c = not (c == 10 || c == 13 || c == 8232 || c == 8233)

unfoldable pub all_inline : Text → Bool
all_inline [] = true
all_inline (c ∷ s) = is_inline c && all_inline s

unfoldable pub some_inline : Text → Bool
some_inline [] = false
some_inline (c ∷ s) = is_inline c || some_inline s

-- `\s+(.+)\s*`, to the end, and the object without the space after it. Where there is nothing but
-- space, one character of it that is no line terminator is the object.
unfoldable pub object_of : Text → Option Text
object_of [] = none
object_of (c ∷ s) = if not (is_white c) then none else elim (trimmed_end (trimmed_start s)) [
  | [] ↦ if some_inline s then some [] else none
  | d ∷ t ↦ if all_inline (d ∷ t) then some (d ∷ t) else none
]

unfoldable pub match_line : Text → Option Statement
match_line line = elim (subject_of line) [
  | none ↦ none
  | some (subject, r) ↦ elim (spaces r) [
    | none ↦ none
    | some r ↦ elim (iri r) [
      | none ↦ none
      | some (predicate, r) ↦ elim (before_stop r) [
        | none ↦ none
        | some body ↦ elim (object_of body) [
          | none ↦ none
          | some object ↦
              some (record { subject = subject; predicate = predicate; object = object })
        ]
      ]
    ]
  ]
]

-- `parse`.
unfoldable pub parse_line : Text → Result Statement
parse_line line = elim (match_line line) [
  | none ↦ err (codes "RDF_NORMALIZATION_UNSUPPORTED_SYNTAX")
  | some v ↦ ok v
]

-- `text.includes(part)`, the part first.
unfoldable pub contains : Text → Text → Bool
contains part [] = starts_with part []
contains part (c ∷ s) = starts_with part (c ∷ s) || contains part s

unfoldable pub evidence : Statement → Text → Evidence
evidence v category = record { category = category; predicate = v.predicate; object = v.object }

abbrev is_export : Statement → Bool
is_export v =
    contains (codes "/wiki/Special:EntityData/") v.subject
    && includes entity_export_predicates v.predicate

-- What is noted of a line, or `none` where it is kept.
unfoldable pub classify_line : Text → Text → Result (Option Evidence)
classify_line kind line = elim (parse_line line) [
  | err e ↦ err e
  | ok v ↦
      if text_eq v.subject dump_subject
      then if not (text_eq kind (codes "FULL_DUMP")) || not (includes dump_predicates v.predicate)
        then err (codes "RDF_NORMALIZATION_UNKNOWN_DUMP_METADATA")
        else ok (some (evidence v (codes "DUMP_EXPORT")))
      else if is_export v
      then ok (some (evidence v (codes "ENTITY_EXPORT")))
      else ok none
]

-- The lines that are kept, and the evidence of the others, in their order.
abbrev pub Selection : Type 0
Selection = List Text × List Evidence

unfoldable pub add_line : Text → Option Evidence → Selection → Selection
add_line line none (kept, provenance) = (line ∷ kept, provenance)
add_line line (some e) (kept, provenance) = (kept, e ∷ provenance)

unfoldable pub is_skipped : Text → Bool
is_skipped [] = true
is_skipped (c ∷ s) = c == b'#'

-- The loop over the lines.
unfoldable pub select_lines : Text → List Text → Result Selection
select_lines kind [] = ok ([], [])
select_lines kind (raw ∷ lines) =
    let rest = select_lines kind lines in
    let line = trim raw in
    if is_skipped line
    then rest
    else classify_line kind line >>= λ e. rest >>= λ selection. ok (add_line line e selection)

pub record Normalization : Type 0 where
  pub normalization_model : Text
  pub rdf : Text
  pub provenance : List Evidence
  pub semantic_checksum : Text

-- `normalizeWikibaseRdf`, for the digest function.
unfoldable pub normalize_wikibase_rdf : (Text → Text) → Text → Text → Result Normalization
normalize_wikibase_rdf sha256 rdf kind = do
  check (text_eq kind (codes "FULL_DUMP") || text_eq kind (codes "ENTITY_DATA"))
      (codes "invalid RDF normalization source")
  selection ← select_lines kind (split_lines rdf)
  let normalized = join_lines (sort_lines (unique selection.0))
  ok (record {
    normalization_model = codes "jwb-rdf-normalization-v1";
    rdf = normalized;
    provenance = selection.1;
    semantic_checksum = sha256 normalized;
  })
