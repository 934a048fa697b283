-- ===== src/Tests/DatasetRuns.antt =====
-- Two dumps with the same statements in another order, one of them twice, have one normalization.
use custom_wikibase.Prelude.{
  ◌≡◌, refl, arith, [], ◌∷◌, ◌++◌, List, Text, codes, text_eq, text_lt, starts_with, includes, ok,
}
use custom_wikibase.Prelude.Results.{◌>>=◌, check}
use custom_wikibase.Dataset.Lines.{
  is_white, trimmed_start, trimmed_end, trim, split_lines, join_lines, without, unique, insert_line,
  sort_lines,
}
use custom_wikibase.Dataset.Normalizer.{
  Normalization, until_close, iri, label, blank_node, subject_of, spaces, before_stop, all_inline,
  some_inline, object_of, match_line, parse_line, contains, evidence, classify_line, add_line,
  is_skipped, select_lines, normalize_wikibase_rdf, Selection,
}
use custom_wikibase.Dataset.Canonical.{trimmed_lines, normalize_wikibase_rdf-same}

abbrev first_line : Text
first_line = codes "<a> <p> <b> ."

abbrev second_line : Text
second_line = codes "<c> <p> _:d ."

abbrev meta_line : Text
meta_line = codes "<http://wikiba.se/ontology#Dump> <http://creativecommons.org/ns#license> <cc> ."

abbrev rdf : Text
rdf = meta_line ++ 10 ∷ first_line ++ 10 ∷ second_line

abbrev shuffled : Text
shuffled = second_line ++ 10 ∷ first_line ++ 10 ∷ 32 ∷ second_line ++ 10 ∷ meta_line

abbrev kind : Text
kind = codes "FULL_DUMP"

abbrev normal : Normalization
normal = record {
  normalization_model = codes "jwb-rdf-normalization-v1";
  rdf = first_line ++ 10 ∷ second_line ++ 10 ∷ [];
  provenance =
      record {
        category = codes "DUMP_EXPORT";
        predicate = codes "http://creativecommons.org/ns#license";
        object = codes "<cc>";
      }
      ∷ [];
  semantic_checksum = codes "0123";
}

abbrev sha256 : Text → Text
sha256 t = codes "0123"

normalizing : Unit {0}
unfolding text_eq text_lt starts_with includes ◌>>=◌ check is_white trimmed_start trimmed_end trim
    split_lines join_lines without unique insert_line sort_lines until_close iri label blank_node
    subject_of spaces before_stop all_inline some_inline object_of match_line parse_line contains
    evidence classify_line add_line is_skipped select_lines normalize_wikibase_rdf
normalizing = tt

normal_of_rdf : normalize_wikibase_rdf sha256 rdf kind ≡ ok normal
unfolding normalizing
normal_of_rdf = refl

normal_of_shuffled : normalize_wikibase_rdf sha256 shuffled kind ≡ ok normal
unfolding normalizing
normal_of_shuffled = refl

reordered : (a b c t : Text) → includes (a ∷ b ∷ c ∷ []) t ≡ includes (c ∷ b ∷ c ∷ a ∷ []) t
unfolding includes
reordered a b c t = ground arith

same_lines :
    (t : Text)
    → includes (trimmed_lines (split_lines rdf)) t
      ≡ includes (trimmed_lines (split_lines shuffled)) t
unfolding trimmed_lines is_white trimmed_start trimmed_end trim split_lines
same_lines t = reordered meta_line first_line second_line t

normalize_wikibase_rdf-same_example :
    (normal.rdf ≡ normal.rdf) × (normal.semantic_checksum ≡ normal.semantic_checksum)
normalize_wikibase_rdf-same_example =
    normalize_wikibase_rdf-same sha256 kind rdf shuffled normal normal normal_of_rdf
      normal_of_shuffled same_lines

abbrev lines : List Text
lines = meta_line ∷ first_line ∷ codes "# a comment" ∷ []

abbrev selected : Selection
selected = (first_line ∷ [], normal.provenance)

selection_of_lines : select_lines kind lines ≡ ok selected
unfolding normalizing
selection_of_lines = refl
