-- ===== src/RdfSync/EntityId.antt =====
-- Entity identifiers and the graph names made from them: the regular expression of
-- packages/rdf-sync/src/protocol.js and dataset-partition.js, as a function on text.
pub mod Graphs
use custom_wikibase.Prelude.{
  Bool, true, false, ◌&&◌, ◌||◌, [], ◌∷◌, ◌++◌, Text, codes, ◌==◌, leb, is_digit, Result, ok, err,
  if◌then◌else◌,
}

unfoldable pub all_digits : Text → Bool
all_digits [] = true
all_digits (c ∷ s) = is_digit c && all_digits s

-- `[1-9][0-9]*`, to the end of the text.
unfoldable pub is_positive_decimal : Text → Bool
unfolding all_digits
is_positive_decimal [] = false
is_positive_decimal (c ∷ s) = leb b'1' c && leb c b'9' && all_digits s

-- `/^[QP][1-9][0-9]*$/u`.
unfoldable pub is_entity_id : Text → Bool
unfolding is_positive_decimal
is_entity_id [] = false
is_entity_id (c ∷ s) = (c == b'Q' || c == b'P') && is_positive_decimal s

-- `/^P[1-9][0-9]*$/u`.
unfoldable pub is_property_id : Text → Bool
unfolding is_positive_decimal
is_property_id [] = false
is_property_id (c ∷ s) = c == b'P' && is_positive_decimal s

abbrev pub entity_prefix : Text
entity_prefix = codes "urn:jwb:entity:"

abbrev pub schema_prefix : Text
schema_prefix = codes "urn:jwb:schema:"

unfoldable pub entity_graph_iri : Text → Result Text
unfolding is_entity_id
entity_graph_iri id =
    if is_entity_id id then ok (entity_prefix ++ id) else err (codes "invalid entity ID")

unfoldable pub schema_graph_iri : Text → Result Text
unfolding is_property_id
schema_graph_iri id =
    if is_property_id id then ok (schema_prefix ++ id) else err (codes "invalid Property ID")
