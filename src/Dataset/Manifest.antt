-- ===== src/Dataset/Manifest.antt =====
-- `generationManifest` of packages/rdf-sync/src/canonical-rdf-normalizer.js. Whether a text is a date is a
-- parameter.
use custom_wikibase.Prelude.{
  ℕ, Bool, true, false, ◌&&◌, ◌||◌, Option, none, some, List, [], ◌∷◌, ◌++◌, Text, codes, ◌==◌, leb,
  length, is_digit, text_eq, Result, ok, err,
}
use custom_wikibase.Prelude.Results.{◌>>=◌, ◌>>◌, check}
use custom_wikibase.Serving.Pointer.{is_generation_id}
use custom_wikibase.QueryRouter.{is_source}
use custom_wikibase.Dataset.Lines.{unique, sort_lines}
use custom_wikibase.Dataset.Normalizer.{Evidence, Normalization, license, software_version}

pub record SourceCursor : Type 0 where
  pub timestamp : Text
  pub rcid : ℕ

pub record ManifestInput : Type 0 where
  pub generation_id : Text
  pub source_identity : Text
  pub source_cursor : Option SourceCursor
  pub normalizations : List Normalization
  pub media_wiki_version : Option Text
  pub wikibase_version : Option Text
  pub dataset_checksum : Text
  pub generated_at : Text

pub record GenerationManifest : Type 0 where
  pub version : ℕ
  pub generation_id : Text
  pub source_identity : Text
  pub normalization_model : Text
  pub partition_model : Text
  pub source_cursor : SourceCursor
  pub generated_at : Text
  pub exporter_version : List Text
  pub license : List Text
  pub media_wiki_version : Option Text
  pub wikibase_version : Option Text
  pub dataset_checksum : Text
  pub validation_result : Text

-- `[a-f0-9]*`, to the end.
unfoldable pub all_hex : Text → Bool
all_hex [] = true
all_hex (c ∷ s) = (is_digit c || (leb b'a' c && leb c b'f')) && all_hex s

-- `/^[a-f0-9]{64}$/u`.
unfoldable pub is_dataset_checksum : Text → Bool
is_dataset_checksum s = all_hex s && length s == 64

-- `normalizations.flatMap((value) => value.provenance)`.
unfoldable pub all_provenance : List Normalization → List Evidence
all_provenance [] = []
all_provenance (n ∷ ns) = n.provenance ++ all_provenance ns

-- The objects of a predicate.
unfoldable pub objects_of : Text → List Evidence → List Text
objects_of predicate [] = []
objects_of predicate (e ∷ es) =
    let rest = objects_of predicate es in
    elim (text_eq e.predicate predicate) [ true ↦ e.object ∷ rest | false ↦ rest ]

-- `values`.
unfoldable pub values_of : Text → List Evidence → List Text
values_of predicate provenance = sort_lines (unique (objects_of predicate provenance))

unfoldable pub checked_cursor : (Text → Bool) → Option SourceCursor → Result SourceCursor
checked_cursor is_date none = err (codes "invalid generation manifest cursor")
checked_cursor is_date (some c) = do
  check (is_date c.timestamp) (codes "invalid generation manifest cursor")
  ok c

unfoldable pub generation_manifest : (Text → Bool) → ManifestInput → Result GenerationManifest
generation_manifest is_date i = do
  check (is_generation_id i.generation_id && is_source i.source_identity)
      (codes "invalid generation manifest identity")
  cursor ← checked_cursor is_date i.source_cursor
  check (is_dataset_checksum i.dataset_checksum) (codes "invalid generation Dataset checksum")
  let provenance = all_provenance i.normalizations
  ok (record {
    version = 1;
    generation_id = i.generation_id;
    source_identity = i.source_identity;
    normalization_model = codes "jwb-rdf-normalization-v1";
    partition_model = codes "jwb-partition-v1";
    source_cursor = cursor;
    generated_at = i.generated_at;
    exporter_version = values_of software_version provenance;
    license = values_of license provenance;
    media_wiki_version = i.media_wiki_version;
    wikibase_version = i.wikibase_version;
    dataset_checksum = i.dataset_checksum;
    validation_result = codes "PENDING";
  })
