-- ===== src/Coordinator/Checks.antt =====
-- The checks of arguments at the end of
-- services/rdf-sync/src/postgres-generation-coordinator-repository.js, and of its constructor.
use custom_wikibase.Prelude.{
  ℕ, zero, suc, Bool, true, false, not, ◌&&◌, ◌||◌, Option, none, some, List, [], ◌∷◌, Text, codes,
  leb, ltb, ◌==◌, length, text_eq, is_digit, Result, ok, err, is_some, if◌then◌else◌,
}
use custom_wikibase.Prelude.Results.{check, ◌>>◌}
use custom_wikibase.QueryRouter.{is_source}
use custom_wikibase.Serving.Pointer.{is_generation_id, is_slug}
use custom_wikibase.Engine.Steps.ErrorCodes.{is_error_code}
use custom_wikibase.Coordinator.{Position}
use custom_wikibase.Coordinator.Statements.{Owner}

-- `[0-9a-f]` under the flag `i`.
abbrev is_hex_digit : ℕ → Bool
is_hex_digit c = is_digit c || (leb b'a' c && leb c b'f') || (leb b'A' c && leb c b'F')

abbrev is_uuid_version : ℕ → Bool
is_uuid_version c = leb b'1' c && leb c b'8'

-- `[89ab]` under the flag `i`.
abbrev is_uuid_variant : ℕ → Bool
is_uuid_variant c = c == b'8' || c == b'9' || c == b'a' || c == b'b' || c == b'A' || c == b'B'

abbrev is_dash : ℕ → Bool
is_dash c = c == b'-'

-- One test for each character.
unfoldable pub matches : List (ℕ → Bool) → Text → Bool
matches [] [] = true
matches (t ∷ ts) (c ∷ s) = t c && matches ts s
matches _ _ = false

unfoldable pub hex_digits : ℕ → List (ℕ → Bool) → List (ℕ → Bool)
hex_digits zero rest = rest
hex_digits (suc n) rest = is_hex_digit ∷ hex_digits n rest

-- `uuid`.
unfoldable pub is_uuid : Text → Bool
is_uuid = matches (
    hex_digits 8 (
      is_dash
      ∷ hex_digits 4 (
          is_dash
          ∷ is_uuid_version
          ∷ hex_digits 3 (is_dash ∷ is_uuid_variant ∷ hex_digits 3 (is_dash ∷ hex_digits 12 [])))))

unfoldable pub require_uuid : Text → Result (Unit {0})
require_uuid id = check (is_uuid id) (codes "invalid UUID")

-- `generation`.
unfoldable pub check_generation_id : Text → Result (Unit {0})
check_generation_id id = check (is_generation_id id) (codes "invalid generation ID")

unfoldable pub identifiers : Text → Text → Result (Unit {0})
identifiers source id =
    check (is_source source) (codes "invalid source identity") >> check_generation_id id

unfoldable pub check_query_id : Text → Result (Unit {0})
check_query_id id = check (is_slug 63 id) (codes "invalid query service ID")

abbrev is_key_start : ℕ → Bool
is_key_start c = (leb b'a' c && leb c b'z') || is_digit c

-- `[a-z0-9:._-]*`, to the end.
unfoldable pub all_key : Text → Bool
all_key [] = true
all_key (c ∷ s) = (is_key_start c || c == b':' || c == b'.' || c == b'_' || c == b'-') && all_key s

-- `/^[a-z0-9][a-z0-9:._-]{0,127}$/u`.
unfoldable pub is_request_key : Text → Bool
is_request_key [] = false
is_request_key (c ∷ s) = is_key_start c && all_key s && leb (length s) 127

-- `cursor`; `Date.parse` is given, and is `none` where it is not a number.
unfoldable pub check_position : (Text → Option ℕ) → Position → Result (Unit {0})
check_position parse_date p =
    check (is_some (parse_date p.timestamp)) (codes "invalid coordinator cursor")

unfoldable pub is_role : Text → Bool
is_role role =
    text_eq role (codes "workload") || text_eq role (codes "service") || text_eq role (codes "pvc")

abbrev is_present : Text → Bool
is_present s = ltb 0 (length s)

-- `deletionRecord`.
unfoldable pub check_deletion_record : Text → Text → ℕ → Text → Text → Text → Result (Unit {0})
check_deletion_record id token fence role uid version =
    require_uuid id
    >> (require_uuid token
        >> check (ltb 0 fence && is_role role && is_present uid && is_present version)
            (codes "invalid deletion evidence"))

-- One resource of a plan; `absent` is set where there is nothing to delete.
pub record Resource : Type 0 where
  pub kind : Text
  pub namespace : Text
  pub name : Text
  pub uid : Text
  pub resource_version : Text
  pub absent : Bool

-- `deletionResource`.
unfoldable pub check_resource : Resource → Result (Unit {0})
check_resource r =
    check (is_role r.kind && is_uuid r.uid && is_present r.resource_version && not r.absent)
      (codes "invalid deletion plan resource")

abbrev is_pod_uid : Option Text → Bool
is_pod_uid none = true
is_pod_uid (some p) = is_uuid p

-- The constructor.
unfoldable pub new_owner : Text → Option Text → ℕ → Result Owner
new_owner id pod lease =
    if is_uuid id && is_pod_uid pod && not (ltb lease 1000) && not (ltb 60000 lease)
    then ok (record { owner_id = id; owner_pod_uid = pod; lease_ms = lease })
    else err (codes "invalid coordinator repository configuration")

-- The fields that a transition may set.
pub record Fields : Type 0 where
  pub expected_generation_id : Option Text
  pub expected_pointer_version : Option ℕ
  pub snapshot_cursor : Option Position
  pub target_cursor : Option Position
  pub error_code : Option Text

-- `encodeFields`.
unfoldable pub check_fields : Fields → Result (Unit {0})
check_fields f =
    (elim f.expected_generation_id [ none ↦ ok tt | some id ↦ check_generation_id id ])
    >> (elim f.error_code [
      | none ↦ ok tt
      | some e ↦ check (is_error_code e) (codes "invalid error code")
    ])

-- What `request` is given.
pub record RebuildInput : Type 0 where
  pub request_key : Text
  pub source_identity : Text
  pub query_service_id : Text
  pub candidate_generation_id : Text
  pub backend_type : Text
  pub reason : Text
  pub snapshot_cursor : Position
  pub target_cursor : Position

abbrev is_backend : Text → Bool
is_backend b =
    text_eq b (codes "virtuoso") || text_eq b (codes "oxigraph") || text_eq b (codes "fuseki-tdb2")

abbrev is_reason : Text → Bool
is_reason r =
    text_eq r (codes "MANUAL_LOCAL_QUALIFICATION")
    || text_eq r (codes "REVISION_GAP")
    || text_eq r (codes "SCHEMA_STALE")
    || text_eq r (codes "BACKEND_RECOVERY")

-- The helper `request`.
unfoldable pub check_request : (Text → Option ℕ) → RebuildInput → Result (Unit {0})
check_request parse_date v =
    check
      (is_source v.source_identity && is_slug 63 v.query_service_id && is_request_key v.request_key)
      (codes "invalid rebuild request")
    >> (check_generation_id v.candidate_generation_id
        >> (check_position parse_date v.snapshot_cursor
            >> (check_position parse_date v.target_cursor
                >> check (is_backend v.backend_type && is_reason v.reason)
                    (codes "invalid rebuild request"))))

-- What `releaseRollbackProtection` is given.
pub record ReleaseInput : Type 0 where
  pub operation_id : Text
  pub idempotency_key : Text
  pub source_identity : Text
  pub query_service_id : Text
  pub generation_id : Text
  pub expected_serving_generation_id : Text
  pub expected_pointer_version : ℕ

-- `releaseRequest`.
unfoldable pub check_release : ReleaseInput → Result (Unit {0})
check_release v =
    require_uuid v.operation_id
    >> (identifiers v.source_identity v.generation_id
        >> (check_generation_id v.expected_serving_generation_id
            >> (check_query_id v.query_service_id
                >> check (is_request_key v.idempotency_key && ltb 0 v.expected_pointer_version)
                    (codes "invalid rollback release"))))
