-- ===== src/Serving/Standalone.antt =====
-- `StandalonePromotionCoordinator` of services/rdf-sync/src/standalone-promotion-coordinator.js: a
-- promotion that goes through the phases of its row in the journal, so that a run after a crash
-- takes up the row that the last one left. The journal stands in the order of `created_at`. The
-- primary keys make the row of a generation, or of an identifier, the only one.
pub mod Steps
pub mod Switch
pub mod Resume
pub mod Pointer
use custom_wikibase.Prelude.{
  ℕ, ◌+◌, Bool, true, false, not, ◌&&◌, ◌||◌, Option, none, some, List, [], ◌∷◌, ◌++◌, Text, codes,
  ◌==◌, leb, ltb, length, text_eq, is_digit, is_some, Result, ok, err, Exec, pure, throw, lift,
  gets, modify, throw_if, ◌>>=◌, ◌>>◌, if◌then◌else◌,
}
use custom_wikibase.Serving.Tables.{
  GenerationState, ready, retiring, serving, GenerationRow, PromotionState, preparing, committed,
  PointerRow, select_where, update_where, the_row, transaction, option_eq, is_serving, is_ready,
  is_retiring, is_valid, is_unprotected, is_rollback, is_preparing, is_committed, is_generation,
}
use custom_wikibase.Serving.Pointer.{release_protection, step_down, step_up, any_row}

pub data Phase : Type 0 where
  prepared pointer_updated router_verified generation_finalized : Phase

-- rdf_generation_promotion.
pub record JournalRow : Type 0 where
  pub id : Text
  pub source_identity : Text
  pub from_generation_id : Text
  pub to_generation_id : Text
  pub state : PromotionState
  pub phase : Phase
  pub expected_pointer_version : ℕ
  pub resulting_pointer_version : Option ℕ
  pub completed_at : Option ℕ

-- rdf_generation_sync; a cursor may be absent.
pub record SyncRow : Type 0 where
  pub source_identity : Text
  pub generation_id : Text
  pub state : Text
  pub schema_state : Text
  pub catchup_timestamp : Option Text
  pub catchup_rcid : ℕ

-- rdf_sync_source.
pub record IngestionRow : Type 0 where
  pub source_identity : Text
  pub ingestion_timestamp : Option Text
  pub ingestion_rcid : ℕ

pub record Registry : Type 0 where
  pub generations : List GenerationRow
  pub syncs : List SyncRow
  pub sources : List IngestionRow
  pub journal : List JournalRow
  pub pointers : List PointerRow

pub data Mode : Type 0 where
  promote_mode rollback_mode restore_mode : Mode

pub data CrashPoint : Type 0 where
  before_pointer_cas after_pointer_cas : CrashPoint

abbrev pub is_prepared : Phase → Bool
is_prepared prepared = true
is_prepared _ = false

abbrev pub is_pointer_updated : Phase → Bool
is_pointer_updated pointer_updated = true
is_pointer_updated _ = false

abbrev pub is_router_verified : Phase → Bool
is_router_verified router_verified = true
is_router_verified _ = false

abbrev pub is_finalized : Phase → Bool
is_finalized generation_finalized = true
is_finalized _ = false

abbrev pub gen_a : Text
gen_a = codes "gen-a"

abbrev pub gen_b : Text
gen_b = codes "gen-b"

-- `/^[0-9a-f]{64}$/u`.
unfoldable pub is_hex : Text → Bool
is_hex [] = true
is_hex (c ∷ s) = (is_digit c || (leb b'a' c && leb c b'f')) && is_hex s

unfoldable pub is_checksum : Option Text → Bool
is_checksum none = false
is_checksum (some s) = is_hex s && length s == 64

-- `candidateLifecycleEligible`.
unfoldable pub is_eligible : Mode → GenerationRow → Bool
is_eligible promote_mode g = is_ready g.state && is_unprotected g.protection_state
is_eligible _ g = is_retiring g.state && is_rollback g.protection_state

unfoldable pub is_validated : Mode → GenerationRow → Bool
is_validated mode g =
    is_eligible mode g
    && is_valid g.validation_status
    && is_checksum g.validation_checksum
    && text_eq g.normalization_model (codes "jwb-rdf-normalization-v1")
    && text_eq g.partition_model (codes "jwb-partition-v1")
    && g.has_manifest

-- The first row of a result.
abbrev pub first_row : {A : Type 0} → List A → Option A
first_row [] = none
first_row (a ∷ l) = some a

abbrev pub require : {S A : Type 0} → Text → Option A → Exec S A
require message none = throw message
require message (some a) = pure a

-- `ORDER BY completed_at DESC`, which puts an absent time first.
abbrev later : JournalRow → JournalRow → Bool
later a b = elim a.completed_at [
  | none ↦ true
  | some s ↦ elim b.completed_at [ none ↦ false | some t ↦ leb t s ]
]

unfoldable pub latest : List JournalRow → Option JournalRow
latest [] = none
latest (p ∷ l) = elim (latest l) [ none ↦ some p | some q ↦ some (if later p q then p else q) ]

abbrev pub is_journal : Text → JournalRow → Bool
is_journal id p = text_eq p.id id

-- `UPDATE rdf_generation_promotion SET … WHERE id=$1`, and the row that it returns.
unfoldable pub set_phase : Text → (JournalRow → JournalRow) → Exec Registry JournalRow
set_phase id f db = elim (first_row (select_where (is_journal id) db.journal)) [
  | none ↦ throw (codes "PROMOTION_JOURNAL_MISSING") db
  | some p ↦ pure (f p) (record db { journal = update_where (is_journal id) f db.journal })
]

-- `SOURCE` and `QUERY`; the clock of the database and the new identifier of this run; `Date.parse`,
-- `none` where that is not a number; and what the router answers for a generation and a version.
pub record Setting : Type 0 where
  pub source : Text
  pub query : Text
  pub now : ℕ
  pub uuid : Text
  pub parse_date : Option Text → Option ℕ
  pub observes : Text → Option ℕ → Result Bool

module _ (s : Setting) where
  abbrev pub is_pointer : PointerRow → Bool
  is_pointer p = text_eq p.query_service_id s.query && text_eq p.source_identity s.source

  -- `#pointer`.
  unfoldable pub pointer : Exec Registry PointerRow
  pointer db = elim (the_row (select_where is_pointer db.pointers)) [
    | none ↦ throw (codes "SERVING_POINTER_MISSING") db
    | some p ↦ pure p db
  ]

  abbrev pub is_pending : JournalRow → Bool
  is_pending p = text_eq p.source_identity s.source && is_preparing p.state

  -- `#pending`.
  unfoldable pub pending_row : Registry → Option JournalRow
  pending_row db = first_row (select_where is_pending db.journal)

  -- `#completed`.
  unfoldable pub completed_row : Option Text → Registry → Option JournalRow
  completed_row to db = latest (
      select_where
        (λ p.
          text_eq p.source_identity s.source
          && option_eq (some p.to_generation_id) to
          && is_committed p.state)
        db.journal)

  -- `compare(…) < 0`; a date that is not a number compares as not less.
  unfoldable pub is_behind : SyncRow → IngestionRow → Bool
  is_behind y i = elim (s.parse_date y.catchup_timestamp) [
    | none ↦ false
    | some a ↦ elim (s.parse_date i.ingestion_timestamp) [
      | none ↦ false
      | some b ↦ if a == b then ltb y.catchup_rcid i.ingestion_rcid else ltb a b
    ]
  ]

  unfoldable pub is_current_candidate : Option SyncRow → Option IngestionRow → Bool
  is_current_candidate (some y) (some i) =
      text_eq y.state (codes "CURRENT")
      && text_eq y.schema_state (codes "CURRENT")
      && not (is_behind y i)
  is_current_candidate _ _ = false

  -- The join has a row where each of the three tables has one.
  unfoldable pub check_candidate : Mode → Text → Registry → Result (Unit {0})
  check_candidate mode to db =
      let generation = the_row (select_where (is_generation s.source to) db.generations) in
      let sync = the_row (
        select_where (λ y. text_eq y.source_identity s.source && text_eq y.generation_id to)
          db.syncs) in
      let ingestion = the_row (select_where (λ i. text_eq i.source_identity s.source) db.sources) in
      elim generation [
        | none ↦ err (codes "CANDIDATE_NOT_VALIDATED")
        | some g ↦
            if not (is_validated mode g && is_some sync && is_some ingestion)
            then err (codes "CANDIDATE_NOT_VALIDATED")
            else if not (is_current_candidate sync ingestion)
            then err (codes "CANDIDATE_NOT_CURRENT")
            else ok tt
      ]

  -- The slot that serves, and the other one.
  unfoldable pub slots_of : Option Text → Option (Text × Text)
  slots_of none = none
  slots_of (some id) =
      if text_eq id gen_a
      then some (id, gen_b)
      else if text_eq id gen_b
      then some (id, gen_a)
      else none

  unfoldable pub check_mode : Mode → Text → Text → PointerRow → Result (Unit {0})
  check_mode promote_mode from to p =
      if not (text_eq from gen_a) then err (codes "PROMOTION_ALREADY_APPLIED") else ok tt
  check_mode rollback_mode from to p =
      if not (option_eq p.previous_generation_id (some to))
      then err (codes "ROLLBACK_SLOT_NOT_RETAINED")
      else ok tt
  check_mode restore_mode from to p =
      if not (text_eq from gen_a)
      then err (codes "RESTORE_REQUIRES_GEN_A_SERVING")
      else if not (option_eq p.previous_generation_id (some to))
      then err (codes "ROLLBACK_SLOT_NOT_RETAINED")
      else ok tt
