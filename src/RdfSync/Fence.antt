-- ===== src/RdfSync/Fence.antt =====
-- `RevisionFence` of packages/rdf-sync/src/protocol.js: which revision of an entity may be written
-- next. A method is an action on the fence.
use custom_wikibase.Prelude.{
  ℕ, Bool, true, false, not, ◌&&◌, ◌||◌, max, Text, codes, ◌==◌, ltb, leb, Result, ok, err, Exec,
  pure, throw, if◌then◌else◌,
}
use custom_wikibase.RdfSync.EntityId.{is_entity_id}

-- SYNC_STATES.
pub data SyncState : Type 0 where
  bootstrapping healthy catching_up stale gap_detected rebuild_required rebuilding error : SyncState

pub record RevisionFence : Type 0 where
  pub entity_id : Text
  pub indexed_revision : ℕ
  pub latest_seen_revision : ℕ
  pub status : SyncState

pub data Decision : Type 0 where
  duplicate older gap apply : Decision

-- The field `write` of what `observe` returns.
abbrev pub writes : Decision → Bool
writes apply = true
writes _ = false

unfoldable pub new_fence : Text → ℕ → Result RevisionFence
new_fence id indexed =
    if is_entity_id id
    then ok (record {
      entity_id = id;
      indexed_revision = indexed;
      latest_seen_revision = indexed;
      status = healthy;
    })
    else err (codes "invalid fence")

unfoldable pub observe : ℕ → ℕ → Exec RevisionFence Decision
observe incoming old f =
    let seen = record f { latest_seen_revision = max f.latest_seen_revision incoming } in
    if ltb incoming 1
    then throw (codes "invalid incoming revision") f
    else if leb incoming f.indexed_revision
    then pure (if incoming == f.indexed_revision then duplicate else older) seen
    else if not (f.indexed_revision == 0) && not (old == f.indexed_revision)
    then pure gap (record seen { status = gap_detected })
    else pure apply seen

unfoldable pub commit : ℕ → Exec RevisionFence (Unit {0})
commit revision f =
    if leb revision f.indexed_revision || ltb f.latest_seen_revision revision
    then throw (codes "invalid fence commit") f
    else pure tt (record f { indexed_revision = revision; status = healthy })

unfoldable pub fail : Exec RevisionFence (Unit {0})
fail f = pure tt (record f { status = error })
