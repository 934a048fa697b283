-- ===== src/RdfSync/Protocol.antt =====
-- `applyEntityProtocol` of packages/rdf-sync/src/protocol.js: one update of an entity, with the fence
-- last. The functions that it is given act on a state `Outside`, and each may throw: `on_phase` too,
-- which is how a crash at a phase is injected.
pub mod FenceLast
use custom_wikibase.Prelude.{
  ℕ, Bool, not, Text, codes, ◌==◌, Exec, pure, ◌>>=◌, ◌>>◌, if◌then◌else◌,
}
use custom_wikibase.RdfSync.Fence.{RevisionFence, Decision, writes, observe, commit, fail}

pub record Hooks (Outside Fetched Staged : Type 0) : Type 0 where
  pub fetch_entity : Text → ℕ → Exec Outside Fetched
  pub revision_of : Fetched → ℕ
  pub stage : Fetched → Exec Outside Staged
  pub commit_graph : Staged → Exec Outside (Unit {0})
  pub verify_graph : Fetched → Exec Outside Bool
  pub on_phase : Text → Exec Outside (Unit {0})

pub record Session (Outside : Type 0) : Type 0 where
  pub fence : RevisionFence
  pub outside : Outside

-- The field `decision` of the result.
pub data Report : Type 0 where
  unwritten : Decision → Report
  revision_mismatch verify_failed applied : Report

module _ {Outside A : Type 0} where
  unfoldable pub calling : Exec Outside A → Exec (Session Outside) A
  calling m s = let (r, o) = m s.outside in (r, record s { outside = o })

  unfoldable pub fencing : Exec RevisionFence A → Exec (Session Outside) A
  fencing m s = let (r, f) = m s.fence in (r, record s { fence = f })

module _ {Outside Fetched Staged : Type 0} (h : Hooks Outside Fetched Staged) (id : Text)
    (revid old : ℕ) where
  abbrev pub phase : Text → Exec (Session Outside) (Unit {0})
  phase name = calling (h.on_phase name)

  unfoldable pub commit_fence : Exec (Session Outside) Report
  commit_fence = do fencing (commit revid); phase (codes "AFTER_FENCE_UPDATE"); pure applied

  unfoldable pub fail_fence : Exec (Session Outside) Report
  fail_fence = do fencing fail; pure verify_failed

  -- From the staging of the fetched revision to the end.
  unfoldable pub update_graph : Fetched → Exec (Session Outside) Report
  update_graph fetched = do
    phase (codes "BEFORE_BACKEND_UPDATE")
    staged ← calling (h.stage fetched)
    phase (codes "DURING_BACKEND_UPDATE")
    calling (h.commit_graph staged)
    phase (codes "AFTER_BACKEND_UPDATE")
    verified ← calling (h.verify_graph fetched)
    if verified then commit_fence else fail_fence

  -- The fence lets the revision pass.
  unfoldable pub fetch_and_update : Exec (Session Outside) Report
  fetch_and_update = do
    fetched ← calling (h.fetch_entity id revid)
    phase (codes "AFTER_FETCH")
    if h.revision_of fetched == revid then update_graph fetched else pure revision_mismatch

  unfoldable pub apply_entity_protocol : Exec (Session Outside) Report
  apply_entity_protocol = do
    phase (codes "BEFORE_FETCH")
    decision ← fencing (observe revid old)
    if writes decision then fetch_and_update else pure (unwritten decision)
