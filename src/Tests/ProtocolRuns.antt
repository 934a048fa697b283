-- ===== src/Tests/ProtocolRuns.antt =====
-- An update of Q1 from revision 5 to revision 7, in which every phase is noted down.
use custom_wikibase.Prelude.{
  ℕ, ◌≡◌, refl, true, List, [], ◌∷◌, Text, codes, ok, pure, throw_if, text_eq, ◌>>=◌,
}
use custom_wikibase.RdfSync.Fence.{healthy, observe, commit}
use custom_wikibase.RdfSync.Protocol.{
  Hooks, Session, applied, calling, fencing, commit_fence, update_graph, fetch_and_update,
  apply_entity_protocol,
}
use custom_wikibase.RdfSync.Protocol.FenceLast.{FenceLast, apply_entity_protocol-FenceLast}

-- A crash at the phase of that name, where there is one.
abbrev hooks : Text → Hooks (List Text) ℕ ℕ
hooks crash_at = record {
  fetch_entity = λ id revision. pure revision;
  revision_of = λ fetched. fetched;
  stage = λ fetched. pure fetched;
  commit_graph = λ staged. pure tt;
  verify_graph = λ fetched. pure true;
  on_phase = λ name phases. throw_if (text_eq name crash_at) name (name ∷ phases);
}

abbrev session : Session (List Text)
session = record {
  fence = record {
    entity_id = codes "Q1";
    indexed_revision = 5;
    latest_seen_revision = 5;
    status = healthy;
  };
  outside = [];
}

update_applied : (apply_entity_protocol (hooks []) (codes "Q1") 7 5 session).0 ≡ ok applied
unfolding calling fencing commit_fence update_graph fetch_and_update apply_entity_protocol observe
    commit ◌>>=◌ text_eq throw_if
update_applied = refl

crash_before_fence :
    (apply_entity_protocol
      (hooks (codes "AFTER_BACKEND_UPDATE"))
      (codes "Q1")
      7
      5
      session).1.fence.indexed_revision
    ≡ 5
unfolding calling fencing commit_fence update_graph fetch_and_update apply_entity_protocol observe
    commit ◌>>=◌ text_eq throw_if
crash_before_fence = refl

apply_entity_protocol-FenceLast_example :
    FenceLast
      (hooks [])
      (codes "Q1")
      7
      5
      []
      5
      (apply_entity_protocol (hooks []) (codes "Q1") 7 5 session)
apply_entity_protocol-FenceLast_example =
    apply_entity_protocol-FenceLast (hooks []) (codes "Q1") 7 5 [] session.fence
