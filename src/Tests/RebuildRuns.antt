-- ===== src/Tests/RebuildRuns.antt =====
-- A rebuild that crashes before the cutover.
use custom_wikibase.Prelude.{
  ◌≡◌, refl, none, some, [], Text, codes, err, pure, text_eq, try_catch, throw_if, ◌>>=◌,
}
use custom_wikibase.RdfSync.Cursor.{Cursor}
use custom_wikibase.RdfSync.Repository.{
  new_repository, start_rebuild, finish_rebuild, update_rebuild,
}
use custom_wikibase.Engine.World.{on_repo, reading, increment}
use custom_wikibase.Engine.Steps.{crash, is_selected, sanitize_code, find_code, code_run}
use custom_wikibase.Engine.Rebuild.{
  RebuildCoordinator, rebuild_steps, rebuild_failure, rebuild_as, rebuild,
}
use custom_wikibase.Engine.Rebuild.Ends.{HasEnded, rebuild-HasEnded}
use custom_wikibase.Tests.Fixture.{Store, tools, start}

abbrev idle : RebuildCoordinator Store Text
idle = record {
  stage_snapshot = λ id snapshot. pure tt;
  catch_up = λ id start end. pure tt;
  cutover = λ id. pure tt;
}

abbrev from : Cursor
from = record {
  source_identity = codes "local";
  timestamp = codes "2026-08-19T00:00:00Z";
  rcid = 1;
}

rebuild_crashes :
    (rebuild (tools []) idle [] from none (some (codes "BEFORE_CUTOVER")) start).0
    ≡ err (codes "INJECTED_BEFORE_CUTOVER")
unfolding new_repository rebuild rebuild_as rebuild_steps rebuild_failure start_rebuild
    finish_rebuild update_rebuild on_repo reading increment crash is_selected sanitize_code
    find_code code_run text_eq try_catch throw_if ◌>>=◌
rebuild_crashes = refl

rebuild-HasEnded_example :
    HasEnded (rebuild (tools []) idle [] from none (some (codes "BEFORE_CUTOVER")) start)
rebuild-HasEnded_example =
    rebuild-HasEnded (tools []) idle [] from none (some (codes "BEFORE_CUTOVER")) start
      (λ id w h. h) (λ id w h. h) (λ id w h. h)
