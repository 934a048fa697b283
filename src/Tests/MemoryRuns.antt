-- ===== src/Tests/MemoryRuns.antt =====
-- One generation serves, a second one takes over, and the promotion is rolled back.
use custom_wikibase.Prelude.{
  ◌≡◌, refl, Bool, true, false, Option, none, some, [], Text, codes, text_eq, strip_prefix, lookup,
  insert, erase, ok, err, throw_if, ◌>>=◌,
}
use custom_wikibase.RdfSync.Cursor.{Cursor}
use custom_wikibase.Serving.Pointer.{all_slug, is_slug, is_generation_id}
use custom_wikibase.Serving.Transitions.{can_become}
use custom_wikibase.Serving.Memory.{
  Generation, Memory, new_memory, retire_generation, delete_generation, validate_id, row, set_row,
  create_generation, assert_generation_transition, load_snapshot_into_generation,
  validate_generation, step_aside, take_over, promote_generation, come_back, roll_back,
  rollback_promotion,
}
use custom_wikibase.Serving.Memory.Consistent.{IsConsistent}
use custom_wikibase.Serving.Memory.Reachable.{
  Reachable, at_start, created, loaded, validated, promoted_to, went_back, Reachable-IsOrderly,
}

abbrev from_start : Cursor
from_start = record {
  source_identity = codes "wiki";
  timestamp = codes "1970-01-01T00:00:00Z";
  rcid = 0;
}

abbrev gen_a : Text
gen_a = codes "gen-a"

abbrev gen_b : Text
gen_b = codes "gen-b"

abbrev prepared : Text → Memory → Memory
prepared id m =
    (validate_generation id none
      (load_snapshot_into_generation id [] (create_generation id from_start [] m).1).1).1

abbrev both : Memory
both =
    (promote_generation (codes "p2") gen_b (some gen_a)
      (prepared gen_b (promote_generation (codes "p1") gen_a none (prepared gen_a new_memory)).1)).1

abbrev back : Memory
back = (rollback_promotion (codes "p2") both).1

prepared-Reachable : (id : Text) (m : Memory) → Reachable true m → Reachable true (prepared id m)
prepared-Reachable id m h =
    validated _ _ id none (loaded _ _ id [] (created _ m id from_start [] h))

both-Reachable : Reachable true both
both-Reachable = promoted_to _ _ (codes "p2") gen_b (some gen_a) (
    prepared-Reachable gen_b _
      (promoted_to _ _ (codes "p1") gen_a none (prepared-Reachable gen_a new_memory at_start)))

running : Unit {0}
unfolding text_eq strip_prefix lookup insert throw_if ◌>>=◌ all_slug is_slug is_generation_id
    can_become validate_id row set_row create_generation assert_generation_transition
    load_snapshot_into_generation validate_generation step_aside take_over promote_generation
    come_back roll_back rollback_promotion
running = tt

rolled_back_to_a : rollback_promotion (codes "p2") both ≡ (ok (some gen_a), back)
unfolding running
rolled_back_to_a = refl

back_at_a : back.active ≡ some gen_a
unfolding running
back_at_a = refl

Reachable-IsOrderly_example : IsConsistent back
Reachable-IsOrderly_example =
    Reachable-IsOrderly true back
      (went_back true both (codes "p2") (some gen_a) back both-Reachable rolled_back_to_a)

abbrev served_of : Option Generation → Option Bool
served_of none = none
served_of (some g) = some g.is_served

-- The generation that served before is retired and deleted; the rollback to it throws, and leaves the one
-- that is active unserved.
abbrev without_a : Memory
without_a = (delete_generation gen_a (retire_generation gen_a [] both).1).1

abbrev broken : Memory
broken = (rollback_promotion (codes "p2") without_a).1

rollback_breaks :
    (rollback_promotion (codes "p2") without_a ≡ (err (codes "GENERATION_NOT_FOUND"), broken))
    × (broken.active ≡ some gen_b)
    × (served_of (lookup gen_b broken.generations) ≡ some false)
unfolding running erase retire_generation delete_generation
rollback_breaks = (refl, refl, refl)
