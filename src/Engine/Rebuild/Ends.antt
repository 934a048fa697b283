-- ===== src/Engine/Rebuild/Ends.antt =====
-- A rebuild never leaves the source in the state REBUILDING.
use custom_wikibase.Prelude.{
  ◌≡◌, refl, ◌∙◌, Bool, true, false, ◌||◌, Option, some, List, [], ◌∷◌, ◌++◌, Text, codes, text_eq,
  text_eq_refl, Result, ok, err, Exec, pure, throw, continue, recover, try_catch, throw_if, ◌>>=◌,
  ◌>>◌, arith, Bool-cases, inl, inr,
}
use custom_wikibase.RdfSync.Cursor.{Cursor}
use custom_wikibase.RdfSync.Fence.{healthy, rebuild_required}
use custom_wikibase.RdfSync.Repository.{
  MemorySyncRepository, RebuildRow, RebuildResult, start_rebuild, finish_rebuild, update_rebuild,
  assign_rebuild,
}
use custom_wikibase.Engine.World.{Collaborators, World, on_repo, reading, increment}
use custom_wikibase.Engine.Steps.{crash}
use custom_wikibase.Engine.Rebuild.{
  RebuildCoordinator, rebuild_steps, rebuild_failure, rebuild_as, rebuild,
}

-- Whether the journal has a row of the rebuild.
unfoldable pub has_row : Text → List RebuildRow → Bool
has_row id [] = false
has_row id (row ∷ rows) = text_eq row.id id || has_row id rows

has_row-append :
    (id : Text) (rows : List RebuildRow) (row : RebuildRow)
    → row.id ≡ id
    → has_row id (rows ++ row ∷ []) ≡ true
unfolding has_row
has_row-append id [] row e = ground (arith, text_eq_refl id)
has_row-append id (r ∷ rows) row e = ground (arith, has_row-append id rows row e)

update_rebuild-some :
    (id : Text) (v : RebuildResult) (rows : List RebuildRow)
    → has_row id rows ≡ true
    → (rows' : List RebuildRow) × (update_rebuild id v rows ≡ some rows')
unfolding has_row update_rebuild
update_rebuild-some id v [] h = cc
update_rebuild-some id v (row ∷ rows) h = elim (Bool-cases (text_eq row.id id)) [
  | inl e ↦ (assign_rebuild v row ∷ rows, ground arith)
  | inr e ↦
      let (rows', p) = update_rebuild-some id v rows (ground arith) in (row ∷ rows', ground arith)
]

finish_rebuild-settles :
    (id : Text) (v : RebuildResult) (r : MemorySyncRepository)
    → has_row id r.rebuilds ≡ true
    → ((finish_rebuild id v r).0 ≡ ok tt) × ((finish_rebuild id v r).1.source.status ≡ v.state)
unfolding finish_rebuild
finish_rebuild-settles id v r h =
    let (rows, e) = update_rebuild-some id v r.rebuilds h in (ground arith, ground arith)

module _ {Outside : Type 0} where
  -- The end of a rebuild.
  abbrev pub HasEnded : Result Text × World Outside → Type 0
  HasEnded (ok a, w) = w.repo.source.status ≡ healthy
  HasEnded (err e, w) = w.repo.source.status ≡ rebuild_required

module _ {Outside : Type 0} (id : Text) where
  abbrev pub HasRow : World Outside → Type 0
  HasRow w = has_row id w.repo.rebuilds ≡ true

  abbrev pub KeepsRow : {A : Type 0} → Exec (World Outside) A → Type 0
  KeepsRow m = (w : World Outside) → HasRow w → HasRow (m w).1

  -- The end of the steps, with the row still there after a throw.
  abbrev StepsEnd : Result Text × World Outside → Type 0
  StepsEnd (ok a, w) = w.repo.source.status ≡ healthy
  StepsEnd (err e, w) = HasRow w

  then-StepsEnd :
      {A : Type 0} (k : A → Exec (World Outside) Text) (r : Result A) (w : World Outside)
      → HasRow w
      → ((a : A) (w' : World Outside) → HasRow w' → StepsEnd (k a w'))
      → StepsEnd (continue r k w)
  then-StepsEnd k (ok a) w h next = next a w h
  then-StepsEnd k (err e) w h next = h

  bind-StepsEnd :
      {A : Type 0} (m : Exec (World Outside) A) (k : A → Exec (World Outside) Text)
      (w : World Outside)
      → HasRow w
      → KeepsRow m
      → ((a : A) (w' : World Outside) → HasRow w' → StepsEnd (k a w'))
      → StepsEnd ((m >>= k) w)
  unfolding ◌>>=◌
  bind-StepsEnd m k w h keeps next = then-StepsEnd k (m w).0 (m w).1 (keeps w h) next

  throw_if-KeepsRow : (b : Bool) (e : Text) → KeepsRow (throw_if b e)
  unfolding throw_if
  throw_if-KeepsRow true e w h = h
  throw_if-KeepsRow false e w h = h

  crash-KeepsRow : (selected : Option Text) (point : Text) → KeepsRow (crash selected point)
  unfolding crash
  crash-KeepsRow selected point = throw_if-KeepsRow _ _

  reading-KeepsRow : (m : Outside → Text × Outside) → KeepsRow (reading m)
  unfolding reading
  reading-KeepsRow m w h = h

module _ {Outside Snapshot : Type 0} (c : Collaborators Outside)
    (coordinator : RebuildCoordinator Outside Snapshot) (id : Text) (snapshot : Snapshot)
    (start : Cursor) (end : Option Cursor) (crash_at : Option Text)
    (stages : KeepsRow id (coordinator.stage_snapshot id snapshot))
    (catches : KeepsRow id (coordinator.catch_up id start end))
    (cuts : KeepsRow id (coordinator.cutover id)) where
  counted : Unit {0} → Exec (World Outside) Text
  counted _ = reading c.clock >>= λ now. increment (codes "rebuild_duration") >> pure id

  counted-StepsEnd :
      (r : Result (Unit {0})) (w : World Outside)
      → r ≡ ok tt
      → w.repo.source.status ≡ healthy
      → StepsEnd id (continue r counted w)
  unfolding counted reading increment ◌>>=◌
  counted-StepsEnd (ok a) w e h = h
  counted-StepsEnd (err x) w e h = cc

  finish-StepsEnd :
      (v : RebuildResult) (w : World Outside)
      → v.state ≡ healthy
      → HasRow id w
      → StepsEnd id ((on_repo (finish_rebuild id v) >>= counted) w)
  unfolding on_repo ◌>>=◌
  finish-StepsEnd v w e h =
      let (fine, status) = finish_rebuild-settles id v w.repo h in
      counted-StepsEnd (finish_rebuild id v w.repo).0
        (record w { repo = (finish_rebuild id v w.repo).1 }) fine (status ∙ e)

  thrown-HasEnded :
      (x : Text) (r : Result (Unit {0})) (w : World Outside)
      → r ≡ ok tt
      → w.repo.source.status ≡ rebuild_required
      → HasEnded (continue r (λ _. throw x) w)
  thrown-HasEnded x (ok a) w e h = h
  thrown-HasEnded x (err y) w e h = cc

  rebuild_failure-HasEnded :
      (x : Text) (w : World Outside)
      → HasRow id w
      → HasEnded (rebuild_failure c coordinator id snapshot start end crash_at x w)
  unfolding rebuild_failure increment reading on_repo ◌>>=◌
  rebuild_failure-HasEnded x w h =
      let (fine, status) = finish_rebuild-settles id _ w.repo h in thrown-HasEnded x _ _ fine status

  rebuild_steps-StepsEnd :
      (w : World Outside)
      → HasRow id w
      → StepsEnd id (rebuild_steps c coordinator id snapshot start end crash_at w)
  unfolding rebuild_steps counted
  rebuild_steps-StepsEnd w h = bind-StepsEnd id _ _ w h stages (λ _ w h.
      bind-StepsEnd id _ _ w h (crash-KeepsRow id _ _) (λ _ w h.
        bind-StepsEnd id _ _ w h catches (λ _ w h.
          bind-StepsEnd id _ _ w h (crash-KeepsRow id _ _) (λ _ w h.
            bind-StepsEnd id _ _ w h cuts (λ _ w h.
              bind-StepsEnd id _ _ w h (crash-KeepsRow id _ _) (λ _ w h.
                bind-StepsEnd id _ _ w h (reading-KeepsRow id _)
                  (λ at w h. finish-StepsEnd _ w refl h)))))))

  recovered-HasEnded :
      (r : Result Text) (w : World Outside)
      → StepsEnd id (r, w)
      → HasEnded (recover (rebuild_failure c coordinator id snapshot start end crash_at) r w)
  recovered-HasEnded (ok a) w h = h
  recovered-HasEnded (err x) w h = rebuild_failure-HasEnded x w h

  rebuild_as-HasEnded :
      (w : World Outside) → HasEnded (rebuild_as c coordinator id snapshot start end crash_at w)
  unfolding rebuild_as reading on_repo start_rebuild increment try_catch ◌>>=◌
  rebuild_as-HasEnded w =
      recovered-HasEnded _ _ (rebuild_steps-StepsEnd _ (has_row-append id w.repo.rebuilds _ refl))

-- Where the coordinator keeps the row of the rebuild in the journal: a rebuild that succeeds leaves
-- the source HEALTHY, and one that throws, at a crash or at the coordinator, REBUILD_REQUIRED.
pub rebuild-HasEnded :
    {Outside Snapshot : Type 0} (c : Collaborators Outside)
    (coordinator : RebuildCoordinator Outside Snapshot) (snapshot : Snapshot) (start : Cursor)
    (end : Option Cursor) (crash_at : Option Text) (w : World Outside)
    → ((id : Text) → KeepsRow id (coordinator.stage_snapshot id snapshot))
    → ((id : Text) → KeepsRow id (coordinator.catch_up id start end))
    → ((id : Text) → KeepsRow id (coordinator.cutover id))
    → HasEnded (rebuild c coordinator snapshot start end crash_at w)
unfolding rebuild reading ◌>>=◌
rebuild-HasEnded c coordinator snapshot start end crash_at w stages catches cuts =
    let id = (c.random_uuid w.outside).0 in
    rebuild_as-HasEnded c coordinator id snapshot start end crash_at (stages id) (catches id)
      (cuts id) _
