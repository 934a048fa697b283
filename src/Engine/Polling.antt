-- ===== src/Engine/Polling.antt =====
-- What a whole poll makes of the durable state.
use custom_wikibase.Prelude.{
  ℕ, ◌≡◌, sym, Bool, true, false, Option, none, some, List, [], ◌∷◌, Text, Exec, take, Result, ok,
  err, pure,
}
use mathlib.Core.Path.{subst}
use custom_wikibase.RdfSync.Cursor.{Cursor, Precedes, Precedes-trans}
use custom_wikibase.RdfSync.Classify.{Event}
use custom_wikibase.RdfSync.Repository.{SourceRow, record_poll}
use custom_wikibase.Engine.World.{Collaborators, World, on_repo}
use custom_wikibase.Engine.Triples.{
  Rows, Triple, Holds, Quiet, Triple-bind, Triple-Quiet, Triple-pure,
}
use custom_wikibase.Engine.Quietness.{
  Quiet-on_outside, Quiet-crash, Quiet-load_source, Triple-increment, Triple-reading,
}
use custom_wikibase.Engine.Edit.{Outcome, stop}
use custom_wikibase.Engine.Events.{is_stop, cursor_of, process_event, process_batch, poll_once}
use custom_wikibase.Engine.Progress.Edit.{Advances, Settles}
use custom_wikibase.Engine.Progress.Events.{process_event-Settles}
use custom_wikibase.Engine.Revisions.Events.{RowsAreValid, process_event-RowsAreValid, after_either}

-- The durable cursor either stays or moves forward in the feed.
pub data Follows : Option Cursor → Option Cursor → Type 0 where
  stays : (a : Option Cursor) → Follows a a
  moves : (a : Option Cursor) (b : Cursor) → Advances a b → Follows a (some b)

Advances-trans : (a : Option Cursor) (b d : Cursor) → Advances a b → Precedes b d → Advances a d
Advances-trans none b d p q = tt
Advances-trans (some a) b d p q = Precedes-trans a b d p q

pub Follows-trans : {a b d : Option Cursor} → Follows a b → Follows b d → Follows a d
Follows-trans (stays _) q = q
Follows-trans (moves a b p) (stays _) = moves a b p
Follows-trans (moves a b p) (moves _ d q) = moves a d (Advances-trans a b d p q)

module _ {Outside : Type 0} (c : Collaborators Outside) where
  -- What the loop keeps of the state at the start of the poll.
  abbrev Polled : Option Cursor → Rows
  Polled start s d = Follows start s.cursor × RowsAreValid d

  Follows-of_Settles :
      (before after : SourceRow) (next : Cursor) (o : Outcome)
      → Settles true next before o after
      → Follows before.cursor after.cursor
  Follows-of_Settles before after next stop h =
      subst (Follows before.cursor) (sym h.0) (stays before.cursor)
  Follows-of_Settles before after next _ h =
      subst (Follows before.cursor) (sym h.0) (moves before.cursor next h.2)

  Polled_after :
      (start : Option Cursor) (before : SourceRow) (next : Cursor)
      (r : Result Outcome × World Outside)
      → Follows start before.cursor
      → Holds (λ o s d. Settles true next before o s) (λ e s d. s ≡ before) r
      → RowsAreValid r.1.repo.entities
      → Holds (λ _. Polled start) (λ _. Polled start) r
  Polled_after start before next (ok o, w) p h valid =
      (Follows-trans p (Follows-of_Settles before w.repo.source next o h), valid)
  Polled_after start before next (err e, w) p h valid =
      (subst (λ s. Follows start s.cursor) (sym h) p, valid)

  process_event-Polled :
      (start : Option Cursor) (event : Event) (crash_at : Option Text) (hard : Bool)
      → Triple
          (Polled start)
          (process_event c event crash_at hard)
          (λ _. Polled start)
          (λ _. Polled start)
  process_event-Polled start event crash_at hard = record {
    at = λ w p.
        Polled_after start w.repo.source (cursor_of c event) _ p.0
          (process_event-Settles c event crash_at hard w)
          (process_event-RowsAreValid c event crash_at hard w p.1);
  }

  process_batch-Polled :
      (start : Option Cursor) (crash_at : Option Text) (hard : Bool) (events : List Event)
      → Triple
          (Polled start)
          (process_batch c crash_at hard events)
          (λ _. Polled start)
          (λ _. Polled start)
  unfolding process_batch
  process_batch-Polled start crash_at hard [] = Triple-pure tt (λ s d p. p)
  process_batch-Polled start crash_at hard (event ∷ events) =
      Triple-bind _ _ (Triple-increment _) λ _.
        Triple-bind _ _ (process_event-Polled start event crash_at hard)
          (go_on (process_batch-Polled start crash_at hard events))
    where
      go_on :
          Triple
            (Polled start)
            (process_batch c crash_at hard events)
            (λ _. Polled start)
            (λ _. Polled start)
          → (o : Outcome)
          → Triple
              (Polled start)
              (elim (is_stop o) [ true ↦ pure tt | false ↦ process_batch c crash_at hard events ])
              (λ _. Polled start)
              (λ _. Polled start)
      go_on rest stop = Triple-pure tt (λ s d p. p)
      go_on rest _ = rest

  record_poll-Polled :
      (start : Option Cursor) (at : Text)
      → Triple {Outside = Outside}
          (Polled start)
          (on_repo (record_poll at))
          (λ _. Polled start)
          (λ _. Polled start)
  unfolding on_repo record_poll
  record_poll-Polled start at = record { at = λ w p. p }

  poll_once-Polled :
      (start : Option Cursor) (page_size batch_size : ℕ) (crash_at : Option Text) (hard : Bool)
      → Triple
          (Polled start)
          (poll_once c page_size batch_size crash_at hard)
          (λ _. Polled start)
          (λ _. Polled start)
  unfolding poll_once
  poll_once-Polled start page_size batch_size crash_at hard =
      Triple-bind _ _ (quietly _ Quiet-load_source) λ state.
        Triple-bind _ _ (quietly _ (Quiet-on_outside _)) λ events.
          Triple-bind _ _ (Triple-reading _) λ at.
            Triple-bind _ _ (record_poll-Polled start at) λ _.
              Triple-bind _ _ (quietly _ (Quiet-crash crash_at _)) λ _.
                Triple-bind _ _ (process_batch-Polled start crash_at hard (take batch_size events))
                  λ _.
                    Triple-bind _ _ (quietly _ Quiet-load_source)
                      λ final. Triple-pure _ (λ s d p. p)
    where
      quietly :
          {A : Type 0} (m : Exec (World Outside) A)
          → Quiet m
          → Triple (Polled start) m (λ _. Polled start) (λ _. Polled start)
      quietly m q = Triple-Quiet m q (λ e s d p. p)

  -- A poll never moves the durable cursor backwards and keeps the rows valid, for every list of
  -- events that the feed may return, in any order, and however the poll ends.
  pub poll_once-Follows :
      (page_size batch_size : ℕ) (crash_at : Option Text) (hard : Bool) (w : World Outside)
      → RowsAreValid w.repo.entities
      → let w' = (poll_once c page_size batch_size crash_at hard w).1 in
        Follows w.repo.source.cursor w'.repo.source.cursor × RowsAreValid w'.repo.entities
  poll_once-Follows page_size batch_size crash_at hard w valid =
      after_either (Polled w.repo.source.cursor) _ (
        (poll_once-Polled w.repo.source.cursor page_size batch_size crash_at hard).at w
          (stays w.repo.source.cursor, valid))
