-- ===== src/RdfSync/Cursor.antt =====
-- The cursor over the change feed, and the guard of `commitEvent` in
-- packages/rdf-sync/src/state.js.
use custom_wikibase.Prelude.{
  ℕ, ◌<◌, ◌≡◌, ◌⊎◌, Bool, true, false, ◌&&◌, ◌||◌, arith, Text, text_eq, text_eq_iff, text_lt,
  text_lt_trans, text_lt_irrefl, text_lt_or_ge, leb,
}

pub record Cursor : Type 0 where
  pub source_identity : Text
  pub timestamp : Text
  pub rcid : ℕ

-- `next.timestamp < old.timestamp || (next.timestamp === old.timestamp && next.rcid <= old.rcid)`.
unfoldable pub is_regression : Cursor → Cursor → Bool
is_regression old next =
    text_lt next.timestamp old.timestamp
    || (text_eq next.timestamp old.timestamp && leb next.rcid old.rcid)

-- The order of the feed: by timestamp, then by recent-change number.

abbrev pub Precedes : Cursor → Cursor → Type 0
Precedes a b =
    (text_lt a.timestamp b.timestamp ≡ true) ⊎ ((a.timestamp ≡ b.timestamp) × (a.rcid < b.rcid))

-- What the guard lets through is strictly later in the feed.
pub Precedes-of_guard : (old next : Cursor) → is_regression old next ≡ false → Precedes old next
unfolding is_regression
Precedes-of_guard old next h =
    ground
      (arith, text_lt_or_ge next.timestamp old.timestamp, text_eq_iff next.timestamp old.timestamp)

pub Precedes-trans : (a b c : Cursor) → Precedes a b → Precedes b c → Precedes a c
Precedes-trans a b c p q = ground (arith, text_lt_trans a.timestamp b.timestamp c.timestamp)

pub Precedes-irrefl : (a : Cursor) → ¬ Precedes a a
Precedes-irrefl a p = ground (arith, text_lt_irrefl a.timestamp)
