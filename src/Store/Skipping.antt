-- ===== src/Store/Skipping.antt =====
-- What the cursor of crates/dafs-store/src/events.rs passes over.
use dafs.Prelude.{
  ℕ, ◌≤◌, ◌<◌, ◌≡◌, subst, true, some, List, [], ◌∷◌, ◌++◌, In, All-In, keep, arith, eq_nat,
}
use dafs.HashMap.{Distinct}
use dafs.Store.Timeline.{
  Library, RawEvent, join_all, TimelineQuery, is_selected, comes_first, order_rows, select_rows,
}
use dafs.Store.Ordering.{IsOrdered, All-order_rows, order_rows-IsOrdered, keep-IsOnce}
use dafs.Store.Paging.{keep-passes, join_all-IsOnce}

-- The cursors of the pages that follow: each is the id of a row that the cursor before it selects.
abbrev pub AreCursors : Library → TimelineQuery → ℕ → List ℕ → Type 0
AreCursors lib q c [] = Unit
AreCursors lib q c (d ∷ cursors) =
    ((y : RawEvent) × In y (select_rows lib (record q { before_id = some c })) × (y.id ≡ d))
    × AreCursors lib q d cursors

abbrev pub last_cursor : ℕ → List ℕ → ℕ
last_cursor c [] = c
last_cursor c (d ∷ cursors) = last_cursor d cursors

selected-below :
    (lib : Library) (q : TimelineQuery) (c : ℕ) (y : RawEvent)
    → In y (select_rows lib (record q { before_id = some c }))
    → y.id < c
unfolding select_rows
selected-below lib q c y i =
    let cursor = record q { before_id = some c } in
    let selected = keep (is_selected cursor) (join_all lib lib.db.events) in
    let passed : is_selected cursor y ≡ true =
      All-In (λ x. is_selected cursor x ≡ true) y (order_rows selected)
        (All-order_rows (λ x. is_selected cursor x ≡ true) selected
          (keep-passes (is_selected cursor) (join_all lib lib.db.events)))
        i in
    ground (arith, passed)

last_cursor-below :
    (lib : Library) (q : TimelineQuery) (c : ℕ) (cursors : List ℕ)
    → AreCursors lib q c cursors
    → last_cursor c cursors ≤ c
last_cursor-below lib q c [] h = omega arith
last_cursor-below lib q c (d ∷ cursors) ((y, i, same), h) =
    omega (arith, selected-below lib q c y i, same, last_cursor-below lib q d cursors h)

ordered-after :
    (front rest : List RawEvent) (l x : RawEvent)
    → IsOrdered (front ++ l ∷ rest)
    → In x rest
    → comes_first l x ≡ true
ordered-after [] rest l x o i = All-In (λ y. comes_first l y ≡ true) x rest o.0 i
ordered-after (z ∷ front) rest l x o i = ordered-after front rest l x o.1 i

module _ (lib : Library) (q : TimelineQuery) (front rest : List RawEvent) (l : RawEvent)
    (once : Distinct lib.db.events) (rows : select_rows lib q ≡ front ++ l ∷ rest) where
  -- Where the log holds each id once: a row that follows a page in the order of the query but has a larger
  -- id than the last row of the page has an earlier time than that row, so the clock was set back
  -- between the two writes; and it is on no later page, however many follow, each with the id of a row
  -- of the page before as its cursor.
  pub timeline-cursor_skips :
      (x : RawEvent)
      → In x rest
      → l.id < x.id
      → (x.at_unix_ms < l.at_unix_ms)
        × ((cursors : List ℕ)
            → AreCursors lib q l.id cursors
            → In x (select_rows lib (record q { before_id = some (last_cursor l.id cursors) }))
            → ⊥)
  unfolding select_rows
  timeline-cursor_skips x i later =
      let joined = join_all lib lib.db.events in
      let ordered =
        order_rows-IsOrdered (keep (is_selected q) joined)
          (keep-IsOnce (is_selected q) joined (join_all-IsOnce lib lib.db.events once)) in
      let first = ordered-after front rest l x (subst IsOrdered rows ordered) i in
      (
        ground (arith, first, later),
        λ cursors h j. omega (
          arith,
          later,
          last_cursor-below lib q l.id cursors h,
          selected-below lib q (last_cursor l.id cursors) x j,
        ),
      )
