-- ===== src/Store/Paging.antt =====
-- Reading the timeline page by page, the id of the last row of a page as the cursor of the next.
use dafs.Prelude.{
  ℕ, suc, ◌≤◌, ◌<◌, ◌≡◌, ◌∙◌, refl, sym, ap, subst, Bool, true, ◌&&◌, inl, inr, Option, none, some,
  List, [], ◌∷◌, ◌++◌, In, All, keep, map, take, length, ltb, arith, Bool-cases, Option-cases,
  eq_nat,
}
use dafs.HashMap.{get, Distinct}
use dafs.Store.Tables.{Table, EventRow}
use dafs.Store.Rows.{In-get}
use dafs.Store.Timeline.{
  Library, RawEvent, join_all, TimelineQuery, is_before, passes, is_selected, comes_first,
  order_rows, select_rows, effective_limit, to_entry, timeline,
}
use dafs.Store.Ordering.{
  IsOrdered, IsOnce, HasId, IsDescending, All-keep, All-order_rows, order_rows-IsOrdered,
  keep-IsOnce, keep-order_rows, keep-cursor,
}

-- The times of the log go with its ids: the clock was not set back between two writes.
abbrev pub IsChronological : Table EventRow → Type 0
IsChronological events =
    (i j : ℕ) (a b : EventRow)
    → get i events ≡ some a
    → get j events ≡ some b
    → i < j
    → a.at_unix_ms ≤ b.at_unix_ms

-- The row is that of an event of the table.
abbrev IsFrom : Table EventRow → RawEvent → Type 0
IsFrom events x = (e : EventRow) × (get x.id events ≡ some e) × (e.at_unix_ms ≡ x.at_unix_ms)

absent_id :
    (lib : Library) (id : ℕ) (t : Table EventRow)
    → get id t ≡ none
    → All (HasId id) (join_all lib t)
unfolding join_all
absent_id lib id [] h = tt
absent_id lib id ((j, e) ∷ t) h = elim (Option-cases (get e.file_id lib.db.files)) [
  | inl missing ↦ rw (missing, All) (absent_id lib id t (ground arith))
  | inr (f, found) ↦ rw (found, All) (ground arith, absent_id lib id t (ground arith))
]

pub join_all-IsOnce : (lib : Library) (t : Table EventRow) → Distinct t → IsOnce (join_all lib t)
unfolding join_all
join_all-IsOnce lib [] d = tt
join_all-IsOnce lib ((j, e) ∷ t) d = elim (Option-cases (get e.file_id lib.db.files)) [
  | inl missing ↦ rw (missing, IsOnce) (join_all-IsOnce lib t d.1)
  | inr (f, found) ↦ rw (found, IsOnce) (absent_id lib j t d.0, join_all-IsOnce lib t d.1)
]

join_all-IsFrom :
    (lib : Library) (events t : Table EventRow)
    → ((i : ℕ) (e : EventRow) → In (i, e) t → get i events ≡ some e)
    → All (IsFrom events) (join_all lib t)
unfolding join_all
join_all-IsFrom lib events [] h = tt
join_all-IsFrom lib events ((j, e) ∷ t) h =
    let later = join_all-IsFrom lib events t (λ i q k. h i q (inr k)) in
    elim (Option-cases (get e.file_id lib.db.files)) [
      | inl missing ↦ rw (missing, All) later
      | inr (f, found) ↦ rw (found, All) ((e, h j e (inl refl), refl), later)
    ]

module _ (events : Table EventRow) (chronological : IsChronological events) where
  first-above :
      (x y : RawEvent) → IsFrom events x → IsFrom events y → comes_first x y ≡ true → y.id < x.id
  first-above x y (a, ha, ta) (b, hb, tb) h =
      ground (arith, chronological x.id y.id a b ha hb, ta, tb, ha, hb, h)

  All-below :
      (l : RawEvent) (rest : List RawEvent)
      → IsFrom events l
      → All (IsFrom events) rest
      → All (λ y. comes_first l y ≡ true) rest
      → All (λ y. y.id < l.id) rest
  All-below l [] f a o = tt
  All-below l (y ∷ rest) f a o = (first-above l y f a.0 o.0, All-below l rest f a.1 o.1)

All-middle :
    (P : RawEvent → Type 0) (front rest : List RawEvent) (l : RawEvent)
    → All P (front ++ l ∷ rest)
    → P l
All-middle P [] rest l a = a.0
All-middle P (x ∷ front) rest l a = All-middle P front rest l a.1

module _ (events : Table EventRow) (chronological : IsChronological events) where
  ordered-IsDescending :
      (front rest : List RawEvent) (l : RawEvent)
      → All (IsFrom events) (front ++ l ∷ rest)
      → IsOrdered (front ++ l ∷ rest)
      → IsDescending front rest l
  ordered-IsDescending [] rest l a o = record {
    above = tt;
    below = All-below events chronological l rest a.0 a.1 o.0;
  }
  ordered-IsDescending (x ∷ front) rest l a o =
      let d = ordered-IsDescending front rest l a.1 o.1 in
      let from = All-middle (IsFrom events) front rest l a.1 in
      let first = All-middle (λ y. comes_first x y ≡ true) front rest l o.0 in
      record {
        above = (first-above events chronological x l a.0 from first, d.above);
        below = d.below;
      }

keep-two :
    (p q r : RawEvent → Bool) (xs : List RawEvent)
    → ((x : RawEvent) → r x ≡ (p x && q x))
    → keep q (keep p xs) ≡ keep r xs
keep-two p q r [] h = refl
keep-two p q r (x ∷ xs) h =
    let later = keep-two p q r xs h in
    elim (Bool-cases (p x)) [ inl e ↦ rw (h x, e, later) refl | inr e ↦ rw (h x, e, later) refl ]

pub keep-passes : (p : RawEvent → Bool) (xs : List RawEvent) → All (λ x. p x ≡ true) (keep p xs)
keep-passes p [] = tt
keep-passes p (x ∷ xs) = elim (Bool-cases (p x)) [
  | inl e ↦ rw e (e, keep-passes p xs)
  | inr e ↦ rw e (keep-passes p xs)
]

-- Under the cursor of a row that the query selects, and only below it.
both-cursors :
    (o : Option ℕ) (l id : ℕ) (b : Bool)
    → is_before o l ≡ true
    → (ltb id l && b) ≡ ((is_before o id && b) && ltb id l)
both-cursors none l id b h = ground arith
both-cursors (some c) l id b h = ground arith

module _ (lib : Library) (q : TimelineQuery) (front rest : List RawEvent) (l : RawEvent)
    (once : Distinct lib.db.events) (rows : select_rows lib q ≡ front ++ l ∷ rest) where
  abbrev cursor : TimelineQuery
  cursor = record q { before_id = some l.id }

  cursor-keep : select_rows lib cursor ≡ keep (λ x. ltb x.id l.id) (front ++ l ∷ rest)
  unfolding select_rows
  cursor-keep =
      let joined = join_all lib lib.db.events in
      let u = join_all-IsOnce lib lib.db.events once in
      let selected =
        All-order_rows (λ x. is_selected q x ≡ true) (keep (is_selected q) joined)
          (keep-passes (is_selected q) joined) in
      let own : is_selected q l ≡ true =
        All-middle (λ x. is_selected q x ≡ true) front rest l
          (subst (All (λ x. is_selected q x ≡ true)) rows selected) in
      let before : is_before q.before_id l.id ≡ true = ground (arith, own) in
      sym (
        ap (keep (λ x. ltb x.id l.id)) (sym rows)
        ∙ keep-order_rows (λ x. ltb x.id l.id) (keep (is_selected q) joined)
            (keep-IsOnce (is_selected q) joined u)
        ∙ ap order_rows (
            keep-two (is_selected q) (λ x. ltb x.id l.id) (is_selected cursor) joined
              (λ x. both-cursors q.before_id l.id x.id (passes q x) before)))

  rows-IsDescending : IsChronological lib.db.events → IsDescending front rest l
  unfolding select_rows
  rows-IsDescending chronological =
      let events = lib.db.events in
      let joined = join_all lib events in
      let selected = keep (is_selected q) joined in
      let from = All-order_rows (IsFrom events) selected (
        All-keep (IsFrom events) (is_selected q) joined
          (join_all-IsFrom lib events events (λ i e k. In-get i e events once k))) in
      let ordered =
        order_rows-IsOrdered selected
          (keep-IsOnce (is_selected q) joined (join_all-IsOnce lib events once)) in
      ordered-IsDescending events chronological front rest l (subst (All (IsFrom events)) rows from)
        (subst IsOrdered rows ordered)

take-front :
    (front rest : List RawEvent) (l : RawEvent)
    → take (suc (length front)) (front ++ l ∷ rest) ≡ front ++ l ∷ []
take-front [] rest l = refl
take-front (x ∷ front) rest l = ap (◌∷◌ x) (take-front front rest l)

take-page :
    (front rest : List RawEvent) (l : RawEvent) (n : ℕ)
    → suc (length front) ≡ n
    → take n (front ++ l ∷ rest) ≡ front ++ l ∷ []
take-page front rest l n h = rw (sym h) (take-front front rest l)

module _ (lib : Library) (q : TimelineQuery) (front rest : List RawEvent) (l : RawEvent)
    (once : Distinct lib.db.events) (chronological : IsChronological lib.db.events)
    (rows : select_rows lib q ≡ front ++ l ∷ rest)
    (full : suc (length front) ≡ effective_limit q) where
  -- Where the log holds each id once and its times go with the ids: a full page of a query ends with
  -- some row, and the same query with the id of that row as its cursor goes on with exactly the rows
  -- that follow, none missed and none twice.
  pub timeline-cursor :
      (timeline lib q ≡ map (to_entry lib.db) (front ++ l ∷ []))
      × (timeline lib (record q { before_id = some l.id })
          ≡ map (to_entry lib.db) (take (effective_limit q) rest))
  unfolding timeline effective_limit
  timeline-cursor = (
    rw rows (ap (map (to_entry lib.db)) (take-page front rest l (effective_limit q) full)),
    ap (λ r. map (to_entry lib.db) (take (effective_limit q) r))
        (cursor-keep lib q front rest l once rows
          ∙ keep-cursor l front rest
              (rows-IsDescending lib q front rest l once rows chronological)),
  )
