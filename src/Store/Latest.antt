-- ===== src/Store/Latest.antt =====
-- `latest_for_file_ids` of crates/dafs-store/src/events.rs: the most recent event of each file, in the
-- order of the files.
use dafs.Prelude.{
  ℕ, ◌≡◌, refl, sym, Bool, ◌&&◌, not, inl, inr, none, some, List, [], ◌∷◌, any, keep, map, ltb, In,
  All, Option-cases, ◌==◌, eq_nat,
}
use dafs.HashMap.{HashMap, get, insert, remove, Every, insert-Every, remove-Every, get-Every}
use dafs.Store.Tables.{Table, EventRow}
use dafs.Store.Timeline.{Library, TimelineEntry, join_all, to_entry}

-- `e.id IN (SELECT MAX(id) FROM events WHERE file_id IN (…) GROUP BY file_id)`
abbrev pub is_latest : List ℕ → Table EventRow → ℕ × EventRow → Bool
is_latest file_ids events (id, e) =
    any (λ f. f == e.file_id) file_ids
    && not (any (λ (x : ℕ × EventRow). (x.1.file_id == e.file_id) && ltb id x.0) events)

-- `by_file_id`
abbrev pub by_file : List TimelineEntry → HashMap ℕ TimelineEntry → HashMap ℕ TimelineEntry
by_file [] t = t
by_file (e ∷ entries) t = by_file entries (insert e.file_id e t)

-- `file_ids.iter().filter_map(|id| by_file_id.remove(id))`
unfoldable pub take_each : List ℕ → HashMap ℕ TimelineEntry → List TimelineEntry
take_each [] t = []
take_each (id ∷ file_ids) t = elim (get id t) [
  | none ↦ take_each file_ids t
  | some e ↦ e ∷ take_each file_ids (remove id t)
]

unfoldable pub latest_for_file_ids : Library → List ℕ → List TimelineEntry
unfolding join_all to_entry take_each
latest_for_file_ids lib [] = []
latest_for_file_ids lib (id ∷ ids) =
    let file_ids = id ∷ ids in
    let raw = join_all lib (keep (is_latest file_ids lib.db.events) lib.db.events) in
    take_each file_ids (by_file (map (to_entry lib.db) raw) [])

abbrev IsKeyed : ℕ → TimelineEntry → Type 0
IsKeyed id e = e.file_id ≡ id

by_file-IsKeyed :
    (entries : List TimelineEntry) (t : HashMap ℕ TimelineEntry)
    → Every IsKeyed t
    → Every IsKeyed (by_file entries t)
by_file-IsKeyed [] t h = h
by_file-IsKeyed (e ∷ entries) t h =
    by_file-IsKeyed entries (insert e.file_id e t) (insert-Every IsKeyed e.file_id e t refl h)

-- The files of the entries are among these.
abbrev pub AreOf : List ℕ → List TimelineEntry → Type 0
AreOf file_ids = All (λ (e : TimelineEntry). In e.file_id file_ids)

AreOf-more :
    (id : ℕ) (ids : List ℕ) (entries : List TimelineEntry)
    → AreOf ids entries
    → AreOf (id ∷ ids) entries
AreOf-more id ids [] h = tt
AreOf-more id ids (e ∷ entries) (i, h) = (inr i, AreOf-more id ids entries h)

take_each-AreOf :
    (ids : List ℕ) (t : HashMap ℕ TimelineEntry) → Every IsKeyed t → AreOf ids (take_each ids t)
unfolding take_each
take_each-AreOf [] t h = tt
take_each-AreOf (id ∷ ids) t h = elim (Option-cases (get id t)) [
  | inl e ↦ rw (e, take_each) (AreOf-more id ids (take_each ids t) (take_each-AreOf ids t h))
  | inr (x, e) ↦
      let rest = remove id t in
      rw (e, take_each)
        (
          inl (sym (get-Every IsKeyed id x t h e)),
          AreOf-more id ids (take_each ids rest)
              (take_each-AreOf ids rest (remove-Every IsKeyed id t h)),
        )
]

-- Each entry is of one of the files that were asked for.
pub latest_for_file_ids-AreOf :
    (lib : Library) (ids : List ℕ) → AreOf ids (latest_for_file_ids lib ids)
unfolding latest_for_file_ids
latest_for_file_ids-AreOf lib [] = tt
latest_for_file_ids-AreOf lib (id ∷ ids) =
    let raw = join_all lib (keep (is_latest (id ∷ ids) lib.db.events) lib.db.events) in
    let entries = map (to_entry lib.db) raw in
    take_each-AreOf (id ∷ ids) (by_file entries []) (by_file-IsKeyed entries [] tt)
