-- ===== src/Store/Logs.antt =====
-- The event log: a batch lands whole or not at all, and a page is bounded.

use dafs.Prelude.{
  ℕ, zero, suc, ◌≤◌, ◌≡◌, ◌∙◌, refl, ap, ◌&&◌, inl, inr, some, List, [], ◌∷◌, In, length, map, take,
  arith, if◌then◌else◌, if_both, ◌==◌, eq_nat, eq_string, nat_eqb_iff,
}
use dafs.HashMap.{get, insert, get-insert}
use dafs.Store.Tables.{EventKind, created, modified, deleted, renamed, EventRow, Db, Sqlite}
use dafs.Store.Exec.{Store, Result, ok, err, continue}
use dafs.Store.Statements.{insert_event, has_row, ids}
use dafs.Store.Rows.{get-rowid}
use dafs.Store.Events.{as_str, parse, execute_each, commit_or_rollback, append_batch}
use dafs.Store.Timeline.{
  Library, TimelineQuery, max_limit, effective_limit, select_rows, to_entry, timeline,
}

-- The stored form of a kind reads back as that kind.
pub parse-as_str : (kind : EventKind) → parse (as_str kind) ≡ some kind
unfolding parse
parse-as_str created = refl
parse-as_str modified = refl
parse-as_str deleted = refl
parse-as_str renamed = refl

length-take-map : {A B : Type 0} (f : A → B) (n : ℕ) (xs : List A) → length (map f (take n xs)) ≤ n
length-take-map f zero xs = omega arith
length-take-map f (suc n) [] = omega arith
length-take-map f (suc n) (x ∷ xs) = let h = length-take-map f n xs in omega arith

-- Whatever limit is asked for, a page holds at most `max_limit` entries.
pub timeline-bounded : (lib : Library) (q : TimelineQuery) → length (timeline lib q) ≤ max_limit
unfolding timeline effective_limit
timeline-bounded lib q =
    let short = length-take-map (to_entry lib.db) (effective_limit q) (select_rows lib q) in
    omega (arith, short)

-- An event that the log holds.
abbrev pub IsIn : EventRow → Db → Type 0
IsIn e db = (id : ℕ) × (get id db.events ≡ some e)

-- What the batch added to the log `db`: its events, and nothing in place of an old one.
pub record Landed (events : List EventRow) (db db' : Db) : Type 0 where
  pub kept : (id : ℕ) (e : EventRow) → get id db.events ≡ some e → get id db'.events ≡ some e
  pub added : (e : EventRow) → In e events → IsIn e db'

module _ ⦃sql : Sqlite⦄ where
  abbrev AfterLoop : List EventRow → Db → Result (Unit {0}) × Store → Type 0
  AfterLoop events db (ok _, s) = Landed events db s.db
  AfterLoop events db (err e, s) = Unit

  landed-cons :
      (e : EventRow) (events : List EventRow) (db db' : Db) (out : Result (Unit {0}) × Store)
      → ((i : ℕ) (q : EventRow) → get i db.events ≡ some q → get i db'.events ≡ some q)
      → IsIn e db'
      → AfterLoop events db' out
      → AfterLoop (e ∷ events) db out
  landed-cons e events db db' (ok _, t) keeps (j, here) h = record {
    kept = λ i q k. h.kept i q (keeps i q k);
    added = λ q i. elim i [
      | inl same ↦ (j, h.kept j q (here ∙ ap some same))
      | inr there ↦ h.added q there
    ];
  }
  landed-cons e events db db' (err x, t) keeps here h = tt

  after_insert :
      (e : EventRow) (events : List EventRow) (s : Store)
      → ((t : Store) → AfterLoop events t.db (execute_each events t))
      → AfterLoop
          (e ∷ events)
          s.db
          (continue (insert_event e s).0 (λ _. execute_each events) (insert_event e s).1)
  unfolding insert_event
  after_insert e events s ih =
      let id = sql.rowid (ids s.db.events) in
      let db' = record s.db { events = insert id e s.db.events } in
      let t : Store = record s { db = db' } in
      let at : (j : ℕ)
          → get j (insert id e s.db.events) ≡ (if id == j then some e else get j s.db.events) =
        λ j. get-insert id j e s.db.events in
      if_both
        (λ (out : Result ℕ × Store).
          AfterLoop (e ∷ events) s.db (continue out.0 (λ _. execute_each events) out.1))
        (has_row (some e.file_id) s.db.files
          && (has_row e.prev_parent_id s.db.files
              && has_row e.prev_component_id s.db.path_components))
        (landed-cons e events s.db db' (execute_each events t)
          (λ j q h. at j ∙ ground (arith, nat_eqb_iff id j, get-rowid s.db.events))
          (id, at id ∙ ground (arith, nat_eqb_iff id id)) (ih t))
        tt

  execute_each-AfterLoop :
      (events : List EventRow) (s : Store) → AfterLoop events s.db (execute_each events s)
  unfolding execute_each
  execute_each-AfterLoop [] s = record { kept = λ id e h. h; added = λ e i. absurd i }
  execute_each-AfterLoop (e ∷ events) s = after_insert e events s (execute_each-AfterLoop events)

  abbrev pub IsWhole : List EventRow → Store → Result ℕ × Store → Type 0
  IsWhole events s (ok n, s') = (n ≡ length events) × Landed events s.db s'.db
  IsWhole events s (err e, s') = s'.db ≡ s.db

  commit_or_rollback-IsWhole :
      (events : List EventRow) (s : Store) (out : Result (Unit {0}) × Store)
      → AfterLoop events s.db out
      → IsWhole events s (commit_or_rollback (length events) s out)
  commit_or_rollback-IsWhole events s (ok _, t) h = (refl, h)
  commit_or_rollback-IsWhole events s (err e, t) h = refl

  -- A batch lands whole or not at all: where `append_batch` succeeds, it returns the number of its
  -- events, each is in the log and every old row is as it was; where it fails, no table has changed.
  pub append_batch-IsWhole :
      (events : List EventRow) (s : Store) → IsWhole events s (append_batch events s)
  unfolding append_batch
  append_batch-IsWhole [] s = (refl, record { kept = λ id e h. h; added = λ e i. absurd i })
  append_batch-IsWhole (e ∷ events) s =
      commit_or_rollback-IsWhole (e ∷ events) s (execute_each (e ∷ events) s)
        (execute_each-AfterLoop (e ∷ events) s)
