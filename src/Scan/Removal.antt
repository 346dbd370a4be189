-- ===== src/Scan/Removal.antt =====
-- A row that is marked deleted.
use dafs.Prelude.{
  ℕ, ◌≡◌, refl, subst, true, inl, inr, none, some, arith, if◌then◌else◌, Bool-cases, Option-cases,
  ◌==◌, eq_nat,
}
use dafs.HashMap.{get, insert, get-insert}
use dafs.Store.Tables.{FileRow, EventRow, deleted, Sqlite}
use dafs.Store.Exec.{Store, ok}
use dafs.Store.Statements.{has_row, clashes, may_store, put_file, insert_event, ids}
use dafs.Store.Rows.{get-has_row}
use dafs.Store.WellFormed.{IsLogged, IsWell}
use dafs.Store.Locations.{update_file_lem, put_file-IsWell}
use dafs.Store.Upserting.{get-put_file}
use dafs.Scan.Recording.{event_now, tombstone, mark_deleted}

abbrev pub log : ℕ → EventRow → Store → Store
log id e s = record s { db = record s.db { events = insert id e s.db.events } }

module _ (id : ℕ) (e : EventRow) (s : Store) (w : IsWell s) (logged : IsLogged s.db e) where
  log-IsWell : IsWell (log id e s)
  log-IsWell = record {
    tables = record {
      components_once = w.components_once;
      files_once = w.files_once;
      names_once = w.names_once;
      linked = w.linked;
      live_once = w.live_once;
      logged = λ i q h.
          let at : get i (insert id e s.db.events)
              ≡ (if id == i then some e else get i s.db.events) =
            get-insert id i e s.db.events in
          elim (Bool-cases (id == i)) [
            | inl here ↦ let same : e ≡ q = ground arith in subst (IsLogged s.db) same logged
            | inr there ↦ w.logged i q (ground arith)
          ];
    };
    cached_right = w.cached_right;
    bounded = w.bounded;
  }

module _ ⦃sql : Sqlite⦄ where
  -- An event whose references are there breaks no constraint.
  pub insert_event_lem :
      (e : EventRow) (s : Store)
      → IsLogged s.db e
      → insert_event e s ≡ (ok (sql.rowid (ids s.db.events)), log (sql.rowid (ids s.db.events)) e s)
  unfolding insert_event
  insert_event_lem e s (f, p, c) = rw (f, p, c) refl

  tombstone-may :
      (id now : ℕ) (r : FileRow) (s : Store)
      → IsWell s
      → get id s.db.files ≡ some r
      → may_store id (tombstone now r) s.db ≡ true
  tombstone-may id now r s w h =
      let (p, c) = w.linked id r h in
      elim (Option-cases r.parent_id) [
        | inl e ↦ rw (e, clashes) (ground (arith, c))
        | inr (q, e) ↦
            let p' = subst (λ o. has_row o s.db.files ≡ true) e p in
            rw (e, clashes) (ground (arith, p', c))
      ]

  -- The row that is marked, and the log with its event.
  abbrev pub after_mark : ℕ → ℕ → FileRow → Store → Store
  after_mark now id r s =
      let s' = put_file id (tombstone now r) s in
      log (sql.rowid (ids s'.db.events)) (event_now id deleted none now) s'

  tombstone-IsWell :
      (id now : ℕ) (r : FileRow) (s : Store)
      → IsWell s
      → get id s.db.files ≡ some r
      → IsWell (put_file id (tombstone now r) s)
  tombstone-IsWell id now r s w h =
      put_file-IsWell id (tombstone now r) s w (w.linked id r h)
        (λ live. absurd (ground (arith, live)))

  -- On a well-formed store `mark_deleted` breaks no constraint: the row keeps its id and its place and
  -- is a tombstone of the time given, one `deleted` event names it, and the store stays well-formed.
  pub mark_deleted_lem :
      (now id : ℕ) (r : FileRow) (s : Store)
      → IsWell s
      → get id s.db.files ≡ some r
      → (mark_deleted now id s ≡ (ok tt, after_mark now id r s)) × IsWell (after_mark now id r s)
  unfolding mark_deleted
  mark_deleted_lem now id r s w h =
      let s' = put_file id (tombstone now r) s in
      let e = event_now id deleted none now in
      let logged : IsLogged s'.db e = (
        get-has_row id (tombstone now r) s'.db.files (get-put_file id (tombstone now r) s),
        refl,
        refl,
      ) in
      (
        rw
            (
              update_file_lem id (tombstone now) r s h (tombstone-may id now r s w h),
              insert_event_lem e s' logged,
            )
            refl,
        log-IsWell (sql.rowid (ids s'.db.events)) e s' (tombstone-IsWell id now r s w h) logged,
      )
