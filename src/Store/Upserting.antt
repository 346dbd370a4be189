-- ===== src/Store/Upserting.antt =====
-- `upsert_entry`: it always succeeds where its ids exist, and keeps one live row for each location.
use mathlib.Core.Path.{subst₂}
use dafs.Prelude.{
  ℕ, ◌≡◌, ◌∙◌, refl, sym, ap, subst, Bool, true, Option, none, some, [], ◌∷◌, arith, Bool-cases,
  Option-cases, inl, inr, ◌==◌, eq_nat, nat_eqb_iff,
}
use dafs.HashMap.{get, insert, get-insert}
use dafs.Store.Tables.{Table, FileRow, Db, Sqlite}
use dafs.Store.Exec.{Store, Result, ok}
use dafs.Store.Statements.{ids, is_live, may_store, put_file, insert_file, select_entry}
use dafs.Store.Paths.{new_row, revived, upsert_as, upsert_entry}
use dafs.Store.WellFormed.{IsWellDb, IsWell, IsLinked}
use dafs.Store.Locations.{
  IsAlone, update_file_lem, may_store-true, put_file-IsWell, after_query, entry_after,
  select_entry-none, select_entry-some, select_entry-live,
}

-- A row written, and its id returned.
abbrev pub write_entry : ℕ × FileRow → Store → Result ℕ × Store
write_entry e s = (ok e.0, put_file e.0 e.1 s)

module _ ⦃sql : Sqlite⦄ (parent : Option ℕ) (component : ℕ) (is_dir : Bool) (size mtime : Option ℕ)
    (s : Store) (w : IsWell s)
    (linked : IsLinked s.db (new_row parent component is_dir size mtime)) where
  abbrev target : FileRow
  target = new_row parent component is_dir size mtime

  abbrev Outcome : Option (ℕ × FileRow) → Type 0
  Outcome found =
      let (id, row) = after_query found target s.db in
      (upsert_as found target s ≡ (ok id, put_file id row s)) × IsWell (put_file id row s)

  upsert_as-Outcome :
      (found : Option (ℕ × FileRow)) → select_entry parent component s.db ≡ found → Outcome found
  unfolding upsert_as insert_file
  upsert_as-Outcome none e =
      let id = sql.rowid (ids s.db.files) in
      let alone : IsAlone id target s.db =
        λ j q h l p c. absurd (select_entry-none parent component s.db w.tables j q e h p c) in
      (
        rw (may_store-true id target s w linked (λ _. alone) refl) refl,
        put_file-IsWell id target s w linked (λ _. alone),
      )
  upsert_as-Outcome (some (id, r)) e =
      let row = revived size mtime r in
      let (found, at_parent, at_name) = select_entry-some parent component s.db w.tables id r e in
      let linked' : IsLinked s.db row = w.linked id r found in
      let alone : IsAlone id row s.db = λ j q h l p c.
        select_entry-live parent component s.db w.tables id j r q e h l (p ∙ at_parent)
          (c ∙ at_name) in
      (
        rw
            (update_file_lem id (revived size mtime) r s found
              (may_store-true id row s w linked' (λ _. alone) refl))
            refl,
        put_file-IsWell id row s w linked' (λ _. alone),
      )

  -- On a well-formed store, with a parent and a component that exist, `upsert_entry` breaks no
  -- constraint: it writes the one row of `entry_after`, and the store stays well-formed.
  pub upsert_entry_lem :
      (upsert_entry parent component is_dir size mtime s
        ≡ write_entry (entry_after parent component is_dir size mtime s.db) s)
      × IsWell (write_entry (entry_after parent component is_dir size mtime s.db) s).1
  unfolding upsert_entry
  upsert_entry_lem = upsert_as-Outcome (select_entry parent component s.db) refl

  abbrev pub Described : ℕ × FileRow → Type 0
  Described e =
      (e.1.parent_id ≡ parent)
      × (e.1.component_id ≡ component)
      × (e.1.size_bytes ≡ size)
      × (e.1.mtime_unix ≡ mtime)
      × (e.1.deleted_at ≡ none)

  entry_after-Described_at :
      (found : Option (ℕ × FileRow))
      → select_entry parent component s.db ≡ found
      → Described (after_query found target s.db)
  entry_after-Described_at none e = (refl, refl, refl, refl, refl)
  entry_after-Described_at (some (id, r)) e =
      let (_, p, c) = select_entry-some parent component s.db w.tables id r e in
      (p, c, refl, refl, refl)

  -- The row is live, at the location, with the size and time that were given.
  pub entry_after-Described : Described (entry_after parent component is_dir size mtime s.db)
  entry_after-Described = entry_after-Described_at (select_entry parent component s.db) refl

pub insert-same :
    {R : Type 0} (id : ℕ) (r : R) (t : Table R) → get id t ≡ some r → insert id r t ≡ t
insert-same id r [] h = cc
insert-same id r ((j, v) ∷ t) h = elim (Bool-cases (j == id)) [
  | inl e ↦ ground (arith, nat_eqb_iff j id)
  | inr e ↦ rw e (ap (◌∷◌ (j, v)) (insert-same id r t (ground arith)))
]

pub is_live_of : (r : FileRow) → r.deleted_at ≡ none → is_live r ≡ true
is_live_of r e = ground arith

pub get-put_file : (id : ℕ) (r : FileRow) (s : Store) → get id (put_file id r s).db.files ≡ some r
get-put_file id r s = get-insert id id r s.db.files ∙ ground (arith, nat_eqb_iff id id)

module _ ⦃sql : Sqlite⦄ where
  -- A row that is live is the one that `upsert_entry` finds at its location.
  pub select_entry-row :
      (id : ℕ) (r : FileRow) (db : Db)
      → IsWellDb db
      → get id db.files ≡ some r
      → is_live r ≡ true
      → select_entry r.parent_id r.component_id db ≡ some (id, r)
  select_entry-row id r db w h l =
      elim (Option-cases (select_entry r.parent_id r.component_id db)) [
        | inl e ↦ absurd (select_entry-none r.parent_id r.component_id db w id r e h refl refl)
        | inr ((j, q), e) ↦
            let same = select_entry-live r.parent_id r.component_id db w j id q r e h l refl refl in
            let (found, _, _) = select_entry-some r.parent_id r.component_id db w j q e in
            e ∙ ground arith
      ]

  pub upsert_entry-found :
      (parent : Option ℕ) (component : ℕ) (is_dir : Bool) (size mtime : Option ℕ) (s : Store)
      (id : ℕ) (r : FileRow)
      → select_entry parent component s.db ≡ some (id, r)
      → get id s.db.files ≡ some r
      → may_store id (revived size mtime r) s.db ≡ true
      → upsert_entry parent component is_dir size mtime s
        ≡ (ok id, put_file id (revived size mtime r) s)
  unfolding upsert_entry upsert_as
  upsert_entry-found parent component is_dir size mtime s id r query found may =
      rw (query, upsert_as) (rw (update_file_lem id (revived size mtime) r s found may) refl)

  -- The same upsert once more returns the same id and changes nothing.
  pub upsert_entry-again :
      (parent : Option ℕ) (component : ℕ) (is_dir : Bool) (size mtime : Option ℕ) (s : Store)
      → IsWell s
      → IsLinked s.db (new_row parent component is_dir size mtime)
      → upsert_entry parent component is_dir size mtime
          (upsert_entry parent component is_dir size mtime s).1
        ≡ upsert_entry parent component is_dir size mtime s
  upsert_entry-again parent component is_dir size mtime s w linked =
      let (out, w') = upsert_entry_lem parent component is_dir size mtime s w linked in
      let (p, c, z, t, l) = entry_after-Described parent component is_dir size mtime s w linked in
      let id = (entry_after parent component is_dir size mtime s.db).0 in
      let row = (entry_after parent component is_dir size mtime s.db).1 in
      let s' = put_file id row s in
      let here = get-put_file id row s in
      let live = is_live_of row l in
      let query : select_entry parent component s'.db ≡ some (id, row) =
        subst₂ (λ a b. select_entry a b s'.db ≡ some (id, row)) p c
          (select_entry-row id row s'.db w'.tables here live) in
      let same : revived size mtime row ≡ row = ground arith in
      let alone : IsAlone id row s'.db =
        λ j q h lq pq cq. w'.live_once j id q row h here lq live pq cq in
      let may : may_store id (revived size mtime row) s'.db ≡ true =
        rw same (may_store-true id row s' w' (w'.linked id row here) (λ _. alone) live) in
      rw out (
        upsert_entry-found parent component is_dir size mtime s' id row query here may
        ∙ rw same (
            ap (λ t. (ok id, record s' { db = record s'.db { files = t } }))
              (insert-same id row s'.db.files here)))

  -- Where a location has an entry, live or a tombstone, `upsert_entry` revives that row and leaves its
  -- `is_dir` as it was, whatever it was asked to record: a directory that takes the place of a file
  -- stays a file in the tables, and a file in the place of a directory a directory.
  pub upsert_entry-stale_is_dir :
      (parent : Option ℕ) (component : ℕ) (is_dir : Bool) (size mtime : Option ℕ) (s : Store)
      (id : ℕ) (r : FileRow)
      → IsWell s
      → IsLinked s.db (new_row parent component is_dir size mtime)
      → select_entry parent component s.db ≡ some (id, r)
      → (q : FileRow) × (get id (upsert_entry parent component is_dir size mtime s).1.db.files
          ≡ some q)
        × (q.deleted_at ≡ none)
        × (q.is_dir ≡ r.is_dir)
  upsert_entry-stale_is_dir parent component is_dir size mtime s id r w linked query =
      let (out, w') = upsert_entry_lem parent component is_dir size mtime s w linked in
      (
        revived size mtime r,
        rw out (
            subst
              (λ (e : ℕ × FileRow).
                get id (put_file e.0 e.1 s).db.files ≡ some (revived size mtime r))
              (sym
                (ap (λ o. after_query o (new_row parent component is_dir size mtime) s.db) query))
              (get-put_file id (revived size mtime r) s)),
        refl,
        refl,
      )
