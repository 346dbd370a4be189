-- ===== src/Store/Statements.antt =====
-- The SQL statements of crates/dafs-store/src/paths.rs, events.rs and crates/dafs-scan/src/lib.rs,
-- with the constraints of the schema that they are checked against: foreign keys, the unique names
-- and the partial unique index `files_live_entry`. A unique index holds two NULLs to be distinct.
use dafs.Prelude.{
  ℕ, String, Bool, true, false, ◌&&◌, not, Option, none, some, List, [], ◌∷◌, any, keep, map,
  if◌then◌else◌, ◌==◌, eq_nat, eq_string,
}
use dafs.HashMap.{get, insert}
use dafs.Store.Tables.{Table, ComponentRow, FileRow, EventRow, Db, Sqlite}
use dafs.Store.Exec.{Store, Exec, ok, err, constraint}

abbrev pub ids : {R : Type 0} → Table R → List ℕ
ids = map (λ e. e.0)

abbrev pub has_row : {R : Type 0} → Option ℕ → Table R → Bool
has_row none t = true
has_row (some id) t = any (λ j. j == id) (ids t)

-- `SELECT id FROM path_components WHERE name = ?1`
unfoldable pub component_id_of : String → Table ComponentRow → Option ℕ
component_id_of name [] = none
component_id_of name ((id, r) ∷ t) = if r.name == name then some id else component_id_of name t

abbrev pub is_live : FileRow → Bool
is_live r = elim r.deleted_at [ none ↦ true | some _ ↦ false ]

abbrev pub opt_eqb : Option ℕ → Option ℕ → Bool
opt_eqb none none = true
opt_eqb (some a) (some b) = a == b
opt_eqb _ _ = false

-- `parent_id IS ?1 AND component_id = ?2`
abbrev pub is_at : Option ℕ → ℕ → FileRow → Bool
is_at parent component r = opt_eqb r.parent_id parent && (r.component_id == component)

-- `files_live_entry` against a live row `r` with this id; a NULL parent never clashes.
abbrev pub clashes : ℕ → FileRow → Table FileRow → Bool
clashes id r t = elim r.parent_id [
  | none ↦ false
  | some p ↦
      is_live r
      && any (λ e. not (e.0 == id) && (is_live e.1 && is_at (some p) r.component_id e.1)) t
]

abbrev pub may_store : ℕ → FileRow → Db → Bool
may_store id r db =
    has_row r.parent_id db.files
    && (has_row (some r.component_id) db.path_components && not (clashes id r db.files))

abbrev pub put_file : ℕ → FileRow → Store → Store
put_file id r s = record s { db = record s.db { files = insert id r s.db.files } }

-- `UPDATE files SET … WHERE id = ?1`
unfoldable pub update_file : ℕ → (FileRow → FileRow) → Exec (Unit {0})
update_file id f s = elim (get id s.db.files) [
  | none ↦ (ok tt, s)
  | some r ↦ if may_store id (f r) s.db then (ok tt, put_file id (f r) s) else (err constraint, s)
]

-- `ORDER BY deleted_at IS NULL DESC, deleted_at DESC`
abbrev pub live_then_latest : FileRow → ℕ × ℕ
live_then_latest r = elim r.deleted_at [ none ↦ (1, 0) | some t ↦ (0, t) ]

abbrev pub entries_at : Option ℕ → ℕ → Table FileRow → List (ℕ × FileRow)
entries_at parent component = keep (λ e. is_at parent component e.1)

abbrev pub live_at : Option ℕ → ℕ → Table FileRow → List (ℕ × FileRow)
live_at parent component = keep (λ e. is_at parent component e.1 && is_live e.1)

module _ ⦃sql : Sqlite⦄ where
  -- `INSERT INTO path_components (name) VALUES (?1)`
  unfoldable pub insert_component : String → Exec ℕ
  insert_component name s =
      let id = sql.rowid (ids s.db.path_components) in
      if any (λ e. e.1.name == name) s.db.path_components then (err constraint, s) else (
        ok id,
        record s {
          db = record s.db {
            path_components = insert id (record { name = name }) s.db.path_components;
          };
        },
      )

  -- `INSERT INTO files …`
  unfoldable pub insert_file : FileRow → Exec ℕ
  insert_file r s =
      let id = sql.rowid (ids s.db.files) in
      if may_store id r s.db then (ok id, put_file id r s) else (err constraint, s)

  -- `SELECT id FROM files WHERE parent_id IS ?1 AND component_id = ?2 ORDER BY … LIMIT 1`
  unfoldable pub select_entry : Option ℕ → ℕ → Db → Option (ℕ × FileRow)
  select_entry parent component db =
      sql.first live_then_latest (entries_at parent component db.files)

  -- `… WHERE parent_id IS ?1 AND component_id = ?2 AND deleted_at IS NULL`, of which `query_row`
  -- takes one row.
  unfoldable pub select_live : Option ℕ → ℕ → Db → Option (ℕ × FileRow)
  select_live parent component db = sql.first (λ _. (0, 0)) (live_at parent component db.files)

  -- `INSERT INTO events …`
  unfoldable pub insert_event : EventRow → Exec ℕ
  insert_event e s =
      let id = sql.rowid (ids s.db.events) in
      if has_row (some e.file_id) s.db.files
        && (has_row e.prev_parent_id s.db.files && has_row e.prev_component_id s.db.path_components)
      then (ok id, record s { db = record s.db { events = insert id e s.db.events } })
      else (err constraint, s)
