-- ===== src/Store/WellFormed.antt =====
-- What the schema promises of the tables, and the cache of the tables.
use dafs.Prelude.{ℕ, ◌≤◌, String, ◌≡◌, true, some, length}
use dafs.Prelude.{eq_string, eq_nat}
use dafs.HashMap.{get, Distinct}
use dafs.Store.Tables.{ComponentRow, FileRow, EventRow, Db}
use dafs.Store.Exec.{Store}
use dafs.Store.Statements.{has_row, is_live}
use dafs.Store.Paths.{cache_capacity}

-- The references of a row.
abbrev pub IsLinked : Db → FileRow → Type 0
IsLinked db r =
    (has_row r.parent_id db.files ≡ true)
    × (has_row (some r.component_id) db.path_components ≡ true)

abbrev pub IsLogged : Db → EventRow → Type 0
IsLogged db e =
    (has_row (some e.file_id) db.files ≡ true)
    × (has_row e.prev_parent_id db.files ≡ true)
    × (has_row e.prev_component_id db.path_components ≡ true)

pub record IsWellDb (db : Db) : Type 0 where
  pub components_once : Distinct db.path_components
  pub files_once : Distinct db.files
  pub names_once :
      (i j : ℕ) (a b : ComponentRow)
      → get i db.path_components ≡ some a
      → get j db.path_components ≡ some b
      → a.name ≡ b.name
      → i ≡ j
  pub linked : (i : ℕ) (r : FileRow) → get i db.files ≡ some r → IsLinked db r
  -- One live row for each name in a directory, and for each name of a root too.
  pub live_once :
      (i j : ℕ) (r q : FileRow)
      → get i db.files ≡ some r
      → get j db.files ≡ some q
      → is_live r ≡ true
      → is_live q ≡ true
      → r.parent_id ≡ q.parent_id
      → r.component_id ≡ q.component_id
      → i ≡ j
  pub logged : (i : ℕ) (e : EventRow) → get i db.events ≡ some e → IsLogged db e

pub record IsWell (s : Store) : Type 0 where
  pub tables : IsWellDb s.db
  pub open tables use *
  pub cached_right :
      (name : String) (id : ℕ)
      → get name s.cache ≡ some id
      → get id s.db.path_components ≡ some (record { name = name })
  pub bounded : length s.cache ≤ cache_capacity
