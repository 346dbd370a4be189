-- ===== src/Store/Tables.antt =====
-- The tables of the migration `timeline` (crates/dafs-store/src/lib.rs) and what SQLite decides.
-- A table is keyed by its `INTEGER PRIMARY KEY`.
use dafs.Prelude.{
  ℕ, ◌≤◌, ◌<◌, String, ◌≡◌, ◌⊎◌, Bool, false, Option, none, some, List, [], In, All, any, ◌==◌,
  eq_nat,
}
use dafs.HashMap.{HashMap}

abbrev pub Table : Type 0 → Type 0
Table R = HashMap ℕ R

pub record ComponentRow : Type 0 where
  pub name : String

-- `content_hash` is never written.
pub record FileRow : Type 0 where
  pub parent_id : Option ℕ
  pub component_id : ℕ
  pub is_dir : Bool
  pub size_bytes : Option ℕ
  pub mtime_unix : Option ℕ
  pub deleted_at : Option ℕ

pub data EventKind : Type 0 where
  created modified deleted renamed : EventKind

pub record EventRow : Type 0 where
  pub file_id : ℕ
  pub kind : EventKind
  pub at_unix_ms : ℕ
  pub size_bytes : Option ℕ
  pub prev_parent_id : Option ℕ
  pub prev_component_id : Option ℕ

pub record Db : Type 0 where
  pub path_components : Table ComponentRow
  pub files : Table FileRow
  pub events : Table EventRow

abbrev pub empty_db : Db
empty_db = record { path_components = []; files = []; events = [] }

-- Larger first, by the first key and then by the second.
abbrev pub LexLe : ℕ × ℕ → ℕ × ℕ → Type 0
LexLe (a, b) (c, d) = (a < c) ⊎ ((a ≡ c) × (b ≤ d))

-- What the schema and the queries leave to SQLite: the rowid of a new row, which is new, and the row
-- that `ORDER BY … DESC, … DESC LIMIT 1` returns, of which only the order is known.
pub record Sqlite : Type 0 where
  pub rowid : List ℕ → ℕ
  pub rowid_fresh : (ids : List ℕ) → any (λ j. j == rowid ids) ids ≡ false
  pub first : (FileRow → ℕ × ℕ) → List (ℕ × FileRow) → Option (ℕ × FileRow)
  pub first_some :
      (key : FileRow → ℕ × ℕ) (rows : List (ℕ × FileRow)) (r : ℕ × FileRow)
      → first key rows ≡ some r
      → In r rows × All (λ (x : ℕ × FileRow). LexLe (key x.1) (key r.1)) rows
  pub first_none :
      (key : FileRow → ℕ × ℕ) (rows : List (ℕ × FileRow)) → first key rows ≡ none → rows ≡ []
