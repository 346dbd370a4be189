-- ===== src/Store/Paths.antt =====
-- crates/dafs-store/src/paths.rs: interning of names, the rows of directories, and the way back
-- from a row to its path.
use Prim.Native.String.{◌++◌ as ◌+str◌}
use mathlib.Core.List.{reverse, tail}
use dafs.Prelude.{
  ℕ, zero, suc, String, Bool, true, Option, none, some, List, [], ◌∷◌, length, leb, if◌then◌else◌,
  eq_nat, eq_string,
}
use dafs.HashMap.{HashMap, get, insert}
use dafs.FilePath.{normal, parent_dir, FilePath}
use dafs.Store.Tables.{FileRow, Db, Sqlite}
use dafs.Store.Exec.{Exec, ok, empty_path, pure, fail, ◌>>=◌, ◌>>◌}
use dafs.Store.Statements.{
  component_id_of, insert_component, insert_file, update_file, select_entry,
}

abbrev pub cache_capacity : ℕ
cache_capacity = 16384

-- `insert` into the cache, which is cleared first where it is full.
abbrev pub remember : String → ℕ → HashMap String ℕ → HashMap String ℕ
remember name id cache = insert name id (if leb cache_capacity (length cache) then [] else cache)

unfoldable pub cached : String → ℕ → Exec ℕ
cached name id s = (ok id, record s { cache = remember name id s.cache })

-- The row of `upsert_entry`'s INSERT.
abbrev pub new_row : Option ℕ → ℕ → Bool → Option ℕ → Option ℕ → FileRow
new_row parent component is_dir size mtime = record {
  parent_id = parent;
  component_id = component;
  is_dir = is_dir;
  size_bytes = size;
  mtime_unix = mtime;
  deleted_at = none;
}

-- Its UPDATE leaves `is_dir` as it is.
abbrev pub revived : Option ℕ → Option ℕ → FileRow → FileRow
revived size mtime r = record r { size_bytes = size; mtime_unix = mtime; deleted_at = none }

module _ ⦃sql : Sqlite⦄ where
  unfoldable pub lookup_or_insert : String → Exec ℕ
  unfolding insert_component component_id_of
  lookup_or_insert name s = elim (component_id_of name s.db.path_components) [
    | some id ↦ (ok id, s)
    | none ↦ insert_component name s
  ]

  unfoldable pub intern_dir : String → Exec ℕ
  unfolding lookup_or_insert cached
  intern_dir name s = elim (get name s.cache) [
    | some id ↦ (ok id, s)
    | none ↦ (do id ← lookup_or_insert name; cached name id) s
  ]

  unfoldable pub intern_leaf : String → Exec ℕ
  unfolding lookup_or_insert
  intern_leaf name s = elim (get name s.cache) [
    | some id ↦ (ok id, s)
    | none ↦ lookup_or_insert name s
  ]

  -- `upsert_entry` after its query.
  unfoldable pub upsert_as : Option (ℕ × FileRow) → FileRow → Exec ℕ
  unfolding insert_file update_file
  upsert_as (some (id, _)) row = do update_file id (revived row.size_bytes row.mtime_unix); pure id
  upsert_as none row = insert_file row

  unfoldable pub upsert_entry : Option ℕ → ℕ → Bool → Option ℕ → Option ℕ → Exec ℕ
  unfolding select_entry upsert_as
  upsert_entry parent component is_dir size mtime s =
      upsert_as (select_entry parent component s.db) (new_row parent component is_dir size mtime) s

-- `normalised_components`; the last pushed component is the head of `out`.
unfoldable pub normalise : List String → FilePath → List String
normalise out [] = reverse out
normalise out (normal part ∷ path) = normalise (part ∷ out) path
normalise out (parent_dir ∷ path) = normalise (tail out) path
normalise out (_ ∷ path) = normalise out path

unfoldable pub normalised_components : FilePath → List String
unfolding normalise
normalised_components = normalise []

module _ ⦃sql : Sqlite⦄ where
  -- The loop of `ensure_dir_chain`.
  unfoldable pub dir_chain : Option ℕ → List String → Exec (Option ℕ)
  unfolding intern_dir upsert_entry
  dir_chain parent [] = pure parent
  dir_chain parent (component ∷ rest) = do
    component_id ← intern_dir component
    id ← upsert_entry parent component_id true none none
    dir_chain (some id) rest

  abbrev pub or_empty_path : Option ℕ → Exec ℕ
  or_empty_path none = fail empty_path
  or_empty_path (some id) = pure id

  unfoldable pub ensure_dir_chain : FilePath → Exec ℕ
  unfolding dir_chain normalised_components
  ensure_dir_chain dir = do last ← dir_chain none (normalised_components dir); or_empty_path last

abbrev pub max_depth : ℕ
max_depth = 256

-- `/` and the component, for each component from the root.
unfoldable pub render : List String → String
render [] = ""
render (c ∷ cs) = "/" +str (c +str render cs)

abbrev pub render_root : List String → String
render_root [] = "/"
render_root (c ∷ cs) = render (c ∷ cs)

-- The row of the join of `files` and `path_components`.
abbrev pub path_row : ℕ → Db → Option (String × Option ℕ)
path_row id db = elim (get id db.files) [
  | none ↦ none
  | some r ↦ elim (get r.component_id db.path_components) [
    | none ↦ none
    | some c ↦ some (c.name, r.parent_id)
  ]
]

-- The loop of `resolve_path`, with the rounds that are left; the last pushed component is the head.
unfoldable pub walk : ℕ → Db → Option ℕ → List String → String
unfolding render
walk zero db current components = render components
walk (suc rounds) db none components = render_root components
walk (suc rounds) db (some id) components = elim (path_row id db) [
  | none ↦ render components
  | some (name, parent) ↦ walk rounds db parent (name ∷ components)
]

unfoldable pub resolve_path : Db → ℕ → String
unfolding walk
resolve_path db file_id = walk max_depth db (some file_id) []
