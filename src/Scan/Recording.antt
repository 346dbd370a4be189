-- ===== src/Scan/Recording.antt =====
-- What one entry or one change writes.
use dafs.Prelude.{
  ℕ, String, Bool, true, false, ◌&&◌, Option, none, some, List, if◌then◌else◌, eq_nat, eq_string,
}
use dafs.FilePath.{FilePath, PathBuf, file_name}
use dafs.Store.Tables.{FileRow, EventRow, EventKind, created, modified, deleted, Sqlite}
use dafs.Store.Exec.{Exec, ok, pure, fail, walk, ◌>>=◌, ◌>>◌}
use dafs.Store.Statements.{opt_eqb, component_id_of, select_live, update_file, insert_event}
use dafs.Store.Paths.{intern_dir, intern_leaf, upsert_entry, ensure_dir_chain}
use dafs.Scan.Lookup.{owning_root, relative_to, place, lookup_parent}

-- What the source reads of `std::fs::Metadata`: `mtime` in seconds, where there is one after the epoch.
pub record Metadata : Type 0 where
  pub is_dir : Bool
  pub len : ℕ
  pub mtime : Option ℕ

pub data Stat : Type 0 where
  found : Metadata → Stat
  not_found unreadable : Stat

-- The file system and the clock as one call sees them.
pub record World : Type 0 where
  pub lstat : FilePath → Stat
  pub now : ℕ

abbrev pub size_of : Metadata → Option ℕ
size_of m = if m.is_dir then none else some m.len

-- `NewEvent::now(…)`; `NewEvent` has the columns of a row.
abbrev pub event_now : ℕ → EventKind → Option ℕ → ℕ → EventRow
event_now file_id kind size now = record {
  file_id = file_id;
  kind = kind;
  at_unix_ms = now;
  size_bytes = size;
  prev_parent_id = none;
  prev_component_id = none;
}

-- The `match previous` of `record_entry` and `record_path`; `none` is an unchanged file.
abbrev pub kind_of : Option (ℕ × FileRow) → Option ℕ → Option ℕ → Option EventKind
kind_of none size mtime = some created
kind_of (some (_, prev)) size mtime =
    if opt_eqb prev.size_bytes size && opt_eqb prev.mtime_unix mtime then none else some modified

abbrev pub event_of : Option EventKind → ℕ → Option ℕ → ℕ → Option EventRow
event_of none file_id size now = none
event_of (some kind) file_id size now = some (event_now file_id kind size now)

module _ ⦃sql : Sqlite⦄ where
  abbrev pub intern : Bool → String → Exec ℕ
  intern true name = intern_dir name
  intern false name = intern_leaf name

  -- `existing_entry`
  abbrev pub existing_entry : ℕ → ℕ → Exec (Option (ℕ × FileRow))
  existing_entry parent_id component_id s = (ok (select_live (some parent_id) component_id s.db), s)

  -- From the name of an entry to its event, as `record_entry` and `record_path` both do it.
  unfoldable pub observe : ℕ → String → Metadata → ℕ → Exec (Option EventRow)
  observe parent_id name m now = do
    component_id ← intern m.is_dir name
    previous ← existing_entry parent_id component_id
    file_id ← upsert_entry (some parent_id) component_id m.is_dir (size_of m) m.mtime
    pure (
        if m.is_dir
        then none
        else event_of (kind_of previous (size_of m) m.mtime) file_id (size_of m) now)

  abbrev pub record_metadata :
      FilePath → ℕ → FilePath → String → ℕ → Option Metadata → Exec (Option EventRow)
  record_metadata root root_id path name now none = fail walk
  record_metadata root root_id path name now (some m) = do
    parent_id ← place root_id (relative_to root path)
    observe parent_id name m now

-- An entry of the walk.
pub record Entry : Type 0 where
  pub path : FilePath
  pub depth : ℕ
  pub name : String
  pub is_dir : Bool
  pub metadata : Option Metadata

module _ ⦃sql : Sqlite⦄ where
  unfoldable pub record_entry : FilePath → ℕ → ℕ → Entry → Exec (Option EventRow)
  unfolding observe place relative_to
  record_entry root root_id now e = record_metadata root root_id e.path e.name now e.metadata

  abbrev pub tombstone : ℕ → FileRow → FileRow
  tombstone now r = record r { deleted_at = some now }

  -- Tombstone a row, and log it.
  unfoldable pub mark_deleted : ℕ → ℕ → Exec (Unit {0})
  unfolding update_file insert_event
  mark_deleted now id = do
    update_file id (tombstone now)
    insert_event (event_now id deleted none now)
    pure tt

  abbrev pub remove_live : ℕ → Option (ℕ × FileRow) → Exec (Unit {0})
  remove_live now none = pure tt
  remove_live now (some (id, _)) = mark_deleted now id

  abbrev pub remove_under : ℕ → ℕ → Option ℕ → Exec (Unit {0})
  remove_under now component_id none = pure tt
  remove_under now component_id (some parent_id) =
      λ s. remove_live now (select_live (some parent_id) component_id s.db) s

  abbrev pub remove_named : ℕ → FilePath → FilePath → Option ℕ → Exec (Unit {0})
  remove_named now root path none = pure tt
  remove_named now root path (some component_id) = do
    parent_id ← lookup_parent root (relative_to root path)
    remove_under now component_id parent_id

  abbrev pub remove_below : ℕ → FilePath → Option FilePath → Option String → Exec (Unit {0})
  remove_below now path none name = pure tt
  remove_below now path (some root) none = pure tt
  remove_below now path (some root) (some name) =
      λ s. remove_named now root path (component_id_of name s.db.path_components) s

  unfoldable pub record_removal : List PathBuf → World → FilePath → Exec (Unit {0})
  unfolding mark_deleted
  record_removal roots world path =
      remove_below world.now path (owning_root roots path) (file_name path)

  abbrev pub report : Option EventRow → Exec (Option ℕ)
  report none = pure none
  report (some e) = do insert_event e; pure (some e.file_id)

  abbrev pub record_named : ℕ → Metadata → ℕ → Option String → Exec (Option ℕ)
  record_named now m parent_id none = pure none
  record_named now m parent_id (some name) = do e ← observe parent_id name m now; report e

  abbrev pub record_stat : List PathBuf → World → FilePath → FilePath → Stat → Exec (Option ℕ)
  record_stat roots world root path not_found = do record_removal roots world path; pure none
  record_stat roots world root path unreadable = pure none
  record_stat roots world root path (found m) = do
    root_id ← ensure_dir_chain root
    parent_id ← place root_id (relative_to root path)
    record_named world.now m parent_id (file_name path)

  abbrev pub record_below : List PathBuf → World → FilePath → Option FilePath → Exec (Option ℕ)
  record_below roots world path none = pure none
  record_below roots world path (some root) = record_stat roots world root path (world.lstat path)

  unfoldable pub record_path : List PathBuf → World → FilePath → Exec (Option ℕ)
  unfolding record_removal observe
  record_path roots world path = record_below roots world path (owning_root roots path)
