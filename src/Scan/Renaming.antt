-- ===== src/Scan/Renaming.antt =====
-- `record_rename` of crates/dafs-scan/src/lib.rs.
use dafs.Prelude.{
  ℕ, String, Bool, false, Option, none, some, List, if◌then◌else◌, ◌==◌, eq_nat, eq_string,
}
use dafs.FilePath.{FilePath, PathBuf, file_name}
use dafs.Store.Tables.{FileRow, EventRow, renamed, Sqlite}
use dafs.Store.Exec.{Exec, pure, ◌>>=◌, ◌>>◌}
use dafs.Store.Statements.{update_file, insert_event}
use dafs.Store.Paths.{ensure_dir_chain}
use dafs.Scan.Lookup.{owning_root, relative_to, place, lookup_file}
use dafs.Scan.Recording.{Stat, found, World, intern, mark_deleted, record_removal, record_path}

-- `record_rename`, step by step: the source row of the move is `(file_id, old_parent, old_component)`.
module _ ⦃sql : Sqlite⦄ where
  -- Whatever lay at the destination is gone.
  abbrev pub displace : ℕ → ℕ → Option (ℕ × ℕ × ℕ) → Exec (Unit {0})
  displace now file_id none = pure tt
  displace now file_id (some (displaced, _, _)) =
      if displaced == file_id then pure tt else mark_deleted now displaced

  abbrev pub reparented : ℕ → ℕ → FileRow → FileRow
  reparented parent_id component_id r = record r {
    parent_id = some parent_id;
    component_id = component_id;
    deleted_at = none;
  }

  abbrev pub stat_is_dir : Stat → Bool
  stat_is_dir (found m) = m.is_dir
  stat_is_dir _ = false

  abbrev pub stat_len : Stat → Option ℕ
  stat_len (found m) = some m.len
  stat_len _ = none

  abbrev pub moved_event : ℕ → ℕ → ℕ → Option ℕ → ℕ → EventRow
  moved_event file_id old_parent old_component size now = record {
    file_id = file_id;
    kind = renamed;
    at_unix_ms = now;
    size_bytes = size;
    prev_parent_id = some old_parent;
    prev_component_id = some old_component;
  }

  -- From the new parent on.
  unfoldable pub move_row :
      List PathBuf → World → FilePath → ℕ × ℕ × ℕ → ℕ → String → Exec (Option ℕ)
  move_row roots world to (file_id, old_parent, old_component) parent_id name = do
    component_id ← intern (stat_is_dir (world.lstat to)) name
    there ← lookup_file roots to
    displace world.now file_id there
    update_file file_id (reparented parent_id component_id)
    insert_event
        (moved_event file_id old_parent old_component (stat_len (world.lstat to)) world.now)
    pure (if stat_is_dir (world.lstat to) then none else some file_id)

  abbrev pub move_named :
      List PathBuf → World → FilePath → ℕ × ℕ × ℕ → ℕ → Option String → Exec (Option ℕ)
  move_named roots world to source parent_id none = pure none
  move_named roots world to source parent_id (some name) =
      move_row roots world to source parent_id name

  abbrev pub rename_from :
      List PathBuf → World → FilePath → FilePath → Option (ℕ × ℕ × ℕ) → Exec (Option ℕ)
  rename_from roots world to to_root none = record_path roots world to
  rename_from roots world to to_root (some source) = do
    root_id ← ensure_dir_chain to_root
    parent_id ← place root_id (relative_to to_root to)
    move_named roots world to source parent_id (file_name to)

  abbrev pub rename_below :
      List PathBuf → World → FilePath → FilePath → Option FilePath → Exec (Option ℕ)
  rename_below roots world from to none = do record_removal roots world from; pure none
  rename_below roots world from to (some to_root) = do
    source ← lookup_file roots from
    rename_from roots world to to_root source

  unfoldable pub record_rename : List PathBuf → World → FilePath → FilePath → Exec (Option ℕ)
  unfolding record_path move_row
  record_rename roots world from to = rename_below roots world from to (owning_root roots to)
