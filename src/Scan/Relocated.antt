-- ===== src/Scan/Relocated.antt =====
-- What `record_rename` of crates/dafs-scan/src/lib.rs leaves of a source that is known.
use dafs.Prelude.{◌≡◌, ℕ, some, eq_nat, eq_string}
use dafs.HashMap.{get}
use dafs.FilePath.{FilePath}
use dafs.Store.Tables.{FileRow, EventRow, Db, Sqlite}
use dafs.Store.Exec.{Store, Exec, ok, ◌>>=◌}
use dafs.Scan.Recording.{World}
use dafs.Scan.Renaming.{reparented, moved_event, stat_len}

-- A sequence that succeeds: its first call succeeded, and the rest ran on what that left.
module _ {A B : Type 0} where
  -- The result of the first call.
  abbrev Succeeds : Exec A → (A → Exec B) → Store → Type 0
  Succeeds m f s = (a : A) × (m s ≡ (ok a, (m s).1)) × ((m >>= f) s ≡ f a (m s).1)

module _ ⦃sql : Sqlite⦄ where
  -- The row of the file is rewritten, and the log has the event.
  abbrev pub Holds : ℕ → (FileRow → FileRow) → EventRow → Db → Db → Type 0
  Holds id f e before after =
      (r : FileRow) × (at : ℕ) × (get id before.files ≡ some r)
      × (get id after.files ≡ some (f r))
      × (get at after.events ≡ some e)

  -- The row of the source stands below `parent_id` with `component_id`, and is live; the log has a
  -- renamed event of it with its old place, and the size of what is there now.
  abbrev pub IsMoved : World → FilePath → ℕ × ℕ × ℕ → ℕ → ℕ → Db → Type 0
  IsMoved world to (id, old_parent, old_component) parent_id component_id after =
      (before : Db) × Holds id (reparented parent_id component_id)
        (moved_event id old_parent old_component (stat_len (world.lstat to)) world.now) before after
