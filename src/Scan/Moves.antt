-- ===== src/Scan/Moves.antt =====
-- The log after the calls of the live watch.
use dafs.Prelude.{
  ℕ, String, ◌≡◌, refl, Option, none, some, List, if◌then◌else◌, if_both, ◌==◌, eq_nat, eq_string,
}
use dafs.FilePath.{FilePath, PathBuf, file_name}
use dafs.Store.Tables.{Sqlite}
use dafs.Store.Exec.{Store, Exec, ok}
use dafs.Store.Statements.{component_id_of, update_file, insert_event}
use dafs.Store.Paths.{ensure_dir_chain}
use dafs.Scan.Lookup.{
  owning_root, relative_to, place, lookup_parent, lookup_file, lookup_named, lookup_below, row_at,
}
use dafs.Scan.Recording.{World, intern, record_removal, record_path}
use dafs.Scan.Renaming.{
  displace, reparented, moved_event, stat_is_dir, stat_len, move_row, move_named, rename_from,
  rename_below, record_rename,
}
use dafs.Scan.Quiet.{
  Quiet, bind-Quiet, pure-Quiet, ensure_dir_chain-Quiet, place-Quiet, update_file-Quiet,
}
use dafs.Scan.Recorded.{intern-Quiet}
use dafs.Scan.Changes.{
  IsComplete, Keeps, Quiet-Keeps, bind-Keeps, pure-Keeps, insert_event-Keeps, mark_deleted-Keeps,
  lookup_parent-Quiet, record_removal-Keeps, record_path-Keeps,
}

module _ ⦃sql : Sqlite⦄ where
  row_at-Quiet : (o : Option ℕ) (component_id : ℕ) → Quiet (row_at o component_id)
  row_at-Quiet none component_id = λ s. record { log = refl; old = λ i f. f }
  row_at-Quiet (some p) component_id = λ s. record { log = refl; old = λ i f. f }

  lookup_named-Quiet : (root path : FilePath) (o : Option ℕ) → Quiet (lookup_named root path o)
  lookup_named-Quiet root path none = pure-Quiet {A = Option (ℕ × ℕ × ℕ)} none
  lookup_named-Quiet root path (some c) =
      bind-Quiet (lookup_parent root (relative_to root path)) _
        (lookup_parent-Quiet root (relative_to root path)) λ p. row_at-Quiet p c

  lookup_below-Quiet :
      (path : FilePath) (root : Option FilePath) (name : Option String)
      → Quiet (lookup_below path root name)
  lookup_below-Quiet path none name = pure-Quiet {A = Option (ℕ × ℕ × ℕ)} none
  lookup_below-Quiet path (some root) none = pure-Quiet {A = Option (ℕ × ℕ × ℕ)} none
  lookup_below-Quiet path (some root) (some name) =
      λ s. lookup_named-Quiet root path (component_id_of name s.db.path_components) s

  lookup_file-Quiet : (roots : List PathBuf) (path : FilePath) → Quiet (lookup_file roots path)
  unfolding lookup_file
  lookup_file-Quiet roots path = lookup_below-Quiet path (owning_root roots path) (file_name path)

  displace-Keeps :
      (now file_id : ℕ) (there : Option (ℕ × ℕ × ℕ)) → Keeps (displace now file_id there)
  displace-Keeps now file_id none = pure-Keeps tt
  displace-Keeps now file_id (some (displaced, _, _)) =
      if_both (λ (m : Exec (Unit {0})). Keeps m) (displaced == file_id) (pure-Keeps tt)
        (mark_deleted-Keeps now displaced)

  move_row-Keeps :
      (roots : List PathBuf) (world : World) (to : FilePath) (source : ℕ × ℕ × ℕ) (parent_id : ℕ)
      (name : String)
      → Keeps (move_row roots world to source parent_id name)
  unfolding move_row
  move_row-Keeps roots world to (file_id, old_parent, old_component) parent_id name =
      let stat = world.lstat to in
      let m = intern (stat_is_dir stat) name in
      bind-Keeps m _ (Quiet-Keeps m (intern-Quiet (stat_is_dir stat) name)) λ c.
        bind-Keeps (lookup_file roots to) _
          (Quiet-Keeps (lookup_file roots to) (lookup_file-Quiet roots to))
          λ there.
            bind-Keeps (displace world.now file_id there) _ (displace-Keeps world.now file_id there)
              λ _.
                let f = reparented parent_id c in
                bind-Keeps (update_file file_id f) _
                  (Quiet-Keeps (update_file file_id f) (update_file-Quiet file_id f (λ r. refl)))
                  λ _.
                    let e =
                      moved_event file_id old_parent old_component (stat_len stat) world.now in
                    bind-Keeps (insert_event e) _ (insert_event-Keeps e)
                      λ _. pure-Keeps (if stat_is_dir stat then none else some file_id)

  move_named-Keeps :
      (roots : List PathBuf) (world : World) (to : FilePath) (source : ℕ × ℕ × ℕ) (parent_id : ℕ)
      (o : Option String)
      → Keeps (move_named roots world to source parent_id o)
  move_named-Keeps roots world to source parent_id none = pure-Keeps none
  move_named-Keeps roots world to source parent_id (some name) =
      move_row-Keeps roots world to source parent_id name

  rename_from-Keeps :
      (roots : List PathBuf) (world : World) (to to_root : FilePath) (o : Option (ℕ × ℕ × ℕ))
      → Keeps (rename_from roots world to to_root o)
  rename_from-Keeps roots world to to_root none = record_path-Keeps roots world to
  rename_from-Keeps roots world to to_root (some source) =
      bind-Keeps (ensure_dir_chain to_root) _
        (Quiet-Keeps (ensure_dir_chain to_root) (ensure_dir_chain-Quiet to_root))
        λ root_id.
          let at = place root_id (relative_to to_root to) in
          bind-Keeps at _ (Quiet-Keeps at (place-Quiet root_id (relative_to to_root to)))
            λ parent_id. move_named-Keeps roots world to source parent_id (file_name to)

  rename_below-Keeps :
      (roots : List PathBuf) (world : World) (from to : FilePath) (o : Option FilePath)
      → Keeps (rename_below roots world from to o)
  rename_below-Keeps roots world from to none =
      bind-Keeps (record_removal roots world from) _ (record_removal-Keeps roots world from)
        λ _. pure-Keeps none
  rename_below-Keeps roots world from to (some to_root) =
      bind-Keeps (lookup_file roots from) _
        (Quiet-Keeps (lookup_file roots from) (lookup_file-Quiet roots from))
        (rename_from-Keeps roots world to to_root)

  record_rename-Keeps :
      (roots : List PathBuf) (world : World) (from to : FilePath)
      → Keeps (record_rename roots world from to)
  unfolding record_rename
  record_rename-Keeps roots world from to =
      rename_below-Keeps roots world from to (owning_root roots to)

module _ ⦃sql : Sqlite⦄ (roots : List PathBuf) (world : World) (path : FilePath) (s : Store)
    (l : IsComplete s) where
  -- Where each row of a file has an event and `record_path` succeeds, each has one afterwards, whatever
  -- the path, the roots and the file system.
  pub record_path-IsComplete :
      (a : Option ℕ)
      → (record_path roots world path s).0 ≡ ok a
      → IsComplete (record_path roots world path s).1
  record_path-IsComplete a h = record_path-Keeps roots world path s l a h

  -- Where each row of a file has an event and `record_removal` succeeds, each has one afterwards.
  pub record_removal-IsComplete :
      (record_removal roots world path s).0 ≡ ok tt
      → IsComplete (record_removal roots world path s).1
  record_removal-IsComplete h = record_removal-Keeps roots world path s l tt h

  -- Where each row of a file has an event and `record_rename` succeeds, each has one afterwards, whether
  -- the source was known or not, and whatever lay at the destination.
  pub record_rename-IsComplete :
      (to : FilePath) (a : Option ℕ)
      → (record_rename roots world path to s).0 ≡ ok a
      → IsComplete (record_rename roots world path to s).1
  record_rename-IsComplete to a h = record_rename-Keeps roots world path to s l a h
