-- ===== src/Scan/Lookup.antt =====
-- The watch root of a path, and the rows of a path that is known already.
use dafs.Prelude.{
  ℕ, String, true, Option, none, some, List, [], ◌∷◌, keep, leb, if◌then◌else◌, eq_nat, eq_string,
}
use dafs.FilePath.{FilePath, normal, PathBuf, starts_with, strip_prefix, parent, file_name}
use dafs.Store.Tables.{Sqlite}
use dafs.Store.Exec.{Store, Exec, ok, pure, ◌>>=◌}
use dafs.Store.Statements.{component_id_of, select_entry}
use dafs.Store.Paths.{intern_dir, upsert_entry, ensure_dir_chain}

-- `max_by_key`, which returns the last of the largest.
unfoldable pub longest : List PathBuf → Option PathBuf
longest [] = none
longest (r ∷ roots) = elim (longest roots) [
  | none ↦ some r
  | some q ↦ if leb r.os_len q.os_len then some q else some r
]

unfoldable pub owning_root : List PathBuf → FilePath → Option FilePath
unfolding longest
owning_root roots path = elim (longest (keep (λ r. starts_with path r.components) roots)) [
  | none ↦ none
  | some r ↦ some r.components
]

-- `path.strip_prefix(root).unwrap_or(path)`
unfoldable pub relative_to : FilePath → FilePath → FilePath
relative_to root path = elim (strip_prefix path root) [ none ↦ path | some rest ↦ rest ]

module _ ⦃sql : Sqlite⦄ where
  unfoldable pub ensure_relative_dirs : ℕ → FilePath → Exec ℕ
  unfolding intern_dir upsert_entry
  ensure_relative_dirs id [] = pure id
  ensure_relative_dirs id (normal part ∷ relative) = do
    component_id ← intern_dir part
    child ← upsert_entry (some id) component_id true none none
    ensure_relative_dirs child relative
  ensure_relative_dirs id (_ ∷ relative) = ensure_relative_dirs id relative

  -- The `match relative.parent()` of `record_entry`, `record_path` and `record_rename`.
  abbrev pub place_under : ℕ → Option FilePath → Exec ℕ
  place_under root_id none = pure root_id
  place_under root_id (some []) = pure root_id
  place_under root_id (some (c ∷ p)) = ensure_relative_dirs root_id (c ∷ p)

  unfoldable pub place : ℕ → FilePath → Exec ℕ
  unfolding ensure_relative_dirs parent
  place root_id relative = place_under root_id (parent relative)

  -- The loop of `lookup_parent`; nothing is created on the way.
  unfoldable pub descend : ℕ → FilePath → Store → Option ℕ
  unfolding component_id_of select_entry
  descend id [] s = some id
  descend id (normal part ∷ path) s = elim (component_id_of part s.db.path_components) [
    | none ↦ none
    | some component_id ↦ elim (select_entry (some id) component_id s.db) [
      | none ↦ none
      | some (child, _) ↦ descend child path s
    ]
  ]
  descend id (_ ∷ path) s = descend id path s

  abbrev pub descend_from : ℕ → Option FilePath → Exec (Option ℕ)
  descend_from id none s = (ok (some id), s)
  descend_from id (some p) s = (ok (descend id p s), s)

  unfoldable pub lookup_parent : FilePath → FilePath → Exec (Option ℕ)
  unfolding ensure_dir_chain descend parent
  lookup_parent root relative = do id ← ensure_dir_chain root; descend_from id (parent relative)

  -- The row at a place, with its parent and component.
  abbrev pub row_at : Option ℕ → ℕ → Exec (Option (ℕ × ℕ × ℕ))
  row_at none component_id s = (ok none, s)
  row_at (some parent_id) component_id s = (
    ok (elim (select_entry (some parent_id) component_id s.db) [
      | none ↦ none
      | some (id, _) ↦ some (id, parent_id, component_id)
    ]),
    s,
  )

  abbrev pub lookup_named : FilePath → FilePath → Option ℕ → Exec (Option (ℕ × ℕ × ℕ))
  lookup_named root path none = pure none
  lookup_named root path (some component_id) = do
    parent_id ← lookup_parent root (relative_to root path)
    row_at parent_id component_id

  abbrev pub lookup_below : FilePath → Option FilePath → Option String → Exec (Option (ℕ × ℕ × ℕ))
  lookup_below path none name = pure none
  lookup_below path (some root) none = pure none
  lookup_below path (some root) (some name) =
      λ s. lookup_named root path (component_id_of name s.db.path_components) s

  unfoldable pub lookup_file : List PathBuf → FilePath → Exec (Option (ℕ × ℕ × ℕ))
  unfolding owning_root relative_to lookup_parent file_name component_id_of select_entry
  lookup_file roots path = lookup_below path (owning_root roots path) (file_name path)
