-- ===== src/Daemon/Applied.antt =====
-- The log of events while the observer of crates/dafs-daemon/src/main.rs applies changes.
use dafs.Prelude.{
  ℕ, ◌≡◌, refl, sym, subst, Bool, true, false, inl, inr, Option, none, some, List, [], ◌∷◌,
  Bool-cases, eq_nat,
}
use dafs.FilePath.{FilePath, PathBuf}
use dafs.Watch.{Change, touched, removed, renamed, overflowed, is_excluded}
use dafs.Store.Tables.{Sqlite}
use dafs.Store.Exec.{Result, ok, err}
use dafs.Store.Statements.{has_row}
use dafs.Store.Queue.{enqueue}
use dafs.Scan.Logging.{IsLoggedWith}
use dafs.Scan.Recording.{record_path}
use dafs.Scan.Renaming.{record_rename}
use dafs.Scan.Batches.{ScanOptions, scan}
use dafs.Scan.CrashSafety.{scan-IsLoggedWith}
use dafs.Scan.Moves.{record_path-IsComplete, record_removal-IsComplete, record_rename-IsComplete}
use dafs.Daemon.Observer.{
  Observer, store_of, call, Surroundings, enqueue_for_extraction, enqueue_recorded, rescan,
  apply_path, apply_removal, apply_rename, apply_change,
}

-- Each row of a file has an event.
abbrev pub IsLogged : Observer → Type 0
IsLogged o = IsLoggedWith [] o.work.db

enqueue_for_extraction-db :
    (now id : ℕ) (o : Observer) → (enqueue_for_extraction now id o).work.db ≡ o.work.db
unfolding enqueue_for_extraction enqueue
enqueue_for_extraction-db now id o = elim (Bool-cases (has_row (some id) o.work.db.files)) [
  | inl e ↦ rw e refl
  | inr e ↦ rw e refl
]

-- The call and what it leaves, where it succeeds.
enqueue_recorded-IsLogged :
    (now : ℕ) (out : Result (Option ℕ) × Observer)
    → ((a : Option ℕ) → out.0 ≡ ok a → IsLogged out.1)
    → (enqueue_recorded now out).0 ≡ ok tt
    → IsLogged (enqueue_recorded now out).1
enqueue_recorded-IsLogged now (err e, o) h good = cc
enqueue_recorded-IsLogged now (ok none, o) h good = h none refl
enqueue_recorded-IsLogged now (ok (some id), o) h good =
    subst (IsLoggedWith []) (sym (enqueue_for_extraction-db now id o)) (h (some id) refl)

module _ ⦃sql : Sqlite⦄ (options : ScanOptions) (around : Surroundings) where
  rescan-IsLogged :
      (roots : List PathBuf) (o : Observer) → IsLogged o → IsLogged (rescan options around roots o)
  unfolding rescan
  rescan-IsLogged [] o l = l
  rescan-IsLogged (root ∷ roots) o l =
      rescan-IsLogged roots (call (scan around.tree root.components options) o).1
        (scan-IsLoggedWith around.tree root.components options (store_of o) l)

  apply_path-IsLogged :
      (path : FilePath) (o : Observer)
      → IsLogged o
      → (apply_path options around path o).0 ≡ ok tt
      → IsLogged (apply_path options around path o).1
  apply_path-IsLogged path o l =
      enqueue_recorded-IsLogged around.now_unix (call (record_path o.roots around.world path) o)
        (λ a. record_path-IsComplete o.roots around.world path (store_of o) l a)

  apply_removal-IsLogged :
      (path : FilePath) (o : Observer)
      → IsLogged o
      → (apply_removal options around path o).0 ≡ ok tt
      → IsLogged (apply_removal options around path o).1
  apply_removal-IsLogged path o l =
      record_removal-IsComplete o.roots around.world path (store_of o) l

  apply_rename-IsLogged :
      (source target : FilePath) (a b : Bool) (o : Observer)
      → IsLogged o
      → (apply_rename options around source target a b o).0 ≡ ok tt
      → IsLogged (apply_rename options around source target a b o).1
  apply_rename-IsLogged source target true true o l good = l
  apply_rename-IsLogged source target true false o l good = apply_path-IsLogged target o l good
  apply_rename-IsLogged source target false true o l good = apply_removal-IsLogged source o l good
  apply_rename-IsLogged source target false false o l good =
      enqueue_recorded-IsLogged around.now_unix
        (call (record_rename o.roots around.world source target) o)
        (record_rename-IsComplete o.roots around.world source (store_of o) l target) good

  -- Where each row of a file has an event and a change is applied without an error, each has one
  -- afterwards, whatever the change, the file system and what is excluded. An overflow keeps it also
  -- where a rescan fails.
  pub apply_change-IsLogged :
      (change : Change) (o : Observer)
      → IsLogged o
      → (apply_change options around change o).0 ≡ ok tt
      → IsLogged (apply_change options around change o).1
  unfolding apply_change
  apply_change-IsLogged overflowed o l good = rescan-IsLogged o.roots o l
  apply_change-IsLogged (touched path) o l good =
      elim (Bool-cases (is_excluded path options.skip_dirs)) [
        | inl e ↦ rw e l
        | inr e ↦ rw e (apply_path-IsLogged path o l (rw e at good))
      ]
  apply_change-IsLogged (removed path) o l good =
      elim (Bool-cases (is_excluded path options.skip_dirs)) [
        | inl e ↦ rw e l
        | inr e ↦ rw e (apply_removal-IsLogged path o l (rw e at good))
      ]
  apply_change-IsLogged (renamed source target) o l good =
      apply_rename-IsLogged source target (is_excluded source options.skip_dirs)
        (is_excluded target options.skip_dirs) o l good
