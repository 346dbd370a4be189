-- ===== src/Daemon/Observer.antt =====
-- The observer of crates/dafs-daemon/src/main.rs: it keeps the store by the changes of the watch and
-- the commands of watch_adapter.rs.
use dafs.Prelude.{
  ℕ, Bool, true, false, Option, none, some, List, [], ◌∷◌, ◌++◌, any, if◌then◌else◌, ◌==◌, eq_list,
}
use dafs.FilePath.{FilePath, PathBuf, eq_component}
use dafs.Watch.{Watch, Change, touched, removed, renamed, overflowed, Arrival, poll, is_excluded}
use dafs.Store.Tables.{Sqlite}
use dafs.Store.Exec.{Error, Result, ok, err, Store, Exec}
use dafs.Store.Timeline.{or_else}
use dafs.Store.Catalog.{Work}
use dafs.Store.Queue.{enqueue, requeue_stale}
use dafs.Scan.Recording.{World, record_path, record_removal}
use dafs.Scan.Renaming.{record_rename}
use dafs.Scan.Batches.{ScanOptions, ScanSummary, Tree, scan}
use dafs.Daemon.ExtractWorker.{extractor_version}

-- The locals of `observe`: the tables of its connection with the interner, the watch, and the live
-- root list. `watched` is what `notify` watches, and `shared_roots` what the API reads.
pub record Observer : Type 0 where
  pub work : Work
  pub cache : dafs.HashMap.HashMap dafs.Prelude.String ℕ
  pub watch : Watch
  pub roots : List PathBuf
  pub watched : List PathBuf
  pub shared_roots : List PathBuf

-- A call on the store.
abbrev pub store_of : Observer → Store
store_of o = record { db = o.work.db; cache = o.cache }

abbrev pub put_store : Store → Observer → Observer
put_store s o = record o { work = record o.work { db = s.db }; cache = s.cache }

abbrev pub call : {A : Type 0} → Exec A → Observer → Result A × Observer
call m o = let (r, s) = m (store_of o) in (r, put_store s o)

-- What one change or command finds: the file system, trees to scan, and the clock in seconds.
pub record Surroundings : Type 0 where
  pub world : World
  pub tree : Tree
  pub now_unix : ℕ

-- An error is logged.
unfoldable pub enqueue_for_extraction : ℕ → ℕ → Observer → Observer
unfolding enqueue
enqueue_for_extraction now file_id o = record o {
  work = or_else (enqueue file_id now o.work) o.work;
}

-- `if let Some(file_id) = …? { … }`
abbrev pub enqueue_recorded : ℕ → Result (Option ℕ) × Observer → Result (Unit {0}) × Observer
enqueue_recorded now (err e, o) = (err e, o)
enqueue_recorded now (ok none, o) = (ok tt, o)
enqueue_recorded now (ok (some file_id), o) = (ok tt, enqueue_for_extraction now file_id o)

module _ ⦃sql : Sqlite⦄ (options : ScanOptions) where
  -- The rescans after an overflow; an error is logged.
  unfoldable pub rescan : Surroundings → List PathBuf → Observer → Observer
  unfolding scan
  rescan around [] o = o
  rescan around (root ∷ roots) o =
      rescan around roots (call (scan around.tree root.components options) o).1

  abbrev pub apply_path : Surroundings → FilePath → Observer → Result (Unit {0}) × Observer
  apply_path around path o =
      enqueue_recorded around.now_unix (call (record_path o.roots around.world path) o)

  abbrev pub apply_removal : Surroundings → FilePath → Observer → Result (Unit {0}) × Observer
  apply_removal around path o = call (record_removal o.roots around.world path) o

  -- The match on what is excluded of a rename.
  abbrev pub apply_rename :
      Surroundings → FilePath → FilePath → Bool → Bool → Observer → Result (Unit {0}) × Observer
  apply_rename around source target true true o = (ok tt, o)
  apply_rename around source target true false o = apply_path around target o
  apply_rename around source target false true o = apply_removal around source o
  apply_rename around source target false false o =
      enqueue_recorded around.now_unix (call (record_rename o.roots around.world source target) o)

  unfoldable pub apply_change : Surroundings → Change → Observer → Result (Unit {0}) × Observer
  unfolding rescan record_path record_removal record_rename is_excluded enqueue_for_extraction
  apply_change around overflowed o = (ok tt, rescan around o.roots o)
  apply_change around (touched path) o =
      if is_excluded path options.skip_dirs then (ok tt, o) else apply_path around path o
  apply_change around (removed path) o =
      if is_excluded path options.skip_dirs then (ok tt, o) else apply_removal around path o
  apply_change around (renamed source target) o =
      apply_rename around source target (is_excluded source options.skip_dirs)
        (is_excluded target options.skip_dirs) o

  -- The loop over the changes of a poll, each with what it finds; an error is logged.
  unfoldable pub apply_changes : (Change → Surroundings) → List Change → Observer → Observer
  unfolding apply_change
  apply_changes around [] o = o
  apply_changes around (change ∷ changes) o =
      apply_changes around changes (apply_change (around change) change o).1

-- `WatchCommand`; the reply of a command is what `apply_watch_command` returns.
pub data WatchCommand : Type 0 where
  add_roots replace_roots : List PathBuf → WatchCommand

-- The texts of `errors`, before they are joined.
pub data Failure : Type 0 where
  scan_failed : PathBuf → Error → Failure
  watch_failed : PathBuf → Failure

-- What `notify` answers: whether it starts, and whether it stops, to watch a root.
pub record Notifier : Type 0 where
  pub can_watch : PathBuf → Bool
  pub can_unwatch : PathBuf → Bool

-- `Vec::contains`, by the components of a path.
abbrev pub contains : PathBuf → List PathBuf → Bool
contains root roots = any (λ r. r.components == root.components) roots

abbrev pub unwatched : PathBuf → List PathBuf → List PathBuf
unwatched root [] = []
unwatched root (r ∷ watched) =
    let rest = unwatched root watched in if r.components == root.components then rest else r ∷ rest

module _ ⦃sql : Sqlite⦄ (options : ScanOptions) (notifier : Notifier) where
  -- After the scan of `add_one`.
  abbrev pub watch_scanned :
      PathBuf → List Failure → Result ScanSummary × Observer → List Failure × Observer
  watch_scanned root errors (err e, o) = (errors ++ scan_failed root e ∷ [], o)
  watch_scanned root errors (ok _, o) =
      if notifier.can_watch root
      then (errors, record o { watched = root ∷ o.watched; roots = o.roots ++ root ∷ [] })
      else (errors ++ watch_failed root ∷ [], o)

  unfoldable pub add_one : Tree → PathBuf → List Failure × Observer → List Failure × Observer
  unfolding scan
  add_one tree root (errors, o) =
      if contains root o.roots
      then (errors, o)
      else watch_scanned root errors (call (scan tree root.components options) o)

  unfoldable pub add_each :
      (PathBuf → Tree) → List PathBuf → List Failure × Observer → List Failure × Observer
  unfolding add_one
  add_each tree [] out = out
  add_each tree (root ∷ new_roots) out = add_each tree new_roots (add_one (tree root) root out)

  -- `roots.drain(..)`; an error of `remove_root` is logged.
  unfoldable pub drain_roots : List PathBuf → Observer → Observer
  drain_roots [] o = record o { roots = [] }
  drain_roots (old ∷ roots) o = drain_roots roots (record o {
    roots = roots;
    watched = if notifier.can_unwatch old then unwatched old o.watched else o.watched;
  })

  -- The errors are the reply, `Ok` if there are none.
  unfoldable pub apply_watch_command :
      (PathBuf → Tree) → WatchCommand → Observer → List Failure × Observer
  unfolding add_each drain_roots
  apply_watch_command tree (add_roots new_roots) o = add_each tree new_roots ([], o)
  apply_watch_command tree (replace_roots new_roots) o =
      add_each tree new_roots ([], drain_roots o.roots o)

  -- What follows a command, once its reply is sent.
  abbrev pub publish : Observer → Observer
  publish o = record o { shared_roots = o.roots }

  unfoldable pub apply_commands : (PathBuf → Tree) → List WatchCommand → Observer → Observer
  unfolding apply_watch_command
  apply_commands tree [] o = o
  apply_commands tree (command ∷ commands) o =
      apply_commands tree commands (publish (apply_watch_command tree command o).1)

  -- What one round of the `while` of `observe` is given.
  pub record Round : Type 0 where
    pub commands : List WatchCommand
    pub tree : PathBuf → Tree
    pub deadline : ℕ
    pub channel : List Arrival
    pub polled : ℕ
    pub around : Change → Surroundings

  unfoldable pub observe_round : Round → Observer → Observer
  unfolding apply_commands poll apply_changes
  observe_round r o =
      let commanded = apply_commands r.tree r.commands o in
      let (watch, changes, _) = poll r.deadline r.channel r.polled commanded.watch in
      apply_changes options r.around changes (record commanded { watch = watch })

  -- The scans at the start; an error is logged.
  unfoldable pub scan_initial : (PathBuf → Tree) → List PathBuf → Observer → Observer
  unfolding scan
  scan_initial tree [] o = o
  scan_initial tree (root ∷ roots) o =
      scan_initial tree roots (call (scan (tree root) root.components options) o).1

  -- `observe` up to its `while`: `none` is a watch that does not start.
  unfoldable pub observe_start :
      (PathBuf → Tree) → List PathBuf → Bool → ℕ → Observer → Option Observer
  unfolding scan_initial requeue_stale
  observe_start tree initial_roots skip_initial now o =
      let scanned = if skip_initial then o else scan_initial tree initial_roots o in
      let queued = record scanned { work = requeue_stale extractor_version now scanned.work } in
      if any (λ root. if notifier.can_watch root then false else true) initial_roots
      then none
      else some (record queued { watched = initial_roots; roots = initial_roots })
