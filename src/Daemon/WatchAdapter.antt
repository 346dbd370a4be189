-- ===== src/Daemon/WatchAdapter.antt =====
-- crates/dafs-daemon/src/watch_adapter.rs: `WatchControl` on the observer.
use dafs.Prelude.{
  ◌≡◌, refl, String, Bool, true, not, Option, none, some, List, [], ◌∷◌, map, any, Bool-cases, inl,
  inr, arith, if◌then◌else◌,
}
use dafs.FilePath.{PathBuf}
use dafs.Store.Tables.{Sqlite}
use dafs.Scan.Batches.{ScanOptions, Tree}
use dafs.Api.Handlers.{
  Task, finished, refused, WatchControl, WatchMode, add, replace, api_error, bad_request, put_watch,
}
use dafs.Daemon.Observer.{
  Observer, WatchCommand, add_roots, replace_roots, Failure, Notifier, apply_watch_command, publish,
}

-- Whether the observer takes the command, and answers before `REPLY_TIMEOUT`.
pub data Thread : Type 0 where
  answers gone late : Thread

-- `PathBuf::from`, `is_dir`, `display`, the text of the errors, and what a new root holds.
pub record Platform : Type 0 where
  pub path_of : String → PathBuf
  pub is_dir : PathBuf → Bool
  pub display : PathBuf → String
  pub joined : List Failure → String
  pub tree : PathBuf → Tree

abbrev pub reply_of : Platform → List Failure → Task (Unit {0})
reply_of platform [] = finished tt
reply_of platform (e ∷ errors) = refused (platform.joined (e ∷ errors))

-- `none` is that one of them is not a directory.
unfoldable pub validate_dirs : Platform → List String → Option (List PathBuf)
validate_dirs platform [] = some []
validate_dirs platform (root ∷ roots) =
    let rest = validate_dirs platform roots in
    if platform.is_dir (platform.path_of root)
    then elim rest [ none ↦ none | some paths ↦ some (platform.path_of root ∷ paths) ]
    else none

module _ ⦃sql : Sqlite⦄ (options : ScanOptions) (notifier : Notifier) (platform : Platform)
    (thread : Thread) where
  -- The state is that once the command is carried out and its roots are shared: a late observer does so
  -- after the timeout, and one that answers may do the second only after its answer is read.
  abbrev pub sent : Thread → List Failure × Observer → Observer → Task (Unit {0}) × Observer
  sent gone (errors, after) o = (refused "the observer thread is gone", o)
  sent late (errors, after) o =
      (refused "the observer thread did not respond in time", publish options notifier after)
  sent answers (errors, after) o = (reply_of platform errors, publish options notifier after)

  unfoldable pub send_and_wait :
      (List PathBuf → WatchCommand) → List String → Observer → Task (Unit {0}) × Observer
  unfolding validate_dirs apply_watch_command
  send_and_wait build roots o = elim (validate_dirs platform roots) [
    | none ↦ (refused "not a directory", o)
    | some paths ↦
        sent thread (apply_watch_command options notifier platform.tree (build paths) o) o
  ]

  abbrev pub watch_control : WatchControl Observer
  watch_control = record {
    roots = λ o. map platform.display o.shared_roots;
    add_roots = send_and_wait add_roots;
    replace_roots = send_and_wait replace_roots;
  }

refuses :
    (platform : Platform) (roots : List String)
    → any (λ r. not (platform.is_dir (platform.path_of r))) roots ≡ true
    → validate_dirs platform roots ≡ none
unfolding validate_dirs
refuses platform [] h = absurd (ground (arith, h))
refuses platform (root ∷ roots) h = elim (Bool-cases (platform.is_dir (platform.path_of root))) [
  | inr e ↦ rw e refl
  | inl e ↦ rw (e, refuses platform roots (rw e at h)) refl
]

module _ ⦃sql : Sqlite⦄ (options : ScanOptions) (notifier : Notifier) (platform : Platform)
    (thread : Thread) where
  send_and_wait-refused :
      (build : List PathBuf → WatchCommand) (roots : List String) (o : Observer)
      → any (λ r. not (platform.is_dir (platform.path_of r))) roots ≡ true
      → send_and_wait options notifier platform thread build roots o
        ≡ (refused "not a directory", o)
  unfolding send_and_wait
  send_and_wait-refused build roots o h = rw (send_and_wait, refuses platform roots h) refl

  -- A request to watch roots of which one is not a directory is answered with 400 and leaves the observer,
  -- its roots and what it watches as they are, whatever the mode and the other roots.
  pub put_watch-refused :
      (mode : WatchMode) (roots : List String) (o : Observer)
      → any (λ r. not (platform.is_dir (platform.path_of r))) roots ≡ true
      → put_watch (some (watch_control options notifier platform thread)) mode roots o
        ≡ (api_error bad_request "not a directory", o)
  unfolding put_watch
  put_watch-refused mode [] o h = absurd (ground (arith, h))
  put_watch-refused add (root ∷ roots) o h =
      rw (send_and_wait-refused add_roots (root ∷ roots) o h) refl
  put_watch-refused replace (root ∷ roots) o h =
      rw (send_and_wait-refused replace_roots (root ∷ roots) o h) refl
