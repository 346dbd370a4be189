-- ===== src/Daemon/SharedRoots.antt =====
-- The list of roots that the API reads, under the commands of crates/dafs-daemon/src/main.rs.
use dafs.Prelude.{◌⊎◌, Bool, true, false, ◌≡◌, List, []}
use dafs.FilePath.{PathBuf}
use dafs.Store.Tables.{Sqlite}
use dafs.Scan.Batches.{ScanOptions, Tree}
use dafs.Daemon.Observer.{Observer, WatchCommand, Failure, Notifier, apply_watch_command, publish}

-- A request that waits for its answer, has it, and has read the roots for its response: without errors
-- only, since the response to an error has no roots.
pub data Request : Type 0 where
  waiting : Request
  answered : List Failure → Request
  responded : List PathBuf → Request

-- The observer thread and the thread of one request. `is_shared` is whether the observer has written
-- `shared_roots` since its last command.
pub record System : Type 0 where
  pub observer : Observer
  pub is_shared : Bool
  pub request : Request

module _ ⦃sql : Sqlite⦄ (options : ScanOptions) (notifier : Notifier) (tree : PathBuf → Tree)
    (command : WatchCommand) where
  abbrev pub applied : Observer → List Failure × Observer
  applied o = apply_watch_command options notifier tree command o

  -- The observer answers at the end of `apply_watch_command` and writes `shared_roots` afterwards; the
  -- request reads them once it has the answer.
  pub data Step : System → System → Type 0 where
    apply :
        (o : Observer)
        → Step
            (record { observer = o; is_shared = true; request = waiting })
            (record {
              observer = (applied o).1;
              is_shared = false;
              request = answered (applied o).0;
            })
    share :
        (o : Observer) (request : Request)
        → Step
            (record { observer = o; is_shared = false; request = request })
            (record { observer = publish options notifier o; is_shared = true; request = request })
    read :
        (o : Observer) (is_shared : Bool)
        → Step
            (record { observer = o; is_shared = is_shared; request = answered [] })
            (record { observer = o; is_shared = is_shared; request = responded o.shared_roots })

  pub data Reach (s : System) : System → Type 0 where
    here : Reach s s
    next : {t u : System} → Reach s t → Step t u → Reach s u

  abbrev pub start : Observer → System
  start o = record { observer = o; is_shared = true; request = waiting }

  abbrev written : Bool → Observer → Observer
  written true o = publish options notifier o
  written false o = o

  -- The roots of before the command, or those after it.
  abbrev pub IsEither : Observer → List PathBuf → Type 0
  IsEither o roots = (roots ≡ o.shared_roots) ⊎ (roots ≡ (applied o).1.roots)

  abbrev IsAt : Observer → System → Request → Type 0
  IsAt o s waiting = (s.observer ≡ o) × (s.is_shared ≡ true)
  IsAt o s (answered errors) =
      (errors ≡ (applied o).0) × (s.observer ≡ written s.is_shared (applied o).1)
  IsAt o s (responded roots) = ([] ≡ (applied o).0) × IsEither o roots

  -- A response is one to a success, and has the roots of after the command or those of before.
  abbrev pub IsTrue : Observer → Request → Type 0
  IsTrue o (responded roots) = ([] ≡ (applied o).0) × IsEither o roots
  IsTrue o _ = Unit

  abbrev pub finished_with : Observer → List PathBuf → System
  finished_with o roots = record {
    observer = publish options notifier (applied o).1;
    is_shared = true;
    request = responded roots;
  }
