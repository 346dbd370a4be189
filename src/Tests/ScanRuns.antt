-- ===== src/Tests/ScanRuns.antt =====
-- Runs of the scanner.
use dafs.Prelude.{
  ℕ, ◌≡◌, ◌≤◌, refl, true, false, none, some, List, [], ◌∷◌, In, arith, eq_nat, eq_string,
}
use dafs.HashMap.{get}
use dafs.FilePath.{FilePath, PathBuf, root_dir, normal, starts_with, strip_prefix}
use dafs.Store.Tables.{FileRow, created}
use dafs.Store.Exec.{Store, ok}
use dafs.Store.Statements.{select_live, component_id_of}
use dafs.Store.Paths.{new_row, intern_dir, intern_leaf, upsert_entry}
use dafs.Store.WellFormed.{IsWell}
use dafs.Store.Names.{named}
use dafs.Scan.Lookup.{owning_root}
use dafs.Scan.Recording.{Metadata, Entry, event_now, observe, World, found, record_path}
use dafs.Scan.Batches.{
  ScanOptions, Walked, entry, unreadable, begin, rollback, start, Tree, visit_all, scan,
}
use dafs.Scan.Logging.{IsLoggedWith}
use dafs.Scan.CrashSafety.{IsSafe, begin-IsSafe, visit_all-IsSafe, scan-IsLoggedWith}
use dafs.Scan.Rescan.{Observed, observe-Observed, observe-again}
use dafs.Scan.Rollback.{interned, rollback-intern_dir}
use dafs.Scan.Roots.{owning_root-IsLongest}
use dafs.Tests.Engine.{engine}
use dafs.Tests.StoreRuns.{empty_store}

abbrev work : FilePath
work = root_dir ∷ normal "w" ∷ []

abbrev three_bytes : Metadata
three_bytes = record { is_dir = false; len = 3; mtime = some 10 }

abbrev pub entry_a : Entry
entry_a = record {
  path = root_dir ∷ normal "w" ∷ normal "a" ∷ [];
  depth = 1;
  name = "a";
  is_dir = false;
  metadata = some three_bytes;
}

abbrev entry_b : Entry
entry_b = record {
  path = root_dir ∷ normal "w" ∷ normal "d" ∷ normal "b" ∷ [];
  depth = 2;
  name = "b";
  is_dir = false;
  metadata = some three_bytes;
}

abbrev walked : List (ℕ × Walked)
walked = (100, entry entry_a) ∷ (101, unreadable) ∷ (102, entry entry_b) ∷ []

abbrev pub tree : Tree
tree = record { exists = λ _. true; entries = λ _ _ _. walked }

abbrev pub options : ScanOptions
options = record { skip_dirs = ".git" ∷ []; follow_symlinks = false; max_entries = none }

test_scan :
    (scan tree work options empty_store).0
    ≡ ok (record { files_seen = 2; dirs_seen = 0; events_recorded = 2; skipped = 1 })
unfolding scan strip_prefix intern_leaf select_live
test_scan = refl

test_rescan :
    (scan tree work options (scan tree work options empty_store).1).0
    ≡ ok (record { files_seen = 2; dirs_seen = 0; events_recorded = 0; skipped = 1 })
unfolding scan strip_prefix intern_leaf select_live
test_rescan = refl

-- `/w`, and nothing in it yet.
abbrev pub work_dir : FileRow
work_dir = new_row none 1 true none none

abbrev pub watched : Store
watched = record {
  db = record { path_components = (1, named "w") ∷ []; files = (1, work_dir) ∷ []; events = [] };
  cache = [];
}

watched-IsWell : IsWell watched
watched-IsWell = record {
  tables = record {
    components_once = (refl, tt);
    files_once = (refl, tt);
    names_once = λ i j a b h k e. ground arith;
    linked = λ i r h. (ground arith, ground arith);
    live_once = λ i j r q h k l m p c. ground arith;
    logged = λ i e h. cc;
  };
  cached_right = λ name id h. cc;
  bounded = omega arith;
}

pub watched-IsLogged : IsLoggedWith [] watched.db
watched-IsLogged i (r, h, f) = absurd (ground arith)

scan-IsLoggedWith_example : IsLoggedWith [] (scan tree work options watched).1.db
scan-IsLoggedWith_example = scan-IsLoggedWith tree work options watched watched-IsLogged

visit_all-IsSafe_example : IsSafe (visit_all options work 1 walked (begin (start watched))).1
visit_all-IsSafe_example =
    visit_all-IsSafe options work 1 walked (begin (start watched))
      (begin-IsSafe watched watched-IsLogged)

observe-Observed_example :
    Observed 1 "a" three_bytes 100 watched (observe 1 "a" three_bytes 100 watched)
observe-Observed_example = observe-Observed 1 "a" three_bytes 100 watched watched-IsWell refl

test_observe :
    (observe 1 "a" three_bytes 100 watched).0 ≡ ok (some (event_now 2 created (some 3) 100))
unfolding observe intern_leaf upsert_entry select_live
test_observe = refl

observe-again_example :
    ((observe 1 "a" three_bytes 200 (observe 1 "a" three_bytes 100 watched).1).0 ≡ ok none)
    × ((observe 1 "a" three_bytes 200 (observe 1 "a" three_bytes 100 watched).1).1.db
        ≡ (observe 1 "a" three_bytes 100 watched).1.db)
observe-again_example = observe-again 1 "a" three_bytes 100 200 watched watched-IsWell refl

abbrev pub root_w : PathBuf
root_w = record { components = work; os_len = 2 }

abbrev root_d : PathBuf
root_d = record { components = root_dir ∷ normal "w" ∷ normal "d" ∷ []; os_len = 4 }

owning_root-IsLongest_example :
    (r : PathBuf) × In r (root_w ∷ root_d ∷ [])
    × (r.components ≡ root_d.components)
    × (starts_with entry_b.path root_d.components ≡ true)
    × ((q : PathBuf)
        → In q (root_w ∷ root_d ∷ [])
        → starts_with entry_b.path q.components ≡ true
        → q.os_len ≤ r.os_len)
unfolding owning_root starts_with
owning_root-IsLongest_example =
    owning_root-IsLongest (root_w ∷ root_d ∷ []) entry_b.path root_d.components refl

-- `d` is interned in a transaction.
rollback-intern_dir_example :
    (id : ℕ) × ((intern_dir "d" (begin (start watched)).store).0 ≡ ok id)
    × (intern_dir "d" (rollback (interned "d" (start watched))).store
        ≡ (ok id, (rollback (interned "d" (start watched))).store))
    × (get id (rollback (interned "d" (start watched))).store.db.path_components ≡ none)
unfolding component_id_of
rollback-intern_dir_example = rollback-intern_dir "d" (start watched) refl refl refl

abbrev pub world : World
world = record { lstat = λ _. found three_bytes; now = 100 }

-- `/w/a` is recorded, and moves to `/w/b`.
abbrev with_a : Store
with_a = (record_path (root_w ∷ []) world entry_a.path watched).1

abbrev path_b : FilePath
path_b = root_dir ∷ normal "w" ∷ normal "b" ∷ []
