-- ===== src/Tests/DaemonRuns.antt =====
-- Runs of the workers and of the observer.
use dafs.Prelude.{
  ◌≡◌, refl, true, false, none, some, [], ◌∷◌, ◌++◌, arith, eq_nat, not, ◌==◌, eq_list,
}
use dafs.FilePath.{PathBuf, root_dir, normal, starts_with, strip_prefix, file_name, eq_component}
use dafs.HashMap.{get}
use dafs.Watch.{Change, touched}
use dafs.Store.Catalog.{empty_work}
use dafs.Store.Queue
use dafs.Extract.{Disk, Extraction, no_extraction, text, pdf, parsed}
use dafs.Daemon.Worker.{batch, remaining}
use dafs.Daemon.ExtractWorker.{World, success, timed_out, run_worker}
use dafs.Daemon.Drained.{extract-drained}
use dafs.Daemon.Frames.{read_frame, write_frame, read_frame-write_frame}
use dafs.Daemon.Observer.{
  Observer, apply_change, apply_watch_command, replace_roots, add_roots, WatchCommand, Notifier,
  Surroundings,
}
use dafs.Daemon.Applied.{IsLogged, apply_change-IsLogged}
use dafs.Api.Handlers.{replace, api_error, bad_request, put_watch}
use dafs.Daemon.SharedRoots.{start}
use dafs.Daemon.WatchAdapter.{Platform, answers, watch_control, put_watch-refused}
use dafs.Daemon.WatchRoots.{IsSound, apply_watch_command-IsSound}
use dafs.Daemon.StoreAdapter.{sqlite_search}
use dafs.Daemon.Searched.{IsSelection, sqlite_search-IsSelection}
use dafs.Tests.Engine.{engine}
use dafs.Watch
use dafs.Scan.Lookup.{owning_root, relative_to, place}
use dafs.Scan.Recording.{record_path}
use dafs.Store.Statements.{select_live}
use dafs.Store.Paths.{intern_leaf, ensure_dir_chain}
use dafs.Tests.ScanRuns.{watched, watched-IsLogged, root_w, entry_a, world, tree, options}
use dafs.Tests.VectorRuns.{vec, float, stored}
use dafs.Tests.QueueRuns.{work}
use dafs.Tests.ApiRuns.{no_filters}

abbrev disk : Disk
disk = record {
  sniffed = some text;
  bytes = none;
  exif = λ bytes. parsed no_extraction;
  office_docx = λ bytes. parsed no_extraction;
  office_xlsx = λ bytes. parsed no_extraction;
  office_pptx = λ bytes. parsed no_extraction;
  git = none;
}

-- A text file that is read at once.
abbrev prompt : World
prompt = record {
  stop = false;
  sniffed = some text;
  disk = disk;
  lost = false;
  child = record { spawn_error = none; reply = timed_out; exit = success };
  extracted_at = 50;
  enrichment_at = 51;
  embedding_at = 52;
}

-- A PDF whose child does not answer.
abbrev stuck_pdf : World
stuck_pdf = record prompt { sniffed = some pdf }

extract-drained_example : Queue.pending batch (run_worker true true 5 (λ n id. stuck_pdf) work) ≡ []
unfolding remaining
extract-drained_example =
    extract-drained true true 5 (λ n id. stuck_pdf) work (refl, tt) (λ n id. refl) (omega arith)

abbrev plain : Extraction
plain = record no_extraction { doc_type = text }

read_frame-write_frame_example :
    read_frame (write_frame (7 ∷ 8 ∷ []) ++ (9 ∷ [])) ≡ some (7 ∷ 8 ∷ [], 9 ∷ [])
read_frame-write_frame_example = read_frame-write_frame (7 ∷ 8 ∷ []) (9 ∷ []) (omega arith)

sqlite_search-IsSelection_example :
    IsSelection 5 no_filters (sqlite_search (λ q. some (1 ∷ 2 ∷ 4 ∷ [])) "q" 5 no_filters stored)
sqlite_search-IsSelection_example =
    sqlite_search-IsSelection (λ q. some (1 ∷ 2 ∷ 4 ∷ [])) "q" 5 no_filters stored

-- The observer of `/w`, and nothing recorded yet.
abbrev watching : Observer
watching = record {
  work = record empty_work { db = watched.db };
  cache = watched.cache;
  watch = Watch.start;
  roots = root_w ∷ [];
  watched = root_w ∷ [];
  shared_roots = root_w ∷ [];
}

abbrev around : Surroundings
around = record { world = world; tree = tree; now_unix = 7 }

-- The file is recorded, and waits for its extraction.
test_apply_change :
    get 2 (apply_change options around (touched entry_a.path) watching).1.work.extraction_queue
    ≡ some (record { queued_at_unix = 7; attempt_count = 0 })
unfolding apply_change record_path owning_root starts_with strip_prefix intern_leaf select_live
    ensure_dir_chain place relative_to file_name
test_apply_change = refl

apply_change-IsLogged_example :
    IsLogged (apply_change options around (touched entry_a.path) watching).1
unfolding apply_change record_path owning_root starts_with strip_prefix intern_leaf select_live
    ensure_dir_chain place relative_to file_name
apply_change-IsLogged_example =
    apply_change-IsLogged options around (touched entry_a.path) watching watched-IsLogged refl

-- `notify` watches everything but `/x`.
abbrev root_x : PathBuf
root_x = record { components = root_dir ∷ normal "x" ∷ []; os_len = 2 }

abbrev notifier : Notifier
notifier = record {
  can_watch = λ root. not (root.components == root_x.components);
  can_unwatch = λ root. true;
}

apply_watch_command-IsSound_example :
    IsSound
      (apply_watch_command options notifier (λ root. tree) (replace_roots (root_x ∷ [])) watching).1
apply_watch_command-IsSound_example =
    apply_watch_command-IsSound options notifier (λ root. tree) (replace_roots (root_x ∷ []))
      watching ((refl, tt), (refl, tt))

-- A machine without directories.
abbrev no_dirs : Platform
no_dirs = record {
  path_of = λ root. root_x;
  is_dir = λ path. false;
  display = λ path. "x";
  joined = λ errors. "errors";
  tree = λ root. tree;
}

put_watch-refused_example :
    put_watch (some (watch_control options notifier no_dirs answers)) replace ("x" ∷ []) watching
    ≡ (api_error bad_request "not a directory", watching)
put_watch-refused_example =
    put_watch-refused options notifier no_dirs answers replace ("x" ∷ []) watching refl

-- The only new root cannot be watched: the old one is gone all the same.
test_replace_roots :
    (apply_watch_command options notifier
      (λ root. tree)
      (replace_roots (root_x ∷ []))
      watching).1.roots
    ≡ []
unfolding apply_watch_command strip_prefix intern_leaf select_live
test_replace_roots = refl

-- `/y` is watched beside `/w`.
abbrev root_y : PathBuf
root_y = record { components = root_dir ∷ normal "y" ∷ []; os_len = 2 }

abbrev add_y : WatchCommand
add_y = add_roots (root_y ∷ [])
