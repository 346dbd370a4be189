-- ===== src/Scan/Batches.antt =====
-- `scan`: the walk in batches, each in one transaction over the rows and the events.

use dafs.Prelude.{
  ℕ, ◌+◌, String, Bool, true, false, not, Option, none, some, List, [], ◌∷◌, ◌++◌, length, any, leb,
  if◌then◌else◌, ◌==◌, eq_nat, eq_string,
}
use dafs.FilePath.{FilePath}
use dafs.Store.Tables.{EventRow, Db, Sqlite}
use dafs.Store.Exec.{Store, Exec, Result, ok, err, missing_root, pure, ◌>>◌}
use dafs.Store.Statements.{insert_event}
use dafs.Store.Paths.{ensure_dir_chain}
use dafs.Scan.Recording.{Entry, record_entry}

abbrev pub batch_size : ℕ
batch_size = 1024

abbrev pub batches_per_checkpoint : ℕ
batches_per_checkpoint = 16

pub record ScanSummary : Type 0 where
  pub files_seen : ℕ
  pub dirs_seen : ℕ
  pub events_recorded : ℕ
  pub skipped : ℕ

pub record ScanOptions : Type 0 where
  pub skip_dirs : List String
  pub follow_symlinks : Bool
  pub max_entries : Option ℕ

-- `is_skipped`, which the walk applies to each entry before it goes below it.
unfoldable pub is_skipped : Entry → ScanOptions → Bool
is_skipped e options =
    if not e.is_dir
    then false
    else if e.depth == 0
    then false
    else any (λ d. d == e.name) options.skip_dirs

-- What the walker yields: entries, and directories that it cannot read.
pub data Walked : Type 0 where
  entry : Entry → Walked
  unreadable : Walked

-- The scan between two entries. `committed` is what a crash or a rollback leaves; `store.db` is what
-- the connection sees, which is the same while no transaction is open.
pub record Scan : Type 0 where
  pub store : Store
  pub committed : Db
  pub tx_open : Bool
  pub batch : List EventRow
  pub batches_since_checkpoint : ℕ
  pub summary : ScanSummary

unfoldable pub begin : Scan → Scan
begin c = if c.tx_open then c else record c { tx_open = true; committed = c.store.db }

unfoldable pub commit : Scan → Scan
commit c = if c.tx_open then record c { tx_open = false; committed = c.store.db } else c

-- `ROLLBACK`, and the crash of the process.
abbrev pub rollback : Scan → Scan
rollback c = record c { store = record c.store { db = c.committed }; tx_open = false }

abbrev pub reaches_limit : ScanOptions → ScanSummary → Bool
reaches_limit options s = elim options.max_entries [
  | none ↦ false
  | some max ↦ leb max (s.files_seen + s.dirs_seen)
]

abbrev pub count_seen : Bool → ScanSummary → ScanSummary
count_seen true s = record s { dirs_seen = s.dirs_seen + 1 }
count_seen false s = record s { files_seen = s.files_seen + 1 }

abbrev pub push_event : Option EventRow → Scan → Scan
push_event none c = c
push_event (some e) c = record c {
  batch = c.batch ++ e ∷ [];
  summary = record c.summary { events_recorded = c.summary.events_recorded + 1 };
}

abbrev pub skip : Scan → Scan
skip c = record c { summary = record c.summary { skipped = c.summary.skipped + 1 } }

-- A call that changes the scan; what was done before an error stays in the state.
abbrev pub Outcome : Type 0
Outcome = Result (Unit {0}) × Scan

abbrev pub and_then : Outcome → (Scan → Outcome) → Outcome
and_then (ok _, c) f = f c
and_then (err e, c) f = (err e, c)

module _ ⦃sql : Sqlite⦄ where
  unfoldable pub append_events : List EventRow → Exec (Unit {0})
  unfolding insert_event
  append_events [] = pure tt
  append_events (e ∷ events) = do insert_event e; append_events events

  abbrev pub with_store : Scan → Result (Unit {0}) × Store → Outcome
  with_store c (r, s) = (r, record c { store = s })

  -- The events of a batch, and the commit.
  unfoldable pub flush : Scan → Outcome
  unfolding append_events commit
  flush c = and_then (with_store c (append_events c.batch c.store)) (λ c'. (ok tt, commit c'))

  -- The checkpoint moves pages and no rows.
  unfoldable pub next_batch : Scan → Scan
  unfolding begin
  next_batch c =
      let n = c.batches_since_checkpoint + 1 in
      begin (record c {
        batch = [];
        batches_since_checkpoint = if leb batches_per_checkpoint n then 0 else n;
      })

  unfoldable pub flush_if_full : Scan → Outcome
  unfolding flush next_batch
  flush_if_full c =
      if leb batch_size (length c.batch)
      then and_then (flush c) (λ c'. (ok tt, next_batch c'))
      else (ok tt, c)

  -- The `match record_entry(…)` and what follows it in the loop.
  abbrev pub after_record : Entry → Scan → Result (Option EventRow) × Store → Outcome
  after_record e c (err _, s) = (ok tt, skip (record c { store = s }))
  after_record e c (ok event, s) =
      let c' = push_event event (record c { store = s }) in
      flush_if_full (record c' { summary = count_seen e.is_dir c'.summary })

  unfoldable pub visit : FilePath → ℕ → ℕ → Walked → Scan → Outcome
  unfolding record_entry flush_if_full
  visit root root_id now unreadable c = (ok tt, skip c)
  visit root root_id now (entry e) c =
      if e.depth == 0
      then (ok tt, c)
      else after_record e c (record_entry root root_id now e c.store)

  -- The loop of `scan_inner`; an entry comes with the time at which it is recorded.
  unfoldable pub visit_all : ScanOptions → FilePath → ℕ → List (ℕ × Walked) → Scan → Outcome
  unfolding visit
  visit_all options root root_id [] c = (ok tt, c)
  visit_all options root root_id ((now, e) ∷ entries) c =
      if reaches_limit options c.summary
      then (ok tt, c)
      else and_then (visit root root_id now e c) (visit_all options root root_id entries)

  unfoldable pub scan_inner : ScanOptions → FilePath → ℕ → List (ℕ × Walked) → Scan → Outcome
  unfolding begin visit_all flush
  scan_inner options root root_id entries c =
      and_then (visit_all options root root_id entries (begin c)) flush

-- `walkdir` and `Path::exists`: the entries of a tree, where links may be followed, less the ones
-- that `filter_entry` refuses and what lies below them.
pub record Tree : Type 0 where
  pub exists : FilePath → Bool
  pub entries : FilePath → Bool → (Entry → Bool) → List (ℕ × Walked)

module _ ⦃sql : Sqlite⦄ where
  abbrev pub start : Store → Scan
  start s = record {
    store = s;
    committed = s.db;
    tx_open = false;
    batch = [];
    batches_since_checkpoint = 0;
    summary = record { files_seen = 0; dirs_seen = 0; events_recorded = 0; skipped = 0 };
  }

  -- What `scan` does with the result of `scan_inner`.
  abbrev pub finish : Outcome → Result ScanSummary × Store
  finish (ok _, c) = (ok c.summary, c.store)
  finish (err e, c) = (err e, (if c.tx_open then rollback c else c).store)

  abbrev pub scan_from :
      Tree → FilePath → ScanOptions → Result ℕ × Store → Result ScanSummary × Store
  scan_from tree root options (err e, s) = (err e, s)
  scan_from tree root options (ok root_id, s) = finish (
      scan_inner options root root_id
        (tree.entries root options.follow_symlinks (λ e. not (is_skipped e options))) (start s))

  unfoldable pub scan : Tree → FilePath → ScanOptions → Exec ScanSummary
  unfolding ensure_dir_chain scan_inner is_skipped
  scan tree root options s =
      if tree.exists root
      then scan_from tree root options (ensure_dir_chain root s)
      else (err missing_root, s)
