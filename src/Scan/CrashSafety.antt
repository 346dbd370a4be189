-- ===== src/Scan/CrashSafety.antt =====
-- Whatever interrupts a scan, no row of a file is left without an event.
use dafs.Prelude.{
  ℕ, not, ◌≡◌, refl, true, inl, inr, Option, none, some, List, [], ◌∷◌, length, leb, if_both,
  Bool-cases, ◌==◌, eq_nat,
}
use dafs.FilePath.{FilePath}
use dafs.Store.Tables.{EventRow, Db, Sqlite}
use dafs.Store.Exec.{Store, Result, ok, err}
use dafs.Store.Paths.{ensure_dir_chain}
use dafs.Scan.Recording.{Entry, record_entry}
use dafs.Scan.Batches.{
  batch_size, ScanSummary, ScanOptions, is_skipped, Walked, entry, unreadable, Scan, begin, commit,
  reaches_limit, Outcome, and_then, append_events, with_store, flush, next_batch, flush_if_full,
  after_record, visit, visit_all, scan_inner, Tree, start, finish, scan_from, scan,
}
use dafs.Scan.Quiet.{NoNewFile, ensure_dir_chain-Quiet}
use dafs.Scan.Recorded.{Recorded, record_entry-Records}
use dafs.Scan.Logging.{
  IsLoggedWith, with_event, without_event, Appended, append_events-Appended, Appended-IsLoggedWith,
  written-IsLoggedWith,
}

-- A scan within its transaction: what a crash leaves is logged, and what the connection sees is
-- logged together with the batch.
pub record IsSafe (c : Scan) : Type 0 where
  pub in_transaction : c.tx_open ≡ true
  pub durable : IsLoggedWith [] c.committed
  pub pending : IsLoggedWith c.batch c.store.db

quiet-IsLogged : (a b : Db) → NoNewFile a b → IsLoggedWith [] a → IsLoggedWith [] b
quiet-IsLogged a b q l i f = elim (l i (q.old i f)) [
  | inl (j, e, h, k) ↦ inl (j, e, rw q.log h, k)
  | inr none_there ↦ inr none_there
]

module _ ⦃sql : Sqlite⦄ where
  -- A scan after `flush`: the batch is in the log and committed, or the transaction is still open.
  abbrev IsFlushed : Outcome → Type 0
  IsFlushed (ok _, c) = IsLoggedWith [] c.committed × IsLoggedWith [] c.store.db
  IsFlushed (err e, c) = IsSafe c

  flushed :
      (c : Scan) (r : Result (Unit {0})) (s : Store)
      → Appended c.batch c.store.db r s.db
      → IsSafe c
      → IsFlushed (and_then (with_store c (r, s)) (λ c'. (ok tt, commit c')))
  unfolding commit
  flushed c (ok tt) s a safe =
      let l = written-IsLoggedWith c.batch c.store.db s.db a safe.pending in
      rw safe.in_transaction (l, l)
  flushed c (err e) s a safe = record {
    in_transaction = safe.in_transaction;
    durable = safe.durable;
    pending = Appended-IsLoggedWith c.batch (err e) c.store.db s.db a safe.pending;
  }

  flush-IsFlushed : (c : Scan) → IsSafe c → IsFlushed (flush c)
  unfolding flush
  flush-IsFlushed c safe =
      flushed c (append_events c.batch c.store).0 (append_events c.batch c.store).1
        (append_events-Appended c.batch c.store) safe

  next_batch-IsSafe :
      (c : Scan) → IsLoggedWith [] c.committed → IsLoggedWith [] c.store.db → IsSafe (next_batch c)
  unfolding next_batch begin
  next_batch-IsSafe c durable now = elim (Bool-cases c.tx_open) [
    | inl e ↦ rw e (record { in_transaction = refl; durable = durable; pending = now })
    | inr e ↦ rw e (record { in_transaction = refl; durable = now; pending = now })
  ]

  flushed-IsSafe :
      (out : Outcome) → IsFlushed out → IsSafe (and_then out (λ c. (ok tt, next_batch c))).1
  flushed-IsSafe (ok _, c) h = next_batch-IsSafe c h.0 h.1
  flushed-IsSafe (err e, c) h = h

  flush_if_full-IsSafe : (c : Scan) → IsSafe c → IsSafe (flush_if_full c).1
  unfolding flush_if_full
  flush_if_full-IsSafe c safe =
      if_both (λ (out : Outcome). IsSafe out.1) (leb batch_size (length c.batch))
        (flushed-IsSafe (flush c) (flush-IsFlushed c safe)) safe

  after_record-IsSafe :
      (e : Entry) (c : Scan) (r : Result (Option EventRow)) (s : Store)
      → Recorded c.store.db r s.db
      → IsSafe c
      → IsSafe (after_record e c (r, s)).1
  after_record-IsSafe e c (err x) s p safe = record {
    in_transaction = safe.in_transaction;
    durable = safe.durable;
    pending = without_event c.batch (err x) c.store.db s.db p (λ _ h. cc) safe.pending;
  }
  after_record-IsSafe e c (ok none) s p safe = flush_if_full-IsSafe _ (record {
    in_transaction = safe.in_transaction;
    durable = safe.durable;
    pending = without_event c.batch (ok none) c.store.db s.db p (λ _ h. cc) safe.pending;
  })
  after_record-IsSafe e c (ok (some event)) s p safe = flush_if_full-IsSafe _ (record {
    in_transaction = safe.in_transaction;
    durable = safe.durable;
    pending = with_event c.batch event c.store.db s.db p safe.pending;
  })

  visit-IsSafe :
      (root : FilePath) (root_id now : ℕ) (e : Walked) (c : Scan)
      → IsSafe c
      → IsSafe (visit root root_id now e c).1
  unfolding visit
  visit-IsSafe root root_id now unreadable c safe = record {
    in_transaction = safe.in_transaction;
    durable = safe.durable;
    pending = safe.pending;
  }
  visit-IsSafe root root_id now (entry e) c safe =
      if_both (λ (out : Outcome). IsSafe out.1) (e.depth == 0) safe
        (after_record-IsSafe e c (record_entry root root_id now e c.store).0
          (record_entry root root_id now e c.store).1
          (record_entry-Records root root_id now e c.store) safe)

  and_then-IsSafe :
      (out : Outcome) (f : Scan → Outcome)
      → IsSafe out.1
      → ((c : Scan) → IsSafe c → IsSafe (f c).1)
      → IsSafe (and_then out f).1
  and_then-IsSafe (ok _, c) f h k = k c h
  and_then-IsSafe (err e, c) f h k = h

  -- At every entry of a walk, whatever it met before: each row of a file that a crash would leave
  -- has an event in what the crash would leave, and each row that the connection sees has one in the
  -- log or in the batch.
  pub visit_all-IsSafe :
      (options : ScanOptions) (root : FilePath) (root_id : ℕ) (entries : List (ℕ × Walked))
      (c : Scan)
      → IsSafe c
      → IsSafe (visit_all options root root_id entries c).1
  unfolding visit_all
  visit_all-IsSafe options root root_id [] c safe = safe
  visit_all-IsSafe options root root_id ((now, e) ∷ entries) c safe =
      if_both (λ (out : Outcome). IsSafe out.1) (reaches_limit options c.summary) safe
        (and_then-IsSafe (visit root root_id now e c) (visit_all options root root_id entries)
          (visit-IsSafe root root_id now e c safe) (visit_all-IsSafe options root root_id entries))

  finish-IsLogged : (out : Outcome) → IsFlushed out → IsLoggedWith [] (finish out).1.db
  finish-IsLogged (ok _, c) h = h.1
  finish-IsLogged (err e, c) h = rw h.in_transaction h.durable

  visited-IsFlushed : (out : Outcome) → IsSafe out.1 → IsFlushed (and_then out flush)
  visited-IsFlushed (ok _, c) h = flush-IsFlushed c h
  visited-IsFlushed (err e, c) h = h

  pub begin-IsSafe : (s : Store) → IsLoggedWith [] s.db → IsSafe (begin (start s))
  unfolding begin
  begin-IsSafe s l = record { in_transaction = refl; durable = l; pending = l }

  scan_from-IsLogged :
      (tree : Tree) (root : FilePath) (options : ScanOptions) (r : Result ℕ) (s : Store)
      → IsLoggedWith [] s.db
      → IsLoggedWith [] (scan_from tree root options (r, s)).1.db
  unfolding scan_inner
  scan_from-IsLogged tree root options (err e) s l = l
  scan_from-IsLogged tree root options (ok root_id) s l =
      let entries = tree.entries root options.follow_symlinks (λ e. not (is_skipped e options)) in
      finish-IsLogged (scan_inner options root root_id entries (start s)) (
        visited-IsFlushed (visit_all options root root_id entries (begin (start s)))
          (visit_all-IsSafe options root root_id entries (begin (start s)) (begin-IsSafe s l)))

  -- Where each row of a file has an event before a scan, each has one after it, whatever the tree
  -- holds and whether the scan succeeds or fails.
  pub scan-IsLoggedWith :
      (tree : Tree) (root : FilePath) (options : ScanOptions) (s : Store)
      → IsLoggedWith [] s.db
      → IsLoggedWith [] (scan tree root options s).1.db
  unfolding scan
  scan-IsLoggedWith tree root options s l =
      let q = ensure_dir_chain-Quiet root s in
      if_both (λ (out : Result ScanSummary × Store). IsLoggedWith [] out.1.db) (tree.exists root)
        (scan_from-IsLogged tree root options (ensure_dir_chain root s).0
          (ensure_dir_chain root s).1 (quiet-IsLogged s.db (ensure_dir_chain root s).1.db q l))
        l
