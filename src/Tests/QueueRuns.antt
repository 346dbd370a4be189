-- ===== src/Tests/QueueRuns.antt =====
-- Runs of the extraction queue.
use dafs.Prelude.{◌≡◌, refl, none, some, [], ◌∷◌, In, arith, eq_nat}
use dafs.HashMap.{get}
use dafs.Store.Timeline.{no_metadata}
use dafs.Store.Catalog.{MetadataRow, QueueRow, Work, empty_work}
use dafs.Store.Queue.{oldest_first, enqueue, pending, record_extraction, requeue_stale}
use dafs.Store.Attempts.{attempts, attempts-pending, requeue_stale-parked}
use dafs.Tests.StoreRuns.{one_tombstone}

abbrev pub untried : QueueRow
untried = record { queued_at_unix = 30; attempt_count = 0 }

abbrev parked : QueueRow
parked = record { queued_at_unix = 30; attempt_count = 5 }

abbrev extracted : MetadataRow
extracted = record {
  columns = no_metadata;
  body_text = some "text";
  extracted_at_unix = 31;
  extractor_version = 7;
}

abbrev pub work : Work
work = record empty_work { db = one_tombstone.db; extraction_queue = (1, untried) ∷ [] }

abbrev stuck : Work
stuck = record work { extraction_queue = (1, parked) ∷ [] }

test_pending : pending 10 work ≡ 1 ∷ []
unfolding pending
test_pending = refl

test_extracted :
    record_extraction 1 extracted work
    ≡ some (record work { file_metadata = (1, extracted) ∷ []; extraction_queue = [] })
unfolding record_extraction
test_extracted = refl

test_enqueue : enqueue 2 40 work ≡ none
unfolding enqueue
test_enqueue = refl

attempts-pending_example : In 1 (oldest_first 10 (attempts 5 1 work.extraction_queue)) → ⊥
attempts-pending_example =
    attempts-pending 5 1 10 untried work.extraction_queue (refl, tt) refl (omega arith)

requeue_stale-parked_example : get 1 (requeue_stale 9 50 stuck).extraction_queue ≡ some parked
requeue_stale-parked_example = requeue_stale-parked 1 9 50 parked stuck refl refl
