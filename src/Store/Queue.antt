-- ===== src/Store/Queue.antt =====
-- crates/dafs-store/src/metadata.rs: the queue of files that wait for extraction.
use dafs.Prelude.{
  ◌+◌, ℕ, Bool, ◌&&◌, not, Option, none, some, List, [], ◌∷◌, length, take, keep, map, ltb, leb,
  if◌then◌else◌, eq_nat,
}
use dafs.HashMap.{get, insert, remove}
use dafs.Store.Tables.{Table, FileRow}
use dafs.Store.Catalog.{MetadataRow, QueueRow, Work}
use dafs.Store.Statements.{has_row, is_live}

abbrev pub max_attempts : ℕ
max_attempts = 5

abbrev pub requeued : ℕ → Option QueueRow → QueueRow
requeued at none = record { queued_at_unix = at; attempt_count = 0 }
requeued at (some r) = record r { queued_at_unix = at }

-- `INSERT … ON CONFLICT(file_id) DO UPDATE SET queued_at_unix`, of all three queues.
unfoldable pub enqueue_row : ℕ → ℕ → Table QueueRow → Table QueueRow
enqueue_row file_id at queue = insert file_id (requeued at (get file_id queue)) queue

-- `none` is the foreign key on `files`.
unfoldable pub enqueue : ℕ → ℕ → Work → Option Work
unfolding enqueue_row
enqueue file_id at w =
    if has_row (some file_id) w.db.files
    then some (record w { extraction_queue = enqueue_row file_id at w.extraction_queue })
    else none

abbrev pub is_eligible : ℕ × QueueRow → Bool
is_eligible (_, r) = ltb r.attempt_count max_attempts

-- `ORDER BY queued_at_unix ASC`; rows of one second stay in the order of the table, which the query
-- leaves open.
unfoldable pub insert_by_age : ℕ × QueueRow → List (ℕ × QueueRow) → List (ℕ × QueueRow)
insert_by_age e [] = e ∷ []
insert_by_age e (x ∷ rows) =
    let rest = insert_by_age e rows in
    if leb e.1.queued_at_unix x.1.queued_at_unix then e ∷ x ∷ rows else x ∷ rest

unfoldable pub order_by_age : List (ℕ × QueueRow) → List (ℕ × QueueRow)
unfolding insert_by_age
order_by_age [] = []
order_by_age (e ∷ rows) = insert_by_age e (order_by_age rows)

-- The query of `pending`, of all three queues.
unfoldable pub oldest_first : ℕ → Table QueueRow → List ℕ
unfolding order_by_age
oldest_first limit queue = map (λ e. e.0) (take limit (order_by_age (keep is_eligible queue)))

unfoldable pub pending : ℕ → Work → List ℕ
unfolding oldest_first
pending limit w = oldest_first limit w.extraction_queue

abbrev pub attempted : QueueRow → QueueRow
attempted r = record r { attempt_count = r.attempt_count + 1 }

-- The UPDATE of `record_attempt`, of all three queues.
unfoldable pub count_attempt : ℕ → Table QueueRow → Table QueueRow
count_attempt file_id queue = elim (get file_id queue) [
  | none ↦ queue
  | some r ↦ insert file_id (attempted r) queue
]

unfoldable pub record_attempt : ℕ → Work → Work
unfolding count_attempt
record_attempt file_id w = record w { extraction_queue = count_attempt file_id w.extraction_queue }

-- The two writes of the transaction.
unfoldable pub record_extraction : ℕ → MetadataRow → Work → Option Work
record_extraction file_id metadata w =
    if has_row (some file_id) w.db.files
    then some (record w {
      file_metadata = insert file_id metadata w.file_metadata;
      extraction_queue = remove file_id w.extraction_queue;
    })
    else none

abbrev pub fresh_row : ℕ → QueueRow
fresh_row at = record { queued_at_unix = at; attempt_count = 0 }

-- The first INSERT of `requeue_stale`.
unfoldable pub requeue_outdated : ℕ → ℕ → Table MetadataRow → Table QueueRow → Table QueueRow
requeue_outdated version at [] queue = queue
requeue_outdated version at ((id, m) ∷ t) queue =
    let rest = requeue_outdated version at t queue in
    if ltb m.extractor_version version then insert id (fresh_row at) rest else rest

abbrev pub wants_first : Work → Table QueueRow → ℕ × FileRow → Bool
wants_first w queue (id, r) =
    not r.is_dir
    && (is_live r && (not (has_row (some id) w.file_metadata) && not (has_row (some id) queue)))

-- The second.
unfoldable pub queue_new : ℕ → List (ℕ × FileRow) → Table QueueRow → Table QueueRow
queue_new at [] queue = queue
queue_new at ((id, r) ∷ t) queue = insert id (fresh_row at) (queue_new at t queue)

unfoldable pub requeue_stale : ℕ → ℕ → Work → Work
unfolding requeue_outdated queue_new
requeue_stale version at w =
    let queue = requeue_outdated version at w.file_metadata w.extraction_queue in
    record w { extraction_queue = queue_new at (keep (wants_first w queue) w.db.files) queue }

abbrev pub queue_depth : Work → ℕ
queue_depth w = length w.extraction_queue
