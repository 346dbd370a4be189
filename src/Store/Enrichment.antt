-- ===== src/Store/Enrichment.antt =====
-- crates/dafs-store/src/enrichment.rs: the rows of `file_enrichment` and the queue that fills them.
use dafs.Prelude.{ℕ, suc, Option, none, some, List, [], ◌∷◌, ltb, if◌then◌else◌, eq_nat}
use dafs.HashMap.{insert, remove}
use dafs.Store.Tables.{Table}
use dafs.Store.Statements.{has_row}
use dafs.Store.Catalog.{EnrichmentRow, QueueRow, Work}
use dafs.Store.Queue.{enqueue_row, oldest_first, count_attempt, fresh_row}

-- The transaction; `none` is the foreign key on `files`.
unfoldable pub record_enrichment : ℕ → EnrichmentRow → Work → Option Work
record_enrichment file_id e w =
    if has_row (some file_id) w.db.files
    then some (record w {
      file_enrichment = insert file_id e w.file_enrichment;
      enrichment_queue = remove file_id w.enrichment_queue;
    })
    else none

unfoldable pub enqueue : ℕ → ℕ → Work → Option Work
unfolding enqueue_row
enqueue file_id at w =
    if has_row (some file_id) w.db.files
    then some (record w { enrichment_queue = enqueue_row file_id at w.enrichment_queue })
    else none

unfoldable pub pending : ℕ → Work → List ℕ
unfolding oldest_first
pending limit w = oldest_first limit w.enrichment_queue

unfoldable pub record_attempt : ℕ → Work → Work
unfolding count_attempt
record_attempt file_id w = record w { enrichment_queue = count_attempt file_id w.enrichment_queue }

-- The INSERT of `requeue_stale`, with the number of rows that it changes.
unfoldable pub requeue_outdated : ℕ → ℕ → Table EnrichmentRow → Table QueueRow → ℕ × Table QueueRow
requeue_outdated version at [] queue = (0, queue)
requeue_outdated version at ((id, e) ∷ t) queue =
    let (n, rest) = requeue_outdated version at t queue in
    if ltb e.enrichment_version version then (suc n, insert id (fresh_row at) rest) else (n, rest)

unfoldable pub requeue_stale : ℕ → ℕ → Work → ℕ × Work
unfolding requeue_outdated
requeue_stale version at w =
    let (n, queue) = requeue_outdated version at w.file_enrichment w.enrichment_queue in
    (n, record w { enrichment_queue = queue })
