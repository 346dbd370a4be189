-- ===== src/Daemon/Extracted.antt =====
-- What `process_one` of crates/dafs-daemon/src/extract_worker.rs leaves for a file.
use dafs.Prelude.{ℕ, ◌≡◌, Bool, ◌&&◌, Option, none, some, if◌then◌else◌, ◌==◌, eq_nat}
use dafs.HashMap.{get, insert, remove}
use dafs.Store.Tables.{Table}
use dafs.Store.Catalog.{MetadataRow, QueueRow, Work}
use dafs.Store.Queue.{enqueue_row, requeued, count_attempt}
use dafs.Store.Enrichment.{enqueue as enqueue_enrichment}
use dafs.Store.Embeddings.{enqueue as enqueue_embedding}
use dafs.Daemon.ExtractWorker.{World, has_enough_text_to_enrich}

-- The row of a file in a queue that it was offered to: one that is there keeps its attempts.
abbrev pub offered : Bool → ℕ → ℕ → Table QueueRow → ℕ → Option QueueRow
offered wanted id at queue j =
    if wanted && (id == j) then some (requeued at (get id queue)) else get j queue

-- The tables after a success, at every file: only the one that was extracted has changed.
abbrev pub IsExtracted : Bool → Bool → World → ℕ → MetadataRow → Work → Work → Type 0
IsExtracted enrichment_enabled embedding_enabled world id m before after =
    (after.db ≡ before.db)
    × (after.file_enrichment ≡ before.file_enrichment)
    × (after.embedding_config ≡ before.embedding_config)
    × (after.file_embedding ≡ before.file_embedding)
    × (after.file_embedding_bin ≡ before.file_embedding_bin)
    × ((j : ℕ)
        → (get j after.file_metadata ≡ (if id == j then some m else get j before.file_metadata))
          × (get j after.extraction_queue
              ≡ (if id == j then none else get j before.extraction_queue))
          × (get j after.enrichment_queue
              ≡ offered (enrichment_enabled && has_enough_text_to_enrich m) id world.enrichment_at
                  before.enrichment_queue j)
          × (get j after.embedding_queue
              ≡ offered (embedding_enabled && has_enough_text_to_enrich m) id world.embedding_at
                  before.embedding_queue j))

module _ (enrichment_enabled embedding_enabled : Bool) where
  abbrev after_success : World → ℕ → MetadataRow → Work → Work
  after_success world id m w = record w {
    file_metadata = insert id m w.file_metadata;
    extraction_queue = remove id (count_attempt id w.extraction_queue);
    enrichment_queue =
        if enrichment_enabled && has_enough_text_to_enrich m
        then enqueue_row id world.enrichment_at w.enrichment_queue
        else w.enrichment_queue;
    embedding_queue =
        if embedding_enabled && has_enough_text_to_enrich m
        then enqueue_row id world.embedding_at w.embedding_queue
        else w.embedding_queue;
  }
