-- ===== src/Daemon/Attempting.antt =====
-- What one call of each worker's `process_one` does to its queue: whatever the attempt comes to, it is
-- counted before it starts.
use dafs.Prelude.{
  ℕ, String, ◌≡◌, ◌∙◌, refl, ap, Bool, ◌⊎◌, inl, inr, ◌||◌, not, Option, none, some, Bool-cases,
  Option-cases, if_both, List, eq_nat,
}
use dafs.HashMap.{get, insert, remove}
use dafs.Store.Paths.{resolve_path}
use dafs.Store.Statements.{has_row}
use dafs.Store.Timeline.{or_else}
use dafs.Store.Tables.{Table}
use dafs.Store.Catalog.{MetadataRow, QueueRow, Work, VectorTable}
use dafs.Store.Queue.{record_attempt, record_extraction, count_attempt}
use dafs.Store.Enrichment
use dafs.Store.Enrichment.{enqueue as enqueue_enrichment, record_enrichment}
use dafs.Store.Vectors.{to_blob, quantize_bits}
use dafs.Store.Embeddings
use dafs.Store.Embeddings.{enqueue as enqueue_embedding, replace_row, commit_vector, store}
use dafs.Extract.{ExtractError, Extraction}
use dafs.Daemon.Worker.{Counts}
use dafs.Daemon.ExtractWorker.{
  has_enough_text_to_enrich, maybe_enqueue_enrichment, maybe_enqueue_embedding, to_file_metadata,
  after_record, attempt, record_result,
}
use dafs.Daemon.ExtractWorker
use dafs.Daemon.EnrichWorker
use dafs.Daemon.EnrichWorker.{enrich_text}
use dafs.Daemon.EmbedWorker
use dafs.Daemon.EmbedWorker.{embed_text}

-- A step that leaves the extraction queue as it is.
enqueue_enrichment-queue :
    (id at : ℕ) (w : Work)
    → (or_else (enqueue_enrichment id at w) w).extraction_queue ≡ w.extraction_queue
unfolding enqueue_enrichment
enqueue_enrichment-queue id at w = elim (Bool-cases (has_row (some id) w.db.files)) [
  | inl e ↦ rw e refl
  | inr e ↦ rw e refl
]

enqueue_embedding-queue :
    (id at : ℕ) (w : Work)
    → (or_else (enqueue_embedding id at w) w).extraction_queue ≡ w.extraction_queue
unfolding enqueue_embedding
enqueue_embedding-queue id at w = elim (Bool-cases (has_row (some id) w.db.files)) [
  | inl e ↦ rw e refl
  | inr e ↦ rw e refl
]

maybe_enqueue_enrichment-queue :
    (id : ℕ) (m : MetadataRow) (enabled : Bool) (at : ℕ) (w : Work)
    → (maybe_enqueue_enrichment id m enabled at w).extraction_queue ≡ w.extraction_queue
unfolding maybe_enqueue_enrichment
maybe_enqueue_enrichment-queue id m enabled at w =
    if_both (λ (v : Work). v.extraction_queue ≡ w.extraction_queue)
      (not enabled || not (has_enough_text_to_enrich m)) refl (enqueue_enrichment-queue id at w)

maybe_enqueue_embedding-queue :
    (id : ℕ) (m : MetadataRow) (enabled : Bool) (at : ℕ) (w : Work)
    → (maybe_enqueue_embedding id m enabled at w).extraction_queue ≡ w.extraction_queue
unfolding maybe_enqueue_embedding
maybe_enqueue_embedding-queue id m enabled at w =
    if_both (λ (v : Work). v.extraction_queue ≡ w.extraction_queue)
      (not enabled || not (has_enough_text_to_enrich m)) refl (enqueue_embedding-queue id at w)

module _ (enrichment_enabled embedding_enabled : Bool) where
  record_result-Counts :
      (world : ExtractWorker.World) (id : ℕ) (result : Option (ExtractError ⊎ Extraction))
      (w : Work)
      → Counts id w.extraction_queue
          (record_result enrichment_enabled embedding_enabled world id result
            (record_attempt id w)).extraction_queue
  unfolding record_result record_attempt record_extraction
  record_result-Counts world id none w = inl refl
  record_result-Counts world id (some (inl e)) w = inl refl
  record_result-Counts world id (some (inr x)) w =
      elim (Bool-cases (has_row (some id) w.db.files)) [
        | inl e ↦
            let m = to_file_metadata world.extracted_at x in
            let tried = record_attempt id w in
            let recorded = record tried {
              file_metadata = insert id m tried.file_metadata;
              extraction_queue = remove id tried.extraction_queue;
            } in
            rw e (
              inr (
                maybe_enqueue_embedding-queue id m embedding_enabled world.embedding_at
                  (maybe_enqueue_enrichment id m enrichment_enabled world.enrichment_at recorded)
                ∙ maybe_enqueue_enrichment-queue id m enrichment_enabled world.enrichment_at
                    recorded))
        | inr e ↦ rw e (inl refl)
      ]

  pub extract-Counts :
      (world : ExtractWorker.World) (id : ℕ) (w : Work)
      → Counts id w.extraction_queue
          (ExtractWorker.process_one enrichment_enabled embedding_enabled world id
            w).extraction_queue
  unfolding ExtractWorker.process_one
  extract-Counts world id w = record_result-Counts world id (attempt (resolve_path w.db id) world) w

enrich_text-Counts :
    (to_json : List String → String) (world : EnrichWorker.World) (id : ℕ) (text : Option String)
    (before : Table QueueRow) (w : Work)
    → w.enrichment_queue ≡ count_attempt id before
    → Counts id before (enrich_text to_json world id text w).enrichment_queue
unfolding record_enrichment
enrich_text-Counts to_json world id none before w h = inl h
enrich_text-Counts to_json world id (some text) before w h =
    elim (Option-cases (world.enrich text)) [
      | inl e ↦ rw (e, enrich_text) (inl h)
      | inr (x, e) ↦
          rw (e, enrich_text)
            (if_both (λ o. Counts id before (or_else o w).enrichment_queue)
              (has_row (some id) w.db.files) (inr (ap (remove id) h)) (inl h))
    ]

pub enrich-Counts :
    (to_json : List String → String) (world : EnrichWorker.World) (id : ℕ) (w : Work)
    → Counts id w.enrichment_queue (EnrichWorker.process_one to_json world id w).enrichment_queue
unfolding EnrichWorker.process_one Enrichment.record_attempt
enrich-Counts to_json world id w = elim (Option-cases (get id w.file_metadata)) [
  | inl e ↦ rw (e, EnrichWorker.process_one) (inl refl)
  | inr (m, e) ↦
      rw (e, EnrichWorker.process_one)
        (enrich_text-Counts to_json world id m.body_text w.enrichment_queue
          (Enrichment.record_attempt id w) refl)
]

commit_vector-Counts :
    (id : ℕ) (float bin : Option VectorTable) (before : Table QueueRow) (w : Work)
    → w.embedding_queue ≡ count_attempt id before
    → Counts id before (commit_vector id float bin w).1.embedding_queue
unfolding commit_vector
commit_vector-Counts id (some f) (some b) before w h = inr (ap (remove id) h)
commit_vector-Counts id (some f) none before w h = inl h
commit_vector-Counts id none b before w h = inl h

embed_text-Counts :
    (world : EmbedWorker.World) (id : ℕ) (text : Option String) (before : Table QueueRow) (w : Work)
    → w.embedding_queue ≡ count_attempt id before
    → Counts id before (embed_text world id text w).embedding_queue
unfolding store
embed_text-Counts world id none before w h = inl h
embed_text-Counts world id (some text) before w h = elim (Option-cases (world.embed text)) [
  | inl e ↦ rw (e, embed_text) (inl h)
  | inr (v, e) ↦
      rw (e, embed_text)
        (commit_vector-Counts id (replace_row 4 1 id (to_blob v) w.file_embedding)
          (replace_row 1 8 id (quantize_bits v) w.file_embedding_bin) before w h)
]

pub embed-Counts :
    (world : EmbedWorker.World) (id : ℕ) (w : Work)
    → Counts id w.embedding_queue (EmbedWorker.process_one world id w).embedding_queue
unfolding EmbedWorker.process_one Embeddings.record_attempt
embed-Counts world id w = elim (Option-cases (get id w.file_metadata)) [
  | inl e ↦ rw (e, EmbedWorker.process_one) (inl refl)
  | inr (m, e) ↦
      rw (e, EmbedWorker.process_one)
        (embed_text-Counts world id m.body_text w.embedding_queue (Embeddings.record_attempt id w)
          refl)
]
