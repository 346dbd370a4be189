-- ===== src/Daemon/Drained.antt =====
-- The three loops end: each queue is drained, whatever its attempts come to.
use dafs.Prelude.{
  ℕ, ◌≤◌, ◌≡◌, refl, Bool, false, String, Option, none, some, List, [], ◌∷◌, inl, inr, ltb,
  Bool-cases, Option-cases, subst, sym, eq_nat,
}
use dafs.HashMap.{Distinct, insert-Distinct}
use dafs.Store.Tables.{Table}
use dafs.Store.Catalog.{EnrichmentRow, QueueRow, EmbeddingConfig, VectorTable, Work}
use dafs.Store.Queue
use dafs.Store.Queue.{fresh_row}
use dafs.Store.Enrichment
use dafs.Store.Enrichment.{requeue_outdated, requeue_stale}
use dafs.Store.Embeddings
use dafs.Store.Embeddings.{Vec0, bit_dimensions, create_table, commit_tables, ensure_table}
use dafs.Daemon.Worker.{batch, remaining, run-drained}
use dafs.Daemon.ExtractWorker
use dafs.Daemon.EnrichWorker
use dafs.Daemon.EnrichWorker.{enrichment_version}
use dafs.Daemon.EmbedWorker
use dafs.Daemon.EmbedWorker.{run_prepared}
use dafs.Daemon.Attempting.{extract-Counts, enrich-Counts, embed-Counts}

-- The extraction worker, not stopped, on a queue that holds each file once and that nothing else writes:
-- after as many rounds as the queue has attempts left no file is pending, whatever each extraction
-- comes to (a result, an error, a timeout or a PDF child that fails).
pub extract-drained :
    (enrichment_enabled embedding_enabled : Bool) (rounds : ℕ)
    (worlds : ℕ → ℕ → ExtractWorker.World) (w : Work)
    → Distinct w.extraction_queue
    → ((n id : ℕ) → (worlds n id).stop ≡ false)
    → remaining w.extraction_queue ≤ rounds
    → Queue.pending batch
        (ExtractWorker.run_worker enrichment_enabled embedding_enabled rounds worlds w)
      ≡ []
unfolding ExtractWorker.run_worker Queue.pending
extract-drained enrichment_enabled embedding_enabled rounds worlds w d on enough =
    run-drained (λ v. v.extraction_queue)
      (ExtractWorker.process_one enrichment_enabled embedding_enabled) (λ v. v.stop)
      (extract-Counts enrichment_enabled embedding_enabled) rounds worlds w d on enough

requeue_outdated-Distinct :
    (version at : ℕ) (t : Table EnrichmentRow) (queue : Table QueueRow)
    → Distinct queue
    → Distinct (requeue_outdated version at t queue).1
unfolding requeue_outdated
requeue_outdated-Distinct version at [] queue d = d
requeue_outdated-Distinct version at ((id, e) ∷ t) queue d =
    let rest = (requeue_outdated version at t queue).1 in
    let later = requeue_outdated-Distinct version at t queue d in
    elim (Bool-cases (ltb e.enrichment_version version)) [
      | inl old ↦ rw old (insert-Distinct id (fresh_row at) rest later)
      | inr new ↦ rw new later
    ]

-- The enrichment worker: the same, with the attempts that its queue has left once the outdated files are
-- queued again.
pub enrich-drained :
    (to_json : List String → String) (now rounds : ℕ) (worlds : ℕ → ℕ → EnrichWorker.World)
    (w : Work)
    → Distinct w.enrichment_queue
    → ((n id : ℕ) → (worlds n id).stop ≡ false)
    → remaining (requeue_stale enrichment_version now w).1.enrichment_queue ≤ rounds
    → Enrichment.pending batch (EnrichWorker.run_worker to_json now rounds worlds w) ≡ []
unfolding EnrichWorker.run_worker Enrichment.pending requeue_stale
enrich-drained to_json now rounds worlds w d on enough =
    run-drained (λ v. v.enrichment_queue) (EnrichWorker.process_one to_json) (λ v. v.stop)
      (enrich-Counts to_json) rounds worlds (requeue_stale enrichment_version now w).1
      (requeue_outdated-Distinct enrichment_version now w.file_enrichment w.enrichment_queue d) on
      enough

commit_tables-queue :
    (c : EmbeddingConfig) (float bin : Option VectorTable) (w : Work)
    → (commit_tables c float bin w).1.embedding_queue ≡ w.embedding_queue
unfolding commit_tables
commit_tables-queue c (some f) (some b) w = refl
commit_tables-queue c (some f) none w = refl
commit_tables-queue c none b w = refl

module _ ⦃vec : Vec0⦄ where
  ensure_table-queue :
      (model : String) (d : ℕ) (w : Work)
      → (ensure_table model d w).1.embedding_queue ≡ w.embedding_queue
  unfolding ensure_table
  ensure_table-queue model d w = elim (Option-cases w.embedding_config) [
    | inl e ↦
        rw (e, ensure_table)
          (commit_tables-queue (record { model = model; dimensions = d })
            (create_table (vec.accepts_float d) d w.file_embedding)
            (create_table (vec.accepts_bit (bit_dimensions d)) (bit_dimensions d)
              w.file_embedding_bin)
            w)
    | inr (c, e) ↦ rw (e, ensure_table) refl
  ]

  -- The embedding worker, where `ensure_table` succeeds: the same.
  pub embed-drained :
      (c : EmbeddingConfig) (rounds : ℕ) (worlds : ℕ → ℕ → EmbedWorker.World) (w : Work)
      → (ensure_table c.model c.dimensions w).0 ≡ Embeddings.done
      → Distinct w.embedding_queue
      → ((n id : ℕ) → (worlds n id).stop ≡ false)
      → remaining w.embedding_queue ≤ rounds
      → Embeddings.pending batch (EmbedWorker.run_worker c rounds worlds w) ≡ []
  unfolding EmbedWorker.run_worker Embeddings.pending
  embed-drained c rounds worlds w ok d on enough =
      let prepared = (ensure_table c.model c.dimensions w).1 in
      let same = ensure_table-queue c.model c.dimensions w in
      rw ok (
        run-drained (λ v. v.embedding_queue) EmbedWorker.process_one (λ v. v.stop) embed-Counts
          rounds worlds prepared (subst Distinct (sym same) d) on
          (subst (λ q. remaining q ≤ rounds) (sym same) enough))
