-- ===== src/Daemon/ExtractWorker.antt =====
-- crates/dafs-daemon/src/extract_worker.rs: one file of the extraction queue, and the loop. What the
-- file system, the threads and the PDF worker do in one attempt is an argument (`World`).
use Prim.Native.String.{◌++◌ as ◌+str◌}
use dafs.Prelude.{
  ℕ, String, Bool, true, false, ◌||◌, not, ◌⊎◌, inl, inr, Option, none, some, leb, if◌then◌else◌,
}
use dafs.Store.Timeline.{or_else}
use dafs.Store.Paths.{resolve_path}
use dafs.Store.Catalog.{MetadataRow, Work}
use dafs.Store.Queue.{record_attempt, record_extraction}
use dafs.Store.Enrichment.{enqueue as enqueue_enrichment}
use dafs.Store.Embeddings.{enqueue as enqueue_embedding}
use dafs.Extract.{
  DocType, pdf, as_str, Extraction, no_extraction, ExtractError, malformed, GitFacts,
  merge_git_facts, Disk, extract, count_chars,
}
use dafs.Daemon.Worker.{run}

abbrev pub min_chars_for_enrichment : ℕ
min_chars_for_enrichment = 300

-- `EXTRACTOR_VERSION` of crates/dafs-extract/src/lib.rs.
abbrev pub extractor_version : ℕ
extractor_version = 1

pub record PdfWorkerResponse : Type 0 where
  pub title : Option String
  pub author : Option String
  pub page_count : Option ℕ
  pub word_count : Option ℕ
  pub language : Option String
  pub body_text : Option String
  pub error : Option String

-- What the pipe to the child gives before the deadline: the frame that was read, with what `serde_json`
-- makes of it; an error; or nothing.
pub data Reply : Type 0 where
  response : PdfWorkerResponse → Reply
  garbled : String → Reply
  io_error : String → Reply
  timed_out : Reply

pub data Exit : Type 0 where
  success : Exit
  failure : String → Exit
  wait_error : String → Exit

-- A run of the child process; `spawn_error` is that it does not start.
pub record Child : Type 0 where
  pub spawn_error : Option String
  pub reply : Reply
  pub exit : Exit

-- What one attempt finds. `sniffed` is the worker's own look at the file; `lost` is that the thread of
-- `extract_with_timeout` does not answer in time. The clock is read three times.
pub record World : Type 0 where
  pub stop : Bool
  pub sniffed : Option DocType
  pub disk : Disk
  pub lost : Bool
  pub child : Child
  pub extracted_at : ℕ
  pub enrichment_at : ℕ
  pub embedding_at : ℕ

abbrev pub extract_with_timeout : String → World → Option (ExtractError ⊎ Extraction)
extract_with_timeout path world = if world.lost then none else some (extract path world.disk)

unfoldable pub pdf_extraction :
    String → Option GitFacts → PdfWorkerResponse → ExtractError ⊎ Extraction
unfolding merge_git_facts
pdf_extraction path git r = elim r.error [
  | some reason ↦ inl (malformed pdf path reason)
  | none ↦ inr (
      merge_git_facts git (record no_extraction {
        doc_type = pdf;
        title = r.title;
        author = r.author;
        language = r.language;
        page_count = r.page_count;
        word_count = r.word_count;
        body_text = r.body_text;
      }))
]

-- From `child.wait()` on, with what `serde_json` made of the frame.
abbrev pub after_wait :
    String → Option GitFacts → Exit → String ⊎ PdfWorkerResponse → ExtractError ⊎ Extraction
after_wait path git (failure status) answer =
    inl (malformed pdf path ("pdf worker exited with " +str status))
after_wait path git (wait_error e) answer =
    inl (malformed pdf path ("waiting for pdf worker: " +str e))
after_wait path git success (inl e) =
    inl (malformed pdf path ("parsing pdf worker response: " +str e))
after_wait path git success (inr r) = pdf_extraction path git r

abbrev pub after_reply :
    String → Option GitFacts → Exit → Reply → Option (ExtractError ⊎ Extraction)
after_reply path git exit (response r) = some (after_wait path git exit (inr r))
after_reply path git exit (garbled e) = some (after_wait path git exit (inl e))
after_reply path git exit (io_error e) = some (inl (malformed pdf path ("pdf worker I/O: " +str e)))
after_reply path git exit timed_out = none

unfoldable pub extract_pdf_with_deadline :
    String → Option GitFacts → Child → Option (ExtractError ⊎ Extraction)
unfolding pdf_extraction
extract_pdf_with_deadline path git child = elim child.spawn_error [
  | some e ↦ some (inl (malformed pdf path ("spawning pdf worker: " +str e)))
  | none ↦ after_reply path git child.exit child.reply
]

abbrev pub is_pdf : Option DocType → Bool
is_pdf (some pdf) = true
is_pdf _ = false

-- The `if` on `is_pdf`.
unfoldable pub attempt : String → World → Option (ExtractError ⊎ Extraction)
unfolding extract_pdf_with_deadline extract
attempt path world =
    if is_pdf world.sniffed
    then extract_pdf_with_deadline path world.disk.git world.child
    else extract_with_timeout path world

unfoldable pub has_enough_text_to_enrich : MetadataRow → Bool
unfolding count_chars
has_enough_text_to_enrich m = elim m.body_text [
  | none ↦ leb min_chars_for_enrichment 0
  | some t ↦ leb min_chars_for_enrichment (count_chars t)
]

-- An error of `enqueue` is logged.
unfoldable pub maybe_enqueue_enrichment : ℕ → MetadataRow → Bool → ℕ → Work → Work
unfolding has_enough_text_to_enrich enqueue_enrichment
maybe_enqueue_enrichment file_id m enrichment_enabled at w =
    if not enrichment_enabled || not (has_enough_text_to_enrich m)
    then w
    else or_else (enqueue_enrichment file_id at w) w

unfoldable pub maybe_enqueue_embedding : ℕ → MetadataRow → Bool → ℕ → Work → Work
unfolding has_enough_text_to_enrich enqueue_embedding
maybe_enqueue_embedding file_id m embedding_enabled at w =
    if not embedding_enabled || not (has_enough_text_to_enrich m)
    then w
    else or_else (enqueue_embedding file_id at w) w

unfoldable pub to_file_metadata : ℕ → Extraction → MetadataRow
unfolding as_str
to_file_metadata now e = record {
  columns = record {
    doc_type = some (as_str e.doc_type);
    title = e.title;
    author = e.author;
    language = e.language;
    page_count = e.page_count;
    word_count = e.word_count;
    image_taken_at_unix = e.image_taken_at_unix;
    image_camera_model = e.image_camera_model;
    git_branch = e.git_branch;
    git_head_commit = e.git_head_commit;
    git_head_author = e.git_head_author;
    git_head_at_unix = e.git_head_at_unix;
  };
  body_text = e.body_text;
  extracted_at_unix = now;
  extractor_version = extractor_version;
}

module _ (enrichment_enabled embedding_enabled : Bool) where
  -- After `record_extraction`, on what was there before it.
  abbrev pub after_record : World → ℕ → MetadataRow → Option Work → Work → Work
  after_record world file_id m none w = w
  after_record world file_id m (some recorded) w =
      maybe_enqueue_embedding file_id m embedding_enabled world.embedding_at
        (maybe_enqueue_enrichment file_id m enrichment_enabled world.enrichment_at recorded)

  -- The match on the result; a failure and a timeout are logged.
  unfoldable pub record_result : World → ℕ → Option (ExtractError ⊎ Extraction) → Work → Work
  unfolding record_extraction maybe_enqueue_enrichment maybe_enqueue_embedding to_file_metadata
  record_result world file_id none w = w
  record_result world file_id (some (inl e)) w = w
  record_result world file_id (some (inr extraction)) w =
      let m = to_file_metadata world.extracted_at extraction in
      after_record world file_id m (record_extraction file_id m w) w

  unfoldable pub process_one : World → ℕ → Work → Work
  unfolding record_attempt record_result resolve_path attempt
  process_one world file_id w =
      let tried = record_attempt file_id w in
      record_result world file_id (attempt (resolve_path tried.db file_id) world) tried

  unfoldable pub run_worker : ℕ → (ℕ → ℕ → World) → Work → Work
  unfolding run process_one
  run_worker = run (λ w. w.extraction_queue) process_one (λ w. w.stop)
