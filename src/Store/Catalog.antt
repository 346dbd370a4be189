-- ===== src/Store/Catalog.antt =====
-- The tables of the migrations `metadata`, `enrichment` and `embeddings` (crates/dafs-store/src/lib.rs)
-- and the two `vec0` tables of embeddings.rs. The columns that `timeline` joins stay together.
use dafs.Prelude.{ℕ, String, Option, none, List, [], map}
use dafs.Store.Tables.{Table, Db, empty_db}
use dafs.Store.Timeline.{FileMetadata, FileEnrichment, Library}

-- A row of `file_metadata`; `FileMetadata` of the source, with its last three fields.
pub record MetadataRow : Type 0 where
  pub columns : FileMetadata
  pub body_text : Option String
  pub extracted_at_unix : ℕ
  pub extractor_version : ℕ

-- A row of `file_enrichment`.
pub record EnrichmentRow : Type 0 where
  pub columns : FileEnrichment
  pub enriched_at_unix : ℕ
  pub enrichment_version : ℕ

pub record QueueRow : Type 0 where
  pub queued_at_unix : ℕ
  pub attempt_count : ℕ

pub record EmbeddingConfig : Type 0 where
  pub model : String
  pub dimensions : ℕ

-- A `vec0` table: the declared width, and the blobs by rowid.
pub record VectorTable : Type 0 where
  pub width : ℕ
  pub rows : Table (List ℕ)

-- What the workers read and write. `embedding_config` has one row at most, by its CHECK; a `vec0`
-- table that was not created is `none`.
pub record Work : Type 0 where
  pub db : Db
  pub file_metadata : Table MetadataRow
  pub extraction_queue : Table QueueRow
  pub file_enrichment : Table EnrichmentRow
  pub enrichment_queue : Table QueueRow
  pub embedding_config : Option EmbeddingConfig
  pub file_embedding : Option VectorTable
  pub file_embedding_bin : Option VectorTable
  pub embedding_queue : Table QueueRow

abbrev pub empty_work : Work
empty_work = record {
  db = empty_db;
  file_metadata = [];
  extraction_queue = [];
  file_enrichment = [];
  enrichment_queue = [];
  embedding_config = none;
  file_embedding = none;
  file_embedding_bin = none;
  embedding_queue = [];
}

-- What the timeline reads of these tables.
unfoldable pub library : Work → Library
library w = record {
  db = w.db;
  file_metadata = map (λ e. (e.0, e.1.columns)) w.file_metadata;
  file_enrichment = map (λ e. (e.0, e.1.columns)) w.file_enrichment;
}
