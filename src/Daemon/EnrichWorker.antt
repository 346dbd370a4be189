-- ===== src/Daemon/EnrichWorker.antt =====
-- crates/dafs-daemon/src/enrich_worker.rs: one file of the enrichment queue, and the loop. The answer
-- of the endpoint is an argument.
use dafs.Prelude.{ℕ, String, Bool, Option, none, some, List, [], ◌∷◌, eq_nat}
use dafs.HashMap.{get}
use dafs.Store.Timeline.{or_else}
use dafs.Store.Catalog.{EnrichmentRow, Work}
use dafs.Store.Enrichment.{record_attempt, record_enrichment, requeue_stale}
use dafs.Enrich.{Enrichment}
use dafs.Daemon.Worker.{run}

-- `ENRICHMENT_VERSION` of crates/dafs-enrich/src/lib.rs.
abbrev pub enrichment_version : ℕ
enrichment_version = 1

-- What one attempt finds: `none` is that `enrich` fails.
pub record World : Type 0 where
  pub stop : Bool
  pub enrich : String → Option Enrichment
  pub now : ℕ

-- `serde_json::to_string`
module _ (to_json : List String → String) where
  unfoldable pub encode_list : List String → Option String
  encode_list [] = none
  encode_list (item ∷ items) = some (to_json (item ∷ items))

  unfoldable pub to_file_enrichment : ℕ → Enrichment → EnrichmentRow
  unfolding encode_list
  to_file_enrichment now e = record {
    columns = record {
      summary = e.summary;
      keywords = encode_list e.keywords;
      entities = encode_list e.entities;
      classification = e.classification;
    };
    enriched_at_unix = now;
    enrichment_version = enrichment_version;
  }

  -- From the text on.
  abbrev pub enrich_text : World → ℕ → Option String → Work → Work
  enrich_text world file_id none w = w
  enrich_text world file_id (some text) w = elim (world.enrich text) [
    | none ↦ w
    | some e ↦ or_else (record_enrichment file_id (to_file_enrichment world.now e) w) w
  ]

  unfoldable pub process_one : World → ℕ → Work → Work
  unfolding record_attempt record_enrichment to_file_enrichment
  process_one world file_id w =
      let tried = record_attempt file_id w in
      elim (get file_id tried.file_metadata) [
        | none ↦ tried
        | some m ↦ enrich_text world file_id m.body_text tried
      ]

  -- `now` is the clock at the start.
  unfoldable pub run_worker : ℕ → ℕ → (ℕ → ℕ → World) → Work → Work
  unfolding run process_one requeue_stale
  run_worker now rounds worlds w =
      run (λ w. w.enrichment_queue) process_one (λ w. w.stop) rounds worlds
        (requeue_stale enrichment_version now w).1
