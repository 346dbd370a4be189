-- ===== src/Daemon/EmbedWorker.antt =====
-- crates/dafs-daemon/src/embed_worker.rs: one file of the embedding queue, and the loop. The answer of
-- the endpoint is an argument.
use dafs.Prelude.{ℕ, String, Bool, Option, none, some, List, eq_nat}
use dafs.HashMap.{get}
use dafs.Store.Catalog.{EmbeddingConfig, Work}
use dafs.Store.Embeddings.{
  Vec0, Outcome, done, mismatch, sqlite, ensure_table, record_attempt, store,
}
use dafs.Daemon.Worker.{run}

-- What one attempt finds: `none` is that `embed` fails. An `f32` is its bit pattern.
pub record World : Type 0 where
  pub stop : Bool
  pub embed : String → Option (List ℕ)

-- From the text on; an error of `store` is logged.
abbrev pub embed_text : World → ℕ → Option String → Work → Work
embed_text world file_id none w = w
embed_text world file_id (some text) w = elim (world.embed text) [
  | none ↦ w
  | some vector ↦ (store file_id vector w).1
]

unfoldable pub process_one : World → ℕ → Work → Work
unfolding record_attempt store
process_one world file_id w =
    let tried = record_attempt file_id w in
    elim (get file_id tried.file_metadata) [
      | none ↦ tried
      | some m ↦ embed_text world file_id m.body_text tried
    ]

-- After `ensure_table`: an error ends the thread.
abbrev pub run_prepared : Outcome → ℕ → (ℕ → ℕ → World) → Work → Work
run_prepared done rounds worlds w =
    run (λ w. w.embedding_queue) process_one (λ w. w.stop) rounds worlds w
run_prepared (mismatch _) rounds worlds w = w
run_prepared sqlite rounds worlds w = w

unfoldable pub run_worker : ⦃vec : Vec0⦄ → EmbeddingConfig → ℕ → (ℕ → ℕ → World) → Work → Work
unfolding run process_one ensure_table
run_worker c rounds worlds w =
    let (outcome, prepared) = ensure_table c.model c.dimensions w in
    run_prepared outcome rounds worlds prepared
