-- ===== src/Store/Embeddings.antt =====
-- crates/dafs-store/src/embeddings.rs: the two `vec0` tables, their configuration, the queue that
-- fills them and the search in two stages.
use dafs.Prelude.{
  ℕ, ◌*◌, ◌≤◌, String, ◌≡◌, ◌⊎◌, Bool, true, not, ◌||◌, Option, none, some, List, [], ◌∷◌, length,
  take, All, ltb, if◌then◌else◌, ◌==◌, eq_nat, eq_string,
}
use dafs.HashMap.{get, insert, remove}
use dafs.Store.Tables.{Table}
use dafs.Store.Statements.{has_row}
use dafs.Store.Catalog.{EmbeddingConfig, VectorTable, Work}
use dafs.Store.Queue.{enqueue_row, oldest_first, count_attempt}
use dafs.Store.Vectors.{to_blob, from_blob, quantize_bits, div_ceil}

-- What `sqlite-vec` decides: the widths that it creates a table with, and the rowids that a MATCH
-- with its LIMIT returns. `nearest_stored` and `nearest_limit` are what a query promises.
pub record Vec0 : Type 0 where
  pub accepts_float : ℕ → Bool
  pub accepts_bit : ℕ → Bool
  pub nearest : List ℕ → ℕ → Table (List ℕ) → List ℕ
  pub nearest_stored :
      (query : List ℕ) (limit : ℕ) (rows : Table (List ℕ))
      → All (λ id. has_row (some id) rows ≡ true) (nearest query limit rows)
  pub nearest_limit :
      (query : List ℕ) (limit : ℕ) (rows : Table (List ℕ))
      → length (nearest query limit rows) ≤ limit

-- The operations of `f64` that the distance uses, and the order of `total_cmp`.
pub record Float64 : Type 1 where
  pub F64 : Type 0
  pub from_f32 : ℕ → F64
  pub zero_f64 : F64
  pub add : F64 → F64 → F64
  pub sub : F64 → F64 → F64
  pub mul : F64 → F64 → F64
  pub sqrt : F64 → F64
  pub total_le : F64 → F64 → Bool
  pub total_le_total : (a b : F64) → (total_le a b ≡ true) ⊎ (total_le b a ≡ true)
  pub total_le_trans :
      (a b c : F64) → total_le a b ≡ true → total_le b c ≡ true → total_le a c ≡ true

pub record DimensionMismatch : Type 0 where
  pub existing_model : String
  pub existing_dimensions : ℕ
  pub requested_model : String
  pub requested_dimensions : ℕ

-- The result of a call that may fail, with the database that it leaves.
pub data Outcome : Type 0 where
  done : Outcome
  mismatch : DimensionMismatch → Outcome
  sqlite : Outcome

abbrev pub bit_dimensions : ℕ → ℕ
bit_dimensions dimensions = div_ceil dimensions 8 * 8

-- `CREATE VIRTUAL TABLE`, which fails if the table exists.
abbrev pub create_table : Bool → ℕ → Option VectorTable → Option VectorTable
create_table true width none = some (record { width = width; rows = [] })
create_table _ width _ = none

abbrev pub config : Work → Option EmbeddingConfig
config w = w.embedding_config

-- The commit of `ensure_table`, with what its two statements created.
unfoldable pub commit_tables :
    EmbeddingConfig → Option VectorTable → Option VectorTable → Work → Outcome × Work
commit_tables c (some float) (some bin) w = (
  done,
  record w {
    embedding_config = some c;
    file_embedding = some float;
    file_embedding_bin = some bin;
  },
)
commit_tables c _ _ w = (sqlite, w)

-- `ensure_table` on a database that has the tables.
abbrev pub reuse : EmbeddingConfig → String → ℕ → Outcome
reuse existing model dimensions =
    if not (existing.model == model) || not (existing.dimensions == dimensions)
    then mismatch (record {
      existing_model = existing.model;
      existing_dimensions = existing.dimensions;
      requested_model = model;
      requested_dimensions = dimensions;
    })
    else done

module _ ⦃vec : Vec0⦄ where
  unfoldable pub ensure_table : String → ℕ → Work → Outcome × Work
  unfolding commit_tables
  ensure_table model dimensions w = elim (config w) [
    | some existing ↦ (reuse existing model dimensions, w)
    | none ↦
        commit_tables (record { model = model; dimensions = dimensions })
          (create_table (vec.accepts_float dimensions) dimensions w.file_embedding)
          (create_table (vec.accepts_bit (bit_dimensions dimensions)) (bit_dimensions dimensions)
            w.file_embedding_bin)
          w
  ]

-- A DELETE and an INSERT of one rowid; `vec0` refuses a blob that is not as wide as its column,
-- `unit` bytes to `per` dimensions.
abbrev pub replace_row : ℕ → ℕ → ℕ → List ℕ → Option VectorTable → Option VectorTable
replace_row unit per id blob none = none
replace_row unit per id blob (some t) =
    if per * length blob == unit * t.width
    then some (record t { rows = insert id blob (remove id t.rows) })
    else none

-- The commit of `store`, with the two tables.
unfoldable pub commit_vector : ℕ → Option VectorTable → Option VectorTable → Work → Outcome × Work
commit_vector file_id (some float) (some bin) w = (
  done,
  record w {
    file_embedding = some float;
    file_embedding_bin = some bin;
    embedding_queue = remove file_id w.embedding_queue;
  },
)
commit_vector file_id _ _ w = (sqlite, w)

unfoldable pub store : ℕ → List ℕ → Work → Outcome × Work
unfolding commit_vector to_blob quantize_bits
store file_id vector w =
    commit_vector file_id (replace_row 4 1 file_id (to_blob vector) w.file_embedding)
      (replace_row 1 8 file_id (quantize_bits vector) w.file_embedding_bin) w

unfoldable pub enqueue : ℕ → ℕ → Work → Option Work
unfolding enqueue_row
enqueue file_id at w =
    if has_row (some file_id) w.db.files
    then some (record w { embedding_queue = enqueue_row file_id at w.embedding_queue })
    else none

unfoldable pub pending : ℕ → Work → List ℕ
unfolding oldest_first
pending limit w = oldest_first limit w.embedding_queue

unfoldable pub record_attempt : ℕ → Work → Work
unfolding count_attempt
record_attempt file_id w = record w { embedding_queue = count_attempt file_id w.embedding_queue }

abbrev pub oversample_factor : ℕ
oversample_factor = 4

-- `saturating_mul` of `u32`
abbrev pub candidate_limit : ℕ → ℕ
candidate_limit limit =
    if ltb (limit * oversample_factor) 4294967296 then limit * oversample_factor else 4294967295

module _ ⦃float : Float64⦄ where
  -- `zip` ends with the shorter of the two.
  unfoldable pub sum_squares : List ℕ → List ℕ → float.F64 → float.F64
  sum_squares (stored ∷ vector) (q ∷ query) total =
      let diff = float.sub (float.from_f32 stored) (float.from_f32 q) in
      sum_squares vector query (float.add total (float.mul diff diff))
  sum_squares _ _ total = total

  unfoldable pub euclidean_distance : List ℕ → List ℕ → float.F64
  unfolding sum_squares from_blob
  euclidean_distance blob query = float.sqrt (sum_squares (from_blob blob) query float.zero_f64)

  -- The loop over the candidates; one without a vector is skipped.
  unfoldable pub rescore : Table (List ℕ) → List ℕ → List ℕ → List (ℕ × float.F64)
  unfolding euclidean_distance
  rescore rows query [] = []
  rescore rows query (id ∷ candidates) =
      let rest = rescore rows query candidates in
      elim (get id rows) [ none ↦ rest | some blob ↦ (id, euclidean_distance blob query) ∷ rest ]

  -- `sort_by`, which is stable.
  unfoldable pub insert_hit : ℕ × float.F64 → List (ℕ × float.F64) → List (ℕ × float.F64)
  insert_hit e [] = e ∷ []
  insert_hit e (x ∷ hits) =
      let rest = insert_hit e hits in if float.total_le e.1 x.1 then e ∷ x ∷ hits else x ∷ rest

  unfoldable pub sort_hits : List (ℕ × float.F64) → List (ℕ × float.F64)
  unfolding insert_hit
  sort_hits [] = []
  sort_hits (e ∷ hits) = insert_hit e (sort_hits hits)

  -- The part after the candidates: without any the second table is not read.
  unfoldable pub rank : Option VectorTable → List ℕ → ℕ → List ℕ → Option (List (ℕ × float.F64))
  unfolding rescore sort_hits
  rank t query limit [] = some []
  rank none query limit (id ∷ candidates) = none
  rank (some t) query limit (id ∷ candidates) =
      some (take limit (sort_hits (rescore t.rows query (id ∷ candidates))))

  -- `none` is a query on a table that is not there, or of another width, which `vec0` refuses.
  unfoldable pub search : ⦃vec : Vec0⦄ → List ℕ → ℕ → Work → Option (List (ℕ × float.F64))
  unfolding rank quantize_bits
  search ⦃vec⦄ query limit w = elim w.file_embedding_bin [
    | none ↦ none
    | some bin ↦
        let bits = quantize_bits query in
        let found =
          rank w.file_embedding query limit (vec.nearest bits (candidate_limit limit) bin.rows) in
        if 8 * length bits == bin.width then found else none
  ]
