-- ===== src/Tests/VectorRuns.antt =====
-- Runs of the vector tables, with an instance of what the model leaves to `sqlite-vec` and to `f64`.
use dafs.Prelude.{
  ℕ, zero, suc, ◌+◌, ◌-◌, ◌*◌, ◌≤◌, ◌≡◌, refl, true, ◌⊎◌, none, some, String, List, [], ◌∷◌, All,
  length, take, leb, arith, eq_nat, nat_eqb_iff,
}
use dafs.Store.Tables.{Table}
use dafs.Store.Statements.{ids, has_row}
use dafs.Store.Catalog.{EmbeddingConfig, Work, empty_work}
use dafs.Store.Vectors.{to_blob, quantize_bits}
use dafs.Store.Timeline.{no_metadata}
use dafs.Store.Catalog.{MetadataRow}
use dafs.Store.Facets.{doc_type, distinct_facets, IsCounted, distinct_facets-IsCounted}
use dafs.Store.Embeddings.{Vec0, Float64, mismatch, ensure_table, store, search}
use dafs.Store.Lockstep.{IsLockstep, store-IsLockstep}
use dafs.Store.Prepared.{ensure_table-again, ensure_table-IsLockstep}
use dafs.Store.Nearest.{IsAnswer, search-IsAnswer}

has_row-later :
    (id : ℕ) (r : List ℕ) (rows : Table (List ℕ)) (xs : List ℕ)
    → All (λ j. has_row (some j) rows ≡ true) xs
    → All (λ j. has_row (some j) ((id, r) ∷ rows) ≡ true) xs
has_row-later id r rows [] h = tt
has_row-later id r rows (x ∷ xs) (p, h) = (ground (arith, p), has_row-later id r rows xs h)

pub take-stored :
    (n : ℕ) (rows : Table (List ℕ)) → All (λ j. has_row (some j) rows ≡ true) (take n (ids rows))
take-stored zero rows = tt
take-stored (suc n) [] = tt
take-stored (suc n) ((id, r) ∷ rows) = (
  ground (arith, nat_eqb_iff id id),
  has_row-later id r rows (take n (ids rows)) (take-stored n rows),
)

pub length-take : (n : ℕ) (xs : List ℕ) → length (take n xs) ≤ n
length-take zero xs = omega arith
length-take (suc n) [] = omega arith
length-take (suc n) (x ∷ xs) = omega (arith, length-take n xs)

-- Every width is accepted, and the first rows are the nearest.
instance abbrev pub vec : Vec0
vec = record {
  accepts_float = λ width. true;
  accepts_bit = λ width. true;
  nearest = λ query limit rows. take limit (ids rows);
  nearest_stored = λ query limit rows. take-stored limit rows;
  nearest_limit = λ query limit rows. length-take limit (ids rows);
}

pub leb_total : (a b : ℕ) → (leb a b ≡ true) ⊎ (leb b a ≡ true)
leb_total a b = ground arith

pub leb_trans : (a b c : ℕ) → leb a b ≡ true → leb b c ≡ true → leb a c ≡ true
leb_trans a b c h k = ground (arith, h, k)

-- Natural numbers in place of floats.
instance abbrev pub float : Float64
float = record {
  F64 = ℕ;
  from_f32 = λ p. p;
  zero_f64 = 0;
  add = λ a b. a + b;
  sub = λ a b. (a - b) + (b - a);
  mul = λ a b. a * b;
  sqrt = λ a. a;
  total_le = leb;
  total_le_total = leb_total;
  total_le_trans = leb_trans;
}

abbrev pub model : EmbeddingConfig
model = record { model = "m"; dimensions = 3 }

-- The tables of a model with three dimensions.
abbrev pub prepared : Work
prepared = (ensure_table "m" 3 empty_work).1

prepared-IsLockstep : IsLockstep prepared
prepared-IsLockstep = ensure_table-IsLockstep "m" 3 empty_work tt

abbrev small : List ℕ
small = 1 ∷ 2147483649 ∷ 3 ∷ []

-- The signs of 1.4e-45, -1.4e-45 and 4.2e-45.
test_quantize_bits : quantize_bits small ≡ 5 ∷ []
unfolding quantize_bits
test_quantize_bits = refl

test_to_blob : to_blob (66051 ∷ []) ≡ 3 ∷ 2 ∷ 1 ∷ 0 ∷ []
unfolding to_blob
test_to_blob = refl

abbrev pub stored : Work
stored = (store 8 small (store 7 (1 ∷ 2 ∷ 5 ∷ []) prepared).1).1

test_search : search (1 ∷ 2 ∷ 4 ∷ []) 1 stored ≡ some ((7, 1) ∷ [])
unfolding search store ensure_table
test_search = refl

stored-IsLockstep : IsLockstep stored
stored-IsLockstep =
    store-IsLockstep 8 small (store 7 (1 ∷ 2 ∷ 5 ∷ []) prepared).1
      (omega arith, (omega arith, (omega arith, tt)))
      (store-IsLockstep 7 (1 ∷ 2 ∷ 5 ∷ []) prepared (omega arith, (omega arith, (omega arith, tt)))
        prepared-IsLockstep)

store-IsLockstep_example : IsLockstep (store 8 small prepared).1
store-IsLockstep_example =
    store-IsLockstep 8 small prepared (omega arith, (omega arith, (omega arith, tt)))
      prepared-IsLockstep

ensure_table-again_example : ensure_table "n" 3 prepared ≡ (
  mismatch (record {
    existing_model = "m";
    existing_dimensions = 3;
    requested_model = "n";
    requested_dimensions = 3;
  }),
  prepared,
)
unfolding ensure_table
ensure_table-again_example = ensure_table-again "m" "n" 3 3 empty_work refl

search-IsAnswer_example :
    IsAnswer (1 ∷ 2 ∷ 4 ∷ []) 1 stored.file_embedding stored.file_embedding_bin stored
unfolding store ensure_table
search-IsAnswer_example =
    search-IsAnswer (1 ∷ 2 ∷ 4 ∷ []) 1 model stored stored-IsLockstep refl refl

abbrev typed : String → MetadataRow
typed name = record {
  columns = record no_metadata { doc_type = some name };
  body_text = none;
  extracted_at_unix = 0;
  extractor_version = 1;
}

abbrev three_files : Work
three_files = record empty_work {
  file_metadata = (1, typed "pdf") ∷ (2, typed "text") ∷ (3, typed "text") ∷ [];
}

test_distinct_facets : distinct_facets doc_type 50 three_files ≡ ("text", 2) ∷ ("pdf", 1) ∷ []
unfolding distinct_facets
test_distinct_facets = refl

distinct_facets-IsCounted_example :
    IsCounted ("pdf" ∷ "text" ∷ "text" ∷ []) 1 (distinct_facets doc_type 1 three_files)
distinct_facets-IsCounted_example = distinct_facets-IsCounted doc_type 1 three_files
