-- ===== src/Store/Lockstep.antt =====
-- The two `vec0` tables of crates/dafs-store/src/embeddings.rs hold the same files.
use dafs.Prelude.{
  ℕ, ◌*◌, ◌≡◌, ◌∙◌, refl, sym, ap, ◌↔◌, true, inl, inr, Option, none, some, List, length, All,
  arith, Bool-cases, if◌then◌else◌, ◌==◌, eq_nat, eq_string, nat_eqb_iff,
}
use dafs.HashMap.{get, insert, remove, get-insert, get-remove}
use dafs.Store.Tables.{Table}
use dafs.Store.Catalog.{EmbeddingConfig, VectorTable, Work}
use dafs.Store.Vectors.{
  to_blob, from_blob, quantize_bits, IsF32, from_blob-to_blob, length-to_blob, length-quantize_bits,
}
use dafs.Store.Embeddings.{done, bit_dimensions, config, replace_row, commit_vector, store}

-- The quantized blob of a stored one.
abbrev pub quantized : Option (List ℕ) → Option (List ℕ)
quantized none = none
quantized (some blob) = some (quantize_bits (from_blob blob))

abbrev pub AreTables : EmbeddingConfig → Option VectorTable → Option VectorTable → Type 0
AreTables c (some float) (some bin) =
    (float.width ≡ c.dimensions)
    × (bin.width ≡ bit_dimensions c.dimensions)
    × ((id : ℕ) → get id bin.rows ≡ quantized (get id float.rows))
AreTables c _ _ = ⊥

abbrev pub AreLockstep : Option EmbeddingConfig → Option VectorTable → Option VectorTable → Type 0
AreLockstep none none none = Unit
AreLockstep none _ _ = ⊥
AreLockstep (some c) float bin = AreTables c float bin

-- Both tables are there, as wide as the configuration says, and hold the same files, each row of the
-- second the signs of that of the first; or none of the three is there.
abbrev pub IsLockstep : Work → Type 0
IsLockstep w = AreLockstep w.embedding_config w.file_embedding w.file_embedding_bin

get-replaced :
    (id j : ℕ) (blob : List ℕ) (rows : Table (List ℕ))
    → get j (insert id blob (remove id rows)) ≡ (if id == j then some blob else get j rows)
get-replaced id j blob rows =
    get-insert id j blob (remove id rows)
    ∙ ground (arith, get-remove id j rows, Bool-cases (id == j))

replaced-rows :
    (id : ℕ) (vector : List ℕ) (float bin : Table (List ℕ))
    → All IsF32 vector
    → ((j : ℕ) → get j bin ≡ quantized (get j float))
    → (j : ℕ)
    → get j (insert id (quantize_bits vector) (remove id bin))
      ≡ quantized (get j (insert id (to_blob vector) (remove id float)))
replaced-rows id vector float bin h same j =
    get-replaced id j (quantize_bits vector) bin
    ∙ (step ∙ sym (ap quantized (get-replaced id j (to_blob vector) float)))
  where
    step :
        (if id == j then some (quantize_bits vector) else get j bin)
        ≡ quantized (if id == j then some (to_blob vector) else get j float)
    step = elim (Bool-cases (id == j)) [
      | inl e ↦ rw e (ap (λ v. some (quantize_bits v)) (sym (from_blob-to_blob vector h)))
      | inr e ↦ rw e (same j)
    ]

replaced_row : ℕ → List ℕ → VectorTable → VectorTable
replaced_row id blob t = record t { rows = insert id blob (remove id t.rows) }

replace_row-some :
    (unit per id : ℕ) (blob : List ℕ) (t new : VectorTable)
    → replace_row unit per id blob (some t) ≡ some new
    → (new ≡ replaced_row id blob t) × (per * length blob ≡ unit * t.width)
unfolding replaced_row
replace_row-some unit per id blob t new e =
    elim (Bool-cases (per * length blob == unit * t.width)) [
      | inl fits ↦
          (ground (arith, e, fits), (nat_eqb_iff (per * length blob) (unit * t.width)).0 fits)
      | inr off ↦ absurd (ground (arith, e, off))
    ]

replaced-AreLockstep :
    (id : ℕ) (vector : List ℕ) (c : Option EmbeddingConfig) (float bin : Option VectorTable)
    (float' bin' : VectorTable)
    → All IsF32 vector
    → AreLockstep c float bin
    → replace_row 4 1 id (to_blob vector) float ≡ some float'
    → replace_row 1 8 id (quantize_bits vector) bin ≡ some bin'
    → AreLockstep c (some float') (some bin')
unfolding replaced_row
replaced-AreLockstep id vector none none none f b h l ef eb = absurd (ground (arith, ef))
replaced-AreLockstep id vector none (some _) _ f b h l ef eb = absurd l
replaced-AreLockstep id vector none none (some _) f b h l ef eb = absurd l
replaced-AreLockstep id vector (some c) none _ f b h l ef eb = absurd l
replaced-AreLockstep id vector (some c) (some _) none f b h l ef eb = absurd l
replaced-AreLockstep id vector (some c) (some float) (some bin) f b h (wf, wb, same) ef eb =
    let (nf, _) = replace_row-some 4 1 id (to_blob vector) float f ef in
    let (nb, _) = replace_row-some 1 8 id (quantize_bits vector) bin b eb in
    rw (nf, nb) (wf, wb, replaced-rows id vector float.rows bin.rows h same)

commit_vector-IsLockstep :
    (id : ℕ) (float bin : Option VectorTable) (w : Work)
    → IsLockstep w
    → ((f b : VectorTable)
        → float ≡ some f
        → bin ≡ some b
        → AreLockstep w.embedding_config (some f) (some b))
    → IsLockstep (commit_vector id float bin w).1
unfolding commit_vector
commit_vector-IsLockstep id (some f) (some b) w h k = k f b refl refl
commit_vector-IsLockstep id (some f) none w h k = h
commit_vector-IsLockstep id none b w h k = h

-- `store` keeps the two vector tables in lockstep, whatever its result, where the vector is one of
-- 32-bit floats.
pub store-IsLockstep :
    (id : ℕ) (vector : List ℕ) (w : Work)
    → All IsF32 vector
    → IsLockstep w
    → IsLockstep (store id vector w).1
unfolding store
store-IsLockstep id vector w h l =
    commit_vector-IsLockstep id (replace_row 4 1 id (to_blob vector) w.file_embedding)
      (replace_row 1 8 id (quantize_bits vector) w.file_embedding_bin) w l
      (λ f b ef eb.
        replaced-AreLockstep id vector w.embedding_config w.file_embedding w.file_embedding_bin f b
          h l ef eb)

fits-float :
    (vector : List ℕ) (width : ℕ)
    → ((1 * length (to_blob vector) == 4 * width) ≡ true) ↔ (length vector ≡ width)
fits-float vector width =
    ground (arith, length-to_blob vector, nat_eqb_iff (1 * length (to_blob vector)) (4 * width))

fits-bin :
    (vector : List ℕ) (d : ℕ)
    → length vector ≡ d
    → (8 * length (quantize_bits vector) == 1 * bit_dimensions d) ≡ true
fits-bin vector d e = ground (
  arith,
  length-quantize_bits vector,
  e,
  nat_eqb_iff (8 * length (quantize_bits vector)) (1 * bit_dimensions d),
)

store_iff-tables :
    (id : ℕ) (vector : List ℕ) (c : EmbeddingConfig) (float bin : Option VectorTable) (w : Work)
    → AreTables c float bin
    → ((commit_vector id
          (replace_row 4 1 id (to_blob vector) float)
          (replace_row 1 8 id (quantize_bits vector) bin)
          w).0
        ≡ done)
      ↔ (length vector ≡ c.dimensions)
unfolding commit_vector
store_iff-tables id vector c none _ w l = absurd l
store_iff-tables id vector c (some _) none w l = absurd l
store_iff-tables id vector c (some float) (some bin) w (wf, wb, same) =
    let fit = fits-float vector float.width in
    elim (Bool-cases (1 * length (to_blob vector) == 4 * float.width)) [
      | inl e ↦
          let dims : length vector ≡ c.dimensions = fit.0 e ∙ wf in
          let wide : (8 * length (quantize_bits vector) == 1 * bin.width) ≡ true =
            rw wb (fits-bin vector c.dimensions dims) in
          rw (e, wide, commit_vector) ((λ _. dims), (λ _. refl))
      | inr e ↦
          rw (e, commit_vector)
            (
              (λ bad. ground (arith, bad)),
              (λ dims. absurd (ground (arith, e, fit.1 (dims ∙ sym wf)))),
            )
    ]

pub configured-tables :
    (c : EmbeddingConfig) (w : Work)
    → IsLockstep w
    → config w ≡ some c
    → AreTables c w.file_embedding w.file_embedding_bin
configured-tables c w l e = rw e at l

-- With the vector tables in lockstep and set up: `store` succeeds exactly on a vector of the configured
-- number of dimensions.
pub store_iff :
    (id : ℕ) (vector : List ℕ) (c : EmbeddingConfig) (w : Work)
    → IsLockstep w
    → config w ≡ some c
    → ((store id vector w).0 ≡ done) ↔ (length vector ≡ c.dimensions)
unfolding store
store_iff id vector c w l e =
    store_iff-tables id vector c w.file_embedding w.file_embedding_bin w (configured-tables c w l e)
