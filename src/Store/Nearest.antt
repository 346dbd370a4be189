-- ===== src/Store/Nearest.antt =====
-- What `search` of crates/dafs-store/src/embeddings.rs returns.
use dafs.Prelude.{
  ℕ, zero, suc, ◌*◌, ◌≡◌, refl, true, inl, inr, Option, none, some, List, [], ◌∷◌, length, take,
  All, arith, Bool-cases, Option-cases, ◌==◌, eq_nat, nat_eqb_iff,
}
use mathlib.Core.List.{Perm}
use mathlib.Core.List.Perm
use dafs.HashMap.{get}
use dafs.Store.Tables.{Table}
use dafs.Store.Statements.{has_row}
use dafs.Store.Rows.{has_row-get}
use dafs.Store.Catalog.{EmbeddingConfig, VectorTable, Work}
use dafs.Store.Vectors.{quantize_bits, length-quantize_bits}
use dafs.Store.Embeddings.{
  Vec0, Float64, config, candidate_limit, euclidean_distance, rescore, insert_hit, sort_hits, rank,
  search,
}
use dafs.Store.Lockstep.{quantized, AreTables, IsLockstep, configured-tables}

module _ ⦃float : Float64⦄ where
  -- Closest first, by `total_cmp`.
  abbrev pub IsSorted : List (ℕ × float.F64) → Type 0
  IsSorted [] = Unit
  IsSorted (x ∷ hits) =
      All (λ (y : ℕ × float.F64). float.total_le x.1 y.1 ≡ true) hits × IsSorted hits

  -- The candidates, each with the distance of its stored vector to the query.
  abbrev pub AreScored : Table (List ℕ) → List ℕ → List ℕ → List (ℕ × float.F64) → Type 0
  AreScored rows query [] [] = Unit
  AreScored rows query (id ∷ ids) (x ∷ hits) =
      ((blob : List ℕ) × (get id rows ≡ some blob) × (x ≡ (id, euclidean_distance blob query)))
      × AreScored rows query ids hits
  AreScored rows query _ _ = ⊥

  All-insert_hit {κ} :
      (P : ℕ × float.F64 → Type κ) (e : ℕ × float.F64) (hits : List (ℕ × float.F64))
      → P e
      → All P hits
      → All P (insert_hit e hits)
  unfolding insert_hit
  All-insert_hit P e [] p h = (p, tt)
  All-insert_hit P e (x ∷ hits) p (q, h) = elim (Bool-cases (float.total_le e.1 x.1)) [
    | inl t ↦ rw t (p, (q, h))
    | inr t ↦ rw t (q, All-insert_hit P e hits p h)
  ]

  above-All :
      (a b : float.F64) (hits : List (ℕ × float.F64))
      → float.total_le a b ≡ true
      → All (λ (y : ℕ × float.F64). float.total_le b y.1 ≡ true) hits
      → All (λ (y : ℕ × float.F64). float.total_le a y.1 ≡ true) hits
  above-All a b [] l h = tt
  above-All a b (x ∷ hits) l (p, h) = (float.total_le_trans a b x.1 l p, above-All a b hits l h)

  insert_hit-IsSorted :
      (e : ℕ × float.F64) (hits : List (ℕ × float.F64))
      → IsSorted hits
      → IsSorted (insert_hit e hits)
  unfolding insert_hit
  insert_hit-IsSorted e [] h = (tt, tt)
  insert_hit-IsSorted e (x ∷ hits) (p, h) = elim (Bool-cases (float.total_le e.1 x.1)) [
    | inl t ↦ rw t ((t, above-All e.1 x.1 hits t p), (p, h))
    | inr t ↦
        let back : float.total_le x.1 e.1 ≡ true =
          ground (arith, float.total_le_total e.1 x.1, t) in
        rw t (
          All-insert_hit (λ (y : ℕ × float.F64). float.total_le x.1 y.1 ≡ true) e hits back p,
          insert_hit-IsSorted e hits h,
        )
  ]

  sort_hits-IsSorted : (hits : List (ℕ × float.F64)) → IsSorted (sort_hits hits)
  unfolding sort_hits
  sort_hits-IsSorted [] = tt
  sort_hits-IsSorted (e ∷ hits) = insert_hit-IsSorted e (sort_hits hits) (sort_hits-IsSorted hits)

  insert_hit-perm :
      (e : ℕ × float.F64) (hits : List (ℕ × float.F64)) → Perm (insert_hit e hits) (e ∷ hits)
  unfolding insert_hit
  insert_hit-perm e [] = Perm.refl (e ∷ [])
  insert_hit-perm e (x ∷ hits) = elim (Bool-cases (float.total_le e.1 x.1)) [
    | inl t ↦ rw t (Perm.refl (e ∷ x ∷ hits))
    | inr t ↦ rw t (Perm.trans (Perm.cons x (insert_hit-perm e hits)) (Perm.swap e x hits))
  ]

  sort_hits-perm : (hits : List (ℕ × float.F64)) → Perm (sort_hits hits) hits
  unfolding sort_hits
  sort_hits-perm [] = Perm.refl []
  sort_hits-perm (e ∷ hits) =
      Perm.trans (insert_hit-perm e (sort_hits hits)) (Perm.cons e (sort_hits-perm hits))

  rescore-AreScored :
      (rows : Table (List ℕ)) (query ids : List ℕ)
      → All (λ id. (blob : List ℕ) × (get id rows ≡ some blob)) ids
      → AreScored rows query ids (rescore rows query ids)
  unfolding rescore
  rescore-AreScored rows query [] h = tt
  rescore-AreScored rows query (id ∷ ids) ((blob, e), h) =
      rw (e, rescore) ((blob, e, refl), rescore-AreScored rows query ids h)

  take_nil : (n : ℕ) → ◌≡◌ {A = List (ℕ × float.F64)} [] (take n [])
  take_nil zero = refl
  take_nil (suc n) = refl

  -- The hits are the front of a list that holds every scored candidate as often as it stands among
  -- them and is sorted, closest first; they stop short of the limit only at the end of that list.
  abbrev pub IsRanking : Table (List ℕ) → List ℕ → ℕ → List ℕ → List (ℕ × float.F64) → Type 0
  IsRanking rows query limit candidates hits =
      (scored : List (ℕ × float.F64)) × (ordered : List (ℕ × float.F64)) × AreScored rows query
        candidates scored
      × Perm ordered scored
      × IsSorted ordered
      × (hits ≡ take limit ordered)

  rank-IsRanking :
      (t : VectorTable) (query : List ℕ) (limit : ℕ) (candidates : List ℕ)
      → All (λ id. (blob : List ℕ) × (get id t.rows ≡ some blob)) candidates
      → (hits : List (ℕ × float.F64)) × (rank (some t) query limit candidates ≡ some hits)
        × IsRanking t.rows query limit candidates hits
  unfolding rank
  rank-IsRanking t query limit [] h = ([], refl, ([], [], tt, Perm.refl [], tt, take_nil limit))
  rank-IsRanking t query limit (id ∷ ids) h =
      let found = rescore t.rows query (id ∷ ids) in
      (
        take limit (sort_hits found),
        refl,
        (
          found,
          sort_hits found,
          rescore-AreScored t.rows query (id ∷ ids) h,
          sort_hits-perm found,
          sort_hits-IsSorted found,
          refl,
        ),
      )

  module _ ⦃vec : Vec0⦄ where
    -- A search on these two tables.
    abbrev pub IsAnswer : List ℕ → ℕ → Option VectorTable → Option VectorTable → Work → Type 0
    IsAnswer query limit (some t) (some bin) w =
        (hits : List (ℕ × float.F64)) × (search query limit w ≡ some hits)
        × IsRanking t.rows query limit
            (vec.nearest (quantize_bits query) (candidate_limit limit) bin.rows) hits
    IsAnswer query limit _ _ w = ⊥

    stored_candidates :
        (t bin : VectorTable) (ids : List ℕ)
        → ((id : ℕ) → get id bin.rows ≡ quantized (get id t.rows))
        → All (λ id. has_row (some id) bin.rows ≡ true) ids
        → All (λ id. (blob : List ℕ) × (get id t.rows ≡ some blob)) ids
    stored_candidates t bin [] same h = tt
    stored_candidates t bin (id ∷ ids) same (p, h) =
        let (blob, e) = has_row-get id bin.rows p in
        let here : (b : List ℕ) × (get id t.rows ≡ some b) = elim (Option-cases (get id t.rows)) [
          | inl none_here ↦ absurd (ground (arith, e, same id, none_here))
          | inr found ↦ found
        ] in
        (here, stored_candidates t bin ids same h)

    search-IsAnswer_of :
        (query : List ℕ) (limit : ℕ) (c : EmbeddingConfig) (w : Work)
        (float' bin : Option VectorTable)
        → w.file_embedding ≡ float'
        → w.file_embedding_bin ≡ bin
        → length query ≡ c.dimensions
        → AreTables c float' bin
        → IsAnswer query limit float' bin w
    unfolding search
    search-IsAnswer_of query limit c w none _ ef eb d l = l
    search-IsAnswer_of query limit c w (some t) none ef eb d l = l
    search-IsAnswer_of query limit c w (some t) (some bin) ef eb d (wf, wb, same) =
        let ids = vec.nearest (quantize_bits query) (candidate_limit limit) bin.rows in
        let (hits, e, ranked) = rank-IsRanking t query limit ids (
          stored_candidates t bin ids same
            (vec.nearest_stored (quantize_bits query) (candidate_limit limit) bin.rows)) in
        let wide : (8 * length (quantize_bits query) == bin.width) ≡ true = ground (
          arith,
          length-quantize_bits query,
          d,
          wb,
          nat_eqb_iff (8 * length (quantize_bits query)) bin.width,
        ) in
        (hits, rw (eb, search, ef, wide) e, ranked)

    -- With the vector tables in lockstep and set up, and a query of the configured number of dimensions:
    -- `search` succeeds, and returns of the candidates that the quantised table names, each with the
    -- exact distance of its stored vector to the query, the `limit` closest, closest first, or all of
    -- them if there are not more.
    pub search-IsAnswer :
        (query : List ℕ) (limit : ℕ) (c : EmbeddingConfig) (w : Work)
        → IsLockstep w
        → config w ≡ some c
        → length query ≡ c.dimensions
        → IsAnswer query limit w.file_embedding w.file_embedding_bin w
    search-IsAnswer query limit c w l e d =
        search-IsAnswer_of query limit c w w.file_embedding w.file_embedding_bin refl refl d
          (configured-tables c w l e)
