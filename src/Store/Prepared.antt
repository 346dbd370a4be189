-- ===== src/Store/Prepared.antt =====
-- `ensure_table` of crates/dafs-store/src/embeddings.rs, at every start of a daemon.
use dafs.Prelude.{
  ℕ, String, ◌≡◌, ◌∙◌, refl, ap, Bool, true, false, inl, inr, Option, none, some, [], arith,
  Bool-cases, Option-cases, ◌&&◌, if◌then◌else◌, ◌==◌, eq_nat, eq_string, nat_eqb_iff,
}
use dafs.Store.Catalog.{EmbeddingConfig, VectorTable, Work}
use dafs.Store.Vectors.{}
use dafs.Store.Embeddings.{
  Vec0, done, mismatch, bit_dimensions, create_table, config, reuse, commit_tables, ensure_table,
}
use dafs.Store.Lockstep.{AreTables, IsLockstep}

create_table-some :
    (f : Bool) (width : ℕ) (t : Option VectorTable) (new : VectorTable)
    → create_table f width t ≡ some new
    → new ≡ record { width = width; rows = [] }
create_table-some true width none new e = ground (arith, e)
create_table-some true width (some t) new e = absurd (ground (arith, e))
create_table-some false width t new e = absurd (ground (arith, e))

created-AreTables :
    (c : EmbeddingConfig) (f b : Bool) (float bin : Option VectorTable) (float' bin' : VectorTable)
    → create_table f c.dimensions float ≡ some float'
    → create_table b (bit_dimensions c.dimensions) bin ≡ some bin'
    → AreTables c (some float') (some bin')
created-AreTables c f b float bin float' bin' ef eb =
    rw
      (
        create_table-some f c.dimensions float float' ef,
        create_table-some b (bit_dimensions c.dimensions) bin bin' eb,
      )
      (refl, refl, λ id. refl)

commit_tables-IsLockstep :
    (c : EmbeddingConfig) (float bin : Option VectorTable) (w : Work)
    → IsLockstep w
    → ((f b : VectorTable) → float ≡ some f → bin ≡ some b → AreTables c (some f) (some b))
    → IsLockstep (commit_tables c float bin w).1
unfolding commit_tables
commit_tables-IsLockstep c (some f) (some b) w h k = k f b refl refl
commit_tables-IsLockstep c (some f) none w h k = h
commit_tables-IsLockstep c none b w h k = h

commit_tables-config :
    (c : EmbeddingConfig) (float bin : Option VectorTable) (w : Work)
    → (commit_tables c float bin w).0 ≡ done
    → config (commit_tables c float bin w).1 ≡ some c
unfolding commit_tables
commit_tables-config c (some f) (some b) w e = refl
commit_tables-config c (some f) none w e = absurd (ground (arith, e))
commit_tables-config c none b w e = absurd (ground (arith, e))

reuse-done :
    (c : EmbeddingConfig) (model : String) (d : ℕ)
    → reuse c model d ≡ done
    → c ≡ record { model = model; dimensions = d }
reuse-done c model d e = elim (Bool-cases (c.model == model)) [
  | inl m ↦ elim (Bool-cases (c.dimensions == d)) [
    | inl n ↦ cc ((eq_string.eqb_iff c.model model).0 m, (nat_eqb_iff c.dimensions d).0 n)
    | inr n ↦ absurd (ground (arith, e, m, n))
  ]
  | inr m ↦ absurd (ground (arith, e, m))
]

module _ ⦃vec : Vec0⦄ where
  -- `ensure_table` that succeeds leaves the configuration that it was asked for.
  pub ensure_table-config :
      (model : String) (d : ℕ) (w : Work)
      → (ensure_table model d w).0 ≡ done
      → config (ensure_table model d w).1 ≡ some (record { model = model; dimensions = d })
  unfolding ensure_table
  ensure_table-config model d w ok = elim (Option-cases w.embedding_config) [
    | inl e ↦
        rw (e, ensure_table)
          (commit_tables-config (record { model = model; dimensions = d })
            (create_table (vec.accepts_float d) d w.file_embedding)
            (create_table (vec.accepts_bit (bit_dimensions d)) (bit_dimensions d)
              w.file_embedding_bin)
            w (rw (e, ensure_table) at ok))
    | inr (c, e) ↦
        rw (e, ensure_table) (e ∙ ap some (reuse-done c model d (rw (e, ensure_table) at ok)))
  ]

  ensure_table-existing :
      (model other : String) (d e : ℕ) (w : Work)
      → config w ≡ some (record { model = model; dimensions = d })
      → ensure_table other e w ≡ (reuse (record { model = model; dimensions = d }) other e, w)
  unfolding ensure_table
  ensure_table-existing model other d e w set =
      rw (set, ensure_table)
        (ap
          (λ o. (
            reuse (record { model = model; dimensions = d }) other e,
            record w { embedding_config = o },
          ))
          set)

  -- `ensure_table` keeps the vector tables in lockstep, whatever its result.
  pub ensure_table-IsLockstep :
      (model : String) (d : ℕ) (w : Work) → IsLockstep w → IsLockstep (ensure_table model d w).1
  unfolding ensure_table
  ensure_table-IsLockstep model d w l = elim (Option-cases w.embedding_config) [
    | inl e ↦
        let c : EmbeddingConfig = record { model = model; dimensions = d } in
        rw (e, ensure_table)
          (commit_tables-IsLockstep c (create_table (vec.accepts_float d) d w.file_embedding)
            (create_table (vec.accepts_bit (bit_dimensions d)) (bit_dimensions d)
              w.file_embedding_bin)
            w l
            (λ f b.
              created-AreTables c (vec.accepts_float d) (vec.accepts_bit (bit_dimensions d))
                w.file_embedding w.file_embedding_bin f b))
    | inr (c, e) ↦ rw (e, ensure_table) l
  ]

  -- Once `ensure_table` has succeeded, a second call with the same model and width succeeds, one with
  -- another model or width is refused with both named, and neither changes anything.
  pub ensure_table-again :
      (model other : String) (d e : ℕ) (w : Work)
      → (ensure_table model d w).0 ≡ done
      → ensure_table other e (ensure_table model d w).1 ≡ (
        (if (model == other) && (d == e)
            then done
            else mismatch (record {
              existing_model = model;
              existing_dimensions = d;
              requested_model = other;
              requested_dimensions = e;
            })),
        (ensure_table model d w).1,
      )
  ensure_table-again model other d e w ok =
      ensure_table-existing model other d e (ensure_table model d w).1
        (ensure_table-config model d w ok)
      ∙ ap (λ o. (o, (ensure_table model d w).1))
          (ground (arith, Bool-cases (model == other), Bool-cases (d == e)))
