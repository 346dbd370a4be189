-- ===== src/Scan/Rollback.antt =====
-- The interner across a rollback.
use dafs.Prelude.{
  ℕ, String, false, inl, inr, Bool-cases, ◌≡◌, ◌∙◌, refl, ap, none, some, ==_refl, eq_nat,
  eq_string,
}
use dafs.HashMap.{get, get-insert}
use dafs.Store.Tables.{Sqlite}
use dafs.Store.Exec.{Store, ok}
use dafs.Store.Statements.{ids, component_id_of, insert_component}
use dafs.Store.Rows.{get-rowid}
use dafs.Store.Names.{component_id_of-unused}
use dafs.Store.Paths.{intern_dir, lookup_or_insert, cached}
use dafs.Scan.Batches.{Scan, begin, rollback}

module _ ⦃sql : Sqlite⦄ where
  -- A scan that begins a transaction and interns a name.
  abbrev pub interned : String → Scan → Scan
  interned name c = let c1 = begin c in record c1 { store = (intern_dir name c1.store).1 }

  -- A name that is new to the interner: it gets the id of a row that was not there, and is cached.
  intern_dir-new :
      (name : String) (s : Store)
      → get name s.cache ≡ none
      → component_id_of name s.db.path_components ≡ none
      → (id : ℕ) × ((intern_dir name s).0 ≡ ok id)
        × (get name (intern_dir name s).1.cache ≡ some id)
        × (get id s.db.path_components ≡ none)
  unfolding intern_dir lookup_or_insert cached insert_component
  intern_dir-new name s miss absent =
      let id = sql.rowid (ids s.db.path_components) in
      (
        id,
        rw
            (
              miss,
              intern_dir,
              absent,
              lookup_or_insert,
              component_id_of-unused name s.db.path_components absent,
            )
            refl,
        rw
            (
              miss,
              intern_dir,
              absent,
              lookup_or_insert,
              component_id_of-unused name s.db.path_components absent,
            )
            (get-insert name name id _ ∙ rw (==_refl name) refl),
        get-rowid s.db.path_components,
      )

  intern_dir-cached :
      (name : String) (id : ℕ) (s : Store)
      → get name s.cache ≡ some id
      → intern_dir name s ≡ (ok id, s)
  unfolding intern_dir
  intern_dir-cached name id s hit = rw (hit, intern_dir) refl

  begin-store : (c : Scan) → (begin c).store ≡ c.store
  unfolding begin
  begin-store c = elim (Bool-cases c.tx_open) [ inl e ↦ rw e refl | inr e ↦ rw e refl ]

  begin-committed : (c : Scan) → c.tx_open ≡ false → (begin c).committed ≡ (begin c).store.db
  unfolding begin
  begin-committed c closed = rw closed refl

  -- A name that neither the cache nor the tables have is interned in a transaction that is then rolled
  -- back: interning it again succeeds with the id of before and writes nothing, and no row of the tables
  -- has that id.
  pub rollback-intern_dir :
      (name : String) (c : Scan)
      → c.tx_open ≡ false
      → get name c.store.cache ≡ none
      → component_id_of name c.store.db.path_components ≡ none
      → (id : ℕ) × ((intern_dir name (begin c).store).0 ≡ ok id)
        × (intern_dir name (rollback (interned name c)).store
            ≡ (ok id, (rollback (interned name c)).store))
        × (get id (rollback (interned name c)).store.db.path_components ≡ none)
  rollback-intern_dir name c closed miss absent =
      let same = begin-store c in
      let (id, first, hit, free) =
        intern_dir-new name (begin c).store (ap (λ s. get name s.cache) same ∙ miss)
          (ap (λ s. component_id_of name s.db.path_components) same ∙ absent) in
      (
        id,
        first,
        intern_dir-cached name id (rollback (interned name c)).store hit,
        ap (λ db. get id db.path_components) (begin-committed c closed) ∙ free,
      )
