-- ===== src/Store/Resolving.antt =====
-- From a path to its row and back: `ensure_dir_chain` against `resolve_path`.
use mathlib.Core.List.{append-nil}
use dafs.Prelude.{
  ℕ, ◌+◌, ◌≤◌, String, ◌≡◌, ◌≢◌, ◌∙◌, refl, ap, sym, subst, ◌++◌, true, Option, none, some, List,
  [], ◌∷◌, length, arith, eq_nat,
}
use dafs.FilePath.{FilePath}
use dafs.Store.Tables.{Db, Sqlite}
use dafs.Store.Exec.{Store, Result, ok, err, empty_path, bind_assoc}
use dafs.Store.Statements.{has_row}
use dafs.Store.Paths.{
  intern_dir, upsert_entry, normalised_components, dir_chain, ensure_dir_chain, max_depth, render,
  resolve_path,
}
use dafs.Store.Rows.{get-has_row}
use dafs.Store.WellFormed.{IsWell}
use dafs.Store.Interning.{intern_dir-Interned}
use dafs.Store.Growth.{Grows, Grows-refl, Grows-trans}
use dafs.Store.Entering.{upsert-Entered}
use dafs.Store.Spelling.{Spells, Spells-Grows, onto, resolve_path-Spells}

-- A chain of directories is there, from `parent` down these names.
record Chained (parent : Option ℕ) (names : List String) (s : Store)
    (out : Result (Option ℕ) × Store) : Type 0 where
  last : Option ℕ
  state : Store
  returns : out ≡ (ok last, state)
  well : IsWell state
  grows : Grows s.db state.db
  placed : has_row last state.db.files ≡ true
  spells :
      (above : List String) → Spells s.db parent above → Spells state.db last (onto names above)

module _ ⦃sql : Sqlite⦄ where
  dir_chain-Chained :
      (parent : Option ℕ) (names : List String) (s : Store)
      → IsWell s
      → has_row parent s.db.files ≡ true
      → Chained parent names s (dir_chain parent names s)
  unfolding dir_chain
  dir_chain-Chained parent [] s w placed = record {
    last = parent;
    state = s;
    returns = refl;
    well = w;
    grows = Grows-refl s.db;
    placed = placed;
    spells = λ above h. h;
  }
  dir_chain-Chained parent (name ∷ names) s w placed =
      let e =
        upsert-Entered parent name true none none s placed (intern_dir name)
          (intern_dir-Interned name s w) in
      let row = e.holds.row in
      let rest =
        dir_chain-Chained (some e.id) names e.state e.well
          (get-has_row e.id row e.state.db.files e.holds.found) in
      rw
        (← bind_assoc (intern_dir name) (λ c. upsert_entry parent c true none none)
          (λ id. dir_chain (some id) names) s)
        (rw (e.returns, rest.returns)
          (record {
            last = rest.last;
            state = rest.state;
            returns = refl;
            well = rest.well;
            grows = Grows-trans s.db e.state.db rest.state.db e.grows rest.grows;
            placed = rest.placed;
            spells = λ above h. rest.spells (name ∷ above) (
              e.id,
              row,
              refl,
              e.holds.found,
              e.holds.called,
              rw e.holds.under (Spells-Grows s.db e.state.db parent above e.grows h),
            );
          }))

some_eq : (a b : ℕ) → some a ≡ some b → a ≡ b
some_eq a b h = ground arith

length-onto : (xs ys : List String) → length (onto xs ys) ≡ length xs + length ys
length-onto [] ys = omega arith
length-onto (x ∷ xs) ys = omega (arith, length-onto xs (x ∷ ys))

onto-onto : (xs ys zs : List String) → onto (onto xs ys) zs ≡ onto ys (xs ++ zs)
onto-onto [] ys zs = refl
onto-onto (x ∷ xs) ys zs = onto-onto xs (x ∷ ys) zs

resolve_path-onto :
    (db : Db) (names up : List String) (last : Option ℕ)
    → onto names [] ≡ up
    → names ≢ []
    → Spells db last up
    → length names ≤ max_depth
    → (id : ℕ) × (last ≡ some id) × (resolve_path db id ≡ render names)
resolve_path-onto db [] [] last e some' s h = absurd (some' refl)
resolve_path-onto db (n ∷ names) [] last e some' s h =
    absurd (omega (arith, length-onto names (n ∷ []), ap length e))
resolve_path-onto db names (u ∷ up) last e some' (id, row, here, found, called, above) h = (
  id,
  here,
  resolve_path-Spells db id u up (id, row, refl, found, called, above)
        (omega (arith, length-onto names [], ap length e))
      ∙ ap render (sym (ap (λ l. onto l []) e) ∙ onto-onto names [] [] ∙ append-nil names),
)

-- What `ensure_dir_chain` leaves: a row that spells the names.
pub record Ensured (names : List String) (s : Store) (out : Result ℕ × Store) : Type 0 where
  pub id : ℕ
  pub state : Store
  pub returns : out ≡ (ok id, state)
  pub well : IsWell state
  pub grows : Grows s.db state.db
  pub placed : has_row (some id) state.db.files ≡ true
  pub spells : Spells state.db (some id) (onto names [])

module _ ⦃sql : Sqlite⦄ (dir : FilePath) (s : Store) where
  Spells-last :
      (db : Db) (names up : List String) (last : Option ℕ)
      → onto names [] ≡ up
      → names ≢ []
      → Spells db last up
      → (id : ℕ) × (last ≡ some id)
  Spells-last db [] [] last e some' h = absurd (some' refl)
  Spells-last db (n ∷ names) [] last e some' h =
      absurd (omega (arith, length-onto names (n ∷ []), ap length e))
  Spells-last db names (u ∷ up) last e some' (id, row, here, f, c, a) = (id, here)

  pub ensure_dir_chain-Ensured :
      IsWell s
      → normalised_components dir ≢ []
      → Ensured (normalised_components dir) s (ensure_dir_chain dir s)
  unfolding ensure_dir_chain
  ensure_dir_chain-Ensured w some' =
      let names = normalised_components dir in
      let c = dir_chain-Chained none names s w refl in
      let spells = c.spells [] refl in
      let (id, here) = Spells-last c.state.db names (onto names []) c.last refl some' spells in
      rw c.returns (
        rw here (record {
          id = id;
          state = c.state;
          returns = refl;
          well = c.well;
          grows = c.grows;
          placed = subst (λ o. has_row o c.state.db.files ≡ true) here c.placed;
          spells = subst (λ o. Spells c.state.db o (onto names [])) here spells;
        }))

  -- On a well-formed store, for a path with one to 256 components once `.` and `..` are resolved,
  -- `ensure_dir_chain` succeeds, keeps every row, name and event, and `resolve_path` reads the same
  -- components back from the id that it returned.
  pub ensure_dir_chain-resolve_path :
      IsWell s
      → normalised_components dir ≢ []
      → length (normalised_components dir) ≤ max_depth
      → (id : ℕ) × (s' : Store) × (ensure_dir_chain dir s ≡ (ok id, s'))
        × IsWell s'
        × Grows s.db s'.db
        × (resolve_path s'.db id ≡ render (normalised_components dir))
  ensure_dir_chain-resolve_path w some' h =
      let names = normalised_components dir in
      let e = ensure_dir_chain-Ensured w some' in
      let (id, here, path) =
        resolve_path-onto e.state.db names (onto names []) (some e.id) refl some' e.spells h in
      (
        e.id,
        e.state,
        e.returns,
        e.well,
        e.grows,
        ap (resolve_path e.state.db) (some_eq e.id id here) ∙ path,
      )

  -- A path with no components is refused, and nothing is written.
  pub ensure_dir_chain-empty :
      normalised_components dir ≡ [] → ensure_dir_chain dir s ≡ (err empty_path, s)
  unfolding ensure_dir_chain dir_chain
  ensure_dir_chain-empty e = rw e refl
