-- ===== src/Store/Interning.antt =====
-- Interning: one id for a name, whatever the cache holds.
use dafs.Prelude.{
  ◌⊎◌, ℕ, ◌+◌, ◌≤◌, String, ◌≡◌, ◌∙◌, refl, ap, some, [], ◌∷◌, length, arith, Option-cases, inl,
  inr, eq_nat, eq_string,
}
use dafs.HashMap.{HashMap, get, insert, get-insert}
use dafs.Store.Tables.{Sqlite}
use dafs.Store.Exec.{Store, Result, ok, continue}
use dafs.Store.Statements.{component_id_of}
use dafs.Store.Paths.{cache_capacity, remember, cached, lookup_or_insert, intern_dir, intern_leaf}
use dafs.Store.WellFormed.{IsWell}
use dafs.Store.Names.{
  named, component_id_of-In, component_id_of-absent, Interned, Interned-same,
  lookup_or_insert-Interned,
}

length-insert-le :
    (name : String) (id : ℕ) (m : HashMap String ℕ) → length (insert name id m) ≤ length m + 1
length-insert-le name id [] = omega arith
length-insert-le name id ((j, v) ∷ m) = ground (arith, length-insert-le name id m)

length-remember :
    (name : String) (id : ℕ) (m : HashMap String ℕ)
    → length m ≤ cache_capacity
    → length (remember name id m) ≤ cache_capacity
length-remember name id m h = ground (arith, length-insert-le name id m)

get-remember :
    (name other : String) (id j : ℕ) (m : HashMap String ℕ)
    → get other (remember name id m) ≡ some j
    → ((name ≡ other) × (id ≡ j)) ⊎ (get other m ≡ some j)
get-remember name other id j m h =
    ground
      (arith, get-insert name other id m, get-insert name other id [], eq_string.eqb_iff name other)

remember-IsWell :
    (name : String) (s : Store) (id : ℕ)
    → IsWell s
    → get id s.db.path_components ≡ some (named name)
    → IsWell (record s { cache = remember name id s.cache })
remember-IsWell name s id w row = record {
  tables = w.tables;
  cached_right = λ other j h. elim (get-remember name other id j s.cache h) [
    | inl (e, same) ↦ ground arith
    | inr old ↦ w.cached_right other j old
  ];
  bounded = length-remember name id s.cache w.bounded;
}

cached-Interned :
    (name : String) (s : Store) (out : Result ℕ × Store)
    → Interned name s out
    → Interned name s (continue out.0 (cached name) out.1)
unfolding cached
cached-Interned name s out i = rw i.returns (record {
  id = i.id;
  state = record i.state { cache = remember name i.id i.state.cache };
  returns = refl;
  row = i.row;
  well = remember-IsWell name i.state i.id i.well i.row;
  files = i.files;
  events = i.events;
  kept = i.kept;
  rows_kept = i.rows_kept;
})

module _ ⦃sql : Sqlite⦄ (name : String) (s : Store) (w : IsWell s) where
  -- On a well-formed store `intern_dir` succeeds: it returns the id of the row of the name, keeps every
  -- row and the other tables, and the store stays well-formed, the cache within its capacity.
  pub intern_dir-Interned : Interned name s (intern_dir name s)
  unfolding intern_dir
  intern_dir-Interned = elim (Option-cases (get name s.cache)) [
    | inl miss ↦
        rw (miss, intern_dir)
          (cached-Interned name s (lookup_or_insert name s) (lookup_or_insert-Interned name s w))
    | inr (id, hit) ↦ rw (hit, intern_dir) (Interned-same name s id w (w.cached_right name id hit))
  ]

  -- `intern_leaf` too.
  pub intern_leaf-Interned : Interned name s (intern_leaf name s)
  unfolding intern_leaf
  intern_leaf-Interned = elim (Option-cases (get name s.cache)) [
    | inl miss ↦ rw (miss, intern_leaf) (lookup_or_insert-Interned name s w)
    | inr (id, hit) ↦ rw (hit, intern_leaf) (Interned-same name s id w (w.cached_right name id hit))
  ]

component_id_of-row :
    (name : String) (id : ℕ) (s : Store)
    → IsWell s
    → get id s.db.path_components ≡ some (named name)
    → component_id_of name s.db.path_components ≡ some id
component_id_of-row name id s w row =
    elim (Option-cases (component_id_of name s.db.path_components)) [
      | inl absent ↦
          absurd (component_id_of-absent name s.db.path_components id (named name) absent row refl)
      | inr (j, found) ↦
          found
          ∙ ap some (
              w.names_once j id (named name) (named name)
                (component_id_of-In name s.db.path_components j w.components_once found) row refl)
    ]

module _ ⦃sql : Sqlite⦄ (name : String) (id : ℕ) (s : Store) (w : IsWell s)
    (row : get id s.db.path_components ≡ some (named name)) where
  known-cached : (j : ℕ) → get name s.cache ≡ some j → j ≡ id
  known-cached j hit =
      w.names_once j id (named name) (named name) (w.cached_right name j hit) row refl

  lookup_or_insert-known : lookup_or_insert name s ≡ (ok id, s)
  unfolding lookup_or_insert
  lookup_or_insert-known = rw (component_id_of-row name id s w row, lookup_or_insert)

  -- The name of a row is interned without a write to the tables.
  pub intern_dir-known : ((intern_dir name s).0 ≡ ok id) × ((intern_dir name s).1.db ≡ s.db)
  unfolding intern_dir cached
  intern_dir-known = elim (Option-cases (get name s.cache)) [
    | inl miss ↦ rw (miss, intern_dir, lookup_or_insert-known) (refl, refl)
    | inr (j, hit) ↦ rw (hit, intern_dir) (ap ok (known-cached j hit), refl)
  ]

  pub intern_leaf-known : ((intern_leaf name s).0 ≡ ok id) × ((intern_leaf name s).1.db ≡ s.db)
  unfolding intern_leaf
  intern_leaf-known = elim (Option-cases (get name s.cache)) [
    | inl miss ↦ rw (miss, intern_leaf, lookup_or_insert-known) (refl, refl)
    | inr (j, hit) ↦ rw (hit, intern_leaf) (ap ok (known-cached j hit), refl)
  ]
