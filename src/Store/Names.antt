-- ===== src/Store/Names.antt =====
-- The table of names, without the cache.
use dafs.Prelude.{
  ℕ, String, ◌≡◌, ◌≢◌, ◌∙◌, refl, true, false, Option, none, some, [], ◌∷◌, any, arith,
  if◌then◌else◌, Bool-cases, Option-cases, inl, inr, ◌==◌, eq_nat, nat_eqb_iff, eq_string,
}
use dafs.HashMap.{get, insert, Distinct, get-insert, insert-Distinct}
use dafs.Store.Tables.{Table, ComponentRow, Db, Sqlite}
use dafs.Store.Exec.{Store, Result, ok}
use dafs.Store.Statements.{ids, has_row, component_id_of, insert_component}
use dafs.Store.Paths.{lookup_or_insert}
use dafs.Store.Rows.{get-rowid, has_row-insert}
use dafs.Store.WellFormed.{IsWellDb, IsWell}

abbrev pub named : String → ComponentRow
named name = record { name = name }

pub component_id_of-In :
    (name : String) (t : Table ComponentRow) (id : ℕ)
    → Distinct t
    → component_id_of name t ≡ some id
    → get id t ≡ some (named name)
unfolding component_id_of
component_id_of-In name [] id d h = cc
component_id_of-In name ((j, c) ∷ t) id d h = elim (Bool-cases (c.name == name)) [
  | inl e ↦ ground (arith, eq_string.eqb_iff c.name name, nat_eqb_iff j id)
  | inr e ↦
      let found = component_id_of-In name t id d.1 (rw e at h) in
      ground (arith, nat_eqb_iff j id, found, d.0)
]

pub component_id_of-absent :
    (name : String) (t : Table ComponentRow) (id : ℕ) (c : ComponentRow)
    → component_id_of name t ≡ none
    → get id t ≡ some c
    → c.name ≢ name
unfolding component_id_of
component_id_of-absent name [] id c h g = cc
component_id_of-absent name ((j, d) ∷ t) id c h g =
    ground (arith, eq_string.eqb_iff d.name name, component_id_of-absent name t id c)

-- The unique index on names lets a name in that the query did not find.
pub component_id_of-unused :
    (name : String) (t : Table ComponentRow)
    → component_id_of name t ≡ none
    → any (λ e. e.1.name == name) t ≡ false
unfolding component_id_of
component_id_of-unused name [] h = refl
component_id_of-unused name ((j, d) ∷ t) h = ground (arith, component_id_of-unused name t)

-- What a call of the interner leaves: an id whose row has the name, every row that was there, and
-- the other tables as they were.
pub record Interned (name : String) (s : Store) (out : Result ℕ × Store) : Type 0 where
  pub id : ℕ
  pub state : Store
  pub returns : out ≡ (ok id, state)
  pub row : get id state.db.path_components ≡ some (named name)
  pub well : IsWell state
  pub files : state.db.files ≡ s.db.files
  pub events : state.db.events ≡ s.db.events
  pub kept :
      (o : Option ℕ)
      → has_row o s.db.path_components ≡ true
      → has_row o state.db.path_components ≡ true
  pub rows_kept :
      (i : ℕ) (c : ComponentRow)
      → get i s.db.path_components ≡ some c
      → get i state.db.path_components ≡ some c

pub Interned-same :
    (name : String) (s : Store) (id : ℕ)
    → IsWell s
    → get id s.db.path_components ≡ some (named name)
    → Interned name s (ok id, s)
Interned-same name s id w row = record {
  id = id;
  state = s;
  returns = refl;
  row = row;
  well = w;
  files = refl;
  events = refl;
  kept = λ o h. h;
  rows_kept = λ i c h. h;
}

module _ ⦃sql : Sqlite⦄ (name : String) (s : Store) (w : IsWell s) where
  abbrev fresh : ℕ
  fresh = sql.rowid (ids s.db.path_components)

  abbrev with_name : Db
  with_name = record s.db { path_components = insert fresh (named name) s.db.path_components }

  get-with_name :
      (i : ℕ)
      → get i with_name.path_components
        ≡ (if fresh == i then some (named name) else get i s.db.path_components)
  get-with_name i = get-insert fresh i (named name) s.db.path_components

  with_name-kept :
      (o : Option ℕ)
      → has_row o s.db.path_components ≡ true
      → has_row o with_name.path_components ≡ true
  with_name-kept o = has_row-insert o fresh (named name) s.db.path_components

  with_name-IsWellDb : component_id_of name s.db.path_components ≡ none → IsWellDb with_name
  with_name-IsWellDb absent = record {
    components_once = insert-Distinct fresh (named name) s.db.path_components w.components_once;
    files_once = w.files_once;
    names_once = λ i j a b ha hb e. ground (
      arith,
      get-with_name i,
      get-with_name j,
      nat_eqb_iff fresh i,
      nat_eqb_iff fresh j,
      w.names_once i j a b,
      component_id_of-absent name s.db.path_components i a absent,
      component_id_of-absent name s.db.path_components j b absent,
    );
    linked = λ i r h. let (p, c) = w.linked i r h in (p, with_name-kept (some r.component_id) c);
    live_once = w.live_once;
    logged =
        λ i e h. let (f, p, c) = w.logged i e h in (f, p, with_name-kept e.prev_component_id c);
  }

  with_name-cached :
      (other : String) (id : ℕ)
      → get other s.cache ≡ some id
      → get id with_name.path_components ≡ some (named other)
  with_name-cached other id h = ground (
    arith,
    get-with_name id,
    nat_eqb_iff fresh id,
    w.cached_right other id h,
    get-rowid s.db.path_components,
  )

  pub lookup_or_insert-Interned : Interned name s (lookup_or_insert name s)
  unfolding lookup_or_insert insert_component
  lookup_or_insert-Interned = elim (Option-cases (component_id_of name s.db.path_components)) [
    | inl absent ↦
        rw (absent, lookup_or_insert, component_id_of-unused name s.db.path_components absent)
          (record {
            id = fresh;
            state = record s { db = with_name };
            returns = refl;
            row = get-with_name fresh ∙ ground (arith, nat_eqb_iff fresh fresh);
            well = record {
              tables = with_name-IsWellDb absent;
              cached_right = with_name-cached;
              bounded = w.bounded;
            };
            files = refl;
            events = refl;
            kept = with_name-kept;
            rows_kept = λ i c h.
                ground
                  (arith, get-with_name i, nat_eqb_iff fresh i, get-rowid s.db.path_components);
          })
    | inr (id, found) ↦
        rw (found, lookup_or_insert)
          (Interned-same name s id w
            (component_id_of-In name s.db.path_components id w.components_once found))
  ]
