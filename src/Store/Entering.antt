-- ===== src/Store/Entering.antt =====
-- One step down a path: intern a name, then upsert its row.
use dafs.Prelude.{ℕ, String, ◌≡◌, refl, Bool, true, Option, none, some, eq_nat}
use dafs.HashMap.{get}
use dafs.Store.Tables.{FileRow, Db, Sqlite}
use dafs.Store.Exec.{Store, Exec, Result, ok, ◌>>=◌}
use dafs.Store.Statements.{has_row, put_file}
use dafs.Store.Paths.{new_row, upsert_entry}
use dafs.Store.Rows.{get-has_row}
use dafs.Store.WellFormed.{IsWell, IsLinked}
use dafs.Store.Names.{named, Interned}
use dafs.Store.Locations.{entry_after}
use dafs.Store.Upserting.{upsert_entry_lem, entry_after-Described, get-put_file}
use dafs.Store.Growth.{Grows, Grows-trans, Interned-Grows, entry_after-Grows}

-- A live row with this name under this parent.
pub record Holds (db : Db) (id : ℕ) (parent : Option ℕ) (name : String) (size mtime : Option ℕ)
    : Type 0 where
  pub row : FileRow
  pub found : get id db.files ≡ some row
  pub under : row.parent_id ≡ parent
  pub called : get row.component_id db.path_components ≡ some (named name)
  pub sized : row.size_bytes ≡ size
  pub dated : row.mtime_unix ≡ mtime
  pub live : row.deleted_at ≡ none

pub record Entered (parent : Option ℕ) (name : String) (size mtime : Option ℕ) (s : Store)
    (out : Result ℕ × Store) : Type 0 where
  pub id : ℕ
  pub state : Store
  pub returns : out ≡ (ok id, state)
  pub well : IsWell state
  pub grows : Grows s.db state.db
  pub holds : Holds state.db id parent name size mtime

module _ ⦃sql : Sqlite⦄ (parent : Option ℕ) (name : String) (is_dir : Bool) (size mtime : Option ℕ)
    (s : Store) (placed : has_row parent s.db.files ≡ true) where
  -- An upsert after a call of the interner.
  pub upsert-Entered :
      (m : Exec ℕ) (i : Interned name s (m s))
      → Entered parent name size mtime s
          ((do component ← m; upsert_entry parent component is_dir size mtime) s)
  upsert-Entered m i =
      let row = new_row parent i.id is_dir size mtime in
      let placed' : has_row parent i.state.db.files ≡ true = rw i.files placed in
      let linked : IsLinked i.state.db row =
        (placed', get-has_row i.id (named name) i.state.db.path_components i.row) in
      let (out, w') = upsert_entry_lem parent i.id is_dir size mtime i.state i.well linked in
      let (p, c, z, t, l) =
        entry_after-Described parent i.id is_dir size mtime i.state i.well linked in
      let e = entry_after parent i.id is_dir size mtime i.state.db in
      rw (i.returns, out)
        (record {
          id = e.0;
          state = put_file e.0 e.1 i.state;
          returns = refl;
          well = w';
          grows =
              Grows-trans s.db i.state.db (put_file e.0 e.1 i.state).db
                (Interned-Grows name s (m s) i) (entry_after-Grows row i.state i.well parent i.id);
          holds = record {
            row = e.1;
            found = get-put_file e.0 e.1 i.state;
            under = p;
            called = rw c i.row;
            sized = z;
            dated = t;
            live = l;
          };
        })
