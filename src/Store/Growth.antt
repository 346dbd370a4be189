-- ===== src/Store/Growth.antt =====
-- How the tables grow: no call of the store takes a row, its place or its name away.
use dafs.Prelude.{
  ℕ, String, ◌≡◌, ◌∙◌, refl, Option, none, some, arith, ◌==◌, eq_nat, nat_eqb_iff, Bool-cases, inl,
  inr,
}
use dafs.HashMap.{get, get-insert}
use dafs.Store.Tables.{ComponentRow, FileRow, Db, Sqlite}
use dafs.Store.Exec.{Store, Result}
use dafs.Store.Statements.{ids, put_file, select_entry}
use dafs.Store.Paths.{revived}
use dafs.Store.Rows.{get-rowid}
use dafs.Store.WellFormed.{IsWell}
use dafs.Store.Names.{Interned}
use dafs.Store.Locations.{after_query, select_entry-some}

-- Each row keeps its id, its parent and its component; names stay; the log is the same.
pub record Grows (db db' : Db) : Type 0 where
  pub rows :
      (i : ℕ) (r : FileRow)
      → get i db.files ≡ some r
      → (r' : FileRow) × (get i db'.files ≡ some r')
        × (r'.parent_id ≡ r.parent_id)
        × (r'.component_id ≡ r.component_id)
  pub names :
      (i : ℕ) (c : ComponentRow)
      → get i db.path_components ≡ some c
      → get i db'.path_components ≡ some c
  pub log : db'.events ≡ db.events

pub Grows-refl : (db : Db) → Grows db db
Grows-refl db = record { rows = λ i r h. (r, h, refl, refl); names = λ i c h. h; log = refl }

pub Grows-trans : (a b c : Db) → Grows a b → Grows b c → Grows a c
Grows-trans a b c g h = record {
  rows = λ i r e.
      let (r', e', p, q) = g.rows i r e in
      let (r'', e'', p', q') = h.rows i r' e' in (r'', e'', p' ∙ p, q' ∙ q);
  names = λ i n e. h.names i n (g.names i n e);
  log = h.log ∙ g.log;
}

pub Interned-Grows :
    (name : String) (s : Store) (out : Result ℕ × Store) (i : Interned name s out)
    → Grows s.db i.state.db
Interned-Grows name s out i = record {
  rows = λ j r h. (r, rw i.files h, refl, refl);
  names = i.rows_kept;
  log = i.events;
}

module _ ⦃sql : Sqlite⦄ (row : FileRow) (s : Store) (w : IsWell s) where
  after_query-Grows :
      (parent : Option ℕ) (component : ℕ) (found : Option (ℕ × FileRow))
      → select_entry parent component s.db ≡ found
      → Grows s.db (put_file (after_query found row s.db).0 (after_query found row s.db).1 s).db
  after_query-Grows parent component none e = record {
    rows = λ i r h. (
      r,
      get-insert (sql.rowid (ids s.db.files)) i row s.db.files
          ∙ ground (arith, nat_eqb_iff (sql.rowid (ids s.db.files)) i, get-rowid s.db.files),
      refl,
      refl,
    );
    names = λ i c h. h;
    log = refl;
  }
  after_query-Grows parent component (some (id, q)) e =
      let (found, p, c) = select_entry-some parent component s.db w.tables id q e in
      record {
        rows = λ i r h.
            let new = revived row.size_bytes row.mtime_unix q in
            let at = get-insert id i new s.db.files in
            elim (Bool-cases (id == i)) [
              | inl here ↦ (
                new,
                at ∙ rw here refl,
                ground (arith, nat_eqb_iff id i),
                ground (arith, nat_eqb_iff id i),
              )
              | inr there ↦ (r, at ∙ rw there h, refl, refl)
            ];
        names = λ i c h. h;
        log = refl;
      }

  pub entry_after-Grows :
      (parent : Option ℕ) (component : ℕ)
      → Grows s.db
          (put_file
            (after_query (select_entry parent component s.db) row s.db).0
            (after_query (select_entry parent component s.db) row s.db).1
            s).db
  entry_after-Grows parent component =
      after_query-Grows parent component (select_entry parent component s.db) refl
