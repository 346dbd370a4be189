-- ===== src/Scan/Rescan.antt =====
-- An entry that is recorded once more as it is.
use dafs.Prelude.{
  ℕ, String, ◌≡◌, refl, ap, true, ◌&&◌, inl, inr, Option, none, some, arith, if◌then◌else◌,
  Bool-cases, eq_nat, eq_string, nat_eqb_iff,
}
use dafs.Store.Tables.{FileRow, EventKind, created, modified, EventRow, Db, Sqlite}
use dafs.Store.Exec.{Store, Result, ok}
use dafs.Store.Statements.{has_row, live_at, opt_eqb, put_file, select_live}
use dafs.Store.Paths.{new_row}
use dafs.Store.Rows.{get-has_row}
use dafs.Store.WellFormed.{IsLinked, IsWell}
use dafs.Store.Names.{named}
use dafs.Store.Locations.{entry_after}
use dafs.Store.Upserting.{upsert_entry_lem, entry_after-Described, get-put_file}
use dafs.Store.Entering.{Holds}
use dafs.Scan.Recording.{Metadata, size_of, kind_of, event_of, observe}
use dafs.Scan.Unchanged.{opt_eqb_refl, intern-Interned, observe-unchanged}

-- What a change is called, by the live row of before.
pub data IsKind (size mtime : Option ℕ) : Option (ℕ × FileRow) → Option EventKind → Type 0 where
  new : IsKind size mtime none (some created)
  unchanged :
      (id : ℕ) (r : FileRow)
      → r.size_bytes ≡ size
      → r.mtime_unix ≡ mtime
      → IsKind size mtime (some (id, r)) none
  changed :
      (id : ℕ) (r : FileRow)
      → ((r.size_bytes ≡ size) × (r.mtime_unix ≡ mtime) → ⊥)
      → IsKind size mtime (some (id, r)) (some modified)

opt_eqb-eq : (a b : Option ℕ) → opt_eqb a b ≡ true → a ≡ b
opt_eqb-eq none none h = refl
opt_eqb-eq none (some b) h = cc
opt_eqb-eq (some a) none h = cc
opt_eqb-eq (some a) (some b) h = ap some ((nat_eqb_iff a b).0 h)

kind_of-IsKind :
    (previous : Option (ℕ × FileRow)) (size mtime : Option ℕ)
    → IsKind size mtime previous (kind_of previous size mtime)
kind_of-IsKind none size mtime = new
kind_of-IsKind (some (id, r)) size mtime =
    elim (Bool-cases (opt_eqb r.size_bytes size && opt_eqb r.mtime_unix mtime)) [
      | inl e ↦ rw e (
          unchanged id r (opt_eqb-eq r.size_bytes size (ground (arith, e)))
            (opt_eqb-eq r.mtime_unix mtime (ground (arith, e))))
      | inr e ↦ rw e (
          changed id r λ (z, t).
            let sized : opt_eqb r.size_bytes size ≡ true = rw z (opt_eqb_refl size) in
            let dated : opt_eqb r.mtime_unix mtime ≡ true = rw t (opt_eqb_refl mtime) in
            ground (arith, e, sized, dated))
    ]

-- What `observe` leaves: a live row of the entry, and the event that the live row of before calls for.
pub record Observed ⦃sql : Sqlite⦄ (parent_id : ℕ) (name : String) (m : Metadata) (now : ℕ)
    (s : Store) (out : Result (Option EventRow) × Store) : Type 0 where
  pub id : ℕ
  pub state : Store
  pub well : IsWell state
  pub holds : Holds state.db id (some parent_id) name (size_of m) m.mtime
  pub kind : Option EventKind
  pub kind_right :
      IsKind (size_of m) m.mtime (select_live (some parent_id) holds.row.component_id s.db) kind
  pub returns : out ≡ (ok (if m.is_dir then none else event_of kind id (size_of m) now), state)

module _ ⦃sql : Sqlite⦄ where
  select_live-files :
      (parent : Option ℕ) (component : ℕ) (a b : Db)
      → a.files ≡ b.files
      → select_live parent component a ≡ select_live parent component b
  unfolding select_live
  select_live-files parent component a b same =
      ap (λ t. sql.first (λ _. (0, 0)) (live_at parent component t)) same

  -- On a well-formed store, below a row that exists, `observe` breaks no constraint. The store stays
  -- well-formed and has a live row of this name there with the size and the time that were read. A
  -- directory gives no event. A file gives `created` where it had no live row, `modified` where that
  -- row had another size or time, and no event otherwise.
  pub observe-Observed :
      (parent_id : ℕ) (name : String) (m : Metadata) (now : ℕ) (s : Store)
      → IsWell s
      → has_row (some parent_id) s.db.files ≡ true
      → Observed parent_id name m now s (observe parent_id name m now s)
  unfolding observe
  observe-Observed parent_id name m now s w placed =
      let i = intern-Interned m.is_dir name s w in
      let size = size_of m in
      let row = new_row (some parent_id) i.id m.is_dir size m.mtime in
      let placed' : has_row (some parent_id) i.state.db.files ≡ true = rw i.files placed in
      let linked : IsLinked i.state.db row =
        (placed', get-has_row i.id (named name) i.state.db.path_components i.row) in
      let (out, w') =
        upsert_entry_lem (some parent_id) i.id m.is_dir size m.mtime i.state i.well linked in
      let (p, c, z, t, l) =
        entry_after-Described (some parent_id) i.id m.is_dir size m.mtime i.state i.well linked in
      let e = entry_after (some parent_id) i.id m.is_dir size m.mtime i.state.db in
      let sel = select_live-files (some parent_id) i.id i.state.db s.db i.files in
      record {
        id = e.0;
        state = put_file e.0 e.1 i.state;
        well = w';
        holds = record {
          row = e.1;
          found = get-put_file e.0 e.1 i.state;
          under = p;
          called = rw c i.row;
          sized = z;
          dated = t;
          live = l;
        };
        kind = kind_of (select_live (some parent_id) e.1.component_id s.db) size m.mtime;
        kind_right =
            kind_of-IsKind (select_live (some parent_id) e.1.component_id s.db) size m.mtime;
        returns = rw (i.returns, out, sel, c) refl;
      }

  -- What `observe` has just recorded is unchanged: read once more with the same size and time, it
  -- gives no event and changes no table.
  pub observe-again :
      (parent_id : ℕ) (name : String) (m : Metadata) (now later : ℕ) (s : Store)
      → IsWell s
      → has_row (some parent_id) s.db.files ≡ true
      → ((observe parent_id name m later (observe parent_id name m now s).1).0 ≡ ok none)
        × ((observe parent_id name m later (observe parent_id name m now s).1).1.db
            ≡ (observe parent_id name m now s).1.db)
  observe-again parent_id name m now later s w placed =
      let o = observe-Observed parent_id name m now s w placed in
      rw o.returns (observe-unchanged parent_id o.id name m later o.state o.well o.holds)
