-- ===== src/Scan/Unchanged.antt =====
-- An entry whose row holds already what is read of it.
use dafs.Prelude.{
  ℕ, String, ◌≡◌, ◌∙◌, refl, sym, ap, subst, In, Bool, true, false, ◌&&◌, inl, inr, Option, none,
  some, arith, if◌then◌else◌, Option-cases, eq_nat, eq_string,
}
use dafs.HashMap.{get}
use dafs.Store.Tables.{FileRow, EventRow, Db, Sqlite}
use dafs.Store.Exec.{Store, Exec, ok, pure, ◌>>=◌}
use dafs.Store.Statements.{is_at, is_live, live_at, may_store, opt_eqb, select_live}
use dafs.Store.Paths.{revived, upsert_entry}
use dafs.Store.Rows.{In-keep, keep-In, get-In, In-get}
use dafs.Store.WellFormed.{IsWellDb, IsWell}
use dafs.Store.Names.{named, Interned}
use dafs.Store.Interning.{
  intern_dir-Interned, intern_leaf-Interned, intern_dir-known, intern_leaf-known,
}
use dafs.Store.Locations.{IsAlone, is_at-eq, eq-is_at, may_store-true}
use dafs.Store.Upserting.{is_live_of, insert-same, select_entry-row, upsert_entry-found}
use dafs.Store.Entering.{Holds}
use dafs.Scan.Recording.{Metadata, size_of, kind_of, event_of, intern, existing_entry, observe}

pub opt_eqb_refl : (o : Option ℕ) → opt_eqb o o ≡ true
opt_eqb_refl none = refl
opt_eqb_refl (some a) = ground arith

if_same : {A : Type 0} (b : Bool) (a : A) → (if b then a else a) ≡ a
if_same true a = refl
if_same false a = refl

ok_injective : {a b : ℕ} → ok a ≡ ok b → a ≡ b
ok_injective h = cc

module _ ⦃sql : Sqlite⦄ where
  pub intern-Interned :
      (is_dir : Bool) (name : String) (s : Store)
      → IsWell s
      → Interned name s (intern is_dir name s)
  intern-Interned true name s w = intern_dir-Interned name s w
  intern-Interned false name s w = intern_leaf-Interned name s w

  intern-known :
      (is_dir : Bool) (name : String) (id : ℕ) (s : Store)
      → IsWell s
      → get id s.db.path_components ≡ some (named name)
      → ((intern is_dir name s).0 ≡ ok id) × ((intern is_dir name s).1.db ≡ s.db)
  intern-known true name id s w row = intern_dir-known name id s w row
  intern-known false name id s w row = intern_leaf-known name id s w row

  -- The live row at a location is the one that `existing_entry` finds.
  select_live-row :
      (id : ℕ) (r : FileRow) (db : Db)
      → IsWellDb db
      → get id db.files ≡ some r
      → is_live r ≡ true
      → select_live r.parent_id r.component_id db ≡ some (id, r)
  unfolding select_live
  select_live-row id r db w h l =
      let test = λ (e : ℕ × FileRow). is_at r.parent_id r.component_id e.1 && is_live e.1 in
      let here =
        keep-In test (id, r) db.files (get-In id r db.files h)
          (ground (arith, eq-is_at r.parent_id r.component_id r refl refl)) in
      elim (Option-cases (select_live r.parent_id r.component_id db)) [
        | inl e ↦ absurd (
            subst (In (id, r))
              (sql.first_none (λ _. (0, 0)) (live_at r.parent_id r.component_id db.files) e) here)
        | inr ((j, q), e) ↦
            let (i, _) =
              sql.first_some (λ _. (0, 0)) (live_at r.parent_id r.component_id db.files) (j, q) e in
            let (k, t) = In-keep test (j, q) db.files i in
            let found = In-get j q db.files w.files_once k in
            let (p, c) = is_at-eq r.parent_id r.component_id q (ground arith) in
            let same : j ≡ id = w.live_once j id q r found h (ground arith) l p c in
            e ∙ ground arith
      ]

  -- An upsert of what a live row holds already changes nothing.
  upsert_entry-live :
      (id : ℕ) (r : FileRow) (is_dir : Bool) (s : Store)
      → IsWell s
      → get id s.db.files ≡ some r
      → r.deleted_at ≡ none
      → upsert_entry r.parent_id r.component_id is_dir r.size_bytes r.mtime_unix s ≡ (ok id, s)
  upsert_entry-live id r is_dir s w h l =
      let live = is_live_of r l in
      let query = select_entry-row id r s.db w.tables h live in
      let same : revived r.size_bytes r.mtime_unix r ≡ r = ground arith in
      let alone : IsAlone id r s.db = λ j q hq lq pq cq. w.live_once j id q r hq h lq live pq cq in
      let may : may_store id (revived r.size_bytes r.mtime_unix r) s.db ≡ true =
        rw same (may_store-true id r s w (w.linked id r h) (λ _. alone) live) in
      upsert_entry-found r.parent_id r.component_id is_dir r.size_bytes r.mtime_unix s id r query h
        may
      ∙ rw same (
          ap (λ t. (ok id, record s { db = record s.db { files = t } }))
            (insert-same id r s.db.files h))

  abbrev after_intern : ℕ → Metadata → ℕ → ℕ → Exec (Option EventRow)
  after_intern parent_id m now component_id = do
    previous ← existing_entry parent_id component_id
    file_id ← upsert_entry (some parent_id) component_id m.is_dir (size_of m) m.mtime
    pure (
        if m.is_dir
        then none
        else event_of (kind_of previous (size_of m) m.mtime) file_id (size_of m) now)

  after_intern-unchanged :
      (parent_id id : ℕ) (r : FileRow) (m : Metadata) (now : ℕ) (s : Store)
      → IsWell s
      → get id s.db.files ≡ some r
      → r.parent_id ≡ some parent_id
      → r.size_bytes ≡ size_of m
      → r.mtime_unix ≡ m.mtime
      → r.deleted_at ≡ none
      → after_intern parent_id m now r.component_id s ≡ (ok none, s)
  after_intern-unchanged parent_id id r m now s w h p z t l =
      rw (sym p, sym z, sym t)
        (rw
          (
            select_live-row id r s.db w.tables h (is_live_of r l),
            upsert_entry-live id r m.is_dir s w h l,
          )
          (rw (opt_eqb_refl r.size_bytes, opt_eqb_refl r.mtime_unix)
            (ap (λ (e : Option EventRow). (ok e, s)) (if_same m.is_dir none))))

  -- An entry whose row is live and has the size and the time that are read now gives no event, and
  -- changes no table.
  pub observe-unchanged :
      (parent_id id : ℕ) (name : String) (m : Metadata) (now : ℕ) (s : Store)
      → IsWell s
      → Holds s.db id (some parent_id) name (size_of m) m.mtime
      → ((observe parent_id name m now s).0 ≡ ok none)
        × ((observe parent_id name m now s).1.db ≡ s.db)
  unfolding observe
  observe-unchanged parent_id id name m now s w h =
      let i = intern-Interned m.is_dir name s w in
      let (same_id, same_db) = intern-known m.is_dir name h.row.component_id s w h.called in
      let c : i.id ≡ h.row.component_id = ok_injective (sym (ap (λ o. o.0) i.returns) ∙ same_id) in
      let db : i.state.db ≡ s.db = sym (ap (λ o. o.1.db) i.returns) ∙ same_db in
      let out =
        after_intern-unchanged parent_id id h.row m now i.state i.well (rw db h.found) h.under
          h.sized h.dated h.live in
      rw (i.returns, c, out) (refl, db)
