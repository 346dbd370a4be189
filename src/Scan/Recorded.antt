-- ===== src/Scan/Recorded.antt =====
-- What recording one entry adds: a row of a file that is new comes with the event that is returned.
use dafs.Prelude.{
  ◌&&◌, ℕ, String, ◌≡◌, ◌∙◌, refl, Bool, true, false, ◌⊎◌, inl, inr, Option, none, some, In, arith,
  if◌then◌else◌, if_both, Bool-cases, Option-cases, ◌==◌, eq_nat, eq_string, nat_eqb_iff, subst,
}
use dafs.HashMap.{get, get-insert}
use dafs.FilePath.{FilePath}
use dafs.Store.Tables.{FileRow, created, EventRow, Db, Sqlite}
use dafs.Store.Exec.{Store, Exec, Result, ok, err, pure, continue, ◌>>=◌}
use dafs.Store.Statements.{
  insert_file, may_store, put_file, select_entry, select_live, is_at, is_live, entries_at, live_at,
  live_then_latest, ids,
}
use dafs.Store.Paths.{new_row, upsert_as, upsert_entry}
use dafs.Store.Rows.{In-keep, keep-In}
use dafs.Scan.Lookup.{relative_to, place}
use dafs.Scan.Recording.{
  Metadata, size_of, event_now, kind_of, event_of, intern, observe, record_metadata, Entry,
  record_entry,
}
use dafs.Scan.Quiet.{
  HasFile, NoNewFile, Quiet, intern_dir-Quiet, intern_leaf-Quiet, upsert_as-Quiet, upsert_dir-Quiet,
  place-Quiet,
}

-- A row of a file that is new has the event that the call returns.
pub record Recorded (db : Db) (r : Result (Option EventRow)) (db' : Db) : Type 0 where
  pub log : db'.events ≡ db.events
  pub news :
      (i : ℕ)
      → HasFile i db'
      → HasFile i db ⊎ ((e : EventRow) × (r ≡ ok (some e)) × (e.file_id ≡ i))

NoNewFile-Recorded :
    (db db' : Db) (r : Result (Option EventRow)) → NoNewFile db db' → Recorded db r db'
NoNewFile-Recorded db db' r q = record { log = q.log; news = λ i f. inl (q.old i f) }

after-Recorded :
    (a b c : Db) (r : Result (Option EventRow)) → NoNewFile a b → Recorded b r c → Recorded a r c
after-Recorded a b c r q p = record {
  log = p.log ∙ q.log;
  news = λ i f. elim (p.news i f) [ inl old ↦ inl (q.old i old) | inr new ↦ inr new ];
}

abbrev pub Records : Exec (Option EventRow) → Type 0
Records m = (s : Store) → Recorded s.db (m s).0 (m s).1.db

continue-Records :
    {A : Type 0} (r : Result A) (f : A → Exec (Option EventRow))
    → ((a : A) → Records (f a))
    → Records (continue r f)
continue-Records (ok a) f p s = p a s
continue-Records (err e) f p s = record { log = refl; news = λ i f. inl f }

bind-Records_at :
    {A : Type 0} (m : Exec A) (f : A → Exec (Option EventRow)) (s : Store)
    → NoNewFile s.db (m s).1.db
    → ((a : A) → Records (f a))
    → Recorded s.db ((m >>= f) s).0 ((m >>= f) s).1.db
bind-Records_at m f s q p =
    after-Recorded s.db (m s).1.db ((m >>= f) s).1.db ((m >>= f) s).0 q
      (continue-Records (m s).0 f p (m s).1)

bind-Records :
    {A : Type 0} (m : Exec A) (f : A → Exec (Option EventRow))
    → Quiet m
    → ((a : A) → Records (f a))
    → Records (m >>= f)
bind-Records m f q p s = bind-Records_at m f s (q s) p

pure-Records : (e : Option EventRow) → Records (pure e)
pure-Records e s = record { log = refl; news = λ i f. inl f }

module _ ⦃sql : Sqlite⦄ where
  -- Where no row is at a location, no live row is.
  select_live-none :
      (parent : Option ℕ) (component : ℕ) (db : Db)
      → select_entry parent component db ≡ none
      → select_live parent component db ≡ none
  unfolding select_entry select_live
  select_live-none parent component db e = elim (Option-cases (select_live parent component db)) [
    | inl none_live ↦ none_live
    | inr (r, found) ↦
        let (i, _) = sql.first_some (λ _. (0, 0)) (live_at parent component db.files) r found in
        let (j, at) = In-keep (λ e. is_at parent component e.1 && is_live e.1) r db.files i in
        absurd (
          subst (In r) (sql.first_none live_then_latest (entries_at parent component db.files) e)
            (keep-In (λ e. is_at parent component e.1) r db.files j (ground (arith, at))))
  ]

  pub intern-Quiet : (is_dir : Bool) (name : String) → Quiet (intern is_dir name)
  intern-Quiet true name = intern_dir-Quiet name
  intern-Quiet false name = intern_leaf-Quiet name

  -- The last two steps of `observe`.
  abbrev write :
      ℕ → ℕ → Bool → Option ℕ → Option ℕ → Option (ℕ × FileRow) → ℕ → Exec (Option EventRow)
  write parent_id component_id is_dir size mtime previous now = do
    file_id ← upsert_entry (some parent_id) component_id is_dir size mtime
    pure (if is_dir then none else event_of (kind_of previous size mtime) file_id size now)

  insert_file-Recorded :
      (row : FileRow) (size : Option ℕ) (now : ℕ)
      → Records (do id ← insert_file row; pure (some (event_now id created size now)))
  unfolding insert_file
  insert_file-Recorded row size now s =
      let id = sql.rowid (ids s.db.files) in
      let f : ℕ → Exec (Option EventRow) = λ id. pure (some (event_now id created size now)) in
      if_both
        (λ (out : Result ℕ × Store).
          Recorded s.db (continue out.0 f out.1).0 (continue out.0 f out.1).1.db)
        (may_store id row s.db)
        (record {
          log = refl;
          news = λ i (v, h, k).
              let at : get i (put_file id row s).db.files
                  ≡ (if id == i then some row else get i s.db.files) =
                get-insert id i row s.db.files in
              elim (Bool-cases (id == i)) [
                | inl here ↦ inr (event_now id created size now, refl, (nat_eqb_iff id i).0 here)
                | inr there ↦ inl (v, ground arith, k)
              ];
        })
        (record { log = refl; news = λ i f. inl f })

  upsert_known-NoNewFile :
      (parent : Option ℕ) (component : ℕ) (size mtime : Option ℕ) (q : ℕ × FileRow) (s : Store)
      → select_entry parent component s.db ≡ some q
      → NoNewFile s.db (upsert_entry parent component false size mtime s).1.db
  unfolding upsert_entry upsert_as
  upsert_known-NoNewFile parent component size mtime q s e =
      rw (e, upsert_as) (upsert_as-Quiet q (new_row parent component false size mtime) s)

  write-Recorded :
      (parent_id component_id : ℕ) (is_dir : Bool) (size mtime : Option ℕ) (now : ℕ) (s : Store)
      → Recorded s.db
          (write parent_id component_id is_dir size mtime
            (select_live (some parent_id) component_id s.db)
            now
            s).0
          (write parent_id component_id is_dir size mtime
            (select_live (some parent_id) component_id s.db)
            now
            s).1.db
  unfolding upsert_entry upsert_as
  write-Recorded p c true size mtime now s =
      bind-Records (upsert_entry (some p) c true size mtime) (λ _. pure none)
        (upsert_dir-Quiet (some p) c size mtime) (λ _. pure-Records none) s
  write-Recorded p c false size mtime now s = elim (Option-cases (select_entry (some p) c s.db)) [
    | inl e ↦
        rw (select_live-none (some p) c s.db e) (
          rw (e, upsert_as) (insert_file-Recorded (new_row (some p) c false size mtime) size now s))
    | inr (q, e) ↦
        let prev = select_live (some p) c s.db in
        bind-Records_at (upsert_entry (some p) c false size mtime)
          (λ id. pure (event_of (kind_of prev size mtime) id size now)) s
          (upsert_known-NoNewFile (some p) c size mtime q s e)
          (λ id. pure-Records (event_of (kind_of prev size mtime) id size now))
  ]

  pub observe-Records :
      (parent_id : ℕ) (name : String) (m : Metadata) (now : ℕ)
      → Records (observe parent_id name m now)
  unfolding observe
  observe-Records parent_id name m now =
      bind-Records (intern m.is_dir name) _ (intern-Quiet m.is_dir name)
        λ c s. write-Recorded parent_id c m.is_dir (size_of m) m.mtime now s

  record_metadata-Records :
      (root : FilePath) (root_id : ℕ) (path : FilePath) (name : String) (now : ℕ)
      (m : Option Metadata)
      → Records (record_metadata root root_id path name now m)
  record_metadata-Records root root_id path name now none =
      λ s. record { log = refl; news = λ i f. inl f }
  record_metadata-Records root root_id path name now (some m) =
      bind-Records (place root_id (relative_to root path)) _
        (place-Quiet root_id (relative_to root path))
        λ parent_id. observe-Records parent_id name m now

  pub record_entry-Records :
      (root : FilePath) (root_id now : ℕ) (e : Entry) → Records (record_entry root root_id now e)
  unfolding record_entry
  record_entry-Records root root_id now e =
      record_metadata-Records root root_id e.path e.name now e.metadata
