-- ===== src/Scan/Quiet.antt =====
-- Calls that may write rows of directories, but bring in no row of a file and no event.
use dafs.Prelude.{
  ℕ, String, ◌≡◌, ◌∙◌, refl, true, false, inl, inr, Option, none, some, List, [], ◌∷◌, any, arith,
  if_both, Bool-cases, Option-cases, ◌==◌, eq_nat, eq_string, nat_eqb_iff,
}
use dafs.HashMap.{get, get-insert}
use dafs.FilePath.{FilePath, normal, parent_dir, root_dir, cur_dir, parent}
use dafs.Store.Tables.{FileRow, Db, Sqlite}
use dafs.Store.Exec.{Store, Exec, Result, ok, err, pure, continue, ◌>>=◌}
use dafs.Store.Statements.{
  component_id_of, insert_component, insert_file, update_file, may_store, put_file, select_entry,
  ids,
}
use dafs.Store.Paths.{
  lookup_or_insert, cached, intern_dir, intern_leaf, new_row, revived, upsert_as, upsert_entry,
  dir_chain, or_empty_path, ensure_dir_chain, normalised_components,
}
use dafs.Scan.Lookup.{ensure_relative_dirs, place}

-- A row of a file with this id.
abbrev pub HasFile : ℕ → Db → Type 0
HasFile i db = (r : FileRow) × (get i db.files ≡ some r) × (r.is_dir ≡ false)

pub record NoNewFile (db db' : Db) : Type 0 where
  pub log : db'.events ≡ db.events
  pub old : (i : ℕ) → HasFile i db' → HasFile i db

NoNewFile-refl : (db : Db) → NoNewFile db db
NoNewFile-refl db = record { log = refl; old = λ i h. h }

pub NoNewFile-trans : (a b c : Db) → NoNewFile a b → NoNewFile b c → NoNewFile a c
NoNewFile-trans a b c g h = record { log = h.log ∙ g.log; old = λ i f. g.old i (h.old i f) }

abbrev pub Quiet : {A : Type 0} → Exec A → Type 0
Quiet m = (s : Store) → NoNewFile s.db (m s).1.db

module _ {A B : Type 0} where
  pub continue-Quiet :
      (r : Result A) (f : A → Exec B) → ((a : A) → Quiet (f a)) → Quiet (continue r f)
  continue-Quiet (ok a) f q s = q a s
  continue-Quiet (err e) f q s = NoNewFile-refl s.db

  pub bind-Quiet :
      (m : Exec A) (f : A → Exec B) → Quiet m → ((a : A) → Quiet (f a)) → Quiet (m >>= f)
  bind-Quiet m f p q s =
      NoNewFile-trans s.db (m s).1.db ((m >>= f) s).1.db (p s) (continue-Quiet (m s).0 f q (m s).1)

pub pure-Quiet : {A : Type 0} (a : A) → Quiet (pure a)
pure-Quiet a s = NoNewFile-refl s.db

put_file-NoNewFile :
    (id : ℕ) (r q : FileRow) (s : Store)
    → get id s.db.files ≡ some r
    → q.is_dir ≡ r.is_dir
    → NoNewFile s.db (put_file id q s).db
put_file-NoNewFile id r q s found same = record {
  log = refl;
  old = λ i (v, h, f).
      let at = get-insert id i q s.db.files in
      elim (Bool-cases (id == i)) [
        | inl here ↦ (r, ground (arith, nat_eqb_iff id i), ground arith)
        | inr there ↦ (v, ground arith, f)
      ];
}

-- A row keeps its kind where the update keeps it.
pub update_file-Quiet :
    (id : ℕ) (f : FileRow → FileRow)
    → ((r : FileRow) → (f r).is_dir ≡ r.is_dir)
    → Quiet (update_file id f)
unfolding update_file
update_file-Quiet id f keeps s = elim (Option-cases (get id s.db.files)) [
  | inl e ↦ rw (e, update_file) (NoNewFile-refl s.db)
  | inr (r, e) ↦
      rw (e, update_file)
        (if_both (λ (out : Result (Unit {0}) × Store). NoNewFile s.db out.1.db)
          (may_store id (f r) s.db) (put_file-NoNewFile id r (f r) s e (keeps r))
          (NoNewFile-refl s.db))
]

module _ ⦃sql : Sqlite⦄ where
  insert_component-Quiet : (name : String) → Quiet (insert_component name)
  unfolding insert_component
  insert_component-Quiet name s =
      if_both (λ (out : Result ℕ × Store). NoNewFile s.db out.1.db)
        (any (λ e. e.1.name == name) s.db.path_components) (NoNewFile-refl s.db)
        (record { log = refl; old = λ i h. h })

  lookup_or_insert-Quiet : (name : String) → Quiet (lookup_or_insert name)
  unfolding lookup_or_insert
  lookup_or_insert-Quiet name s = elim (Option-cases (component_id_of name s.db.path_components)) [
    | inl e ↦ rw (e, lookup_or_insert) (insert_component-Quiet name s)
    | inr (id, e) ↦ rw (e, lookup_or_insert) (NoNewFile-refl s.db)
  ]

  pub intern_leaf-Quiet : (name : String) → Quiet (intern_leaf name)
  unfolding intern_leaf
  intern_leaf-Quiet name s = elim (Option-cases (get name s.cache)) [
    | inl e ↦ rw (e, intern_leaf) (lookup_or_insert-Quiet name s)
    | inr (id, e) ↦ rw (e, intern_leaf) (NoNewFile-refl s.db)
  ]

  cached-Quiet : (name : String) (id : ℕ) → Quiet (cached name id)
  unfolding cached
  cached-Quiet name id s = record { log = refl; old = λ i h. h }

  pub intern_dir-Quiet : (name : String) → Quiet (intern_dir name)
  unfolding intern_dir
  intern_dir-Quiet name s = elim (Option-cases (get name s.cache)) [
    | inl e ↦
        rw (e, intern_dir)
          (bind-Quiet (lookup_or_insert name) (cached name) (lookup_or_insert-Quiet name)
            (cached-Quiet name) s)
    | inr (id, e) ↦ rw (e, intern_dir) (NoNewFile-refl s.db)
  ]

  -- An upsert of a row that is there.
  pub upsert_as-Quiet : (e : ℕ × FileRow) (row : FileRow) → Quiet (upsert_as (some e) row)
  unfolding upsert_as
  upsert_as-Quiet (id, r) row =
      let f = revived row.size_bytes row.mtime_unix in
      bind-Quiet (update_file id f) (λ _. pure id) (update_file-Quiet id f (λ r. refl))
        (λ _. pure-Quiet id)

  insert_dir-Quiet : (row : FileRow) → row.is_dir ≡ true → Quiet (insert_file row)
  unfolding insert_file
  insert_dir-Quiet row dir s =
      let id = sql.rowid (ids s.db.files) in
      if_both (λ (out : Result ℕ × Store). NoNewFile s.db out.1.db) (may_store id row s.db)
        (record {
          log = refl;
          old = λ i (v, h, f).
              let at = get-insert id i row s.db.files in
              elim (Bool-cases (id == i)) [
                | inl here ↦ absurd (ground arith)
                | inr there ↦ (v, ground arith, f)
              ];
        })
        (NoNewFile-refl s.db)

  pub upsert_dir-Quiet :
      (parent : Option ℕ) (component : ℕ) (size mtime : Option ℕ)
      → Quiet (upsert_entry parent component true size mtime)
  unfolding upsert_entry upsert_as
  upsert_dir-Quiet parent component size mtime s =
      elim (Option-cases (select_entry parent component s.db)) [
        | inl e ↦
            rw (e, upsert_as) (insert_dir-Quiet (new_row parent component true size mtime) refl s)
        | inr (q, e) ↦
            rw (e, upsert_as) (upsert_as-Quiet q (new_row parent component true size mtime) s)
      ]

  dir_chain-Quiet : (names : List String) (parent : Option ℕ) → Quiet (dir_chain parent names)
  unfolding dir_chain
  dir_chain-Quiet [] parent = pure-Quiet parent
  dir_chain-Quiet (name ∷ names) parent =
      bind-Quiet (intern_dir name) _ (intern_dir-Quiet name) λ c.
        bind-Quiet (upsert_entry parent c true none none) _ (upsert_dir-Quiet parent c none none)
          λ id. dir_chain-Quiet names (some id)

  or_empty_path-Quiet : (last : Option ℕ) → Quiet (or_empty_path last)
  or_empty_path-Quiet none s = NoNewFile-refl s.db
  or_empty_path-Quiet (some id) s = NoNewFile-refl s.db

  pub ensure_dir_chain-Quiet : (dir : FilePath) → Quiet (ensure_dir_chain dir)
  unfolding ensure_dir_chain
  ensure_dir_chain-Quiet dir =
      bind-Quiet (dir_chain none (normalised_components dir)) _
        (dir_chain-Quiet (normalised_components dir) none) or_empty_path-Quiet

  ensure_relative_dirs-Quiet :
      (relative : FilePath) (id : ℕ) → Quiet (ensure_relative_dirs id relative)
  unfolding ensure_relative_dirs
  ensure_relative_dirs-Quiet [] id = pure-Quiet id
  ensure_relative_dirs-Quiet (normal part ∷ relative) id =
      bind-Quiet (intern_dir part) _ (intern_dir-Quiet part) λ c.
        bind-Quiet (upsert_entry (some id) c true none none) _
          (upsert_dir-Quiet (some id) c none none) (ensure_relative_dirs-Quiet relative)
  ensure_relative_dirs-Quiet (parent_dir ∷ relative) id = ensure_relative_dirs-Quiet relative id
  ensure_relative_dirs-Quiet (root_dir ∷ relative) id = ensure_relative_dirs-Quiet relative id
  ensure_relative_dirs-Quiet (cur_dir ∷ relative) id = ensure_relative_dirs-Quiet relative id

  pub place-Quiet : (root_id : ℕ) (relative : FilePath) → Quiet (place root_id relative)
  unfolding place
  place-Quiet root_id relative = elim (Option-cases (parent relative)) [
    | inl e ↦ rw e (pure-Quiet root_id)
    | inr ([], e) ↦ rw e (pure-Quiet root_id)
    | inr ((c ∷ p), e) ↦ rw e (ensure_relative_dirs-Quiet (c ∷ p) root_id)
  ]
