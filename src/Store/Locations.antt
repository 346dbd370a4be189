-- ===== src/Store/Locations.antt =====
-- The rows at one location: a parent and a component.

use dafs.Prelude.{
  ℕ, ◌≡◌, ◌∙◌, refl, sym, ap, subst, Bool, true, false, not, ◌&&◌, Option, none, some, In, All-In,
  any, any-In, arith, Bool-cases, Option-cases, inl, inr, ◌==◌, eq_nat, nat_eqb_iff,
}
use dafs.HashMap.{get, Distinct, get-insert, insert-Distinct}
use dafs.Store.Tables.{FileRow, Db, Sqlite, LexLe}
use dafs.Store.Exec.{Store, ok}
use dafs.Store.Statements.{
  ids, is_live, opt_eqb, is_at, clashes, may_store, put_file, update_file, live_then_latest,
  entries_at, select_entry,
}
use dafs.Store.Paths.{new_row, revived}
use dafs.Store.Rows.{In-keep, keep-In, get-In, In-get, has_row-insert}
use dafs.Store.WellFormed.{IsWellDb, IsWell, IsLinked}

opt_eqb-eq : (a b : Option ℕ) → opt_eqb a b ≡ true → a ≡ b
opt_eqb-eq none none h = refl
opt_eqb-eq (some a) (some b) h = ap some ((nat_eqb_iff a b).0 h)
opt_eqb-eq none (some b) h = ground arith
opt_eqb-eq (some a) none h = ground arith

opt_eqb_refl : (a : Option ℕ) → opt_eqb a a ≡ true
opt_eqb_refl none = refl
opt_eqb_refl (some a) = (nat_eqb_iff a a).1 refl

pub is_at-eq :
    (parent : Option ℕ) (component : ℕ) (r : FileRow)
    → is_at parent component r ≡ true
    → (r.parent_id ≡ parent) × (r.component_id ≡ component)
is_at-eq parent component r h = (
  opt_eqb-eq r.parent_id parent (ground arith),
  (nat_eqb_iff r.component_id component).0 (ground arith),
)

pub eq-is_at :
    (parent : Option ℕ) (component : ℕ) (r : FileRow)
    → r.parent_id ≡ parent
    → r.component_id ≡ component
    → is_at parent component r ≡ true
eq-is_at parent component r p c =
    rw (p, c, opt_eqb_refl parent) ((nat_eqb_iff component component).1 refl)

-- No live row but `id` has the location of `r`.
abbrev pub IsAlone : ℕ → FileRow → Db → Type 0
IsAlone id r db =
    (j : ℕ) (q : FileRow)
    → get j db.files ≡ some q
    → is_live q ≡ true
    → q.parent_id ≡ r.parent_id
    → q.component_id ≡ r.component_id
    → j ≡ id

other_live-none :
    (p id : ℕ) (r : FileRow) (db : Db)
    → r.parent_id ≡ some p
    → Distinct db.files
    → IsAlone id r db
    → any (λ e. not (e.0 == id) && (is_live e.1 && is_at (some p) r.component_id e.1)) db.files
      ≡ false
other_live-none p id r db e once alone =
    let test : ℕ × FileRow → Bool =
      λ e. not (e.0 == id) && (is_live e.1 && is_at (some p) r.component_id e.1) in
    elim (Bool-cases (any test db.files)) [
      | inr none' ↦ none'
      | inl some' ↦
          let ((j, q), i, t) = any-In test db.files some' in
          let (at_parent, at_name) = is_at-eq (some p) r.component_id q (ground arith) in
          let same =
            alone j q (In-get j q db.files once i) (ground arith) (at_parent ∙ sym e) at_name in
          absurd (ground (arith, nat_eqb_iff j id))
    ]

clashes-none :
    (id : ℕ) (r : FileRow) (db : Db)
    → Distinct db.files
    → IsAlone id r db
    → clashes id r db.files ≡ false
clashes-none id r db once alone = elim (Option-cases r.parent_id) [
  | inl root ↦ rw (root, clashes)
  | inr (p, e) ↦ rw (e, clashes) (ground (arith, other_live-none p id r db e once alone))
]

pub update_file_lem :
    (id : ℕ) (f : FileRow → FileRow) (r : FileRow) (s : Store)
    → get id s.db.files ≡ some r
    → may_store id (f r) s.db ≡ true
    → update_file id f s ≡ (ok tt, put_file id (f r) s)
unfolding update_file
update_file_lem id f r s found may = rw (found, update_file) (rw may refl)

module _ (id : ℕ) (r : FileRow) (s : Store) (w : IsWell s) (linked : IsLinked s.db r)
    (alone : is_live r ≡ true → IsAlone id r s.db) where
  pub may_store-true : is_live r ≡ true → may_store id r s.db ≡ true
  may_store-true live =
      ground (arith, linked.0, linked.1, clashes-none id r s.db w.files_once (alone live))

  -- Writing a linked row that shares its location with no other live row keeps the store well-formed.
  pub put_file-IsWell : IsWell (put_file id r s)
  put_file-IsWell = record {
    tables = record {
      components_once = w.components_once;
      files_once = insert-Distinct id r s.db.files w.files_once;
      names_once = w.names_once;
      linked = λ i q h.
          let found = get-insert id i r s.db.files in
          elim (Bool-cases (id == i)) [
            | inl here ↦
                let same : r ≡ q = ground arith in
                subst (IsLinked (put_file id r s).db) same
                  (has_row-insert r.parent_id id r s.db.files linked.0, linked.1)
            | inr there ↦
                let (p, c) = w.linked i q (ground arith) in
                (has_row-insert q.parent_id id r s.db.files p, c)
          ];
      live_once = λ i j q q' hi hj li lj p c. ground (
        arith,
        get-insert id i r s.db.files,
        get-insert id j r s.db.files,
        nat_eqb_iff id i,
        nat_eqb_iff id j,
        w.live_once i j q q',
        alone_at i q,
        alone_at j q',
      );
      logged = λ i e h.
          let (f, p, c) = w.logged i e h in
          (
            has_row-insert (some e.file_id) id r s.db.files f,
            has_row-insert e.prev_parent_id id r s.db.files p,
            c,
          );
    };
    cached_right = w.cached_right;
    bounded = w.bounded;
  }
    where
      alone_at :
          (j : ℕ) (q : FileRow)
          → is_live r ≡ true
          → get j s.db.files ≡ some q
          → is_live q ≡ true
          → q.parent_id ≡ r.parent_id
          → q.component_id ≡ r.component_id
          → j ≡ id
      alone_at j q l = alone l j q

module _ ⦃sql : Sqlite⦄ where
  abbrev pub after_query : Option (ℕ × FileRow) → FileRow → Db → ℕ × FileRow
  after_query none row db = (sql.rowid (ids db.files), row)
  after_query (some (id, r)) row db = (id, revived row.size_bytes row.mtime_unix r)

  -- The row that `upsert_entry` leaves, with its id: the live row at the location if there is one,
  -- else the latest tombstone there, else a new row.
  abbrev pub entry_after : Option ℕ → ℕ → Bool → Option ℕ → Option ℕ → Db → ℕ × FileRow
  entry_after parent component is_dir size mtime db =
      after_query (select_entry parent component db) (new_row parent component is_dir size mtime) db

  module _ (parent : Option ℕ) (component : ℕ) (db : Db) (w : IsWellDb db) where
    -- A location with no entry has no live row.
    pub select_entry-none :
        (j : ℕ) (q : FileRow)
        → select_entry parent component db ≡ none
        → get j db.files ≡ some q
        → q.parent_id ≡ parent
        → q.component_id ≡ component
        → ⊥
    unfolding select_entry
    select_entry-none j q e h p c =
        subst (In (j, q)) (sql.first_none live_then_latest (entries_at parent component db.files) e)
          (keep-In (λ e. is_at parent component e.1) (j, q) db.files (get-In j q db.files h)
            (eq-is_at parent component q p c))

    -- The entry found is a row at the location.
    pub select_entry-some :
        (id : ℕ) (r : FileRow)
        → select_entry parent component db ≡ some (id, r)
        → (get id db.files ≡ some r) × (r.parent_id ≡ parent) × (r.component_id ≡ component)
    unfolding select_entry
    select_entry-some id r e =
        let (i, last) =
          sql.first_some live_then_latest (entries_at parent component db.files) (id, r) e in
        let (j, at) = In-keep (λ e. is_at parent component e.1) (id, r) db.files i in
        let (p, c) = is_at-eq parent component r at in (In-get id r db.files w.files_once j, p, c)

    -- If any row there is live, it is the one found.
    pub select_entry-live :
        (id j : ℕ) (r q : FileRow)
        → select_entry parent component db ≡ some (id, r)
        → get j db.files ≡ some q
        → is_live q ≡ true
        → q.parent_id ≡ parent
        → q.component_id ≡ component
        → j ≡ id
    unfolding select_entry
    select_entry-live id j r q e h l p c =
        let (i, last) =
          sql.first_some live_then_latest (entries_at parent component db.files) (id, r) e in
        let (found, pr, cr) = select_entry-some id r e in
        let le =
          All-In (λ (x : ℕ × FileRow). LexLe (live_then_latest x.1) (live_then_latest r)) (j, q)
            (entries_at parent component db.files) last
            (keep-In (λ e. is_at parent component e.1) (j, q) db.files (get-In j q db.files h)
              (eq-is_at parent component q p c)) in
        let live : is_live r ≡ true = ground arith in
        w.live_once j id q r h found l live (p ∙ sym pr) (c ∙ sym cr)
