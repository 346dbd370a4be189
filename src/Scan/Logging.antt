-- ===== src/Scan/Logging.antt =====
-- The log that a batch of events is written to.
use dafs.Prelude.{
  ◌||◌, ◌&&◌, ℕ, ◌≡◌, ◌∙◌, refl, Bool, true, false, ◌⊎◌, inl, inr, Option, some, List, [], ◌∷◌,
  ◌++◌, any, arith, if◌then◌else◌, if_both, Bool-cases, ◌==◌, eq_nat, nat_eqb_iff, subst,
}
use dafs.HashMap.{get, insert, get-insert}
use dafs.Store.Tables.{FileRow, EventRow, Db, Sqlite}
use dafs.Store.Exec.{Store, Result, ok, err, continue}
use dafs.Store.Statements.{insert_event, has_row, ids}
use dafs.Store.Rows.{get-rowid}
use dafs.Scan.Batches.{append_events}
use dafs.Scan.Quiet.{HasFile}
use dafs.Scan.Recorded.{Recorded}

abbrev pub HasEvent : ℕ → Db → Type 0
HasEvent i db = (j : ℕ) × (e : EventRow) × (get j db.events ≡ some e) × (e.file_id ≡ i)

abbrev pub names_file : ℕ → List EventRow → Bool
names_file i = any (λ e. e.file_id == i)

-- Each row of a file has an event, in the log or in the batch.
abbrev pub IsLoggedWith : List EventRow → Db → Type 0
IsLoggedWith batch db = (i : ℕ) → HasFile i db → HasEvent i db ⊎ (names_file i batch ≡ true)

any-append :
    (i : ℕ) (xs ys : List EventRow) → names_file i (xs ++ ys) ≡ (names_file i xs || names_file i ys)
any-append i [] ys = refl
any-append i (x ∷ xs) ys = ground (arith, any-append i xs ys)

HasEvent-kept : (i : ℕ) (a b : Db) → b.events ≡ a.events → HasEvent i a → HasEvent i b
HasEvent-kept i a b log (j, e, h, k) = (j, e, rw log h, k)

pub with_event :
    (batch : List EventRow) (e : EventRow) (db db' : Db)
    → Recorded db (ok (some e)) db'
    → IsLoggedWith batch db
    → IsLoggedWith (batch ++ e ∷ []) db'
with_event batch e db db' p l i f = elim (p.news i f) [
  | inr (e', same, k) ↦ inr (any-append i batch (e ∷ []) ∙ ground (arith, nat_eqb_iff e.file_id i))
  | inl old ↦ elim (l i old) [
    | inl event ↦ inl (HasEvent-kept i db db' p.log event)
    | inr b ↦ inr (any-append i batch (e ∷ []) ∙ ground (arith, b))
  ]
]

pub without_event :
    (batch : List EventRow) (r : Result (Option EventRow)) (db db' : Db)
    → Recorded db r db'
    → ((e : EventRow) → r ≡ ok (some e) → ⊥)
    → IsLoggedWith batch db
    → IsLoggedWith batch db'
without_event batch r db db' p never l i f = elim (p.news i f) [
  | inr (e, same, k) ↦ absurd (never e same)
  | inl old ↦ elim (l i old) [
    | inl event ↦ inl (HasEvent-kept i db db' p.log event)
    | inr b ↦ inr b
  ]
]

-- What writing events leaves; where it succeeds, each of them is in the log.
pub record Appended (batch : List EventRow) (db : Db) (r : Result (Unit {0})) (db' : Db)
    : Type 0 where
  pub files : db'.files ≡ db.files
  pub kept : (i : ℕ) → HasEvent i db → HasEvent i db'
  pub all : r ≡ ok tt → (i : ℕ) → names_file i batch ≡ true → HasEvent i db'

pub record Inserted (e : EventRow) (db : Db) (r : Result ℕ) (db' : Db) : Type 0 where
  pub files : db'.files ≡ db.files
  pub kept : (i : ℕ) → HasEvent i db → HasEvent i db'
  pub new : (id : ℕ) → r ≡ ok id → HasEvent e.file_id db'

module _ ⦃sql : Sqlite⦄ where
  pub insert_event-Inserted :
      (e : EventRow) (s : Store) → Inserted e s.db (insert_event e s).0 (insert_event e s).1.db
  unfolding insert_event
  insert_event-Inserted e s =
      let id = sql.rowid (ids s.db.events) in
      let at : (i : ℕ)
          → get i (insert id e s.db.events) ≡ (if id == i then some e else get i s.db.events) =
        λ i. get-insert id i e s.db.events in
      if_both (λ (out : Result ℕ × Store). Inserted e s.db out.0 out.1.db)
        (has_row (some e.file_id) s.db.files
          && (has_row e.prev_parent_id s.db.files
              && has_row e.prev_component_id s.db.path_components))
        (record {
          files = refl;
          kept = λ i (j, q, h, k).
              (j, q, at j ∙ ground (arith, nat_eqb_iff id j, get-rowid s.db.events), k);
          new = λ _ _. (id, e, at id ∙ ground (arith, nat_eqb_iff id id), refl);
        })
        (record { files = refl; kept = λ i h. h; new = λ _ h. cc })

  continue-Appended :
      (e : EventRow) (events : List EventRow) (db : Db) (r : Result ℕ) (s : Store)
      → Inserted e db r s.db
      → ((s : Store)
          → Appended events s.db (append_events events s).0 (append_events events s).1.db)
      → Appended
          (e ∷ events)
          db
          (continue r (λ _. append_events events) s).0
          (continue r (λ _. append_events events) s).1.db
  continue-Appended e events db (err x) s p ih = record {
    files = p.files;
    kept = p.kept;
    all = λ h. cc;
  }
  continue-Appended e events db (ok id) s p ih =
      let a = ih s in
      record {
        files = a.files ∙ p.files;
        kept = λ i h. a.kept i (p.kept i h);
        all = λ h i k. elim (Bool-cases (e.file_id == i)) [
          | inl here ↦
              subst (λ n. HasEvent n (append_events events s).1.db)
                ((nat_eqb_iff e.file_id i).0 here) (a.kept e.file_id (p.new id refl))
          | inr there ↦ a.all h i (ground arith)
        ];
      }

  pub append_events-Appended :
      (events : List EventRow) (s : Store)
      → Appended events s.db (append_events events s).0 (append_events events s).1.db
  unfolding append_events
  append_events-Appended [] s = record { files = refl; kept = λ i h. h; all = λ h i k. cc }
  append_events-Appended (e ∷ events) s =
      continue-Appended e events s.db (insert_event e s).0 (insert_event e s).1
        (insert_event-Inserted e s) (append_events-Appended events)

  -- Events of a batch that are partly written stay in the batch too.
  pub Appended-IsLoggedWith :
      (batch : List EventRow) (r : Result (Unit {0})) (db db' : Db)
      → Appended batch db r db'
      → IsLoggedWith batch db
      → IsLoggedWith batch db'
  Appended-IsLoggedWith batch r db db' a l i f =
      elim (l i (subst (λ t. (q : FileRow) × (get i t ≡ some q) × (q.is_dir ≡ false)) a.files f)) [
        | inl event ↦ inl (a.kept i event)
        | inr b ↦ inr b
      ]

  pub written-IsLoggedWith :
      (batch : List EventRow) (db db' : Db)
      → Appended batch db (ok tt) db'
      → IsLoggedWith batch db
      → IsLoggedWith [] db'
  written-IsLoggedWith batch db db' a l i f =
      elim (l i (subst (λ t. (q : FileRow) × (get i t ≡ some q) × (q.is_dir ≡ false)) a.files f)) [
        | inl event ↦ inl (a.kept i event)
        | inr b ↦ inl (a.all refl i b)
      ]
