-- ===== src/Store/Rows.antt =====
-- Rows of a table by their id, by membership and by a test.
use dafs.Prelude.{
  ℕ, ◌≡◌, refl, subst, Bool, true, false, ◌⊎◌, inl, inr, Option, none, some, List, [], ◌∷◌, In, any,
  keep, arith, if◌then◌else◌, Bool-cases, ◌==◌, eq_nat, nat_eqb_iff,
}
use dafs.HashMap.{get, insert, Distinct}
use dafs.Store.Tables.{Table, Sqlite}
use dafs.Store.Statements.{ids, has_row}

In-if :
    {A : Type 0} (b : Bool) (x a : A) (ys : List A)
    → In a (if b then x ∷ ys else ys)
    → ((x ≡ a) × (b ≡ true)) ⊎ In a ys
In-if true x a ys (inl e) = inl (e, refl)
In-if true x a ys (inr i) = inr i
In-if false x a ys i = inr i

-- What a filter keeps stood in the list and passed the test.
pub In-keep :
    {A : Type 0} (p : A → Bool) (a : A) (xs : List A) → In a (keep p xs) → In a xs × (p a ≡ true)
In-keep p a [] i = absurd i
In-keep p a (x ∷ xs) i = elim (In-if (p x) x a (keep p xs) i) [
  | inl (same, h) ↦ (inl same, subst (λ y. p y ≡ true) same h)
  | inr j ↦ let (k, h) = In-keep p a xs j in (inr k, h)
]

pub keep-In :
    {A : Type 0} (p : A → Bool) (a : A) (xs : List A) → In a xs → p a ≡ true → In a (keep p xs)
keep-In p a [] i h = absurd i
keep-In p a (x ∷ xs) (inl same) h = rw (same, h) (inl refl)
keep-In p a (x ∷ xs) (inr i) h = elim (Bool-cases (p x)) [
  | inl e ↦ rw e (inr (keep-In p a xs i h))
  | inr e ↦ rw e (keep-In p a xs i h)
]

module _ {R : Type 0} where
  pub get-In : (id : ℕ) (r : R) (t : Table R) → get id t ≡ some r → In (id, r) t
  get-In id r [] h = cc
  get-In id r ((j, v) ∷ t) h = elim (Bool-cases (j == id)) [
    | inl e ↦ inl (ground (arith, nat_eqb_iff j id))
    | inr e ↦ inr (get-In id r t (ground arith))
  ]

  In-has_row : (id : ℕ) (r : R) (t : Table R) → In (id, r) t → get id t ≡ none → ⊥
  In-has_row id r [] i h = i
  In-has_row id r ((j, v) ∷ t) (inl e) h = ground (arith, nat_eqb_iff j id)
  In-has_row id r ((j, v) ∷ t) (inr i) h = In-has_row id r t i (ground arith)

  pub In-get : (id : ℕ) (r : R) (t : Table R) → Distinct t → In (id, r) t → get id t ≡ some r
  In-get id r [] d i = absurd i
  In-get id r ((j, v) ∷ t) d (inl e) = ground (arith, nat_eqb_iff j id)
  In-get id r ((j, v) ∷ t) d (inr i) = elim (Bool-cases (j == id)) [
    | inl e ↦
        absurd (In-has_row id r t i (subst (λ k. get k t ≡ none) ((nat_eqb_iff j id).0 e) d.0))
    | inr e ↦ rw e (In-get id r t d.1 i)
  ]

  pub get-none_of_fresh :
      (id : ℕ) (t : Table R) → any (λ j. j == id) (ids t) ≡ false → get id t ≡ none
  get-none_of_fresh id [] h = refl
  get-none_of_fresh id ((j, v) ∷ t) h = ground (arith, get-none_of_fresh id t)

  pub has_row-get :
      (id : ℕ) (t : Table R) → has_row (some id) t ≡ true → (r : R) × (get id t ≡ some r)
  has_row-get id [] h = absurd (ground arith)
  has_row-get id ((j, v) ∷ t) h = elim (Bool-cases (j == id)) [
    | inl e ↦ (v, rw e)
    | inr e ↦ let (r, f) = has_row-get id t (ground arith) in (r, rw e f)
  ]

  pub get-has_row : (id : ℕ) (r : R) (t : Table R) → get id t ≡ some r → has_row (some id) t ≡ true
  get-has_row id r [] h = absurd (ground arith)
  get-has_row id r ((j, v) ∷ t) h = ground (arith, get-has_row id r t)

  -- A write keeps every row.
  pub has_row-insert :
      (o : Option ℕ) (id : ℕ) (r : R) (t : Table R)
      → has_row o t ≡ true
      → has_row o (insert id r t) ≡ true
  has_row-insert none id r t h = refl
  has_row-insert (some k) id r [] h = absurd (ground arith)
  has_row-insert (some k) id r ((j, v) ∷ t) h =
      ground (arith, nat_eqb_iff j id, has_row-insert (some k) id r t)

  pub has_row-insert_self :
      (id : ℕ) (r : R) (t : Table R) → has_row (some id) (insert id r t) ≡ true
  has_row-insert_self id r [] = ground arith
  has_row-insert_self id r ((j, v) ∷ t) = ground (arith, has_row-insert_self id r t)

module _ {R : Type 0} ⦃sql : Sqlite⦄ where
  pub get-rowid : (t : Table R) → get (sql.rowid (ids t)) t ≡ none
  get-rowid t = get-none_of_fresh (sql.rowid (ids t)) t (sql.rowid_fresh (ids t))
