-- ===== src/Store/Ordering.antt =====
-- The order of the timeline.
use dafs.Prelude.{
  ℕ, ◌<◌, ◌≡◌, ◌∙◌, refl, Bool, true, false, ◌&&◌, ◌||◌, inl, inr, List, [], ◌∷◌, ◌++◌, All, keep,
  ltb, arith, if◌then◌else◌, Bool-cases, ◌==◌, eq_nat,
}
use dafs.Store.Timeline.{RawEvent, comes_first, insert_row, order_rows}

-- No row before one that it comes after.
abbrev pub IsOrdered : List RawEvent → Type 0
IsOrdered [] = Unit
IsOrdered (x ∷ rows) = All (λ y. comes_first x y ≡ true) rows × IsOrdered rows

abbrev pub HasId : ℕ → RawEvent → Type 0
HasId id e = (e.id == id) ≡ false

-- No id twice.
abbrev pub IsOnce : List RawEvent → Type 0
IsOnce [] = Unit
IsOnce (x ∷ rows) = All (HasId x.id) rows × IsOnce rows

abbrev key_first : ℕ → ℕ → ℕ → ℕ → Bool
key_first at id at' id' = ltb at' at || (at == at' && ltb id' id)

key_first_trans :
    (a i b j c k : ℕ)
    → key_first a i b j ≡ true
    → key_first b j c k ≡ true
    → key_first a i c k ≡ true
key_first_trans a i b j c k h l = ground arith

key_first-total :
    (a i b j : ℕ) → key_first a i b j ≡ false → (j == i) ≡ false → key_first b j a i ≡ true
key_first-total a i b j h l = ground arith

comes_first_trans :
    (x y z : RawEvent) → comes_first x y ≡ true → comes_first y z ≡ true → comes_first x z ≡ true
comes_first_trans x y z = key_first_trans x.at_unix_ms x.id y.at_unix_ms y.id z.at_unix_ms z.id

All-map :
    (P Q : RawEvent → Type 0) (xs : List RawEvent)
    → ((x : RawEvent) → P x → Q x)
    → All P xs
    → All Q xs
All-map P Q [] f a = tt
All-map P Q (x ∷ xs) f a = (f x a.0, All-map P Q xs f a.1)

pub All-keep :
    (P : RawEvent → Type 0) (p : RawEvent → Bool) (xs : List RawEvent)
    → All P xs
    → All P (keep p xs)
All-keep P p [] a = tt
All-keep P p (x ∷ xs) a = elim (Bool-cases (p x)) [
  | inl e ↦ rw e (a.0, All-keep P p xs a.1)
  | inr e ↦ rw e (All-keep P p xs a.1)
]

All-insert_row :
    (P : RawEvent → Type 0) (e : RawEvent) (xs : List RawEvent)
    → P e
    → All P xs
    → All P (insert_row e xs)
unfolding insert_row
All-insert_row P e [] h a = (h, tt)
All-insert_row P e (x ∷ xs) h a = elim (Bool-cases (comes_first e x)) [
  | inl t ↦ rw t (h, a)
  | inr t ↦ rw t (a.0, All-insert_row P e xs h a.1)
]

pub All-order_rows : (P : RawEvent → Type 0) (xs : List RawEvent) → All P xs → All P (order_rows xs)
unfolding order_rows
All-order_rows P [] a = tt
All-order_rows P (x ∷ xs) a = All-insert_row P x (order_rows xs) a.0 (All-order_rows P xs a.1)

insert_row-IsOrdered :
    (e : RawEvent) (xs : List RawEvent)
    → All (HasId e.id) xs
    → IsOrdered xs
    → IsOrdered (insert_row e xs)
unfolding insert_row
insert_row-IsOrdered e [] a o = (tt, tt)
insert_row-IsOrdered e (x ∷ xs) a o = elim (Bool-cases (comes_first e x)) [
  | inl t ↦ rw t (
    (
      t,
      All-map (λ y. comes_first x y ≡ true) (λ y. comes_first e y ≡ true) xs
          (λ y. comes_first_trans e x y t) o.0,
    ),
    o,
  )
  | inr t ↦ rw t (
    All-insert_row (λ y. comes_first x y ≡ true) e xs
        (key_first-total e.at_unix_ms e.id x.at_unix_ms x.id t a.0) o.0,
    insert_row-IsOrdered e xs a.1 o.1,
  )
]

pub order_rows-IsOrdered : (xs : List RawEvent) → IsOnce xs → IsOrdered (order_rows xs)
unfolding order_rows
order_rows-IsOrdered [] u = tt
order_rows-IsOrdered (x ∷ xs) u =
    insert_row-IsOrdered x (order_rows xs) (All-order_rows (HasId x.id) xs u.0)
      (order_rows-IsOrdered xs u.1)

insert_row-first :
    (e : RawEvent) (xs : List RawEvent)
    → All (λ y. comes_first e y ≡ true) xs
    → insert_row e xs ≡ e ∷ xs
unfolding insert_row
insert_row-first e [] a = refl
insert_row-first e (x ∷ xs) a = rw a.0 refl

keep-insert_row :
    (p : RawEvent → Bool) (e : RawEvent) (xs : List RawEvent)
    → IsOrdered xs
    → keep p (insert_row e xs) ≡ (if p e then insert_row e (keep p xs) else keep p xs)
unfolding insert_row
keep-insert_row p e [] o = refl
keep-insert_row p e (x ∷ xs) o = elim (Bool-cases (comes_first e x)) [
  | inl t ↦
      let before : All (λ y. comes_first e y ≡ true) (keep p (x ∷ xs)) =
        All-keep (λ y. comes_first e y ≡ true) p (x ∷ xs)
          (
            t,
            All-map (λ y. comes_first x y ≡ true) (λ y. comes_first e y ≡ true) xs
                (λ y. comes_first_trans e x y t) o.0,
          ) in
      rw t (rw (insert_row-first e (keep p (x ∷ xs)) before) refl)
  | inr t ↦
      let later = keep-insert_row p e xs o.1 in
      elim (Bool-cases (p x)) [
        | inl px ↦ elim (Bool-cases (p e)) [
          | inl pe ↦ rw (t, px, later, pe) (rw t refl)
          | inr pe ↦ rw (t, px, later, pe) refl
        ]
        | inr px ↦ rw (t, px, later) refl
      ]
]

pub keep-IsOnce : (p : RawEvent → Bool) (xs : List RawEvent) → IsOnce xs → IsOnce (keep p xs)
keep-IsOnce p [] u = tt
keep-IsOnce p (x ∷ xs) u = elim (Bool-cases (p x)) [
  | inl e ↦ rw e (All-keep (HasId x.id) p xs u.0, keep-IsOnce p xs u.1)
  | inr e ↦ rw e (keep-IsOnce p xs u.1)
]

-- A filter may go before the sort or after it.
pub keep-order_rows :
    (p : RawEvent → Bool) (xs : List RawEvent)
    → IsOnce xs
    → keep p (order_rows xs) ≡ order_rows (keep p xs)
unfolding order_rows
keep-order_rows p [] u = refl
keep-order_rows p (x ∷ xs) u =
    keep-insert_row p x (order_rows xs) (order_rows-IsOrdered xs u.1) ∙ elim (Bool-cases (p x)) [
      | inl e ↦ rw (e, keep-order_rows p xs u.1) refl
      | inr e ↦ rw (e, keep-order_rows p xs u.1) refl
    ]

-- In the order of their ids, larger first.
pub record IsDescending (front rest : List RawEvent) (l : RawEvent) : Type 0 where
  pub above : All (λ x. l.id < x.id) front
  pub below : All (λ x. x.id < l.id) rest

-- What lies below a row of such a list is what the cursor of that row leaves.
keep-below :
    (l : RawEvent) (rest : List RawEvent)
    → All (λ x. x.id < l.id) rest
    → keep (λ x. ltb x.id l.id) rest ≡ rest
keep-below l [] a = refl
keep-below l (x ∷ rest) a = rw (keep-below l rest a.1) (ground (arith, a.0))

pub keep-cursor :
    (l : RawEvent) (front rest : List RawEvent)
    → IsDescending front rest l
    → keep (λ x. ltb x.id l.id) (front ++ l ∷ rest) ≡ rest
keep-cursor l [] rest d = rw (keep-below l rest d.below) (ground arith)
keep-cursor l (x ∷ front) rest d =
    let above : l.id < x.id = d.above.0 in
    rw (keep-cursor l front rest (record { above = d.above.1; below = d.below }))
      (ground (arith, above))
