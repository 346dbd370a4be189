-- ===== src/Tests/Engine.antt =====
-- An instance of what the model leaves to SQLite: the largest rowid and one, and the first row of
-- the order.
use Prim.Native.Nat.{max}
use dafs.Prelude.{
  ℕ, suc, ◌<◌, ◌≡◌, refl, subst, Bool, true, false, inl, inr, Option, none, some, List, [], ◌∷◌, In,
  All, any, ltb, leb, nat_eqb, ◌&&◌, ◌||◌, arith, if◌then◌else◌, ◌==◌, eq_nat, Bool-cases,
}
use dafs.Store.Tables.{FileRow, Sqlite, LexLe}

abbrev pub largest : List ℕ → ℕ
largest [] = 0
largest (x ∷ xs) = max x (largest xs)

above-largest : (ids : List ℕ) (n : ℕ) → largest ids < n → any (λ j. j == n) ids ≡ false
above-largest [] n h = refl
above-largest (x ∷ xs) n h =
    let here : (x == n) ≡ false = below-ne x n (omega arith) in
    ground (arith, here, above-largest xs n (omega arith))
  where
    below-ne : (a b : ℕ) → a < b → (a == b) ≡ false
    below-ne a b h = ground arith

abbrev pub lex_leb : ℕ × ℕ → ℕ × ℕ → Bool
lex_leb (a, b) (c, d) = ltb a c || (nat_eqb a c && leb b d)

lex_leb-LexLe : (p q : ℕ × ℕ) → lex_leb p q ≡ true → LexLe p q
lex_leb-LexLe (a, b) (c, d) h = ground arith

lex_leb_total : (p q : ℕ × ℕ) → lex_leb p q ≡ false → LexLe q p
lex_leb_total (a, b) (c, d) h = ground arith

LexLe-trans : (p q r : ℕ × ℕ) → LexLe p q → LexLe q r → LexLe p r
LexLe-trans (a, b) (c, d) (e, f) h k = ground arith

LexLe-refl : (p : ℕ × ℕ) → LexLe p p
LexLe-refl (a, b) = inr (refl, omega arith)

module _ (key : FileRow → ℕ × ℕ) where
  abbrev pub better : ℕ × FileRow → Option (ℕ × FileRow) → ℕ × FileRow
  better x none = x
  better x (some y) = if lex_leb (key x.1) (key y.1) then y else x

  abbrev pub first_row : List (ℕ × FileRow) → Option (ℕ × FileRow)
  first_row [] = none
  first_row (x ∷ xs) = some (better x (first_row xs))

  abbrev pub IsFirst : ℕ × FileRow → List (ℕ × FileRow) → Type 0
  IsFirst r rows = In r rows × All (λ (x : ℕ × FileRow). LexLe (key x.1) (key r.1)) rows

  All-LexLe :
      (r q : ℕ × FileRow) (rows : List (ℕ × FileRow))
      → LexLe (key r.1) (key q.1)
      → All (λ (x : ℕ × FileRow). LexLe (key x.1) (key r.1)) rows
      → All (λ (x : ℕ × FileRow). LexLe (key x.1) (key q.1)) rows
  All-LexLe r q [] h a = tt
  All-LexLe r q (x ∷ xs) h a =
      (LexLe-trans (key x.1) (key r.1) (key q.1) a.0 h, All-LexLe r q xs h a.1)

  better-IsFirst :
      (x : ℕ × FileRow) (xs : List (ℕ × FileRow)) (o : Option (ℕ × FileRow))
      → first_row xs ≡ o
      → ((r : ℕ × FileRow) → first_row xs ≡ some r → IsFirst r xs)
      → IsFirst (better x o) (x ∷ xs)
  better-IsFirst x [] o e ih = ground arith
  better-IsFirst x (y ∷ ys) none e ih = cc
  better-IsFirst x (y ∷ ys) (some r) e ih =
      let (i, a) = ih r e in
      elim (Bool-cases (lex_leb (key x.1) (key r.1))) [
        | inl le ↦
            let same : r ≡ better x (some r) = ground arith in
            subst (λ q. IsFirst q (x ∷ y ∷ ys)) same
              (inr i, (lex_leb-LexLe (key x.1) (key r.1) le, a))
        | inr gt ↦
            let same : x ≡ better x (some r) = ground arith in
            subst (λ q. IsFirst q (x ∷ y ∷ ys)) same
              (
                inl refl,
                (
                  LexLe-refl (key x.1),
                  All-LexLe r x (y ∷ ys) (lex_leb_total (key x.1) (key r.1) gt) a,
                ),
              )
      ]

  pub first_row-IsFirst :
      (rows : List (ℕ × FileRow)) (r : ℕ × FileRow) → first_row rows ≡ some r → IsFirst r rows
  first_row-IsFirst [] r e = cc
  first_row-IsFirst (x ∷ xs) r e =
      subst (λ q. IsFirst q (x ∷ xs)) (ground arith)
        (better-IsFirst x xs (first_row xs) refl (first_row-IsFirst xs))

  pub first_row-none : (rows : List (ℕ × FileRow)) → first_row rows ≡ none → rows ≡ []
  first_row-none [] e = refl
  first_row-none (x ∷ xs) e = cc

pub rowid_fresh : (ids : List ℕ) → any (λ j. j == suc (largest ids)) ids ≡ false
rowid_fresh ids = above-largest ids (suc (largest ids)) (omega arith)

instance abbrev pub engine : Sqlite
engine = record {
  rowid = λ ids. suc (largest ids);
  rowid_fresh = rowid_fresh;
  first = first_row;
  first_some = first_row-IsFirst;
  first_none = first_row-none;
}
