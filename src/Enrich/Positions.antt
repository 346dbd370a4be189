-- ===== src/Enrich/Positions.antt =====
-- crates/dafs-enrich/src/lib.rs: where `find` and `rfind` find a character, and what a slice holds.
use dafs.Prelude.{
  ◌≡◌, ◌≢◌, refl, ap, ◌+◌, ◌≤◌, ℕ, none, some, [], ◌∷◌, ◌++◌, length, take, All, Bool-cases,
  Option-cases, arith, inl, inr, ◌==◌, eq_nat,
}
use dafs.Api.LogHistory.{Text, drop}
use dafs.Enrich.{find, rfind}

abbrev pub Lacks : ℕ → Text → Type 0
Lacks c = All (λ x. x ≢ c)

find-Lacks : (c : ℕ) (t : Text) → find c t ≡ none → Lacks c t
unfolding find
find-Lacks c [] e = tt
find-Lacks c (x ∷ xs) e = ((λ q. ground (arith, e, q)), find-Lacks c xs (ground (arith, e)))

-- Where `find` finds the character, and that it is the first.
pub find-splits :
    (c : ℕ) (t : Text) (i : ℕ)
    → find c t ≡ some i
    → (before : Text) × (after : Text) × (t ≡ before ++ c ∷ after)
      × (length before ≡ i)
      × Lacks c before
unfolding find
find-splits c [] i e = absurd (ground (arith, e))
find-splits c (x ∷ xs) i e = elim (Bool-cases (x == c)) [
  | inl h ↦ ([], xs, ap (λ y. y ∷ xs) (ground (arith, h)), ground (arith, e, h), tt)
  | inr h ↦ elim (Option-cases (find c xs)) [
    | inl n ↦ absurd (ground (arith, e, h, n))
    | inr (j, s) ↦
        let (before, after, same, len, lacks) = find-splits c xs j s in
        (
          x ∷ before,
          after,
          ap (λ y. x ∷ y) same,
          ground (arith, e, h, s, len),
          ((λ q. ground (arith, h, q)), lacks),
        )
  ]
]

pub find-first :
    (c : ℕ) (before after : Text)
    → (i : ℕ) × (find c (before ++ c ∷ after) ≡ some i) × (i ≤ length before)
unfolding find
find-first c [] after = (0, ground arith, omega arith)
find-first c (x ∷ before) after =
    let (i, e, b) = find-first c before after in
    elim (Bool-cases (x == c)) [
      | inl h ↦ (0, rw (e, h) refl, omega arith)
      | inr h ↦ (i + 1, rw (e, h) refl, omega (arith, b))
    ]

rfind-Lacks : (c : ℕ) (t : Text) → rfind c t ≡ none → Lacks c t
unfolding rfind
rfind-Lacks c [] e = tt
rfind-Lacks c (x ∷ xs) e = elim (Option-cases (rfind c xs)) [
  | inl n ↦ ((λ q. ground (arith, e, n, q)), rfind-Lacks c xs n)
  | inr (j, s) ↦ absurd (ground (arith, e, s))
]

pub rfind-splits :
    (c : ℕ) (t : Text) (i : ℕ)
    → rfind c t ≡ some i
    → (before : Text) × (after : Text) × (t ≡ before ++ c ∷ after)
      × (length before ≡ i)
      × Lacks c after
unfolding rfind
rfind-splits c [] i e = absurd (ground (arith, e))
rfind-splits c (x ∷ xs) i e = elim (Option-cases (rfind c xs)) [
  | inl n ↦ elim (Bool-cases (x == c)) [
    | inl h ↦
        ([], xs, ap (λ y. y ∷ xs) (ground (arith, h)), ground (arith, e, h, n), rfind-Lacks c xs n)
    | inr h ↦ absurd (ground (arith, e, h, n))
  ]
  | inr (j, s) ↦
      let (before, after, same, len, lacks) = rfind-splits c xs j s in
      (x ∷ before, after, ap (λ y. x ∷ y) same, ground (arith, e, s, len), lacks)
]

pub rfind-last :
    (c : ℕ) (before after : Text)
    → (i : ℕ) × (rfind c (before ++ c ∷ after) ≡ some i) × (length before ≤ i)
unfolding rfind
rfind-last c [] after = elim (Option-cases (rfind c after)) [
  | inl n ↦ (0, ground (arith, n), omega arith)
  | inr (j, s) ↦ (j + 1, rw s refl, omega arith)
]
rfind-last c (x ∷ before) after =
    let (i, e, b) = rfind-last c before after in (i + 1, rw e refl, omega (arith, b))

abbrev head_or : ℕ → Text → ℕ
head_or d [] = d
head_or d (x ∷ xs) = x

list_tail : {x y : ℕ} {xs ys : Text} → x ∷ xs ≡ y ∷ ys → xs ≡ ys
list_tail e = ap (drop 1) e

-- Two splits of a text, the first of them not later, at different characters.
pub between :
    (b h r a : Text) (c d : ℕ)
    → b ++ c ∷ r ≡ h ++ d ∷ a
    → length b ≤ length h
    → c ≢ d
    → (inner : Text) × (r ≡ inner ++ d ∷ a) × (length h ≡ length b + 1 + length inner)
between [] [] r a c d e l apart = absurd (apart (ap (head_or 0) e))
between [] (y ∷ h) r a c d e l apart = (h, list_tail e, omega arith)
between (x ∷ b) [] r a c d e l apart = absurd (omega (arith, l))
between (x ∷ b) (y ∷ h) r a c d e l apart =
    let (inner, same, len) = between b h r a c d (list_tail e) (omega (arith, l)) apart in
    (inner, same, omega (arith, len))

pub drop-length : (b r : Text) → drop (length b) (b ++ r) ≡ r
drop-length [] r = refl
drop-length (x ∷ b) r = drop-length b r

pub take-length : (b r : Text) → take (length b) (b ++ r) ≡ b
take-length [] r = refl
take-length (x ∷ b) r = rw (take-length b r) refl
