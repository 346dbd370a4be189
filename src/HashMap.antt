-- ===== src/HashMap.antt =====
-- `std::collections::HashMap` as an association list. The order of the entries is that of an
-- iteration, which the source leaves open; statements go through `get` or membership.
use mathlib.Core.Path.{subst₂}
use dafs.Prelude.{
  Bool-cases, inl, inr, ◌≡◌, refl, Option, none, some, List, [], ◌∷◌, arith, if◌then◌else◌,
  PartialEq, ◌==◌,
}

abbrev pub HashMap {ℓ} : Type ℓ → Type ℓ → Type ℓ
HashMap K V = List (K × V)

module _ {ℓ} {K V : Type ℓ} ⦃e : PartialEq K⦄ where
  abbrev pub get : K → HashMap K V → Option V
  get k [] = none
  get k ((j, v) ∷ m) = if j == k then some v else get k m

  abbrev pub insert : K → V → HashMap K V → HashMap K V
  insert k v [] = (k, v) ∷ []
  insert k v ((j, w) ∷ m) = if j == k then (k, v) ∷ m else (j, w) ∷ insert k v m

  abbrev pub remove : K → HashMap K V → HashMap K V
  remove k [] = []
  remove k ((j, v) ∷ m) = let rest = remove k m in if j == k then rest else (j, v) ∷ rest

  pub get-insert :
      (k j : K) (v : V) (m : HashMap K V)
      → get j (insert k v m) ≡ (if k == j then some v else get j m)
  get-insert k j v [] = refl
  get-insert k j v ((i, w) ∷ m) =
      ground (arith, e.eqb_iff k j, e.eqb_iff i k, e.eqb_iff i j, get-insert k j v m)

  pub get-remove :
      (k j : K) (m : HashMap K V) → get j (remove k m) ≡ (if k == j then none else get j m)
  get-remove k j [] = ground arith
  get-remove k j ((i, w) ∷ m) =
      ground (arith, e.eqb_iff k j, e.eqb_iff i k, e.eqb_iff i j, get-remove k j m)

  -- No key twice.
  abbrev pub Distinct : HashMap K V → Type ℓ
  Distinct [] = Unit
  Distinct ((k, v) ∷ m) = (get k m ≡ none) × Distinct m

  pub insert-Distinct : (k : K) (v : V) (m : HashMap K V) → Distinct m → Distinct (insert k v m)
  insert-Distinct k v [] d = (refl, tt)
  insert-Distinct k v ((j, w) ∷ m) d =
      ground (arith, e.eqb_iff j k, e.eqb_iff k j, get-insert k j v m, insert-Distinct k v m d.1)

  pub remove-Distinct : (k : K) (m : HashMap K V) → Distinct m → Distinct (remove k m)
  remove-Distinct k [] d = d
  remove-Distinct k ((j, w) ∷ m) d = ground (arith, get-remove k j m, remove-Distinct k m d.1)

-- Every entry satisfies the predicate.
abbrev pub Every {ℓ κ} : {K V : Type ℓ} → (K → V → Type κ) → HashMap K V → Type κ
Every P [] = Unit
Every P ((k, v) ∷ m) = P k v × Every P m

module _ {ℓ κ} {K V : Type ℓ} ⦃e : PartialEq K⦄ (P : K → V → Type κ) where
  pub insert-Every : (k : K) (v : V) (m : HashMap K V) → P k v → Every P m → Every P (insert k v m)
  insert-Every k v [] p d = (p, tt)
  insert-Every k v ((j, w) ∷ m) p d = elim (Bool-cases (j == k)) [
    | inl same ↦ rw same (p, d.1)
    | inr other ↦ rw other (d.0, insert-Every k v m p d.1)
  ]

  pub remove-Every : (k : K) (m : HashMap K V) → Every P m → Every P (remove k m)
  remove-Every k [] d = d
  remove-Every k ((j, w) ∷ m) d = elim (Bool-cases (j == k)) [
    | inl same ↦ rw same (remove-Every k m d.1)
    | inr other ↦ rw other (d.0, remove-Every k m d.1)
  ]

  pub get-Every : (k : K) (v : V) (m : HashMap K V) → Every P m → get k m ≡ some v → P k v
  get-Every k v [] d h = cc
  get-Every k v ((j, w) ∷ m) d h = elim (Bool-cases (j == k)) [
    | inl same ↦
        let key : j ≡ k = (e.eqb_iff j k).0 same in
        let value : w ≡ v = ground arith in subst₂ P key value d.0
    | inr other ↦ get-Every k v m d.1 (ground arith)
  ]

pub Every-imp {ℓ κ κ'} :
    {K V : Type ℓ} (P : K → V → Type κ) (Q : K → V → Type κ')
    → ((k : K) (v : V) → P k v → Q k v)
    → (m : HashMap K V) → Every P m
    → Every Q m
Every-imp P Q f [] d = tt
Every-imp P Q f ((k, v) ∷ m) d = (f k v d.0, Every-imp P Q f m d.1)
