-- ===== src/Store/Walking.antt =====
-- `resolve_path` of crates/dafs-store/src/paths.rs on any tables.
use dafs.Prelude.{
  ℕ, zero, suc, ◌≤◌, ◌⊎◌, String, ◌≡◌, refl, ap, Option, none, some, List, [], ◌∷◌, length,
  Option-cases, inl, inr, arith,
}
use dafs.Store.Tables.{Db}
use dafs.Store.Paths.{path_row, render, walk, resolve_path}

-- The names of rows on the way up from `at`, each the parent of the one before, up to `stop`.
abbrev pub IsChain : Db → Option ℕ → List String → Option ℕ → Type 0
IsChain db at [] stop = at ≡ stop
IsChain db none (name ∷ upward) stop = ⊥
IsChain db (some id) (name ∷ upward) stop =
    (parent : Option ℕ) × (path_row id db ≡ some (name, parent)) × IsChain db parent upward stop

-- Why the way up ends: the rounds are used up, there is no parent, or its row or name is missing.
abbrev pub IsEnd : ℕ → Db → List String → Option ℕ → Type 0
IsEnd rounds db upward stop =
    (length upward ≡ rounds)
    ⊎ ((stop ≡ none) ⊎ ((id : ℕ) × (stop ≡ some id) × (path_row id db ≡ none)))

abbrev pub top_down : List String → List String → List String
top_down [] below = below
top_down (name ∷ upward) below = top_down upward (name ∷ below)

-- A walk from `at` with these rounds and this text.
abbrev pub IsWalk : ℕ → Db → Option ℕ → List String → String → Type 0
IsWalk rounds db at below text =
    (upward : List String) × (stop : Option ℕ) × IsChain db at upward stop
    × (length upward ≤ rounds)
    × IsEnd rounds db upward stop
    × (text ≡ render (top_down upward below))

IsEnd-suc :
    (rounds : ℕ) (db : Db) (name : String) (upward : List String) (stop : Option ℕ)
    → IsEnd rounds db upward stop
    → IsEnd (suc rounds) db (name ∷ upward) stop
IsEnd-suc rounds db name upward stop (inl full) = inl (ap suc full)
IsEnd-suc rounds db name upward stop (inr e) = inr e

walk-IsWalk :
    (rounds : ℕ) (db : Db) (at : Option ℕ) (c : String) (cs : List String)
    → IsWalk rounds db at (c ∷ cs) (walk rounds db at (c ∷ cs))
unfolding walk
walk-IsWalk zero db at c cs = ([], at, refl, omega arith, inl refl, refl)
walk-IsWalk (suc rounds) db none c cs = ([], none, refl, omega arith, inr (inl refl), refl)
walk-IsWalk (suc rounds) db (some id) c cs = elim (Option-cases (path_row id db)) [
  | inl e ↦ ([], some id, refl, omega arith, inr (inr (id, refl, e)), rw (e, walk) refl)
  | inr ((name, parent), e) ↦
      let (upward, stop, chain, few, end, text) = walk-IsWalk rounds db parent name (c ∷ cs) in
      (
        name ∷ upward,
        stop,
        (parent, e, chain),
        omega (arith, few),
        IsEnd-suc rounds db name upward stop end,
        rw (e, walk) text,
      )
]

-- Whatever the tables hold, a cycle of parents or a missing row included, `resolve_path` returns: the
-- text is that of the names on the way up from the row, from the top down, at most 256 of them; it
-- stops before that only where there is no parent, or where a row or its name is missing.
pub resolve_path-IsWalk : (db : Db) (id : ℕ) → IsWalk 256 db (some id) [] (resolve_path db id)
unfolding resolve_path walk
resolve_path-IsWalk db id = elim (Option-cases (path_row id db)) [
  | inl e ↦
      ([], some id, refl, omega arith, inr (inr (id, refl, e)), rw (e, resolve_path, walk) refl)
  | inr ((name, parent), e) ↦
      let (upward, stop, chain, few, end, text) = walk-IsWalk 255 db parent name [] in
      (
        name ∷ upward,
        stop,
        (parent, e, chain),
        omega (arith, few),
        IsEnd-suc 255 db name upward stop end,
        rw (e, resolve_path, walk) text,
      )
]
