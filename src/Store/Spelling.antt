-- ===== src/Store/Spelling.antt =====
-- What the parent links of a row spell.

use dafs.Prelude.{
  ℕ, zero, suc, ◌≤◌, String, ◌≡◌, refl, Option, none, some, List, [], ◌∷◌, length, arith, eq_nat,
}
use dafs.HashMap.{get}
use dafs.Store.Tables.{FileRow, Db}
use dafs.Store.Paths.{max_depth, render, path_row, walk, resolve_path}
use dafs.Store.Names.{named}
use dafs.Store.Growth.{Grows}

-- The parent links from an id upwards read these names, the last one first.
abbrev pub Spells : Db → Option ℕ → List String → Type 0
Spells db current [] = current ≡ none
Spells db current (name ∷ names) =
    (id : ℕ) × (row : FileRow) × (current ≡ some id)
    × (get id db.files ≡ some row)
    × (get row.component_id db.path_components ≡ some (named name))
    × Spells db row.parent_id names

pub Spells-Grows :
    (db db' : Db) (current : Option ℕ) (names : List String)
    → Grows db db'
    → Spells db current names
    → Spells db' current names
Spells-Grows db db' current [] g s = s
Spells-Grows db db' current (name ∷ names) g (id, row, here, found, called, up) =
    let (row', found', p, c) = g.rows id row found in
    (
      id,
      row',
      here,
      found',
      rw c (g.names row.component_id (named name) called),
      rw p (Spells-Grows db db' row.parent_id names g up),
    )

-- Read from the root: `names` in reverse, before `rest`.
abbrev pub onto : List String → List String → List String
onto [] rest = rest
onto (n ∷ names) rest = onto names (n ∷ rest)

path_row-Spells :
    (db : Db) (id : ℕ) (row : FileRow) (name : String)
    → get id db.files ≡ some row
    → get row.component_id db.path_components ≡ some (named name)
    → path_row id db ≡ some (name, row.parent_id)
path_row-Spells db id row name found called = ground (arith, found, called)

walk-Spells :
    (rounds : ℕ) (db : Db) (current : Option ℕ) (names : List String) (c : String)
    (cs : List String)
    → Spells db current names
    → length names ≤ rounds
    → walk rounds db current (c ∷ cs) ≡ render (onto names (c ∷ cs))
unfolding walk
walk-Spells zero db current [] c cs s h = refl
walk-Spells (suc rounds) db current [] c cs s h = rw s refl
walk-Spells zero db current (name ∷ names) c cs s h = absurd (omega arith)
walk-Spells (suc rounds) db current (name ∷ names) c cs (id, row, here, found, called, up) h =
    rw (here, walk)
      (rw (path_row-Spells db id row name found called)
        (walk-Spells rounds db row.parent_id names name (c ∷ cs) up (omega arith)))

pub resolve_path-Spells :
    (db : Db) (id : ℕ) (name : String) (names : List String)
    → Spells db (some id) (name ∷ names)
    → length (name ∷ names) ≤ max_depth
    → resolve_path db id ≡ render (onto names (name ∷ []))
unfolding resolve_path walk
resolve_path-Spells db id name names (id', row, here, found, called, up) h =
    let found' : get id db.files ≡ some row = ground (arith, here, found) in
    rw (path_row-Spells db id row name found' called, resolve_path, walk)
      (walk-Spells 255 db row.parent_id names name [] up (omega arith))
