-- ===== src/Api/LogHistory.antt =====
-- crates/dafs-api/src/log_history.rs: the ring of recent log lines and its writer. A text is a list of
-- code points.
use dafs.Prelude.{
  ℕ, zero, suc, ◌-◌, Bool, true, false, Option, none, some, List, [], ◌∷◌, ◌++◌, length,
  if◌then◌else◌, ◌==◌, eq_nat,
}

abbrev pub Text : Type 0
Text = List ℕ

abbrev pub capacity : ℕ
capacity = 2000

-- `iter().skip(…)`
abbrev pub drop {ℓ} : {A : Type ℓ} → ℕ → List A → List A
drop zero xs = xs
drop (suc n) [] = []
drop (suc n) (x ∷ xs) = drop n xs

-- The lines of the ring, oldest first, and the text that has no newline yet.
pub record LogHistoryWriter : Type 0 where
  pub history : List Text
  pub buffer : Text

-- `LogHistory::new()` and its `writer()`.
abbrev pub new_writer : LogHistoryWriter
new_writer = record { history = []; buffer = [] }

abbrev pub is_empty : Text → Bool
is_empty [] = true
is_empty (c ∷ s) = false

abbrev pub pop_front : List Text → List Text
pop_front [] = []
pop_front (l ∷ lines) = lines

unfoldable pub push_line : Text → List Text → List Text
push_line line lines =
    if is_empty line
    then lines
    else (if length lines == capacity then pop_front lines else lines) ++ (line ∷ [])

-- The last `limit` lines.
unfoldable pub recent : ℕ → List Text → List Text
recent limit lines = drop (length lines - limit) lines

-- `find('\n')`, as what stands before the newline and what stands behind it.
unfoldable pub find_newline : Text → Option (Text × Text)
find_newline [] = none
find_newline (c ∷ s) =
    let rest = find_newline s in
    if c == 10
    then some ([], s)
    else elim rest [ none ↦ none | some (line, behind) ↦ some (c ∷ line, behind) ]

-- The `while let`, with the rounds that are left.
unfoldable pub commit_lines : ℕ → LogHistoryWriter → LogHistoryWriter
unfolding find_newline push_line
commit_lines zero w = w
commit_lines (suc rounds) w = elim (find_newline w.buffer) [
  | none ↦ w
  | some (line, behind) ↦
      commit_lines rounds (record w { history = push_line line w.history; buffer = behind })
]

-- `write`; `from_utf8` is `none` on bytes that are not UTF-8.
module _ (from_utf8 : List ℕ → Option Text) where
  unfoldable pub write : List ℕ → LogHistoryWriter → LogHistoryWriter
  unfolding commit_lines
  write buf w = elim (from_utf8 buf) [
    | none ↦ w
    | some text ↦
        let buffer = w.buffer ++ text in commit_lines (length buffer) (record w { buffer = buffer })
  ]

-- `Drop`
unfoldable pub drop_writer : LogHistoryWriter → LogHistoryWriter
unfolding push_line
drop_writer w =
    if is_empty w.buffer then w else record { history = push_line w.buffer w.history; buffer = [] }
