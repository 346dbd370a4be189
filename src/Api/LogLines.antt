-- ===== src/Api/LogLines.antt =====
-- The ring of crates/dafs-api/src/log_history.rs against the text that was written.
use dafs.Prelude.{
  ℕ, zero, suc, ◌+◌, ◌-◌, ◌≤◌, ◌<◌, ◌≡◌, ◌∙◌, refl, sym, ap, subst, false, not, inl, inr, Option,
  none, some, List, [], ◌∷◌, ◌++◌, length, keep, arith, Bool-cases, Option-cases, if◌then◌else◌,
  ◌==◌, eq_nat, nat_eqb_iff,
}
use dafs.Store.Timeline.{or_else}
use dafs.Api.Ends.{
  last, length-drop, length-append, drop-append, drop-drop, append_nil, append_assoc,
}
use dafs.Api.LogHistory.{
  Text, capacity, drop, LogHistoryWriter, is_empty, pop_front, push_line, find_newline,
  commit_lines, write,
}

-- A text as its lines that end in a newline, and the rest.
abbrev pub attach : ℕ → List Text × Text → List Text × Text
attach c ([], rest) = ([], c ∷ rest)
attach c (line ∷ lines, rest) = ((c ∷ line) ∷ lines, rest)

unfoldable pub lines_of : Text → List Text × Text
lines_of [] = ([], [])
lines_of (c ∷ s) =
    let below = lines_of s in if c == 10 then ([] ∷ below.0, below.1) else attach c below

abbrev pub prefixed : List Text → List Text × Text → List Text × Text
prefixed lines below = (lines ++ below.0, below.1)

attach-append :
    (c : ℕ) (b : Text) (split : List Text × Text)
    → (c == 10) ≡ false
    → attach c (prefixed split.0 (lines_of (split.1 ++ b)))
      ≡ prefixed (attach c split).0 (lines_of ((attach c split).1 ++ b))
unfolding lines_of
attach-append c b ([], rest) e = rw e refl
attach-append c b (line ∷ lines, rest) e = refl

lines_of-append :
    (a b : Text) → lines_of (a ++ b) ≡ prefixed (lines_of a).0 (lines_of ((lines_of a).1 ++ b))
unfolding lines_of
lines_of-append [] b = refl
lines_of-append (c ∷ a) b = elim (Bool-cases (c == 10)) [
  | inl e ↦ rw e (ap (prefixed ([] ∷ [])) (lines_of-append a b))
  | inr e ↦ rw e (ap (attach c) (lines_of-append a b) ∙ attach-append c b (lines_of a) e)
]

find_newline-none : (s : Text) → find_newline s ≡ none → lines_of s ≡ ([], s)
unfolding find_newline lines_of
find_newline-none [] h = refl
find_newline-none (c ∷ s) h = elim (Bool-cases (c == 10)) [
  | inl e ↦ absurd (ground (arith, h, e))
  | inr e ↦ elim (Option-cases (find_newline s)) [
    | inl later ↦ rw (e, find_newline-none s later) refl
    | inr (split, later) ↦ absurd (ground (arith, rw (e, later) at h))
  ]
]

find_newline-some :
    (s line behind : Text)
    → find_newline s ≡ some (line, behind)
    → (lines_of s ≡ prefixed (line ∷ []) (lines_of behind)) × (length behind < length s)
unfolding find_newline lines_of
find_newline-some [] line behind h = absurd (ground (arith, h))
find_newline-some (c ∷ s) line behind h = elim (Bool-cases (c == 10)) [
  | inl e ↦
      let found : ◌≡◌ {A = Option (Text × Text)} (some ([], s)) (some (line, behind)) = rw e at h in
      let first : ◌≡◌ {A = Text} [] line = ground (arith, found) in
      let second : s ≡ behind = ground (arith, found) in
      rw⁻¹ (first, second) (rw e refl, omega arith)
  | inr e ↦ elim (Option-cases (find_newline s)) [
    | inl later ↦ absurd (ground (arith, rw (e, later) at h))
    | inr (split, later) ↦
        let found : ◌≡◌ {A = Option (Text × Text)} (some (c ∷ split.0, split.1))
            (some (line, behind)) =
          rw (e, later) at h in
        let first : c ∷ split.0 ≡ line = ground (arith, found) in
        let second : split.1 ≡ behind = ground (arith, found) in
        let (same, less) = find_newline-some s split.0 split.1 later in
        rw⁻¹ (first, second) (rw (e, same) refl, omega (arith, less))
  ]
]

-- The lines, pushed one after the other.
abbrev pub push_all : List Text → List Text → List Text
push_all [] ring = ring
push_all (line ∷ lines) ring = push_all lines (push_line line ring)

commit_lines-lem :
    (rounds : ℕ) (w : LogHistoryWriter)
    → length w.buffer ≤ rounds
    → commit_lines rounds w ≡ record {
      history = push_all (lines_of w.buffer).0 w.history;
      buffer = (lines_of w.buffer).1;
    }
unfolding commit_lines
commit_lines-lem zero w h = elim (Option-cases (find_newline w.buffer)) [
  | inl e ↦ rw (find_newline-none w.buffer e) refl
  | inr ((line, behind), e) ↦
      absurd (omega (arith, h, (find_newline-some w.buffer line behind e).1))
]
commit_lines-lem (suc rounds) w h = elim (Option-cases (find_newline w.buffer)) [
  | inl e ↦ rw (e, commit_lines, find_newline-none w.buffer e) refl
  | inr ((line, behind), e) ↦
      let (same, less) = find_newline-some w.buffer line behind e in
      let next = record w { history = push_line line w.history; buffer = behind } in
      rw (e, commit_lines, same) (commit_lines-lem rounds next (omega (arith, h, less)))
]

-- The lines that are kept: those with text in them.
abbrev pub kept : List Text → List Text
kept = keep (λ line. not (is_empty line))

pop_front-drop : (lines : List Text) → pop_front lines ≡ drop 1 lines
pop_front-drop [] = refl
pop_front-drop (l ∷ lines) = refl

pub push_line-last :
    (line : Text) (seen : List Text)
    → is_empty line ≡ false
    → push_line line (last capacity seen) ≡ last capacity (seen ++ (line ∷ []))
unfolding push_line
push_line-last line seen h =
    let skipped = length seen - capacity in
    let longer : length (seen ++ (line ∷ [])) ≡ length seen + 1 = length-append seen (line ∷ []) in
    let ring = length-drop skipped seen in
    elim (Bool-cases (length (last capacity seen) == capacity)) [
      | inl e ↦
          let full = (nat_eqb_iff (length (last capacity seen)) capacity).0 e in
          let more : skipped + 1 ≡ length (seen ++ (line ∷ [])) - capacity =
            omega (arith, longer, full, ring) in
          rw (h, e)
            (ap (λ l. l ++ (line ∷ []))
                (pop_front-drop (last capacity seen) ∙ drop-drop 1 skipped seen)
              ∙ (sym (drop-append (skipped + 1) seen (line ∷ []) (omega (arith, full, ring)))
                  ∙ ap (λ n. drop n (seen ++ (line ∷ []))) more))
      | inr e ↦
          let short : length seen < capacity =
            ground (arith, e, ring, nat_eqb_iff (length (last capacity seen)) capacity) in
          let same : skipped ≡ length (seen ++ (line ∷ [])) - capacity =
            omega (arith, longer, short) in
          rw (h, e)
            (sym (drop-append skipped seen (line ∷ []) (omega (arith, short)))
              ∙ ap (λ n. drop n (seen ++ (line ∷ []))) same)
    ]

push_all-last :
    (lines seen : List Text)
    → push_all lines (last capacity seen) ≡ last capacity (seen ++ kept lines)
unfolding push_line
push_all-last [] seen = ap (last capacity) (sym (append_nil seen))
push_all-last (line ∷ lines) seen = elim (Bool-cases (is_empty line)) [
  | inl e ↦ rw (e, push_line) (push_all-last lines seen)
  | inr e ↦
      rw (push_line-last line seen e, e)
        (push_all-last lines (seen ++ (line ∷ []))
          ∙ ap (last capacity) (append_assoc seen (line ∷ []) (kept lines)))
]

-- A writer that has written this text, to a ring that held the last of `seen`.
abbrev pub Holds : List Text → Text → LogHistoryWriter → Type 0
Holds seen text w =
    (w.history ≡ last capacity (seen ++ kept (lines_of text).0)) × (w.buffer ≡ (lines_of text).1)

pub kept-append : (xs ys : List Text) → kept xs ++ kept ys ≡ kept (xs ++ ys)
kept-append [] ys = refl
kept-append (x ∷ xs) ys = elim (Bool-cases (is_empty x)) [
  | inl e ↦ rw e (kept-append xs ys)
  | inr e ↦ rw e (ap (λ l. x ∷ l) (kept-append xs ys))
]

committed-Holds :
    (seen : List Text) (text new : Text) (w : LogHistoryWriter)
    → w.history ≡ last capacity (seen ++ kept (lines_of text).0)
    → w.buffer ≡ (lines_of text).1
    → Holds seen (text ++ new) (record {
      history = push_all (lines_of (w.buffer ++ new)).0 w.history;
      buffer = (lines_of (w.buffer ++ new)).1;
    })
committed-Holds seen text new w hist buffered =
    let below = lines_of ((lines_of text).1 ++ new) in
    let before = kept (lines_of text).0 in
    rw (lines_of-append text new, hist, buffered)
      (
        push_all-last below.0 (seen ++ before)
            ∙ ap (last capacity) (
                append_assoc seen before (kept below.0)
                ∙ ap (λ l. seen ++ l) (kept-append (lines_of text).0 below.0)),
        refl,
      )

module _ (from_utf8 : List ℕ → Option Text) where
  -- The calls of `write` on one writer.
  abbrev pub write_all : List (List ℕ) → LogHistoryWriter → LogHistoryWriter
  write_all [] w = w
  write_all (buf ∷ bufs) w = write_all bufs (write from_utf8 buf w)

  -- The text of the calls, each read by itself: one that is not UTF-8 has none.
  abbrev pub written : List (List ℕ) → Text
  written [] = []
  written (buf ∷ bufs) = or_else (from_utf8 buf) [] ++ written bufs

  write-Holds :
      (seen : List Text) (buf : List ℕ) (text : Text) (w : LogHistoryWriter)
      → Holds seen text w
      → Holds seen (text ++ or_else (from_utf8 buf) []) (write from_utf8 buf w)
  unfolding write
  write-Holds seen buf text w (hist, buffered) = elim (Option-cases (from_utf8 buf)) [
    | inl e ↦ rw (e, write, append_nil text) (hist, buffered)
    | inr (new, e) ↦
        let buffer = w.buffer ++ new in
        rw (e, write)
          (subst (Holds seen (text ++ new))
            (sym (commit_lines-lem (length buffer) (record w { buffer = buffer }) (omega arith)))
            (committed-Holds seen text new w hist buffered))
  ]

  pub write_all-Holds :
      (seen : List Text) (bufs : List (List ℕ)) (text : Text) (w : LogHistoryWriter)
      → Holds seen text w
      → Holds seen (text ++ written bufs) (write_all bufs w)
  write_all-Holds seen [] text w h = rw (append_nil text) h
  write_all-Holds seen (buf ∷ bufs) text w h =
      rw⁻¹ (append_assoc text (or_else (from_utf8 buf) []) (written bufs)) (
        write_all-Holds seen bufs (text ++ or_else (from_utf8 buf) []) (write from_utf8 buf w)
          (write-Holds seen buf text w h))
