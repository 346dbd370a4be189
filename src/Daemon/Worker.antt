-- ===== src/Daemon/Worker.antt =====
-- The loop that the three workers of crates/dafs-daemon share: poll a queue for a batch, and process
-- each file of it.
use dafs.Prelude.{
  ℕ, zero, suc, ◌+◌, ◌-◌, ◌≤◌, ◌<◌, ◌≡◌, refl, sym, subst, Bool, true, false, ◌⊎◌, inl, inr, some,
  List, [], ◌∷◌, In, arith, Bool-cases, Option-cases, if◌then◌else◌, ◌==◌, eq_nat,
}
use dafs.HashMap.{get, insert, remove, Distinct, remove-Distinct}
use dafs.Store.Tables.{Table}
use dafs.Store.Catalog.{QueueRow}
use dafs.Store.Queue.{max_attempts, attempted, oldest_first, count_attempt}
use dafs.Store.Attempts.{oldest_first-bounded, count_attempt-Distinct}

abbrev pub batch : ℕ
batch = 16

-- A worker: its queue, its `process_one`, and what each call of it finds outside of the store (with
-- the stop flag, read before the call).
module _ {S W : Type 0} (queue : S → Table QueueRow) (process_one : W → ℕ → S → S)
    (stop : W → Bool) where
  -- The `for` over a batch, with whether it returned from the thread.
  unfoldable pub drain : (ℕ → W) → List ℕ → S → Bool × S
  drain world [] s = (false, s)
  drain world (id ∷ file_ids) s =
      let rest = drain world file_ids (process_one (world id) id s) in
      if stop (world id) then (true, s) else rest

  -- One round of the `while`: an empty batch is a sleep.
  unfoldable pub round : (ℕ → W) → S → Bool × S
  unfolding drain
  round world s = drain world (oldest_first batch (queue s)) s

  -- That many rounds, or fewer if the stop flag is seen.
  unfoldable pub run : ℕ → (ℕ → ℕ → W) → S → S
  unfolding round
  run zero worlds s = s
  run (suc rounds) worlds s =
      let (stopped, next) = round (worlds rounds) s in
      let rest = run rounds worlds next in if stopped then next else rest

-- The attempts that a queue has left.
unfoldable pub remaining : Table QueueRow → ℕ
remaining [] = 0
remaining ((id, r) ∷ t) = (max_attempts - r.attempt_count) + remaining t

remaining-insert :
    (id : ℕ) (r new : QueueRow) (queue : Table QueueRow)
    → get id queue ≡ some r
    → remaining (insert id new queue) + (max_attempts - r.attempt_count)
      ≡ remaining queue + (max_attempts - new.attempt_count)
unfolding remaining
remaining-insert id r new [] h = absurd (ground (arith, h))
remaining-insert id r new ((j, q) ∷ t) h = elim (Bool-cases (j == id)) [
  | inl e ↦
      let same : q ≡ r = ground (arith, h, e) in
      let counts : q.attempt_count ≡ r.attempt_count = cc same in rw e (omega (arith, counts))
  | inr e ↦ rw e (omega (arith, remaining-insert id r new t (ground (arith, h, e))))
]

remaining-remove : (id : ℕ) (queue : Table QueueRow) → remaining (remove id queue) ≤ remaining queue
unfolding remaining
remaining-remove id [] = omega arith
remaining-remove id ((j, q) ∷ t) = elim (Bool-cases (j == id)) [
  | inl e ↦ rw e (omega (arith, remaining-remove id t))
  | inr e ↦ rw e (omega (arith, remaining-remove id t))
]

remaining-count_attempt :
    (id : ℕ) (queue : Table QueueRow) → remaining (count_attempt id queue) ≤ remaining queue
unfolding count_attempt
remaining-count_attempt id queue = elim (Option-cases (get id queue)) [
  | inl e ↦ rw (e, count_attempt) (omega arith)
  | inr (r, e) ↦ rw (e, count_attempt) (omega (arith, remaining-insert id r (attempted r) queue e))
]

remaining-offered :
    (id : ℕ) (r : QueueRow) (queue : Table QueueRow)
    → get id queue ≡ some r
    → r.attempt_count < max_attempts
    → remaining (count_attempt id queue) < remaining queue
unfolding count_attempt
remaining-offered id r queue e few =
    rw (e, count_attempt) (omega (arith, remaining-insert id r (attempted r) queue e, few))

List-cases : {A : Type 0} (xs : List A) → (xs ≡ []) ⊎ ((x : A) × (ys : List A) × (xs ≡ x ∷ ys))
List-cases [] = inl refl
List-cases (x ∷ xs) = inr (x, xs, refl)

-- What a call of `process_one` does to the queue: it counts the attempt, and may then take the file
-- out.
abbrev pub Counts : ℕ → Table QueueRow → Table QueueRow → Type 0
Counts id before after =
    (after ≡ count_attempt id before) ⊎ (after ≡ remove id (count_attempt id before))

Counts-remaining :
    (id : ℕ) (before after : Table QueueRow)
    → Counts id before after
    → remaining after ≤ remaining (count_attempt id before)
Counts-remaining id before after (inl e) = rw e (omega arith)
Counts-remaining id before after (inr e) = rw e (remaining-remove id (count_attempt id before))

Counts-Distinct :
    (id : ℕ) (before after : Table QueueRow)
    → Counts id before after
    → Distinct before
    → Distinct after
Counts-Distinct id before after (inl e) d = rw e (count_attempt-Distinct id before d)
Counts-Distinct id before after (inr e) d =
    rw e (remove-Distinct id (count_attempt id before) (count_attempt-Distinct id before d))

module _ {S W : Type 0} (queue : S → Table QueueRow) (process_one : W → ℕ → S → S) (stop : W → Bool)
    (counts : (w : W) (id : ℕ) (s : S) → Counts id (queue s) (queue (process_one w id s))) where
  process_one-remaining :
      (w : W) (id : ℕ) (s : S) → remaining (queue (process_one w id s)) ≤ remaining (queue s)
  process_one-remaining w id s = omega (
    arith,
    Counts-remaining id (queue s) (queue (process_one w id s)) (counts w id s),
    remaining-count_attempt id (queue s),
  )

  drain-remaining :
      (world : ℕ → W) (ids : List ℕ) (s : S)
      → remaining (queue (drain queue process_one stop world ids s).1) ≤ remaining (queue s)
  unfolding drain
  drain-remaining world [] s = omega arith
  drain-remaining world (id ∷ ids) s = elim (Bool-cases (stop (world id))) [
    | inl e ↦ rw e (omega arith)
    | inr e ↦ rw e (
        omega (
          arith,
          drain-remaining world ids (process_one (world id) id s),
          process_one-remaining (world id) id s,
        ))
  ]

  drain-Distinct :
      (world : ℕ → W) (ids : List ℕ) (s : S)
      → Distinct (queue s)
      → Distinct (queue (drain queue process_one stop world ids s).1)
  unfolding drain
  drain-Distinct world [] s d = d
  drain-Distinct world (id ∷ ids) s d = elim (Bool-cases (stop (world id))) [
    | inl e ↦ rw e d
    | inr e ↦ rw e (
        drain-Distinct world ids (process_one (world id) id s) (
          Counts-Distinct id (queue s) (queue (process_one (world id) id s))
            (counts (world id) id s) d))
  ]

  drain-running :
      (world : ℕ → W) (ids : List ℕ) (s : S)
      → ((id : ℕ) → stop (world id) ≡ false)
      → (drain queue process_one stop world ids s).0 ≡ false
  unfolding drain
  drain-running world [] s on = refl
  drain-running world (id ∷ ids) s on =
      rw (on id) (drain-running world ids (process_one (world id) id s) on)

  round-running :
      (world : ℕ → W) (s : S)
      → ((id : ℕ) → stop (world id) ≡ false)
      → (round queue process_one stop world s).0 ≡ false
  unfolding round
  round-running world s on = drain-running world (oldest_first batch (queue s)) s on

  round-Distinct :
      (world : ℕ → W) (s : S)
      → Distinct (queue s)
      → Distinct (queue (round queue process_one stop world s).1)
  unfolding round
  round-Distinct world s d = drain-Distinct world (oldest_first batch (queue s)) s d

  round-remaining :
      (world : ℕ → W) (s : S)
      → Distinct (queue s)
      → ((id : ℕ) → stop (world id) ≡ false)
      → (id : ℕ) (ids : List ℕ) → oldest_first batch (queue s) ≡ id ∷ ids
      → remaining (queue (round queue process_one stop world s).1) < remaining (queue s)
  unfolding round drain
  round-remaining world s d on id ids e =
      let offered : In id (oldest_first batch (queue s)) =
        subst (λ l. In id l) (sym e) (inl refl) in
      let (r, found, few) = oldest_first-bounded batch id (queue s) d offered in
      let next = process_one (world id) id s in
      rw (e, round, drain, on id)
        (omega (
          arith,
          drain-remaining world ids next,
          Counts-remaining id (queue s) (queue next) (counts (world id) id s),
          remaining-offered id r (queue s) found few,
        ))

  run-idle :
      (rounds : ℕ) (worlds : ℕ → ℕ → W) (s : S)
      → oldest_first batch (queue s) ≡ []
      → run queue process_one stop rounds worlds s ≡ s
  unfolding run round drain
  run-idle zero worlds s e = refl
  run-idle (suc rounds) worlds s e = rw (e, round, drain) (run-idle rounds worlds s e)

  -- A worker that is not stopped, on a queue that nothing else writes: after as many rounds as the queue
  -- has attempts left it is drained, whatever each attempt comes to.
  pub run-drained :
      (rounds : ℕ) (worlds : ℕ → ℕ → W) (s : S)
      → Distinct (queue s)
      → ((n id : ℕ) → stop (worlds n id) ≡ false)
      → remaining (queue s) ≤ rounds
      → oldest_first batch (queue (run queue process_one stop rounds worlds s)) ≡ []
  unfolding run
  run-drained zero worlds s d on enough = elim (List-cases (oldest_first batch (queue s))) [
    | inl e ↦ e
    | inr (id, ids, e) ↦
        absurd (omega (arith, enough, round-remaining (worlds 0) s d (on 0) id ids e))
  ]
  run-drained (suc rounds) worlds s d on enough = elim (List-cases (oldest_first batch (queue s))) [
    | inl e ↦ rw (run-idle (suc rounds) worlds s e) e
    | inr (id, ids, e) ↦
        let world = worlds rounds in
        let next = (round queue process_one stop world s).1 in
        let less = round-remaining world s d (on rounds) id ids e in
        rw (round-running world s (on rounds)) (
          run-drained rounds worlds next (round-Distinct world s d) on
            (omega (arith, less, enough)))
  ]
