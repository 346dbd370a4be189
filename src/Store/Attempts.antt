-- ===== src/Store/Attempts.antt =====
-- How often a file is tried.
use dafs.Prelude.{
  ℕ, zero, suc, ◌+◌, ◌≤◌, ◌<◌, ◌≡◌, ◌∙◌, refl, sym, ap, subst, true, false, inl, inr, none, some,
  List, [], ◌∷◌, In, keep, map, take, ltb, leb, arith, Bool-cases, Option-cases, ◌==◌, eq_nat,
  nat_eqb_iff,
}
use dafs.HashMap.{get, insert-Distinct, Distinct, get-insert}
use dafs.Store.Tables.{Table, FileRow}
use dafs.Store.Statements.{has_row}
use dafs.Store.Rows.{In-keep, In-get, get-has_row}
use dafs.Store.Catalog.{MetadataRow, QueueRow, Work}
use dafs.Store.Queue.{
  max_attempts, count_attempt, oldest_first, is_eligible, insert_by_age, order_by_age, pending,
  attempted, fresh_row, requeue_outdated, wants_first, queue_new, requeue_stale,
}

In-insert_by_age :
    (e x : ℕ × QueueRow) (rows : List (ℕ × QueueRow))
    → In x (insert_by_age e rows)
    → In x (e ∷ rows)
unfolding insert_by_age
In-insert_by_age e x [] i = i
In-insert_by_age e x (y ∷ rows) i = elim (Bool-cases (leb e.1.queued_at_unix y.1.queued_at_unix)) [
  | inl t ↦ rw t at i
  | inr t ↦ elim (rw t at i) [
    | inl here ↦ inr (inl here)
    | inr there ↦ elim (In-insert_by_age e x rows there) [
      | inl first ↦ inl first
      | inr later ↦ inr (inr later)
    ]
  ]
]

In-order_by_age :
    (x : ℕ × QueueRow) (rows : List (ℕ × QueueRow)) → In x (order_by_age rows) → In x rows
unfolding order_by_age
In-order_by_age x [] i = i
In-order_by_age x (e ∷ rows) i = elim (In-insert_by_age e x (order_by_age rows) i) [
  | inl here ↦ inl here
  | inr there ↦ inr (In-order_by_age x rows there)
]

In-map-take :
    (id n : ℕ) (rows : List (ℕ × QueueRow))
    → In id (map (λ e. e.0) (take n rows))
    → (r : QueueRow) × In (id, r) rows
In-map-take id zero rows i = absurd i
In-map-take id (suc n) [] i = absurd i
In-map-take id (suc n) (e ∷ rows) (inl here) = (e.1, inl (ap (λ j. (j, e.1)) here))
In-map-take id (suc n) (e ∷ rows) (inr there) =
    let (r, i) = In-map-take id n rows there in (r, inr i)

pub oldest_first-bounded :
    (limit id : ℕ) (queue : Table QueueRow)
    → Distinct queue
    → In id (oldest_first limit queue)
    → (r : QueueRow) × (get id queue ≡ some r) × (r.attempt_count < max_attempts)
unfolding oldest_first
oldest_first-bounded limit id queue d i =
    let (r, j) = In-map-take id limit (order_by_age (keep is_eligible queue)) i in
    let (k, e) =
      In-keep is_eligible (id, r) queue (In-order_by_age (id, r) (keep is_eligible queue) j) in
    (r, In-get id r queue d k, ground (arith, e))

-- Where the queue holds each file once: a file that `pending` offers is in it and was tried fewer than `max_attempts` times.
pub pending-bounded :
    (limit id : ℕ) (w : Work)
    → Distinct w.extraction_queue
    → In id (pending limit w)
    → (r : QueueRow) × (get id w.extraction_queue ≡ some r) × (r.attempt_count < max_attempts)
unfolding pending
pending-bounded limit id w d i = oldest_first-bounded limit id w.extraction_queue d i

-- `n` attempts in a row.
abbrev pub attempts : ℕ → ℕ → Table QueueRow → Table QueueRow
attempts zero id queue = queue
attempts (suc n) id queue = count_attempt id (attempts n id queue)

pub get-count_attempt :
    (id : ℕ) (r : QueueRow) (queue : Table QueueRow)
    → get id queue ≡ some r
    → get id (count_attempt id queue) ≡ some (attempted r)
unfolding count_attempt
get-count_attempt id r queue h =
    rw (h, count_attempt) (get-insert id id (attempted r) queue ∙ ground (arith, nat_eqb_iff id id))

get-attempts :
    (n id : ℕ) (r : QueueRow) (queue : Table QueueRow)
    → get id queue ≡ some r
    → (q : QueueRow) × (get id (attempts n id queue) ≡ some q)
      × (q.attempt_count ≡ r.attempt_count + n)
get-attempts zero id r queue h = (r, h, omega arith)
get-attempts (suc n) id r queue h =
    let (q, found, counted) = get-attempts n id r queue h in
    (attempted q, get-count_attempt id q (attempts n id queue) found, omega (arith, counted))

pub count_attempt-Distinct :
    (id : ℕ) (queue : Table QueueRow) → Distinct queue → Distinct (count_attempt id queue)
unfolding count_attempt
count_attempt-Distinct id queue d = elim (Option-cases (get id queue)) [
  | inl e ↦ rw (e, count_attempt) d
  | inr (r, e) ↦ rw (e, count_attempt) (insert-Distinct id (attempted r) queue d)
]

attempts-Distinct :
    (n id : ℕ) (queue : Table QueueRow) → Distinct queue → Distinct (attempts n id queue)
attempts-Distinct zero id queue d = d
attempts-Distinct (suc n) id queue d =
    count_attempt-Distinct id (attempts n id queue) (attempts-Distinct n id queue d)

-- Where a queue, of any of the three kinds, holds each file once: a file whose attempts of before and
-- those counted since, with nothing else done to the queue in between, are `max_attempts` or more is
-- not offered.
pub attempts-pending :
    (n id limit : ℕ) (r : QueueRow) (queue : Table QueueRow)
    → Distinct queue
    → get id queue ≡ some r
    → max_attempts ≤ r.attempt_count + n
    → In id (oldest_first limit (attempts n id queue))
    → ⊥
attempts-pending n id limit r queue d h enough i =
    let (q, found, counted) = get-attempts n id r queue h in
    let (p, there, few) =
      oldest_first-bounded limit id (attempts n id queue) (attempts-Distinct n id queue d) i in
    let same : some p ≡ some q = sym there ∙ found in ground (arith, same, counted, few, enough)

get-requeue_outdated :
    (id version at : ℕ) (t : Table MetadataRow) (queue : Table QueueRow)
    → get id t ≡ none
    → get id (requeue_outdated version at t queue) ≡ get id queue
unfolding requeue_outdated
get-requeue_outdated id version at [] queue h = refl
get-requeue_outdated id version at ((j, m) ∷ t) queue h =
    let rest = requeue_outdated version at t queue in
    let later : get id rest ≡ get id queue =
      get-requeue_outdated id version at t queue (ground arith) in
    let put = get-insert j id (fresh_row at) rest in
    elim (Bool-cases (ltb m.extractor_version version)) [
      | inl e ↦ rw e (put ∙ ground (arith, h, later))
      | inr e ↦ rw e later
    ]

get-queue_new :
    (id at : ℕ) (r : QueueRow) (rows : List (ℕ × FileRow)) (queue : Table QueueRow)
    → ((e : ℕ × FileRow) → In e rows → (e.0 == id) ≡ false)
    → get id queue ≡ some r
    → get id (queue_new at rows queue) ≡ some r
unfolding queue_new
get-queue_new id at r [] queue other h = h
get-queue_new id at r ((j, q) ∷ rows) queue other h =
    let later = get-queue_new id at r rows queue (λ e i. other e (inr i)) h in
    let apart : (j == id) ≡ false = other (j, q) (inl refl) in
    get-insert j id (fresh_row at) (queue_new at rows queue) ∙ rw apart later

wants_first-absent :
    (w : Work) (queue : Table QueueRow) (e : ℕ × FileRow)
    → wants_first w queue e ≡ true
    → has_row (some e.0) queue ≡ false
wants_first-absent w queue (id, r) h = ground (arith, h)

-- `requeue_stale` leaves a row as it is, its count too, where its file has no metadata: a file that
-- was tried `max_attempts` times and never succeeded stays parked whatever the version.
pub requeue_stale-parked :
    (id version at : ℕ) (r : QueueRow) (w : Work)
    → get id w.file_metadata ≡ none
    → get id w.extraction_queue ≡ some r
    → get id (requeue_stale version at w).extraction_queue ≡ some r
unfolding requeue_stale
requeue_stale-parked id version at r w never h =
    let queue = requeue_outdated version at w.file_metadata w.extraction_queue in
    let here : get id queue ≡ some r =
      get-requeue_outdated id version at w.file_metadata w.extraction_queue never ∙ h in
    get-queue_new id at r (keep (wants_first w queue) w.db.files) queue
      (λ e i.
        let (_, t) = In-keep (wants_first w queue) e w.db.files i in
        let absent = wants_first-absent w queue e t in
        let present = get-has_row id r queue here in
        elim (Bool-cases (e.0 == id)) [
          | inl same ↦ absurd (
              ground (
                arith,
                absent,
                subst (λ n. has_row (some n) queue ≡ true) (sym ((nat_eqb_iff e.0 id).0 same))
                    present,
              ))
          | inr apart ↦ apart
        ])
      here
