-- ===== src/Watch/Bursts.antt =====
-- Repeated writes to one path, and what a write does to a rename that is still pending.
use dafs.Prelude.{
  ℕ, ◌-◌, ◌≡◌, ◌≢◌, ◌∙◌, refl, ap, false, Option, none, some, List, [], ◌∷◌, leb, arith, eq_nat,
  eq_list, if◌then◌else◌,
}
use dafs.HashMap.{get, insert, remove, Every, remove-Every, get-Every, get-insert, get-remove}
use dafs.FilePath.{FilePath, eq_component, path_eqb_iff}
use dafs.Notify.{Event, RenameMode, NotifyKind}
use dafs.Watch.{
  touched, renamed, PendingRename, Watch, debounce, emit_rename, absorb_both, absorb_paths,
  try_rename, absorb, expire_half, lone_change, expired_ids, expire_each, expire_pending_renames,
  take_expired,
}
use dafs.Watch.Validity.{IsValid, absorb-IsValid}
use dafs.Watch.Expiry.{about, due, waiting, take_expired-due}

-- No half of a rename that waits for its partner names `path`.
abbrev pub HasNoHalf : FilePath → Watch → Type 0
HasNoHalf path w = Every (λ (t : ℕ) half. half.path ≢ path) w.pending_renames

module _ (path : FilePath) where
  expire_half-HasNoHalf :
      (now id : ℕ) (half : Option PendingRename) (w : Watch)
      → HasNoHalf path w
      → HasNoHalf path (expire_half now id half w)
  expire_half-HasNoHalf now id none w h = h
  expire_half-HasNoHalf now id (some half) w h =
      remove-Every (λ (t : ℕ) half. half.path ≢ path) id w.pending_renames h

  expire_half-other :
      (now id : ℕ) (half : Option PendingRename) (w : Watch)
      → get id w.pending_renames ≡ half
      → HasNoHalf path w
      → get path (expire_half now id half w).pending ≡ get path w.pending
  expire_half-other now id none w e h = refl
  expire_half-other now id (some half) w e h = ground (
    arith,
    get-insert half.path path (record { change = lone_change half; last_seen = now }) w.pending,
    path_eqb_iff half.path path,
    get-Every (λ (t : ℕ) half. half.path ≢ path) id half w.pending_renames h e,
  )

  expire_each-other :
      (now : ℕ) (ids : List ℕ) (w : Watch)
      → HasNoHalf path w
      → get path (expire_each now ids w).pending ≡ get path w.pending
  unfolding expire_each
  expire_each-other now [] w h = refl
  expire_each-other now (id ∷ ids) w h =
      let half = get id w.pending_renames in
      expire_each-other now ids (expire_half now id half w) (expire_half-HasNoHalf now id half w h)
      ∙ expire_half-other now id half w refl h

  -- The expiry of halves leaves every other path's pending change alone.
  pub expire_pending_renames-other :
      (now : ℕ) (w : Watch)
      → HasNoHalf path w
      → get path (expire_pending_renames now w).pending ≡ get path w.pending
  unfolding expire_pending_renames
  expire_pending_renames-other now w h =
      expire_each-other now (expired_ids now w.pending_renames) w h

-- A write to a file, as inotify reports it.
abbrev pub write : FilePath → Event
write path = record {
  kind = NotifyKind.modify;
  paths = path ∷ [];
  tracker = none;
  need_rescan = false;
}

-- A rename whose two paths came in one event.
abbrev pub move : FilePath → FilePath → Event
move source target = record {
  kind = NotifyKind.renaming RenameMode.both;
  paths = source ∷ target ∷ [];
  tracker = none;
  need_rescan = false;
}

-- Writes at these times, and one more at the last.
abbrev pub writes : FilePath → List ℕ → ℕ → Watch → Watch
writes path [] last w = absorb (write path) last w
writes path (t ∷ times) last w = writes path times last (absorb (write path) t w)

absorb-write :
    (path : FilePath) (t : ℕ) (w : Watch)
    → absorb (write path) t w ≡ record w {
      pending = insert path (record { change = touched path; last_seen = t }) w.pending;
    }
unfolding absorb try_rename absorb_paths
absorb-write path t w = refl

writes-pending :
    (path : FilePath) (times : List ℕ) (last : ℕ) (w : Watch)
    → (get path (writes path times last w).pending
        ≡ some (record { change = touched path; last_seen = last }))
      × ((writes path times last w).pending_renames ≡ w.pending_renames)
writes-pending path [] last w =
    rw absorb-write
      (get-insert path path _ w.pending ∙ ground (arith, path_eqb_iff path path), refl)
writes-pending path (t ∷ times) last w =
    let (found, same) = writes-pending path times last (absorb (write path) t w) in
    (found, same ∙ rw absorb-write refl)

writes-IsValid :
    (path : FilePath) (times : List ℕ) (last : ℕ) (w : Watch)
    → IsValid w
    → IsValid (writes path times last w)
writes-IsValid path [] last w v = absorb-IsValid (write path) last w v
writes-IsValid path (t ∷ times) last w v =
    writes-IsValid path times last (absorb (write path) t w) (absorb-IsValid (write path) t w v)

-- On a path of which no half of a rename waits for its partner: however many writes there were,
-- whatever other change was pending for the path before and whenever they came, a poll reports nothing
-- for the path while less than the window has passed since the last one, and keeps it; from then on it
-- reports one touch, and nothing stays behind.
pub writes-once :
    (path : FilePath) (times : List ℕ) (last now : ℕ) (w : Watch)
    → IsValid w
    → HasNoHalf path w
    → (about path (take_expired now (writes path times last w)).1
        ≡ (if leb debounce (now - last) then touched path ∷ [] else []))
      × (get path (take_expired now (writes path times last w)).0.pending ≡ (
          if leb debounce (now - last)
          then none
          else some (record { change = touched path; last_seen = last })))
writes-once path times last now w v h =
    let w' = writes path times last w in
    let (found, same) = writes-pending path times last w in
    let (out, left) = take_expired-due now w' path (writes-IsValid path times last w v) in
    let pending : get path (expire_pending_renames now w').pending
        ≡ some (record { change = touched path; last_seen = last }) =
      expire_pending_renames-other path now w' (rw same h) ∙ found in
    (out ∙ ap (due now) pending, left ∙ ap (waiting now) pending)

absorb-move :
    (a b : FilePath) (t : ℕ) (w : Watch)
    → absorb (move a b) t w ≡ record w {
      pending = insert b (record { change = renamed a b; last_seen = t }) (remove a w.pending);
    }
unfolding absorb try_rename absorb_both emit_rename
absorb-move a b t w = refl

-- A file moved from `a` to `b` and then written at `b` within the same window: the poll reports at
-- most a touch of `b`. The rename is forgotten, and nothing that it reports is about `a`, then or
-- later, since nothing stays pending for `a`.
pub write-forgets-move :
    (a b : FilePath) (moved written now : ℕ) (w : Watch)
    → IsValid w
    → HasNoHalf a w
    → HasNoHalf b w
    → a ≢ b
    → (about b (take_expired now (absorb (write b) written (absorb (move a b) moved w))).1
        ≡ (if leb debounce (now - written) then touched b ∷ [] else []))
      × (about a (take_expired now (absorb (write b) written (absorb (move a b) moved w))).1 ≡ [])
      × (get a (take_expired now (absorb (write b) written (absorb (move a b) moved w))).0.pending
          ≡ none)
write-forgets-move a b moved written now w v ha hb ne =
    let w1 = absorb (move a b) moved w in
    let v1 = absorb-IsValid (move a b) moved w v in
    let w2 = absorb (write b) written w1 in
    let (out, left) = take_expired-due now w2 a (absorb-IsValid (write b) written w1 v1) in
    let gone : get a (expire_pending_renames now w2).pending ≡ none =
      expire_pending_renames-other a now w2 (rw (absorb-write, absorb-move) ha)
      ∙ rw (absorb-write, absorb-move)
          (ground (
            arith,
            path_eqb_iff b a,
            path_eqb_iff a a,
            get-insert b a (record { change = touched b; last_seen = written })
                (insert b (record { change = renamed a b; last_seen = moved })
                  (remove a w.pending)),
            get-insert b a (record { change = renamed a b; last_seen = moved })
                (remove a w.pending),
            get-remove a a w.pending,
          )) in
    (
      (writes-once b [] written now w1 v1 (rw absorb-move hb)).0,
      out ∙ ap (due now) gone,
      left ∙ ap (waiting now) gone,
    )
