-- ===== src/Watch/Overflow.antt =====
-- Lost events: a poll reports them first, once, and only then.
use dafs.Prelude.{
  ℕ, ◌≡◌, ◌≢◌, ◌∙◌, refl, ap, Bool, true, false, ◌&&◌, ◌||◌, Option, none, some, List, [], ◌∷◌, All,
  any, leb, arith, eq_nat, eq_list, if◌then◌else◌, Bool-cases, inl, inr,
}
use dafs.HashMap.{HashMap, get, Every}
use dafs.FilePath.{FilePath}
use dafs.Notify.{Event, RenameMode, NotifyKind}
use dafs.Watch.{
  Change, overflowed, Pending, PendingRename, Watch, is_other, is_quiet, emit_rename, keep_half,
  pair_half, absorb_half, absorb_both, change_of, note, absorb_paths, try_rename, absorb, Received,
  event, failed, Arrival, handle, receive, expire_half, expired_ids, expire_each,
  expire_pending_renames, retain_pending, take_expired, poll,
}
use dafs.Watch.Validity.{
  IsValid, IsAbout, target_of, absorb-IsValid, expire_pending_renames-IsValid,
}

-- An error of the backend, or an event that asks for a rescan.
abbrev pub loses : Received → Bool
loses failed = true
loses (event e) = is_other e.kind && e.need_rescan

-- What a poll takes from the channel: up to and with the first message after which the deadline has
-- passed.
abbrev pub heard : ℕ → List Arrival → List Received
heard deadline [] = []
heard deadline (a ∷ rest) =
    let more = heard deadline rest in
    if leb deadline a.checked then a.received ∷ [] else a.received ∷ more

handle-IsValid : (r : Received) (now : ℕ) (w : Watch) → IsValid w → IsValid (handle r now w)
handle-IsValid failed now w v = record {
  paths_once = v.paths_once;
  trackers_once = v.trackers_once;
  keyed = v.keyed;
}
handle-IsValid (event e) now w v = absorb-IsValid e now w v

pair_half-overflow :
    (path : FilePath) (t : ℕ) (is_source : Bool) (now : ℕ) (partner : Option PendingRename)
    (w : Watch)
    → (pair_half path t is_source now partner w).overflow ≡ w.overflow
unfolding pair_half emit_rename keep_half
pair_half-overflow path t is_source now partner w = ground arith

absorb_half-overflow :
    (is_source : Bool) (paths : List FilePath) (tracker : Option ℕ) (now : ℕ) (w : Watch)
    → (absorb_half is_source paths tracker now w).0.overflow ≡ w.overflow
unfolding absorb_half
absorb_half-overflow is_source [] tracker now w = refl
absorb_half-overflow is_source (path ∷ rest) none now w = refl
absorb_half-overflow is_source (path ∷ rest) (some t) now w =
    pair_half-overflow path t is_source now (get t w.pending_renames) _

absorb_both-overflow :
    (paths : List FilePath) (now : ℕ) (w : Watch)
    → (absorb_both paths now w).0.overflow ≡ w.overflow
unfolding absorb_both emit_rename
absorb_both-overflow [] now w = refl
absorb_both-overflow (a ∷ []) now w = refl
absorb_both-overflow (a ∷ b ∷ rest) now w = refl

try_rename-overflow :
    (kind : NotifyKind) (e : Event) (now : ℕ) (w : Watch)
    → (try_rename kind e now w).0.overflow ≡ w.overflow
unfolding try_rename
try_rename-overflow (NotifyKind.renaming RenameMode.both) e now w =
    absorb_both-overflow e.paths now w
try_rename-overflow (NotifyKind.renaming RenameMode.from) e now w =
    absorb_half-overflow true e.paths e.tracker now w
try_rename-overflow (NotifyKind.renaming RenameMode.to) e now w =
    absorb_half-overflow false e.paths e.tracker now w
try_rename-overflow (NotifyKind.renaming _) e now w = refl
try_rename-overflow _ e now w = refl

note-overflow :
    (path : FilePath) (now : ℕ) (change : Option Change) (w : Watch)
    → (note path now change w).overflow ≡ w.overflow
note-overflow path now none w = refl
note-overflow path now (some change) w = refl

absorb_paths-overflow :
    (kind : NotifyKind) (paths : List FilePath) (now : ℕ) (w : Watch)
    → (absorb_paths kind paths now w).overflow ≡ w.overflow
unfolding absorb_paths
absorb_paths-overflow kind [] now w = refl
absorb_paths-overflow kind (path ∷ paths) now w =
    absorb_paths-overflow kind paths now _ ∙ note-overflow path now (change_of kind path) w

handle-overflow :
    (r : Received) (now : ℕ) (w : Watch) → (handle r now w).overflow ≡ (w.overflow || loses r)
unfolding absorb
handle-overflow failed now w = ground arith
handle-overflow (event e) now w = ground (
  arith,
  try_rename-overflow e.kind e now w,
  absorb_paths-overflow e.kind e.paths now (try_rename e.kind e now w).0,
)

receive-overflow :
    (deadline : ℕ) (channel : List Arrival) (w : Watch)
    → (receive deadline channel w).0.overflow ≡ (w.overflow || any loses (heard deadline channel))
unfolding receive
receive-overflow deadline [] w = ground arith
receive-overflow deadline (a ∷ rest) w = ground (
  arith,
  handle-overflow a.received a.now w,
  receive-overflow deadline rest (handle a.received a.now w),
)

receive-IsValid :
    (deadline : ℕ) (channel : List Arrival) (w : Watch)
    → IsValid w
    → IsValid (receive deadline channel w).0
unfolding receive
receive-IsValid deadline [] w v = v
receive-IsValid deadline (a ∷ rest) w v = elim (Bool-cases (leb deadline a.checked)) [
  | inl stop ↦ rw stop (handle-IsValid a.received a.now w v)
  | inr on ↦ rw on (receive-IsValid deadline rest _ (handle-IsValid a.received a.now w v))
]

expire_half-overflow :
    (now id : ℕ) (half : Option PendingRename) (w : Watch)
    → (expire_half now id half w).overflow ≡ w.overflow
expire_half-overflow now id none w = refl
expire_half-overflow now id (some half) w = refl

expire_each-overflow :
    (now : ℕ) (ids : List ℕ) (w : Watch) → (expire_each now ids w).overflow ≡ w.overflow
unfolding expire_each
expire_each-overflow now [] w = refl
expire_each-overflow now (id ∷ ids) w =
    expire_each-overflow now ids _ ∙ expire_half-overflow now id (get id w.pending_renames) w

expired-keyed :
    (now : ℕ) (w : Watch)
    → IsValid w
    → Every IsAbout (expire_each now (expired_ids now w.pending_renames) w).pending
unfolding expire_pending_renames
expired-keyed now w v = (expire_pending_renames-IsValid now w v).keyed

abbrev pub IsKnown : Change → Type 0
IsKnown c = c ≢ overflowed

IsKnown-target : (path : FilePath) (c : Change) → target_of c ≡ some path → IsKnown c
IsKnown-target path c about e = cc (about, ap target_of e)

retain_pending-IsKnown :
    (now : ℕ) (m : HashMap FilePath Pending)
    → Every IsAbout m
    → All IsKnown (retain_pending now m).1
unfolding retain_pending
retain_pending-IsKnown now [] d = tt
retain_pending-IsKnown now ((q, p) ∷ m) d = elim (Bool-cases (is_quiet now p)) [
  | inl quiet ↦ rw quiet (IsKnown-target q p.change d.0, retain_pending-IsKnown now m d.1)
  | inr fresh ↦ rw fresh (retain_pending-IsKnown now m d.1)
]

-- A poll returns `overflowed` exactly if events were lost before it or in what it hears; it then
-- returns it once, before every other change, and the next poll starts afresh.
pub poll-overflow :
    (deadline : ℕ) (channel : List Arrival) (now : ℕ) (w : Watch)
    → IsValid w
    → ((rest : List Change) × ((poll deadline channel now w).1
          ≡ (if w.overflow || any loses (heard deadline channel) then overflowed ∷ rest else rest))
        × All IsKnown rest)
      × ((poll deadline channel now w).0.overflow ≡ false)
unfolding poll take_expired expire_pending_renames
poll-overflow deadline channel now w v =
    let w1 = (receive deadline channel w).0 in
    let ids = expired_ids now w1.pending_renames in
    let w2 = expire_each now ids w1 in
    let flag : w2.overflow ≡ (w.overflow || any loses (heard deadline channel)) =
      expire_each-overflow now ids w1 ∙ receive-overflow deadline channel w in
    let known =
      retain_pending-IsKnown now w2.pending
        (expired-keyed now w1 (receive-IsValid deadline channel w v)) in
    (((retain_pending now w2.pending).1, rw (← flag) (ground arith), known), refl)
