-- ===== src/Watch/Validity.antt =====
-- The invariant of the two maps of a `Watch`: no key twice, and each pending change is about its key.
use mathlib.Core.Bool.{xor}
use dafs.Prelude.{
  ℕ, ◌≡◌, refl, Bool, true, false, ◌&&◌, Option, none, some, List, [], ◌∷◌, arith, eq_nat, eq_list,
  if_both, Bool-cases, inl, inr,
}
use dafs.HashMap.{
  HashMap, get, insert, remove, Distinct, insert-Distinct, remove-Distinct, Every, insert-Every,
  remove-Every,
}
use dafs.FilePath.{FilePath, eq_component}
use dafs.Notify.{Event, RenameMode, NotifyKind}
use dafs.Watch.{
  Change, touched, removed, renamed, overflowed, Pending, PendingRename, Watch, start, emit_rename,
  keep_half, pair_half, absorb_half, absorb_both, change_of, note, absorb_paths, try_rename,
  is_other, is_quiet, absorb, expire_half, expired_ids, expire_each, expire_pending_renames,
  retain_pending, take_expired,
}

-- The path that a change leaves in place: the key that it is pending under.
abbrev pub target_of : Change → Option FilePath
target_of (touched path) = some path
target_of (removed path) = some path
target_of (renamed source target) = some target
target_of overflowed = none

abbrev pub IsAbout : FilePath → Pending → Type 0
IsAbout path p = target_of p.change ≡ some path

pub record IsValid (w : Watch) : Type 0 where
  pub paths_once : Distinct w.pending
  pub trackers_once : Distinct w.pending_renames
  pub keyed : Every IsAbout w.pending

pub start-IsValid : IsValid start
start-IsValid = record { paths_once = tt; trackers_once = tt; keyed = tt }

pub insert-IsValid :
    (w : Watch) (path : FilePath) (p : Pending)
    → IsAbout path p
    → IsValid w
    → IsValid (record w { pending = insert path p w.pending })
insert-IsValid w path p about v = record {
  paths_once = insert-Distinct path p w.pending v.paths_once;
  trackers_once = v.trackers_once;
  keyed = insert-Every IsAbout path p w.pending about v.keyed;
}

emit_rename-IsValid :
    (source target : FilePath) (now : ℕ) (w : Watch)
    → IsValid w
    → IsValid (emit_rename source target now w)
unfolding emit_rename
emit_rename-IsValid source target now w v = record {
  paths_once =
      insert-Distinct target _ (remove source w.pending)
        (remove-Distinct source w.pending v.paths_once);
  trackers_once = v.trackers_once;
  keyed =
      insert-Every IsAbout target _ (remove source w.pending) refl
        (remove-Every IsAbout source w.pending v.keyed);
}

keep_half-IsValid :
    (path : FilePath) (tracker : ℕ) (is_source : Bool) (now : ℕ) (w : Watch)
    → IsValid w
    → IsValid (keep_half path tracker is_source now w)
unfolding keep_half
keep_half-IsValid path tracker is_source now w v = record {
  paths_once = v.paths_once;
  trackers_once = insert-Distinct tracker _ w.pending_renames v.trackers_once;
  keyed = v.keyed;
}

pair_half-IsValid :
    (path : FilePath) (tracker : ℕ) (is_source : Bool) (now : ℕ) (partner : Option PendingRename)
    (w : Watch)
    → IsValid w
    → IsValid (pair_half path tracker is_source now partner w)
unfolding pair_half
pair_half-IsValid path tracker is_source now none w v =
    keep_half-IsValid path tracker is_source now w v
pair_half-IsValid path tracker is_source now (some partner) w v =
    if_both IsValid (xor partner.is_source is_source)
      (if_both IsValid is_source (emit_rename-IsValid path partner.path now w v)
        (emit_rename-IsValid partner.path path now w v))
      (keep_half-IsValid path tracker is_source now w v)

absorb_half-IsValid :
    (is_source : Bool) (paths : List FilePath) (tracker : Option ℕ) (now : ℕ) (w : Watch)
    → IsValid w
    → IsValid (absorb_half is_source paths tracker now w).0
unfolding absorb_half
absorb_half-IsValid is_source [] tracker now w v = v
absorb_half-IsValid is_source (path ∷ rest) none now w v = v
absorb_half-IsValid is_source (path ∷ rest) (some tracker) now w v =
    pair_half-IsValid path tracker is_source now (get tracker w.pending_renames) _ (record {
      paths_once = v.paths_once;
      trackers_once = remove-Distinct tracker w.pending_renames v.trackers_once;
      keyed = v.keyed;
    })

absorb_both-IsValid :
    (paths : List FilePath) (now : ℕ) (w : Watch) → IsValid w → IsValid (absorb_both paths now w).0
unfolding absorb_both
absorb_both-IsValid [] now w v = v
absorb_both-IsValid (source ∷ []) now w v = v
absorb_both-IsValid (source ∷ target ∷ rest) now w v = emit_rename-IsValid source target now w v

try_rename-IsValid :
    (kind : NotifyKind) (event : Event) (now : ℕ) (w : Watch)
    → IsValid w
    → IsValid (try_rename kind event now w).0
unfolding try_rename
try_rename-IsValid (NotifyKind.renaming RenameMode.both) event now w v =
    absorb_both-IsValid event.paths now w v
try_rename-IsValid (NotifyKind.renaming RenameMode.from) event now w v =
    absorb_half-IsValid true event.paths event.tracker now w v
try_rename-IsValid (NotifyKind.renaming RenameMode.to) event now w v =
    absorb_half-IsValid false event.paths event.tracker now w v
try_rename-IsValid (NotifyKind.renaming _) event now w v = v
try_rename-IsValid _ event now w v = v

note-IsValid :
    (kind : NotifyKind) (path : FilePath) (now : ℕ) (w : Watch)
    → IsValid w
    → IsValid (note path now (change_of kind path) w)
note-IsValid NotifyKind.access path now w v = v
note-IsValid _ path now w v = insert-IsValid w path _ refl v

absorb_paths-IsValid :
    (kind : NotifyKind) (paths : List FilePath) (now : ℕ) (w : Watch)
    → IsValid w
    → IsValid (absorb_paths kind paths now w)
unfolding absorb_paths
absorb_paths-IsValid kind [] now w v = v
absorb_paths-IsValid kind (path ∷ paths) now w v =
    absorb_paths-IsValid kind paths now _ (note-IsValid kind path now w v)

pub absorb-IsValid :
    (event : Event) (now : ℕ) (w : Watch) → IsValid w → IsValid (absorb event now w)
unfolding absorb
absorb-IsValid event now w v =
    if_both IsValid (is_other event.kind && event.need_rescan)
      (record { paths_once = v.paths_once; trackers_once = v.trackers_once; keyed = v.keyed })
      (if_both IsValid (try_rename event.kind event now w).1
        (try_rename-IsValid event.kind event now w v)
        (absorb_paths-IsValid event.kind event.paths now _
          (try_rename-IsValid event.kind event now w v)))

expire_half-IsValid :
    (now id : ℕ) (half : Option PendingRename) (w : Watch)
    → IsValid w
    → IsValid (expire_half now id half w)
expire_half-IsValid now id none w v = v
expire_half-IsValid now id (some half) w v = insert-IsValid _ half.path _ (ground arith) (record {
  paths_once = v.paths_once;
  trackers_once = remove-Distinct id w.pending_renames v.trackers_once;
  keyed = v.keyed;
})

expire_each-IsValid :
    (now : ℕ) (ids : List ℕ) (w : Watch) → IsValid w → IsValid (expire_each now ids w)
unfolding expire_each
expire_each-IsValid now [] w v = v
expire_each-IsValid now (id ∷ ids) w v =
    expire_each-IsValid now ids _ (expire_half-IsValid now id (get id w.pending_renames) w v)

pub expire_pending_renames-IsValid :
    (now : ℕ) (w : Watch) → IsValid w → IsValid (expire_pending_renames now w)
unfolding expire_pending_renames
expire_pending_renames-IsValid now w v =
    expire_each-IsValid now (expired_ids now w.pending_renames) w v

-- What stays pending was pending.
pub get-retain_pending-none :
    (now : ℕ) (m : HashMap FilePath Pending) (path : FilePath)
    → get path m ≡ none
    → get path (retain_pending now m).0 ≡ none
unfolding retain_pending
get-retain_pending-none now [] path h = refl
get-retain_pending-none now ((q, p) ∷ m) path h = ground (arith, get-retain_pending-none now m path)

retain_pending-Distinct :
    (now : ℕ) (m : HashMap FilePath Pending) → Distinct m → Distinct (retain_pending now m).0
unfolding retain_pending
retain_pending-Distinct now [] d = tt
retain_pending-Distinct now ((q, p) ∷ m) d = elim (Bool-cases (is_quiet now p)) [
  | inl quiet ↦ rw quiet (retain_pending-Distinct now m d.1)
  | inr fresh ↦ rw fresh (get-retain_pending-none now m q d.0, retain_pending-Distinct now m d.1)
]

retain_pending-Every :
    (now : ℕ) (m : HashMap FilePath Pending)
    → Every IsAbout m
    → Every IsAbout (retain_pending now m).0
unfolding retain_pending
retain_pending-Every now [] d = tt
retain_pending-Every now ((q, p) ∷ m) d = elim (Bool-cases (is_quiet now p)) [
  | inl quiet ↦ rw quiet (retain_pending-Every now m d.1)
  | inr fresh ↦ rw fresh (d.0, retain_pending-Every now m d.1)
]

pub take_expired-IsValid : (now : ℕ) (w : Watch) → IsValid w → IsValid (take_expired now w).0
unfolding take_expired
take_expired-IsValid now w v =
    let e = expire_pending_renames-IsValid now w v in
    record {
      paths_once = retain_pending-Distinct now _ e.paths_once;
      trackers_once = e.trackers_once;
      keyed = retain_pending-Every now _ e.keyed;
    }
