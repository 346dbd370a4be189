-- ===== src/Watch.antt =====
-- crates/dafs-scan/src/watch.rs: coalescing of raw events into changes. Time is in milliseconds and
-- an argument of each call; `duration_since` of an earlier instant is 0, as `-` is here.
pub mod Validity
pub mod Expiry
pub mod Bursts
pub mod Histories
pub mod Explained
pub mod Provenance
pub mod Pairing
pub mod Overflow
pub mod Exclusion
use mathlib.Core.Bool.{xor}
use dafs.Prelude.{
  ℕ, ◌-◌, String, Bool, true, false, ◌&&◌, Option, none, some, List, [], ◌∷◌, ◌++◌, any, leb,
  if◌then◌else◌, ◌==◌, eq_nat, eq_string, eq_list,
}
use dafs.HashMap.{HashMap, get, insert, remove}
use dafs.FilePath.{Component, normal, FilePath, eq_component}
use dafs.Notify.{Event, RenameMode, NotifyKind}

abbrev pub debounce : ℕ
debounce = 500

abbrev pub pending_rename_ttl : ℕ
pending_rename_ttl = 1000

pub data Change : Type 0 where
  touched removed : FilePath → Change
  renamed : (source target : FilePath) → Change
  overflowed : Change

pub record Pending : Type 0 where
  pub change : Change
  pub last_seen : ℕ

pub record PendingRename : Type 0 where
  pub path : FilePath
  pub is_source : Bool
  pub seen : ℕ

-- `watcher` and `rx` belong to `notify`; what `rx` delivers is an argument of `poll`.
pub record Watch : Type 0 where
  pub pending : HashMap FilePath Pending
  pub pending_renames : HashMap ℕ PendingRename
  pub overflow : Bool

abbrev pub start : Watch
start = record { pending = []; pending_renames = []; overflow = false }

unfoldable pub emit_rename : FilePath → FilePath → ℕ → Watch → Watch
emit_rename source target now w = record w {
  pending =
      insert target (record { change = renamed source target; last_seen = now })
        (remove source w.pending);
}

unfoldable pub keep_half : FilePath → ℕ → Bool → ℕ → Watch → Watch
keep_half path tracker is_source now w = record w {
  pending_renames =
      insert tracker (record { path = path; is_source = is_source; seen = now }) w.pending_renames;
}

-- The `match` on the half that is taken out under the tracker.
unfoldable pub pair_half : FilePath → ℕ → Bool → ℕ → Option PendingRename → Watch → Watch
unfolding emit_rename keep_half
pair_half path tracker is_source now none w = keep_half path tracker is_source now w
pair_half path tracker is_source now (some partner) w =
    if xor partner.is_source is_source
    then (if is_source
        then emit_rename path partner.path now w
        else emit_rename partner.path path now w)
    else keep_half path tracker is_source now w

unfoldable pub absorb_half : Bool → List FilePath → Option ℕ → ℕ → Watch → Watch × Bool
unfolding pair_half
absorb_half is_source [] tracker now w = (w, false)
absorb_half is_source (path ∷ rest) none now w = (w, false)
absorb_half is_source (path ∷ rest) (some tracker) now w = (
  pair_half path tracker is_source now (get tracker w.pending_renames)
      (record w { pending_renames = remove tracker w.pending_renames }),
  true,
)

unfoldable pub absorb_both : List FilePath → ℕ → Watch → Watch × Bool
unfolding emit_rename
absorb_both (source ∷ target ∷ rest) now w = (emit_rename source target now w, true)
absorb_both _ now w = (w, false)

unfoldable pub absorb_rename : RenameMode → Event → ℕ → Watch → Watch × Bool
unfolding absorb_both absorb_half
absorb_rename RenameMode.both event now w = absorb_both event.paths now w
absorb_rename RenameMode.from event now w = absorb_half true event.paths event.tracker now w
absorb_rename RenameMode.to event now w = absorb_half false event.paths event.tracker now w
absorb_rename _ event now w = (w, false)

-- The `match` in the loop of `absorb`; `none` is its `continue`.
abbrev pub change_of : NotifyKind → FilePath → Option Change
change_of NotifyKind.remove path = some (removed path)
change_of NotifyKind.access path = none
change_of _ path = some (touched path)

abbrev pub note : FilePath → ℕ → Option Change → Watch → Watch
note path now none w = w
note path now (some change) w = record w {
  pending = insert path (record { change = change; last_seen = now }) w.pending;
}

unfoldable pub absorb_paths : NotifyKind → List FilePath → ℕ → Watch → Watch
absorb_paths kind [] now w = w
absorb_paths kind (path ∷ paths) now w =
    absorb_paths kind paths now (note path now (change_of kind path) w)

abbrev pub is_other : NotifyKind → Bool
is_other NotifyKind.other = true
is_other _ = false

-- `if let Modify(Name(mode)) = event.kind && self.absorb_rename(…)`
unfoldable pub try_rename : NotifyKind → Event → ℕ → Watch → Watch × Bool
unfolding absorb_rename
try_rename (NotifyKind.renaming mode) event now w = absorb_rename mode event now w
try_rename _ event now w = (w, false)

unfoldable pub absorb : Event → ℕ → Watch → Watch
unfolding absorb_paths try_rename
absorb event now w =
    if is_other event.kind && event.need_rescan
    then record w { overflow = true }
    else (let (w', done) = try_rename event.kind event now w in
        if done then w' else absorb_paths event.kind event.paths now w')

abbrev pub is_stale : ℕ → PendingRename → Bool
is_stale now half = leb pending_rename_ttl (now - half.seen)

unfoldable pub expired_ids : ℕ → HashMap ℕ PendingRename → List ℕ
expired_ids now [] = []
expired_ids now ((id, half) ∷ m) =
    let rest = expired_ids now m in if is_stale now half then id ∷ rest else rest

abbrev pub lone_change : PendingRename → Change
lone_change half = if half.is_source then removed half.path else touched half.path

abbrev pub expire_half : ℕ → ℕ → Option PendingRename → Watch → Watch
expire_half now id none w = w
expire_half now id (some half) w = record w {
  pending_renames = remove id w.pending_renames;
  pending = insert half.path (record { change = lone_change half; last_seen = now }) w.pending;
}

unfoldable pub expire_each : ℕ → List ℕ → Watch → Watch
expire_each now [] w = w
expire_each now (id ∷ ids) w = expire_each now ids (expire_half now id (get id w.pending_renames) w)

unfoldable pub expire_pending_renames : ℕ → Watch → Watch
unfolding expire_each expired_ids
expire_pending_renames now w = expire_each now (expired_ids now w.pending_renames) w

abbrev pub is_quiet : ℕ → Pending → Bool
is_quiet now p = leb debounce (now - p.last_seen)

-- `pending.retain(…)`: what stays, and what the closure pushes.
unfoldable pub retain_pending :
    ℕ → HashMap FilePath Pending → HashMap FilePath Pending × List Change
retain_pending now [] = ([], [])
retain_pending now ((path, p) ∷ m) =
    let (rest, out) = retain_pending now m in
    if is_quiet now p then (rest, p.change ∷ out) else ((path, p) ∷ rest, out)

unfoldable pub take_expired : ℕ → Watch → Watch × List Change
unfolding expire_pending_renames retain_pending
take_expired now w =
    let w' = expire_pending_renames now w in
    let (rest, out) = retain_pending now w'.pending in
    (
      record w' { pending = rest; overflow = false },
      (if w'.overflow then overflowed ∷ [] else []) ++ out,
    )

-- What `recv_timeout` returns before it times out or is disconnected, with the clock as `absorb`
-- reads it and as the end of the loop's body does.
pub data Received : Type 0 where
  event : Event → Received
  failed : Received

pub record Arrival : Type 0 where
  pub received : Received
  pub now : ℕ
  pub checked : ℕ

abbrev pub handle : Received → ℕ → Watch → Watch
handle (event e) now w = absorb e now w
handle failed now w = record w { overflow = true }

-- The loop of `poll`: the new state, and what is left in the channel.
unfoldable pub receive : ℕ → List Arrival → Watch → Watch × List Arrival
unfolding absorb
receive deadline [] w = (w, [])
receive deadline (a ∷ rest) w =
    let w' = handle a.received a.now w in
    let more = receive deadline rest w' in if leb deadline a.checked then (w', rest) else more

unfoldable pub poll : ℕ → List Arrival → ℕ → Watch → Watch × List Change × List Arrival
unfolding receive take_expired
poll deadline channel now w =
    let (w', left) = receive deadline channel w in
    let (w'', out) = take_expired now w' in (w'', out, left)

-- `is_excluded`
abbrev pub is_skipped_component : List String → Component → Bool
is_skipped_component skip_dirs (normal name) = any (λ d. d == name) skip_dirs
is_skipped_component skip_dirs _ = false

unfoldable pub is_excluded : FilePath → List String → Bool
is_excluded path skip_dirs = any (is_skipped_component skip_dirs) path
