-- ===== src/Watch/Pairing.antt =====
-- Halves of a rename under a tracker: which pairs are joined, and what happens to a lone half.
use mathlib.Core.Bool.{xor}
use dafs.Prelude.{
  ℕ, ◌≡◌, ◌∙◌, refl, Bool, true, false, not, Option, none, some, [], ◌∷◌, arith, eq_nat, eq_list,
}
use dafs.HashMap.{get, insert, remove, get-insert, get-remove}
use dafs.FilePath.{FilePath, eq_component}
use dafs.Notify.{Event, RenameMode, NotifyKind}
use dafs.Watch.{
  renamed, PendingRename, Watch, emit_rename, keep_half, pair_half, absorb_half, try_rename, absorb,
}

abbrev pub half_kind : Bool → RenameMode
half_kind true = RenameMode.from
half_kind false = RenameMode.to

-- One half of a rename under the kernel's tracker `t`.
abbrev pub half_event : Bool → FilePath → ℕ → Event
half_event is_source path t = record {
  kind = NotifyKind.renaming (half_kind is_source);
  paths = path ∷ [];
  tracker = some t;
  need_rescan = false;
}

-- Source first, whichever half came first.
abbrev pub ends : Bool → FilePath → FilePath → FilePath × FilePath
ends true mine theirs = (mine, theirs)
ends false mine theirs = (theirs, mine)

absorb-half_event :
    (is_source : Bool) (path : FilePath) (t now : ℕ) (w : Watch)
    → absorb (half_event is_source path t) now w
      ≡ pair_half path t is_source now
          (get t w.pending_renames)
          (record w { pending_renames = remove t w.pending_renames })
unfolding absorb try_rename absorb_half
absorb-half_event true path t now w = refl
absorb-half_event false path t now w = refl

-- The second half of a rename, in either order of arrival and however much later, turns the two into
-- one pending rename from source to target, drops what was pending for the source, and frees the
-- tracker.
pub halves-pair :
    (is_source : Bool) (path : FilePath) (t now : ℕ) (w : Watch) (partner : PendingRename)
    → get t w.pending_renames ≡ some partner
    → partner.is_source ≡ not is_source
    → ((absorb (half_event is_source path t) now w).pending
        ≡ insert
            (ends is_source path partner.path).1
            (record {
              change =
                  renamed (ends is_source path partner.path).0 (ends is_source path partner.path).1;
              last_seen = now;
            })
            (remove (ends is_source path partner.path).0 w.pending))
      × (get t (absorb (half_event is_source path t) now w).pending_renames ≡ none)
unfolding pair_half emit_rename xor
halves-pair true path t now w partner found opposite =
    rw (absorb-half_event, found, opposite) (refl, get-remove t t w.pending_renames ∙ ground arith)
halves-pair false path t now w partner found opposite =
    rw (absorb-half_event, found, opposite) (refl, get-remove t t w.pending_renames ∙ ground arith)

-- Whether a half of the other direction waits.
abbrev pub opposes : Bool → Option PendingRename → Bool
opposes is_source none = false
opposes is_source (some p) = xor p.is_source is_source

pair_half-alone :
    (is_source : Bool) (path : FilePath) (t now : ℕ) (partner : Option PendingRename) (w : Watch)
    → opposes is_source partner ≡ false
    → pair_half path t is_source now partner w ≡ keep_half path t is_source now w
unfolding pair_half
pair_half-alone is_source path t now none w lone = refl
pair_half-alone is_source path t now (some p) w lone = rw lone

-- A half that finds none, or one of its own direction, changes no pending change: it waits under its
-- tracker, in place of the older one.
pub halves-wait :
    (is_source : Bool) (path : FilePath) (t now : ℕ) (w : Watch)
    → opposes is_source (get t w.pending_renames) ≡ false
    → ((absorb (half_event is_source path t) now w).pending ≡ w.pending)
      × (get t (absorb (half_event is_source path t) now w).pending_renames
          ≡ some (record { path = path; is_source = is_source; seen = now }))
unfolding keep_half
halves-wait is_source path t now w lone =
    let half : PendingRename = record { path = path; is_source = is_source; seen = now } in
    rw (absorb-half_event, pair_half-alone is_source path t now (get t w.pending_renames) _ lone)
      (refl, get-insert t t half (remove t w.pending_renames) ∙ ground arith)
