-- ===== src/Watch/Explained.antt =====
-- Every pending rename, and every half that waits for its partner, has its evidence in the history.
use mathlib.Core.Bool.{xor}
use dafs.Prelude.{
  ℕ, ◌≡◌, refl, Bool, true, false, ◌&&◌, if◌then◌else◌, inl, inr, Option, none, some, List, [], ◌∷◌,
  In, All, All-append, eq_nat, eq_list, Bool-cases, Option-cases, if_both,
}
use dafs.HashMap.{HashMap, get, remove, Every, Every-imp, insert-Every, remove-Every, get-Every}
use dafs.FilePath.{FilePath, eq_component}
use dafs.Notify.{Event, RenameMode, NotifyKind}
use dafs.Watch.Histories.{Half, Joined}
use dafs.Watch.{
  Change, renamed, overflowed, Pending, PendingRename, Watch, emit_rename, keep_half, pair_half,
  absorb_half, absorb_both, change_of, note, absorb_paths, try_rename, is_other, absorb,
  expire_half, expired_ids, expire_each, expire_pending_renames, is_quiet, retain_pending,
  take_expired,
}

abbrev pub Accounted : List Event → Change → Type 0
Accounted h (renamed a b) = Joined h a b
Accounted h _ = Unit

abbrev pub mode_of : Bool → RenameMode
mode_of true = RenameMode.from
mode_of false = RenameMode.to

abbrev pub PendingOk : List Event → FilePath → Pending → Type 0
PendingOk h path p = Accounted h p.change

abbrev pub HalfOk : List Event → ℕ → PendingRename → Type 0
HalfOk h tracker half = Half h (mode_of half.is_source) tracker half.path

pub record Explained (h : List Event) (w : Watch) : Type 0 where
  pub changes : Every (PendingOk h) w.pending
  pub halves : Every (HalfOk h) w.pending_renames

Half-later :
    (h : List Event) (e : Event) (mode : RenameMode) (t : ℕ) (p : FilePath)
    → Half h mode t p
    → Half (e ∷ h) mode t p
Half-later h e mode t p (d, i, k, n, r) = (d, inr i, k, n, r)

Accounted-later : (h : List Event) (e : Event) (c : Change) → Accounted h c → Accounted (e ∷ h) c
Accounted-later h e (renamed a b) (inl (d, i, k, r)) = inl (d, inr i, k, r)
Accounted-later h e (renamed a b) (inr (t, x, y)) =
    inr (t, Half-later h e RenameMode.from t a x, Half-later h e RenameMode.to t b y)
Accounted-later h e overflowed a = tt
Accounted-later h e _ a = tt

pub Explained-later : (h : List Event) (e : Event) (w : Watch) → Explained h w → Explained (e ∷ h) w
Explained-later h e w x = record {
  changes =
      Every-imp (PendingOk h) (PendingOk (e ∷ h)) (λ k p. Accounted-later h e p.change) w.pending
        x.changes;
  halves =
      Every-imp (HalfOk h) (HalfOk (e ∷ h))
        (λ t half. Half-later h e (mode_of half.is_source) t half.path) w.pending_renames x.halves;
}

module _ (h : List Event) where
  emit_rename-Explained :
      (a b : FilePath) (now : ℕ) (w : Watch)
      → Joined h a b
      → Explained h w
      → Explained h (emit_rename a b now w)
  unfolding emit_rename
  emit_rename-Explained a b now w j x = record {
    changes =
        insert-Every (PendingOk h) b _ (remove a w.pending) j
          (remove-Every (PendingOk h) a w.pending x.changes);
    halves = x.halves;
  }

  keep_half-Explained :
      (path : FilePath) (t : ℕ) (is_source : Bool) (now : ℕ) (w : Watch)
      → Half h (mode_of is_source) t path
      → Explained h w
      → Explained h (keep_half path t is_source now w)
  unfolding keep_half
  keep_half-Explained path t is_source now w seen x = record {
    changes = x.changes;
    halves = insert-Every (HalfOk h) t _ w.pending_renames seen x.halves;
  }

  -- Two halves are joined only if they are of opposite direction.
  pair_half-Explained :
      (path : FilePath) (t : ℕ) (is_source : Bool) (now : ℕ) (from_source : Bool)
      (partner : PendingRename) (w : Watch)
      → partner.is_source ≡ from_source
      → Half h (mode_of is_source) t path
      → Half h (mode_of from_source) t partner.path
      → Explained h w
      → Explained h (pair_half path t is_source now (some partner) w)
  unfolding pair_half xor
  pair_half-Explained path t true now true partner w e mine theirs x =
      rw e (keep_half-Explained path t true now w mine x)
  pair_half-Explained path t false now false partner w e mine theirs x =
      rw e (keep_half-Explained path t false now w mine x)
  pair_half-Explained path t true now false partner w e mine theirs x =
      rw e (emit_rename-Explained path partner.path now w (inr (t, mine, theirs)) x)
  pair_half-Explained path t false now true partner w e mine theirs x =
      rw e (emit_rename-Explained partner.path path now w (inr (t, theirs, mine)) x)

  absorb_half-Explained :
      (is_source : Bool) (paths : List FilePath) (tracker : Option ℕ) (now : ℕ) (w : Watch)
      → ((t : ℕ) (path : FilePath) (rest : List FilePath)
          → tracker ≡ some t
          → paths ≡ path ∷ rest
          → Half h (mode_of is_source) t path)
      → Explained h w
      → Explained h (absorb_half is_source paths tracker now w).0
  unfolding absorb_half pair_half
  absorb_half-Explained is_source [] tracker now w seen x = x
  absorb_half-Explained is_source (path ∷ rest) none now w seen x = x
  absorb_half-Explained is_source (path ∷ rest) (some t) now w seen x =
      let x' : Explained h (record w { pending_renames = remove t w.pending_renames }) = record {
        changes = x.changes;
        halves = remove-Every (HalfOk h) t w.pending_renames x.halves;
      } in
      elim (Option-cases (get t w.pending_renames)) [
        | inl e ↦ rw e (keep_half-Explained path t is_source now _ (seen t path rest refl refl) x')
        | inr (partner, e) ↦ rw e (
            pair_half-Explained path t is_source now partner.is_source partner _ refl
              (seen t path rest refl refl)
              (get-Every (HalfOk h) t partner w.pending_renames x.halves e) x')
      ]

  absorb_both-Explained :
      (paths : List FilePath) (now : ℕ) (w : Watch)
      → ((a b : FilePath) (rest : List FilePath) → paths ≡ a ∷ b ∷ rest → Joined h a b)
      → Explained h w
      → Explained h (absorb_both paths now w).0
  unfolding absorb_both
  absorb_both-Explained [] now w seen x = x
  absorb_both-Explained (a ∷ []) now w seen x = x
  absorb_both-Explained (a ∷ b ∷ rest) now w seen x =
      emit_rename-Explained a b now w (seen a b rest refl) x

  note-Explained :
      (kind : NotifyKind) (path : FilePath) (now : ℕ) (w : Watch)
      → Explained h w
      → Explained h (note path now (change_of kind path) w)
  note-Explained NotifyKind.access path now w x = x
  note-Explained _ path now w x = record {
    changes = insert-Every (PendingOk h) path _ w.pending tt x.changes;
    halves = x.halves;
  }

  absorb_paths-Explained :
      (kind : NotifyKind) (paths : List FilePath) (now : ℕ) (w : Watch)
      → Explained h w
      → Explained h (absorb_paths kind paths now w)
  unfolding absorb_paths
  absorb_paths-Explained kind [] now w x = x
  absorb_paths-Explained kind (path ∷ paths) now w x =
      absorb_paths-Explained kind paths now _ (note-Explained kind path now w x)

  expire_half-Explained :
      (now id : ℕ) (half : Option PendingRename) (w : Watch)
      → Explained h w
      → Explained h (expire_half now id half w)
  expire_half-Explained now id none w x = x
  expire_half-Explained now id (some half) w x = record {
    changes =
        insert-Every (PendingOk h) half.path _ w.pending
          (if_both (Accounted h) half.is_source tt tt) x.changes;
    halves = remove-Every (HalfOk h) id w.pending_renames x.halves;
  }

  expire_each-Explained :
      (now : ℕ) (ids : List ℕ) (w : Watch) → Explained h w → Explained h (expire_each now ids w)
  unfolding expire_each
  expire_each-Explained now [] w x = x
  expire_each-Explained now (id ∷ ids) w x =
      expire_each-Explained now ids _ (expire_half-Explained now id (get id w.pending_renames) w x)

  retain_pending-Every :
      (now : ℕ) (m : HashMap FilePath Pending)
      → Every (PendingOk h) m
      → Every (PendingOk h) (retain_pending now m).0 × All (Accounted h) (retain_pending now m).1
  unfolding retain_pending
  retain_pending-Every now [] d = (tt, tt)
  retain_pending-Every now ((q, p) ∷ m) d =
      let (rest, out) = retain_pending-Every now m d.1 in
      elim (Bool-cases (is_quiet now p)) [
        | inl quiet ↦ rw quiet (rest, (d.0, out))
        | inr fresh ↦ rw fresh ((d.0, rest), out)
      ]

  pub take_expired-Explained :
      (now : ℕ) (w : Watch)
      → Explained h w
      → Explained h (take_expired now w).0 × All (Accounted h) (take_expired now w).1
  unfolding take_expired expire_pending_renames
  take_expired-Explained now w x =
      let w' = expire_pending_renames now w in
      let x' = expire_each-Explained now (expired_ids now w.pending_renames) w x in
      let (rest, out) = retain_pending-Every now w'.pending x'.changes in
      (
        record { changes = rest; halves = x'.halves },
        All-append (Accounted h) (if w'.overflow then overflowed ∷ [] else []) _
            (if_both (All (Accounted h)) w'.overflow (tt, tt) tt) out,
      )

try_rename-Explained :
    (h : List Event) (kind : NotifyKind) (event : Event) (now : ℕ) (w : Watch)
    → event.kind ≡ kind
    → In event h
    → Explained h w
    → Explained h (try_rename kind event now w).0
unfolding try_rename
try_rename-Explained h (NotifyKind.renaming RenameMode.both) event now w k i x =
    absorb_both-Explained h event.paths now w (λ a b rest p. inl (event, i, k, (rest, p))) x
try_rename-Explained h (NotifyKind.renaming RenameMode.from) event now w k i x =
    absorb_half-Explained h true event.paths event.tracker now w
      (λ t path rest n p. (event, i, k, n, (rest, p))) x
try_rename-Explained h (NotifyKind.renaming RenameMode.to) event now w k i x =
    absorb_half-Explained h false event.paths event.tracker now w
      (λ t path rest n p. (event, i, k, n, (rest, p))) x
try_rename-Explained h (NotifyKind.renaming _) event now w k i x = x
try_rename-Explained h _ event now w k i x = x

pub absorb-Explained :
    (h : List Event) (event : Event) (now : ℕ) (w : Watch)
    → In event h
    → Explained h w
    → Explained h (absorb event now w)
unfolding absorb
absorb-Explained h event now w i x =
    let x' = try_rename-Explained h event.kind event now w refl i x in
    if_both (Explained h) (is_other event.kind && event.need_rescan)
      (record { changes = x.changes; halves = x.halves })
      (if_both (Explained h) (try_rename event.kind event now w).1 x'
        (absorb_paths-Explained h event.kind event.paths now _ x'))
