-- ===== src/Watch/Expiry.antt =====
-- What `take_expired` returns and what it leaves, path by path.
use dafs.Prelude.{
  ℕ, ◌≡◌, ◌∙◌, refl, Bool, false, inl, inr, Option, none, some, List, [], ◌∷◌, keep, any, arith,
  eq_nat, eq_list, ◌==◌, if◌then◌else◌, Bool-cases,
}
use dafs.HashMap.{HashMap, get, Distinct, Every, get-remove}
use dafs.FilePath.{FilePath, eq_component, path_eqb_iff}
use dafs.Watch.{
  Change, Pending, PendingRename, Watch, is_stale, is_quiet, expire_half, expired_ids, expire_each,
  expire_pending_renames, retain_pending, take_expired,
}
use dafs.Watch.Validity.{
  target_of, IsAbout, IsValid, expire_pending_renames-IsValid, get-retain_pending-none,
}

abbrev pub names : FilePath → Option FilePath → Bool
names path none = false
names path (some q) = q == path

-- The changes about one path, in order.
abbrev pub about : FilePath → List Change → List Change
about path = keep (λ c. names path (target_of c))

-- What a pending entry contributes at `now`, and what is left of it.
abbrev pub due : ℕ → Option Pending → List Change
due now none = []
due now (some p) = if is_quiet now p then p.change ∷ [] else []

abbrev pub waiting : ℕ → Option Pending → Option Pending
waiting now none = none
waiting now (some p) = if is_quiet now p then none else some p

retain_pending-about :
    (now : ℕ) (m : HashMap FilePath Pending) (path : FilePath)
    → Distinct m
    → Every IsAbout m
    → about path (retain_pending now m).1 ≡ due now (get path m)
unfolding retain_pending
retain_pending-about now [] path d v = refl
retain_pending-about now ((q, p) ∷ m) path d v =
    ground (arith, path_eqb_iff q path, retain_pending-about now m path d.1 v.1)

get-retain_pending :
    (now : ℕ) (m : HashMap FilePath Pending) (path : FilePath)
    → Distinct m
    → get path (retain_pending now m).0 ≡ waiting now (get path m)
unfolding retain_pending
get-retain_pending now [] path d = refl
get-retain_pending now ((q, p) ∷ m) path d = ground (
  arith,
  path_eqb_iff q path,
  get-retain_pending now m path d.1,
  get-retain_pending-none now m q d.0,
)

-- At `now`, once the stale rename halves are plain changes, a path's pending change is returned, and
-- returned once, exactly if its last event lies the debounce window back; otherwise it stays.
pub take_expired-due :
    (now : ℕ) (w : Watch) (path : FilePath)
    → IsValid w
    → (about path (take_expired now w).1
        ≡ due now (get path (expire_pending_renames now w).pending))
      × (get path (take_expired now w).0.pending
          ≡ waiting now (get path (expire_pending_renames now w).pending))
unfolding take_expired
take_expired-due now w path v =
    let w' = expire_pending_renames now w in
    let v' = expire_pending_renames-IsValid now w v in
    let p = retain_pending-about now w'.pending path v'.paths_once v'.keyed in
    (
      elim (Bool-cases w'.overflow) [ inl e ↦ rw e p | inr e ↦ rw e p ],
      get-retain_pending now w'.pending path v'.paths_once,
    )

-- The halves: an expired id is one of a stale half.
abbrev pub kept : ℕ → Option PendingRename → Option PendingRename
kept now none = none
kept now (some half) = if is_stale now half then none else some half

abbrev is_stale? : ℕ → Option PendingRename → Bool
is_stale? now none = false
is_stale? now (some half) = is_stale now half

expired_ids-stale :
    (now : ℕ) (m : HashMap ℕ PendingRename) (id : ℕ)
    → Distinct m
    → any (λ j. j == id) (expired_ids now m) ≡ is_stale? now (get id m)
unfolding expired_ids
expired_ids-stale now [] id d = refl
expired_ids-stale now ((j, half) ∷ m) id d = ground (arith, expired_ids-stale now m id d.1)

expire_half-get :
    (now j id : ℕ) (w : Watch)
    → get id (expire_half now j (get j w.pending_renames) w).pending_renames
      ≡ (if j == id then none else get id w.pending_renames)
expire_half-get now j id w = ground (arith, get-remove j id w.pending_renames)

expire_each-get :
    (now : ℕ) (ids : List ℕ) (id : ℕ) (w : Watch)
    → get id (expire_each now ids w).pending_renames
      ≡ (if any (λ j. j == id) ids then none else get id w.pending_renames)
unfolding expire_each
expire_each-get now [] id w = refl
expire_each-get now (j ∷ ids) id w =
    expire_each-get now ids id (expire_half now j (get j w.pending_renames) w)
    ∙ ground (arith, expire_half-get now j id w)

-- A rename half stays exactly as long as it is younger than the time to live.
pub get-expire_pending_renames :
    (now : ℕ) (w : Watch) (id : ℕ)
    → IsValid w
    → get id (expire_pending_renames now w).pending_renames ≡ kept now (get id w.pending_renames)
unfolding expire_pending_renames
get-expire_pending_renames now w id v =
    expire_each-get now (expired_ids now w.pending_renames) id w
    ∙ ground (arith, expired_ids-stale now w.pending_renames id v.trackers_once)
