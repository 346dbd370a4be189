-- ===== src/Daemon/WatchRoots.antt =====
-- The live root list under the commands of crates/dafs-daemon/src/main.rs.
use dafs.Prelude.{
  ◌≡◌, ◌∙◌, refl, sym, subst, true, false, ◌||◌, inl, inr, List, [], ◌∷◌, ◌++◌, All, Bool-cases,
  arith, ◌==◌, eq_list, ==_refl,
}
use dafs.FilePath.{PathBuf, eq_component, path_eqb_iff}
use dafs.Store.Tables.{Sqlite}
use dafs.Store.Exec.{Result, ok, err}
use dafs.Scan.Batches.{ScanOptions, ScanSummary, Tree, scan}
use dafs.Daemon.Observer.{
  Observer, call, WatchCommand, add_roots, replace_roots, Failure, scan_failed, watch_failed,
  Notifier, contains, watch_scanned, add_one, add_each, drain_roots, apply_watch_command,
}

-- Every root of the list is watched.
abbrev pub AreWatched : List PathBuf → List PathBuf → Type 0
AreWatched watched roots = All (λ r. contains r watched ≡ true) roots

-- No root is in the list twice.
abbrev pub AreDistinct : List PathBuf → Type 0
AreDistinct [] = Unit
AreDistinct (r ∷ roots) = (contains r roots ≡ false) × AreDistinct roots

abbrev pub IsSound : Observer → Type 0
IsSound o = AreWatched o.watched o.roots × AreDistinct o.roots

contains_self : (root : PathBuf) (roots : List PathBuf) → contains root (root ∷ roots) ≡ true
contains_self root roots = ground (arith, ==_refl root.components)

AreWatched-more :
    (root : PathBuf) (watched roots : List PathBuf)
    → AreWatched watched roots
    → AreWatched (root ∷ watched) roots
AreWatched-more root watched [] h = tt
AreWatched-more root watched (r ∷ roots) (p, h) =
    (ground (arith, p), AreWatched-more root watched roots h)

AreWatched-append :
    (watched roots : List PathBuf) (root : PathBuf)
    → AreWatched watched roots
    → contains root watched ≡ true
    → AreWatched watched (roots ++ root ∷ [])
AreWatched-append watched [] root h p = (p, tt)
AreWatched-append watched (r ∷ roots) root (q, h) p = (q, AreWatched-append watched roots root h p)

contains-append :
    (r root : PathBuf) (roots : List PathBuf)
    → contains r (roots ++ root ∷ []) ≡ (contains r roots || (root.components == r.components))
contains-append r root [] = ground arith
contains-append r root (x ∷ roots) =
    ground (arith, contains-append r root roots, Bool-cases (x.components == r.components))

AreDistinct-append :
    (roots : List PathBuf) (root : PathBuf)
    → AreDistinct roots
    → contains root roots ≡ false
    → AreDistinct (roots ++ root ∷ [])
AreDistinct-append [] root d n = (refl, tt)
AreDistinct-append (r ∷ roots) root (p, d) n =
    let apart : (r.components == root.components) ≡ false = ground (arith, n) in
    let later : contains root roots ≡ false = ground (arith, n) in
    let away : (root.components == r.components) ≡ false = ground (
      arith,
      apart,
      path_eqb_iff r.components root.components,
      path_eqb_iff root.components r.components,
    ) in
    (contains-append r root roots ∙ rw (p, away) refl, AreDistinct-append roots root d later)

snoc-nonempty : (xs : List Failure) (x : Failure) → xs ++ x ∷ [] ≡ [] → ⊥
snoc-nonempty [] x e = ground (arith, e)
snoc-nonempty (y ∷ xs) x e = ground (arith, e)

module _ ⦃sql : Sqlite⦄ (options : ScanOptions) (notifier : Notifier) where
  -- One step of `add_each`: what it keeps and, without an error, adds.
  abbrev Added : PathBuf → List Failure × Observer → List Failure × Observer → Type 0
  Added root (before, o) (after, o') =
      (IsSound o → IsSound o')
      × ((r : PathBuf) → contains r o.roots ≡ true → contains r o'.roots ≡ true)
      × (after ≡ [] → (before ≡ []) × (contains root o'.roots ≡ true))

  watch_scanned-Added :
      (root : PathBuf) (errors : List Failure) (r : Result ScanSummary) (o : Observer)
      → contains root o.roots ≡ false
      → Added root (errors, o) (watch_scanned options notifier root errors (r, o))
  watch_scanned-Added root errors (err e) o new =
      ((λ s. s), (λ r h. h), (λ z. absurd (snoc-nonempty errors (scan_failed root e) z)))
  watch_scanned-Added root errors (ok _) o new = elim (Bool-cases (notifier.can_watch root)) [
    | inl e ↦ rw e (
      (λ s. (
        AreWatched-append (root ∷ o.watched) o.roots root
            (AreWatched-more root o.watched o.roots s.0) (contains_self root o.watched),
        AreDistinct-append o.roots root s.1 new,
      )),
      (λ r h. ground (arith, contains-append r root o.roots, h)),
      (λ z. (z, ground (arith, contains-append root root o.roots, ==_refl root.components))),
    )
    | inr e ↦
        rw e ((λ s. s), (λ r h. h), (λ z. absurd (snoc-nonempty errors (watch_failed root) z)))
  ]

  add_one-Added :
      (tree : Tree) (root : PathBuf) (errors : List Failure) (o : Observer)
      → Added root (errors, o) (add_one options notifier tree root (errors, o))
  unfolding add_one
  add_one-Added tree root errors o = elim (Bool-cases (contains root o.roots)) [
    | inl e ↦ rw e ((λ s. s), (λ r h. h), (λ z. (z, e)))
    | inr e ↦
        let out = call (scan tree root.components options) o in
        rw e (watch_scanned-Added root errors out.0 out.1 e)
  ]

  add_each-grows :
      (tree : PathBuf → Tree) (new_roots : List PathBuf) (out : List Failure × Observer)
      (r : PathBuf)
      → contains r out.1.roots ≡ true
      → contains r (add_each options notifier tree new_roots out).1.roots ≡ true
  unfolding add_each
  add_each-grows tree [] out r h = h
  add_each-grows tree (root ∷ new_roots) (errors, o) r h =
      add_each-grows tree new_roots (add_one options notifier (tree root) root (errors, o)) r
        ((add_one-Added (tree root) root errors o).1 r h)

  add_each-replies :
      (tree : PathBuf → Tree) (new_roots : List PathBuf) (errors : List Failure) (o : Observer)
      → (add_each options notifier tree new_roots (errors, o)).0 ≡ []
      → (errors ≡ [])
        × All
            (λ r. contains r (add_each options notifier tree new_roots (errors, o)).1.roots ≡ true)
            new_roots
  unfolding add_each
  add_each-replies tree [] errors o h = (h, tt)
  add_each-replies tree (root ∷ new_roots) errors o h =
      let next = add_one options notifier (tree root) root (errors, o) in
      let (none_there, later) = add_each-replies tree new_roots next.0 next.1 h in
      let (before, here) = (add_one-Added (tree root) root errors o).2 none_there in
      (before, (add_each-grows tree new_roots next root here, later))

  add_each-IsSound :
      (tree : PathBuf → Tree) (new_roots : List PathBuf) (errors : List Failure) (o : Observer)
      → IsSound o
      → IsSound (add_each options notifier tree new_roots (errors, o)).1
  unfolding add_each
  add_each-IsSound tree [] errors o s = s
  add_each-IsSound tree (root ∷ new_roots) errors o s =
      let next = add_one options notifier (tree root) root (errors, o) in
      add_each-IsSound tree new_roots next.0 next.1 ((add_one-Added (tree root) root errors o).0 s)

  drain_roots-roots :
      (roots : List PathBuf) (o : Observer) → (drain_roots options notifier roots o).roots ≡ []
  unfolding drain_roots
  drain_roots-roots [] o = refl
  drain_roots-roots (old ∷ roots) o = drain_roots-roots roots _

  drained-IsSound : (o : Observer) → o.roots ≡ [] → IsSound o
  drained-IsSound o e =
      subst (λ roots. AreWatched o.watched roots × AreDistinct roots) (sym e) (tt, tt)

  -- Through every command: no root is in the list twice, and every root of the list is watched.
  pub apply_watch_command-IsSound :
      (tree : PathBuf → Tree) (command : WatchCommand) (o : Observer)
      → IsSound o
      → IsSound (apply_watch_command options notifier tree command o).1
  unfolding apply_watch_command
  apply_watch_command-IsSound tree (add_roots new_roots) o s =
      add_each-IsSound tree new_roots [] o s
  apply_watch_command-IsSound tree (replace_roots new_roots) o s =
      let drained = drain_roots options notifier o.roots o in
      add_each-IsSound tree new_roots [] drained
        (drained-IsSound drained (drain_roots-roots o.roots o))

  -- The roots that a command asks for.
  abbrev pub asked : WatchCommand → List PathBuf
  asked (add_roots new_roots) = new_roots
  asked (replace_roots new_roots) = new_roots

  -- A command that is answered without an error has every root that it asked for in the list.
  pub apply_watch_command-replies :
      (tree : PathBuf → Tree) (command : WatchCommand) (o : Observer)
      → (apply_watch_command options notifier tree command o).0 ≡ []
      → All
          (λ r. contains r (apply_watch_command options notifier tree command o).1.roots ≡ true)
          (asked command)
  unfolding apply_watch_command
  apply_watch_command-replies tree (add_roots new_roots) o h =
      (add_each-replies tree new_roots [] o h).1
  apply_watch_command-replies tree (replace_roots new_roots) o h =
      (add_each-replies tree new_roots [] (drain_roots options notifier o.roots o) h).1
