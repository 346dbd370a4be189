-- ===== src/Watch/Histories.antt =====
-- Histories of a `Watch`, as a step relation, and the evidence for a rename in one.
use dafs.Prelude.{◌≡◌, ℕ, ◌⊎◌, some, List, [], ◌∷◌, In, true}
use dafs.FilePath.{FilePath}
use dafs.Notify.{Event, RenameMode, NotifyKind}
use dafs.Watch.{Watch, start, absorb, take_expired}

-- One event carried both paths.
abbrev pub CarriesBoth : List Event → FilePath → FilePath → Type 0
CarriesBoth h a b =
    (e : Event) × In e h
    × (e.kind ≡ NotifyKind.renaming RenameMode.both)
    × ((rest : List FilePath) × (e.paths ≡ a ∷ b ∷ rest))

-- An event was one half of a rename, under a tracker of the kernel.
abbrev pub Half : List Event → RenameMode → ℕ → FilePath → Type 0
Half h mode tracker path =
    (e : Event) × In e h
    × (e.kind ≡ NotifyKind.renaming mode)
    × (e.tracker ≡ some tracker)
    × ((rest : List FilePath) × (e.paths ≡ path ∷ rest))

abbrev pub Joined : List Event → FilePath → FilePath → Type 0
Joined h a b =
    CarriesBoth h a b
    ⊎ ((tracker : ℕ) × Half h RenameMode.from tracker a × Half h RenameMode.to tracker b)

-- What can happen to a watch, with the events that it has heard, latest first.
pub data Reach : List Event → Watch → Type 0 where
  begin : Reach [] start
  hears :
      {h : List Event} {w : Watch} (e : Event) (now : ℕ)
      → Reach h w
      → Reach (e ∷ h) (absorb e now w)
  fails : {h : List Event} {w : Watch} → Reach h w → Reach h (record w { overflow = true })
  takes : {h : List Event} {w : Watch} (now : ℕ) → Reach h w → Reach h (take_expired now w).0
