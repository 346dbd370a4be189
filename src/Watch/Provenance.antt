-- ===== src/Watch/Provenance.antt =====
-- Where a reported rename comes from.
use dafs.Prelude.{ℕ, refl, inl, List, ◌∷◌, In, All-In}
use dafs.FilePath.{FilePath}
use dafs.Notify.{Event}
use dafs.Watch.{renamed, Watch, take_expired}
use dafs.Watch.Histories.{Reach, begin, hears, fails, takes, Joined}
use dafs.Watch.Validity.{IsValid, start-IsValid, absorb-IsValid, take_expired-IsValid}
use dafs.Watch.Explained.{
  Accounted, Explained, Explained-later, absorb-Explained, take_expired-Explained,
}

Reach-Explained : {h : List Event} {w : Watch} → Reach h w → Explained h w
Reach-Explained begin = record { changes = tt; halves = tt }
Reach-Explained (hears {h} {w} e now r) =
    absorb-Explained (e ∷ h) e now w (inl refl) (Explained-later h e w (Reach-Explained r))
Reach-Explained (fails {h} {w} r) =
    let x = Reach-Explained r in record { changes = x.changes; halves = x.halves }
Reach-Explained (takes {h} {w} now r) = (take_expired-Explained h now w (Reach-Explained r)).0

-- A watch that started empty reports a rename from `a` to `b` only if one event carried both paths,
-- or an event with the source half `a` and one with the target half `b` had the same tracker.
pub rename-Joined :
    {h : List Event} {w : Watch} (now : ℕ) (a b : FilePath)
    → Reach h w
    → In (renamed a b) (take_expired now w).1
    → Joined h a b
rename-Joined {h} {w} now a b r i =
    All-In (Accounted h) (renamed a b) (take_expired now w).1
      (take_expired-Explained h now w (Reach-Explained r)).1 i

-- A watch that started empty has one pending change for each path, which is about that path, and one
-- half of a rename for each tracker, after any history.
pub Reach-IsValid : {h : List Event} {w : Watch} → Reach h w → IsValid w
Reach-IsValid begin = start-IsValid
Reach-IsValid (hears {h} {w} e now r) = absorb-IsValid e now w (Reach-IsValid r)
Reach-IsValid (fails r) =
    let v = Reach-IsValid r in
    record { paths_once = v.paths_once; trackers_once = v.trackers_once; keyed = v.keyed }
Reach-IsValid (takes {h} {w} now r) = take_expired-IsValid now w (Reach-IsValid r)
