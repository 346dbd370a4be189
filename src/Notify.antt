-- ===== src/Notify.antt =====
-- What crates/dafs-scan/src/watch.rs reads of an event of the `notify` crate.
use dafs.Prelude.{ℕ, Bool, Option, List}
use dafs.FilePath.{FilePath}

pub data RenameMode : Type 0 where
  any to from both other : RenameMode

-- `Modify(Name(mode))` is `renaming mode`; every other `Modify(_)` is `modify`.
pub data NotifyKind : Type 0 where
  any access create modify remove other : NotifyKind
  renaming : RenameMode → NotifyKind

pub record Event : Type 0 where
  pub kind : NotifyKind
  pub paths : List FilePath
  pub tracker : Option ℕ
  pub need_rescan : Bool
