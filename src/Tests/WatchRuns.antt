-- ===== src/Tests/WatchRuns.antt =====
-- Runs of a `Watch`.

use dafs.Prelude.{
  ◌≡◌, ◌≢◌, refl, true, false, inl, none, List, [], ◌∷◌, In, eq_nat, eq_string, eq_list, All,
}
use dafs.HashMap.{get}
use dafs.FilePath.{FilePath, root_dir, normal, eq_component, path_eqb_iff}
use dafs.Watch.{
  Change, touched, renamed, overflowed, Watch, start, absorb, take_expired, Arrival, failed, poll,
  expire_pending_renames,
}
use dafs.Watch.Validity.{IsValid, start-IsValid}
use dafs.Watch.Expiry.{about, due, waiting, take_expired-due}
use dafs.Watch.Bursts.{write, move, writes, writes-once, write-forgets-move}
use dafs.Watch.Histories.{Reach, begin, hears, Joined}
use dafs.Watch.Provenance.{rename-Joined, Reach-IsValid}
use dafs.Watch.Overflow.{IsKnown, poll-overflow}

abbrev file_a : FilePath
file_a = root_dir ∷ normal "a" ∷ []

abbrev file_b : FilePath
file_b = root_dir ∷ normal "b" ∷ []

a-ne-b : file_a ≢ file_b
a-ne-b e = cc ((path_eqb_iff file_a file_b).1 e)

-- `a` was written at 100.
abbrev one_write : Watch
one_write = record {
  pending = (file_a, record { change = touched file_a; last_seen = 100 }) ∷ [];
  pending_renames = [];
  overflow = false;
}

one_write-IsValid : IsValid one_write
one_write-IsValid = record { paths_once = (refl, tt); trackers_once = tt; keyed = (refl, tt) }

-- The source half of a move of `a` waits under tracker 7.
abbrev one_half : Watch
one_half = record {
  pending = [];
  pending_renames = (7, record { path = file_a; is_source = true; seen = 100 }) ∷ [];
  overflow = false;
}

one_half-IsValid : IsValid one_half
one_half-IsValid = record { paths_once = tt; trackers_once = (refl, tt); keyed = tt }

test_take_expired : (take_expired 650 one_write).1 ≡ touched file_a ∷ []
unfolding take_expired
test_take_expired = refl

take_expired-due_example :
    (about file_a (take_expired 650 one_write).1
      ≡ due 650 (get file_a (expire_pending_renames 650 one_write).pending))
    × (get file_a (take_expired 650 one_write).0.pending
        ≡ waiting 650 (get file_a (expire_pending_renames 650 one_write).pending))
take_expired-due_example = take_expired-due 650 one_write file_a one_write-IsValid

writes-once_example :
    (about file_a (take_expired 1100 (writes file_a (200 ∷ 300 ∷ []) 600 one_write)).1
      ≡ touched file_a ∷ [])
    × (get file_a (take_expired 1100 (writes file_a (200 ∷ 300 ∷ []) 600 one_write)).0.pending
        ≡ none)
writes-once_example = writes-once file_a (200 ∷ 300 ∷ []) 600 1100 one_write one_write-IsValid tt

write-forgets-move_example :
    (about file_b
        (take_expired 1000 (absorb (write file_b) 200 (absorb (move file_a file_b) 100 start))).1
      ≡ touched file_b ∷ [])
    × (about file_a
          (take_expired 1000 (absorb (write file_b) 200 (absorb (move file_a file_b) 100 start))).1
        ≡ [])
    × (get file_a
          (take_expired 1000
            (absorb (write file_b) 200 (absorb (move file_a file_b) 100 start))).0.pending
        ≡ none)
write-forgets-move_example =
    write-forgets-move file_a file_b 100 200 1000 start start-IsValid tt tt a-ne-b

abbrev lost : List Arrival
lost = record { received = failed; now = 100; checked = 110 } ∷ []

poll-overflow_example :
    ((rest : List Change) × ((poll 200 lost 200 one_write).1 ≡ overflowed ∷ rest)
      × All IsKnown rest)
    × ((poll 200 lost 200 one_write).0.overflow ≡ false)
poll-overflow_example = poll-overflow 200 lost 200 one_write one_write-IsValid

abbrev moved : Watch
moved = absorb (move file_a file_b) 100 start

abbrev moved-Reach : Reach (move file_a file_b ∷ []) moved
moved-Reach = hears (move file_a file_b) 100 begin

moved-In : In (renamed file_a file_b) (take_expired 700 moved).1
unfolding absorb take_expired
moved-In = inl refl

rename-Joined_example : Joined (move file_a file_b ∷ []) file_a file_b
rename-Joined_example = rename-Joined 700 file_a file_b moved-Reach moved-In

Reach-IsValid_example : IsValid moved
Reach-IsValid_example = Reach-IsValid moved-Reach
