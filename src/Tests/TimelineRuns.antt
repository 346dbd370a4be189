-- ===== src/Tests/TimelineRuns.antt =====
-- Runs of the log and the timeline.
use dafs.Prelude.{
  ℕ, ◌<◌, List, ◌≡◌, refl, none, some, [], ◌∷◌, In, inl, arith, eq_nat, eq_string, map, take,
}
use dafs.Store.Tables.{EventRow, created, modified}
use dafs.Store.Events.{append_batch}
use dafs.Store.Timeline.{
  Library, TimelineQuery, joined_row, effective_limit, select_rows, to_entry, timeline,
}
use dafs.Store.Paging.{IsChronological, timeline-cursor}
use dafs.Store.Skipping.{AreCursors, last_cursor, timeline-cursor_skips}
use dafs.Store.Logs.{IsWhole, append_batch-IsWhole}
use dafs.Scan.Recording.{event_now}
use dafs.Tests.Engine.{engine}
use dafs.Tests.ScanRuns.{work_dir, watched}

abbrev early : EventRow
early = event_now 1 created none 50

abbrev late : EventRow
late = event_now 1 modified none 100

abbrev two_events : Library
two_events = record {
  db = record watched.db { events = (1, early) ∷ (2, late) ∷ [] };
  file_metadata = [];
  file_enrichment = [];
}

-- The clock was set back between the two.
abbrev set_back : Library
set_back = record two_events { db = record watched.db { events = (1, late) ∷ (2, early) ∷ [] } }

abbrev one_a_page : TimelineQuery
one_a_page = record {
  limit = some 1;
  before_id = none;
  kind = none;
  doc_type = none;
  author = none;
  language = none;
  git_branch = none;
  classification = none;
}

two_events-IsChronological : IsChronological two_events.db.events
two_events-IsChronological i j a b h k l = ground arith

timeline-cursor_example :
    (timeline two_events one_a_page
      ≡ map (to_entry two_events.db) (joined_row two_events 2 late work_dir ∷ []))
    × (timeline two_events (record one_a_page { before_id = some 2 })
        ≡ map
            (to_entry two_events.db)
            (take (effective_limit one_a_page) (joined_row two_events 1 early work_dir ∷ [])))
unfolding select_rows effective_limit
timeline-cursor_example =
    timeline-cursor two_events one_a_page [] (joined_row two_events 1 early work_dir ∷ [])
      (joined_row two_events 2 late work_dir) (refl, (refl, tt)) two_events-IsChronological refl
      refl

timeline-cursor_skips_example :
    (early.at_unix_ms < late.at_unix_ms)
    × ((cursors : List ℕ)
        → AreCursors set_back one_a_page 1 cursors
        → In
            (joined_row set_back 2 early work_dir)
            (select_rows set_back (record one_a_page { before_id = some (last_cursor 1 cursors) }))
        → ⊥)
unfolding select_rows
timeline-cursor_skips_example =
    timeline-cursor_skips set_back one_a_page [] (joined_row set_back 2 early work_dir ∷ [])
      (joined_row set_back 1 late work_dir) (refl, (refl, tt)) refl
      (joined_row set_back 2 early work_dir) (inl refl) (omega arith)

append_batch-IsWhole_example :
    IsWhole (early ∷ late ∷ []) watched (append_batch (early ∷ late ∷ []) watched)
append_batch-IsWhole_example = append_batch-IsWhole (early ∷ late ∷ []) watched
