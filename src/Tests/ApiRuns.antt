-- ===== src/Tests/ApiRuns.antt =====
-- Runs of the log ring and of the handlers.
use dafs.Prelude.{if◌then◌else◌, ◌≢◌, arith, ℕ, ◌≡◌, refl, none, some, List, [], ◌∷◌}
use dafs.Api.LogHistory.{new_writer, write, drop_writer}
use dafs.Api.LogLines.{write_all}
use dafs.Api.LogEvents.{log_events, event_lines}
use dafs.Api.Ends.{last}
use dafs.Api.Handlers.{
  Task, finished, panicked, is_unknown_kind, is_event_kind, SearchFilters, TimelineArgs,
  EventsQuery, reply, api_error, bad_request, events, get_logs,
}
use dafs.Api.Guards.{IsValid, events-guarded, get_logs-written}

-- `ab`, a newline and `c`; then `d` and two newlines.
abbrev chunks : List (List ℕ)
chunks = (97 ∷ 98 ∷ 10 ∷ 99 ∷ []) ∷ (100 ∷ 10 ∷ 10 ∷ []) ∷ []

test_write : (write_all some chunks new_writer).history ≡ (97 ∷ 98 ∷ []) ∷ (99 ∷ 100 ∷ []) ∷ []
unfolding write
test_write = refl

-- Two events, the second without a newline.
abbrev two_events : List (List (List ℕ))
two_events = chunks ∷ ((101 ∷ []) ∷ []) ∷ []

test_log_events : log_events some two_events [] ≡ (97 ∷ 98 ∷ []) ∷ (99 ∷ 100 ∷ []) ∷ (101 ∷ []) ∷ []
unfolding log_events write drop_writer
test_log_events = refl

get_logs-written_example :
    get_logs (some (log_events some two_events [])) (some 2)
    ≡ reply (last 2 (event_lines some two_events))
get_logs-written_example = get_logs-written some two_events (some 2)

abbrev pub no_filters : SearchFilters
no_filters = record {
  doc_type = none;
  author = none;
  language = none;
  git_branch = none;
  classification = none;
}

abbrev moved : EventsQuery
moved = record { limit = none; before_id = none; kind = some "moved"; filters = no_filters }

abbrev ids_from : ℕ → TimelineArgs → Task (List ℕ)
ids_from n a = finished (n ∷ a.limit ∷ [])

test_events :
    events (λ s. 5) (λ i. i) (some (ids_from 1)) moved ≡ api_error bad_request "unknown event kind"
unfolding events
test_events = refl

-- A store that panics on an unknown kind, where `ids_from 3` answers.
abbrev picky : TimelineArgs → Task (List ℕ)
picky a = if is_unknown_kind a.kind then panicked else ids_from 3 a

test_picky : (args : TimelineArgs) × (ids_from 3 args ≢ picky args)
unfolding is_event_kind
test_picky = (
  record { limit = 1; before_id = none; kind = some "moved"; filters = no_filters },
  λ e. ground (arith, e),
)

picky-agrees : (a : TimelineArgs) → IsValid (λ s. 5) a → ids_from 3 a ≡ picky a
picky-agrees a (known, short) = rw known refl

events-guarded_example :
    events (λ s. 5) (λ i. i) (some (ids_from 3)) moved ≡ events (λ s. 5) (λ i. i) (some picky) moved
events-guarded_example = events-guarded (λ s. 5) (λ i. i) (ids_from 3) picky picky-agrees moved
