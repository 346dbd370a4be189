-- ===== src/Api/Guards.antt =====
-- What a request can make the handlers of crates/dafs-api/src/lib.rs ask of the store.
use dafs.Prelude.{
  ℕ, ◌≤◌, String, ◌≡◌, ◌∙◌, refl, ap, false, inl, inr, Option, some, List, [], ltb, Bool-cases,
  arith, ◌==◌, eq_string,
}
use dafs.Store.Timeline.{or_else}
use dafs.Api.Ends.{last, last-last}
use dafs.Api.LogHistory.{Text, capacity, recent}
use dafs.Api.LogEvents.{log_events, event_lines, log_events-last}
use dafs.Api.Handlers.{
  Task, SearchFilters, TimelineArgs, EventsQuery, SearchQuery, default_event_limit, is_unknown_kind,
  has_long_filter, events, search_route, events_response, answer, get_logs, reply, at_most,
  max_log_limit, default_log_limit, max_search_query_len, default_search_limit,
}

module _ (len : String → ℕ) where
  -- What the store may be asked: one of the four kinds, and filters of at most 256 bytes.
  abbrev pub IsValid : TimelineArgs → Type 0
  IsValid a = (is_unknown_kind a.kind ≡ false) × (has_long_filter len a.filters ≡ false)

  -- Stores that agree on the valid queries answer every request alike: an unknown kind and an oversized
  -- filter never reach the store.
  pub events-guarded :
      {Item : Type 0} (id : Item → ℕ) (reader other : TimelineArgs → Task (List Item))
      → ((a : TimelineArgs) → IsValid a → reader a ≡ other a)
      → (q : EventsQuery) → events len id (some reader) q ≡ events len id (some other) q
  unfolding events
  events-guarded id reader other same q = elim (Bool-cases (is_unknown_kind q.kind)) [
    | inl e ↦ rw e refl
    | inr e ↦ elim (Bool-cases (has_long_filter len q.filters)) [
      | inl f ↦ rw (e, f) refl
      | inr f ↦
          let a : TimelineArgs = record {
            limit = or_else q.limit default_event_limit;
            before_id = q.before_id;
            kind = q.kind;
            filters = q.filters;
          } in
          rw (e, f)
            (ap (answer "timeline query failed" "timeline task failed" (events_response len id))
              (same a (e, f)))
    ]
  ]

  -- The same for a search: its text is not empty and has at most 4096 bytes.
  pub search_route-guarded :
      {Hit : Type 0} (reader other : String → ℕ → SearchFilters → Task (List Hit))
      → ((q : String) (limit : ℕ) (filters : SearchFilters)
          → (q == "") ≡ false
          → len q ≤ max_search_query_len
          → has_long_filter len filters ≡ false
          → reader q limit filters ≡ other q limit filters)
      → (query : SearchQuery)
      → search_route len (some reader) query ≡ search_route len (some other) query
  unfolding search_route
  search_route-guarded reader other same query = elim (Bool-cases (query.q == "")) [
    | inl e ↦ rw e refl
    | inr e ↦ elim (Bool-cases (ltb max_search_query_len (len query.q))) [
      | inl f ↦ rw (e, f) refl
      | inr f ↦ elim (Bool-cases (has_long_filter len query.filters)) [
        | inl g ↦ rw (e, f, g) refl
        | inr g ↦
            rw (e, f, g)
              (ap (answer "search query failed" "search task failed" (λ hits. hits)) (
                same query.q (or_else query.limit default_search_limit) query.filters e
                  (ground (arith, f)) g))
      ]
    ]
  ]

-- After any events, one after the other, each written by its own writer in any calls: `/logs` returns
-- the last of the lines with text in them, what stands behind the last newline of an event counted as a
-- line: as many as are asked for, at most 2000. The text of an event is that of its calls, each read by
-- itself: a call that is not UTF-8, such as one that is cut inside a character, adds nothing.
pub get_logs-written :
    (from_utf8 : List ℕ → Option Text) (events : List (List (List ℕ))) (limit : Option ℕ)
    → get_logs (some (log_events from_utf8 events [])) limit
      ≡ reply (
          last
            (at_most max_log_limit (or_else limit default_log_limit))
            (event_lines from_utf8 events))
unfolding get_logs recent
get_logs-written from_utf8 events limit =
    let n = at_most max_log_limit (or_else limit default_log_limit) in
    let seen = event_lines from_utf8 events in
    let capped : n ≤ capacity = ground arith in
    ap reply (ap (last n) (log_events-last from_utf8 events []) ∙ last-last n capacity seen capped)
