-- ===== src/Api/Handlers.antt =====
-- The handlers of crates/dafs-api/src/lib.rs. What a handler needs from the daemon (the traits of
-- timeline.rs, search.rs and watch_control.rs) is an argument; a reply is its status with its body, or
-- with the text of its error.
use dafs.Prelude.{
  ℕ, String, Bool, true, false, ◌||◌, not, Option, none, some, List, [], ◌∷◌, any, ltb, leb,
  if◌then◌else◌, ◌==◌, eq_string,
}
use dafs.Store.Timeline.{or_else}
use dafs.Api.LogHistory.{Text, recent}

pub data Status : Type 0 where
  bad_request service_unavailable internal_server_error : Status

pub data Reply (A : Type 0) : Type 0 where
  reply : A → Reply A
  api_error : Status → String → Reply A

-- What `spawn_blocking` gives: the result of the store, or a panic.
pub data Task (A : Type 0) : Type 0 where
  finished : A → Task A
  refused : String → Task A
  panicked : Task A

-- The two error arms of a handler are the same but for their texts.
abbrev pub answer : {A B : Type 0} → String → String → (A → B) → Task A → Reply B
answer query_error task_error f (finished a) = reply (f a)
answer query_error task_error f (refused e) = api_error internal_server_error query_error
answer query_error task_error f panicked = api_error internal_server_error task_error

pub record SearchFilters : Type 0 where
  pub doc_type : Option String
  pub author : Option String
  pub language : Option String
  pub git_branch : Option String
  pub classification : Option String

pub record EventsQuery : Type 0 where
  pub limit : Option ℕ
  pub before_id : Option ℕ
  pub kind : Option String
  pub filters : SearchFilters

-- The arguments of `TimelineStore::timeline`.
pub record TimelineArgs : Type 0 where
  pub limit : ℕ
  pub before_id : Option ℕ
  pub kind : Option String
  pub filters : SearchFilters

abbrev pub max_facet_filter_len : ℕ
max_facet_filter_len = 256

abbrev pub default_event_limit : ℕ
default_event_limit = 50

abbrev pub default_search_limit : ℕ
default_search_limit = 20

abbrev pub max_search_query_len : ℕ
max_search_query_len = 4096

abbrev pub default_log_limit : ℕ
default_log_limit = 200

abbrev pub max_log_limit : ℕ
max_log_limit = 2000

unfoldable pub is_event_kind : String → Bool
is_event_kind kind =
    kind == "created" || (kind == "modified" || (kind == "deleted" || kind == "renamed"))

abbrev pub is_unknown_kind : Option String → Bool
is_unknown_kind none = false
is_unknown_kind (some kind) = not (is_event_kind kind)

-- `len()` is the number of bytes of a text in UTF-8.
module _ (len : String → ℕ) where
  abbrev pub is_too_long : Option String → Bool
  is_too_long none = false
  is_too_long (some field) = ltb max_facet_filter_len (len field)

  -- The `for` over the five fields.
  unfoldable pub has_long_filter : SearchFilters → Bool
  has_long_filter f =
      any is_too_long (f.doc_type ∷ f.author ∷ f.language ∷ f.git_branch ∷ f.classification ∷ [])

  pub record EventsResponse (Item : Type 0) : Type 0 where
    pub events : List Item
    pub next_before_id : Option ℕ

  -- `items.last().map(|i| i.id)`
  abbrev pub last_id : {Item : Type 0} → (Item → ℕ) → List Item → Option ℕ
  last_id id [] = none
  last_id id (i ∷ []) = some (id i)
  last_id id (i ∷ j ∷ items) = last_id id (j ∷ items)

  abbrev pub events_response : {Item : Type 0} → (Item → ℕ) → List Item → EventsResponse Item
  events_response id items = record { events = items; next_before_id = last_id id items }

  unfoldable pub events :
      {Item : Type 0}
      → (Item → ℕ)
      → Option (TimelineArgs → Task (List Item))
      → EventsQuery
      → Reply (EventsResponse Item)
  unfolding is_event_kind has_long_filter
  events id none q = api_error service_unavailable "timeline store not attached"
  events id (some reader) q =
      if is_unknown_kind q.kind
      then api_error bad_request "unknown event kind"
      else if has_long_filter q.filters
      then api_error bad_request "facet filter too long"
      else answer "timeline query failed" "timeline task failed" (events_response id) (
          reader (record {
            limit = or_else q.limit default_event_limit;
            before_id = q.before_id;
            kind = q.kind;
            filters = q.filters;
          }))

unfoldable pub is_facet_field : String → Bool
is_facet_field field =
    field == "doc_type"
    || (field == "author"
        || (field == "language" || (field == "git_branch" || field == "classification")))

unfoldable pub facets :
    Option (String → Task (List (String × ℕ))) → String → Reply (List (String × ℕ))
unfolding is_facet_field
facets none field = api_error service_unavailable "timeline store not attached"
facets (some reader) field =
    if not (is_facet_field field)
    then api_error bad_request "unknown facet field"
    else answer "facets query failed" "facets task failed" (λ values. values) (reader field)

pub record SearchQuery : Type 0 where
  pub q : String
  pub limit : Option ℕ
  pub filters : SearchFilters

module _ (len : String → ℕ) where
  unfoldable pub search_route :
      {Hit : Type 0}
      → Option (String → ℕ → SearchFilters → Task (List Hit))
      → SearchQuery
      → Reply (List Hit)
  unfolding has_long_filter
  search_route none query = api_error service_unavailable "search not configured"
  search_route (some reader) query =
      if query.q == ""
      then api_error bad_request "q must not be empty"
      else if ltb max_search_query_len (len query.q)
      then api_error bad_request "q is too long"
      else if has_long_filter len query.filters
      then api_error bad_request "facet filter too long"
      else answer "search query failed" "search task failed" (λ hits. hits)
          (reader query.q (or_else query.limit default_search_limit) query.filters)

-- `min`
abbrev pub at_most : ℕ → ℕ → ℕ
at_most bound n = if leb n bound then n else bound

unfoldable pub get_logs : Option (List Text) → Option ℕ → Reply (List Text)
unfolding recent
get_logs none limit = api_error service_unavailable "log history not attached"
get_logs (some history) limit =
    reply (recent (at_most max_log_limit (or_else limit default_log_limit)) history)

pub data WatchMode : Type 0 where
  add replace : WatchMode

-- `WatchControl`; a call changes the state `S` of the daemon.
pub record WatchControl (S : Type 0) : Type 0 where
  pub roots : S → List String
  pub add_roots : List String → S → Task (Unit {0}) × S
  pub replace_roots : List String → S → Task (Unit {0}) × S

abbrev pub change_roots :
    {S : Type 0} → WatchControl S → WatchMode → List String → S → Task (Unit {0}) × S
change_roots control add roots s = control.add_roots roots s
change_roots control replace roots s = control.replace_roots roots s

-- The roots are read in the same closure, after the change.
abbrev pub answer_watch :
    {S : Type 0} → WatchControl S → Task (Unit {0}) × S → Reply (List String) × S
answer_watch control (finished _, s) = (reply (control.roots s), s)
answer_watch control (refused e, s) = (api_error bad_request e, s)
answer_watch control (panicked, s) = (api_error internal_server_error "watch change task failed", s)

abbrev pub is_empty_list : List String → Bool
is_empty_list [] = true
is_empty_list (r ∷ roots) = false

unfoldable pub get_watch : {S : Type 0} → Option (WatchControl S) → S → Reply (List String)
get_watch none s = api_error service_unavailable "watch control not attached"
get_watch (some control) s = reply (control.roots s)

unfoldable pub put_watch :
    {S : Type 0} → Option (WatchControl S) → WatchMode → List String → S → Reply (List String) × S
put_watch none mode roots s = (api_error service_unavailable "watch control not attached", s)
put_watch (some control) mode roots s =
    if is_empty_list roots
    then (api_error bad_request "roots must not be empty", s)
    else answer_watch control (change_roots control mode roots s)
