-- ===== src/Api/LogLevel.antt =====
-- crates/dafs-api/src/logging.rs and the routes of the log level in crates/dafs-api/src/lib.rs.
use dafs.Prelude.{
  ℕ, ◌≤◌, ◌≡◌, refl, String, Bool, true, false, Option, none, some, List, [], ◌∷◌, ltb, Bool-cases,
  inl, inr, arith, if◌then◌else◌,
}
use dafs.Api.Handlers.{bad_request, service_unavailable, Reply, reply, api_error}

abbrev pub max_filter_len : ℕ
max_filter_len = 1024

-- `installed` is the filter that the reload handle of `tracing_subscriber` has in force.
pub record LogLevelHandle : Type 0 where
  pub installed : String
  pub current : String

-- `EnvFilter::try_new` and `Handle::reload`: whether a text is a filter, and whether it is installed.
pub record Subscriber : Type 0 where
  pub parses : String → Bool
  pub reloads : String → Bool

module _ (len : String → ℕ) (subscriber : Subscriber) where
  -- Whether the filter was set; the texts of the errors are only logged.
  unfoldable pub set : String → LogLevelHandle → Bool × LogLevelHandle
  set filter handle =
      if ltb max_filter_len (len filter)
      then (false, handle)
      else if subscriber.parses filter
      then if subscriber.reloads filter
        then (true, record { installed = filter; current = filter })
        else (false, handle)
      else (false, handle)

  abbrev pub answer_set : Bool × LogLevelHandle → Reply String × LogLevelHandle
  answer_set (true, handle) = (reply handle.current, handle)
  answer_set (false, handle) = (api_error bad_request "invalid log filter", handle)

  unfoldable pub set_log_level :
      Option LogLevelHandle → String → Reply String × Option LogLevelHandle
  unfolding set
  set_log_level none filter = (api_error service_unavailable "log level control not attached", none)
  set_log_level (some handle) filter =
      let (answered, after) = answer_set (set filter handle) in (answered, some after)

unfoldable pub get_log_level : Option LogLevelHandle → Reply String
get_log_level none = api_error service_unavailable "log level control not attached"
get_log_level (some handle) = reply handle.current

module _ (len : String → ℕ) (subscriber : Subscriber) where
  abbrev pub set_all : List String → LogLevelHandle → LogLevelHandle
  set_all [] handle = handle
  set_all (filter ∷ filters) handle = set_all filters (set len subscriber filter handle).1

  -- What is shown is what is in force, and it is at most 1024 bytes.
  abbrev pub IsInForce : LogLevelHandle → Type 0
  IsInForce handle = (handle.current ≡ handle.installed) × (len handle.current ≤ max_filter_len)

  set-IsInForce :
      (filter : String) (handle : LogLevelHandle)
      → IsInForce handle
      → IsInForce (set len subscriber filter handle).1
  unfolding set
  set-IsInForce filter handle i = elim (Bool-cases (ltb max_filter_len (len filter))) [
    | inl e ↦ rw e i
    | inr e ↦ elim (Bool-cases (subscriber.parses filter)) [
      | inr p ↦ rw (e, p) i
      | inl p ↦ elim (Bool-cases (subscriber.reloads filter)) [
        | inr r ↦ rw (e, p, r) i
        | inl r ↦ rw (e, p, r) (refl, ground (arith, e))
      ]
    ]
  ]

  -- After any requests, refused ones among them, the log level that is shown is the one in force and is
  -- at most 1024 bytes long, if that is so before.
  pub set_all-IsInForce :
      (filters : List String) (handle : LogLevelHandle)
      → IsInForce handle
      → IsInForce (set_all filters handle)
  set_all-IsInForce [] handle i = i
  set_all-IsInForce (filter ∷ filters) handle i =
      set_all-IsInForce filters (set len subscriber filter handle).1 (set-IsInForce filter handle i)
