-- ===== src/Api/Probes.antt =====
-- The probes of crates/dafs-api/src/lib.rs: readiness, version and metrics.
use dafs.Prelude.{
  ℕ, String, Bool, true, false, Option, none, some, List, [], ◌∷◌, ◌++◌, ◌-◌, if◌then◌else◌,
}
use dafs.Api.Handlers.{Task, finished, refused, panicked}
use dafs.Daemon.StoreAdapter.{TimelineStats}

-- `StateInner` as the probes read it; times are in seconds.
pub record AppState : Type 0 where
  pub schema_version : ℕ
  pub ready : Bool
  pub started_at : ℕ
  pub timeline : Option (Task TimelineStats)

unfoldable pub new : ℕ → ℕ → AppState
new schema_version now = record {
  schema_version = schema_version;
  ready = false;
  started_at = now;
  timeline = none;
}

unfoldable pub set_ready : AppState → AppState
set_ready state = record state { ready = true }

unfoldable pub uptime : ℕ → AppState → ℕ
uptime now state = now - state.started_at

pub record Readiness : Type 0 where
  pub ready : Bool
  pub schema_version : ℕ

-- The status code and the body.
unfoldable pub readyz : AppState → ℕ × Readiness
readyz state = (
  if state.ready then 200 else 503,
  record { ready = state.ready; schema_version = state.schema_version },
)

pub record Version : Type 0 where
  pub version : String
  pub schema_version : ℕ
  pub uptime_seconds : ℕ

-- `cargo_version` is that of the package.
unfoldable pub version : String → ℕ → AppState → Version
unfolding uptime
version cargo_version now state = record {
  version = cargo_version;
  schema_version = state.schema_version;
  uptime_seconds = uptime now state;
}

-- The samples of the page, without its lines of help and type.
abbrev pub resident : Option ℕ → List (String × ℕ)
resident none = []
resident (some rss) = ("dafs_resident_bytes", rss) ∷ []

abbrev pub store_counts : Option (Task TimelineStats) → List (String × ℕ)
store_counts (some (finished stats)) =
    ("dafs_events_total", stats.events)
    ∷ ("dafs_files_known", stats.files)
    ∷ ("dafs_extraction_queue_depth", stats.pending_extractions)
    ∷ []
store_counts (some (refused e)) = []
store_counts (some panicked) = []
store_counts none = []

unfoldable pub metrics : Option ℕ → ℕ → AppState → List (String × ℕ)
unfolding uptime
metrics resident_bytes now state =
    ("dafs_ready", if state.ready then 1 else 0)
    ∷ ("dafs_schema_version", state.schema_version)
    ∷ ("dafs_uptime_seconds", uptime now state)
    ∷ (resident resident_bytes ++ store_counts state.timeline)
