-- ===== src/Daemon/StoreAdapter.antt =====
-- crates/dafs-daemon/src/store_adapter.rs: the traits of the API on the tables of the store. The answer
-- of the embedding endpoint is an argument.
use dafs.Prelude.{
  ℕ, ◌*◌, String, Bool, true, false, ◌&&◌, Option, none, some, List, [], ◌∷◌, take, keep, map, ltb,
  if◌then◌else◌, ◌==◌, eq_nat, eq_string,
}
use dafs.HashMap.{HashMap, get, insert}
use dafs.Store.Tables.{EventKind}
use dafs.Store.Events.{as_str, parse}
use dafs.Store.Timeline.{
  FileMetadata, FileEnrichment, TimelineQuery, TimelineEntry, timeline, count, file_count,
}
use dafs.Store.Catalog.{Work, library}
use dafs.Store.Queue.{queue_depth}
use dafs.Store.Facets.{
  FacetColumn, doc_type, author, language, git_branch, classification, distinct_facets,
  enrichment_facets,
}
use dafs.Store.Latest.{latest_for_file_ids}
use dafs.Store.Embeddings.{Vec0, Float64}
use dafs.Store.Embeddings
use dafs.Api.Handlers.{SearchFilters, TimelineArgs, at_most}

-- `TimelineItem`; the joined columns stay together.
pub record TimelineItem : Type 0 where
  pub id : ℕ
  pub path : String
  pub kind : String
  pub at_unix_ms : ℕ
  pub size_bytes : Option ℕ
  pub is_dir : Bool
  pub previous_path : Option String
  pub metadata : FileMetadata
  pub enrichment : FileEnrichment

unfoldable pub to_dto : TimelineEntry → TimelineItem
to_dto e = record {
  id = e.id;
  path = e.path;
  kind = as_str e.kind;
  at_unix_ms = e.at_unix_ms;
  size_bytes = e.size_bytes;
  is_dir = e.is_dir;
  previous_path = e.previous_path;
  metadata = e.metadata;
  enrichment = e.enrichment;
}

-- `kind.and_then(EventKind::parse)`
abbrev pub parse_kind : Option String → Option EventKind
parse_kind none = none
parse_kind (some kind) = parse kind

abbrev pub to_query : TimelineArgs → TimelineQuery
to_query a = record {
  limit = some a.limit;
  before_id = a.before_id;
  kind = parse_kind a.kind;
  doc_type = a.filters.doc_type;
  author = a.filters.author;
  language = a.filters.language;
  git_branch = a.filters.git_branch;
  classification = a.filters.classification;
}

unfoldable pub sqlite_timeline : TimelineArgs → Work → List TimelineItem
unfolding to_dto timeline library parse
sqlite_timeline a w = map to_dto (timeline (library w) (to_query a))

pub record TimelineStats : Type 0 where
  pub events : ℕ
  pub files : ℕ
  pub pending_extractions : ℕ

unfoldable pub stats : Work → TimelineStats
stats w = record {
  events = count w.db;
  files = file_count w.db;
  pending_extractions = queue_depth w;
}

abbrev pub max_facet_values : ℕ
max_facet_values = 50

abbrev pub facet_column : String → Option FacetColumn
facet_column field =
    if field == "doc_type"
    then some doc_type
    else if field == "author"
    then some author
    else if field == "language"
    then some language
    else if field == "git_branch"
    then some git_branch
    else none

-- `none` is the error of an unknown field.
unfoldable pub sqlite_facets : String → Work → Option (List (String × ℕ))
unfolding distinct_facets enrichment_facets
sqlite_facets field w =
    if field == "classification"
    then some (enrichment_facets classification max_facet_values w)
    else elim (facet_column field) [
      | none ↦ none
      | some c ↦ some (distinct_facets c max_facet_values w)
    ]

abbrev pub facet_filter_oversample : ℕ
facet_filter_oversample = 5

abbrev pub max_facet_candidate_limit : ℕ
max_facet_candidate_limit = 500

-- The closure `matches`
abbrev pub matches : Option String → Option String → Bool
matches none field = true
matches (some f) none = false
matches (some f) (some v) = v == f

unfoldable pub entry_matches_filters : SearchFilters → TimelineEntry → Bool
entry_matches_filters f e =
    matches f.doc_type e.metadata.doc_type
    && (matches f.author e.metadata.author
        && (matches f.language e.metadata.language
            && (matches f.git_branch e.metadata.git_branch
                && matches f.classification e.enrichment.classification)))

abbrev pub is_none : Option String → Bool
is_none none = true
is_none (some s) = false

-- `SearchFilters::is_empty`
abbrev pub is_empty : SearchFilters → Bool
is_empty f =
    is_none f.doc_type
    && (is_none f.author
        && (is_none f.language && (is_none f.git_branch && is_none f.classification)))

-- `limit.saturating_mul(…).min(…)`
unfoldable pub candidate_limit : ℕ → SearchFilters → ℕ
candidate_limit limit filters =
    if is_empty filters
    then limit
    else at_most max_facet_candidate_limit (
        if ltb (limit * facet_filter_oversample) 4294967296
        then limit * facet_filter_oversample
        else 4294967295)

module _ ⦃float : Float64⦄ where
  pub record SearchHit : Type 0 where
    pub distance : float.F64
    pub item : TimelineItem

  -- `hits.iter().copied().collect()`
  abbrev pub distances : List (ℕ × float.F64) → HashMap ℕ float.F64 → HashMap ℕ float.F64
  distances [] t = t
  distances (h ∷ hits) t = distances hits (insert h.0 h.1 t)

  -- The result of a search; `panicked` is the `expect` on the distance of an entry.
  pub data Searched : Type 0 where
    found : List SearchHit → Searched
    failed : Searched
    panicked : Searched

  abbrev pub prepend_hit : float.F64 → TimelineEntry → Searched → Searched
  prepend_hit d e (found hits) = found (record { distance = d; item = to_dto e } ∷ hits)
  prepend_hit d e failed = failed
  prepend_hit d e panicked = panicked

  unfoldable pub with_distances : HashMap ℕ float.F64 → List TimelineEntry → Searched
  unfolding to_dto
  with_distances distance_by_file [] = found []
  with_distances distance_by_file (e ∷ entries) =
      let rest = with_distances distance_by_file entries in
      elim (get e.file_id distance_by_file) [ none ↦ panicked | some d ↦ prepend_hit d e rest ]

  -- What `search` does with the hits.
  unfoldable pub select_hits : ℕ → SearchFilters → Work → List (ℕ × float.F64) → Searched
  unfolding with_distances latest_for_file_ids entry_matches_filters library
  select_hits limit filters w hits =
      let entries = latest_for_file_ids (library w) (map (λ h. h.0) hits) in
      with_distances (distances hits []) (take limit (keep (entry_matches_filters filters) entries))

  -- `embed` is `none` where the endpoint fails.
  unfoldable pub sqlite_search :
      ⦃vec : Vec0⦄ → (String → Option (List ℕ)) → String → ℕ → SearchFilters → Work → Searched
  unfolding select_hits candidate_limit Embeddings.search
  sqlite_search embed query limit filters w = elim (embed query) [
    | none ↦ failed
    | some vector ↦ elim (Embeddings.search vector (candidate_limit limit filters) w) [
      | none ↦ failed
      | some hits ↦ select_hits limit filters w hits
    ]
  ]
