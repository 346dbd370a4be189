-- ===== src/Store/Timeline.antt =====
-- `timeline` of crates/dafs-store/src/events.rs: the events of a query, newest first, a page at a time.
use Prim.Native.String.{◌++◌ as ◌+str◌}
use Prim.Native.Nat.{min, max}
use dafs.Prelude.{
  ℕ, String, Bool, true, false, ◌&&◌, ◌||◌, Option, none, some, List, [], ◌∷◌, length, take, keep,
  map, ltb, if◌then◌else◌, ◌==◌, eq_nat, eq_string,
}
use dafs.HashMap.{get}
use dafs.Store.Tables.{Table, FileRow, EventKind, modified, EventRow, Db}
use dafs.Store.Statements.{is_live}
use dafs.Store.Paths.{resolve_path}
use dafs.Store.Events.{as_str, parse}

-- The columns of `file_metadata` that the query reads.
pub record FileMetadata : Type 0 where
  pub doc_type : Option String
  pub title : Option String
  pub author : Option String
  pub language : Option String
  pub page_count : Option ℕ
  pub word_count : Option ℕ
  pub image_taken_at_unix : Option ℕ
  pub image_camera_model : Option String
  pub git_branch : Option String
  pub git_head_commit : Option String
  pub git_head_author : Option String
  pub git_head_at_unix : Option ℕ

-- Those of `file_enrichment`.
pub record FileEnrichment : Type 0 where
  pub summary : Option String
  pub keywords : Option String
  pub entities : Option String
  pub classification : Option String

pub record Library : Type 0 where
  pub db : Db
  pub file_metadata : Table FileMetadata
  pub file_enrichment : Table FileEnrichment

-- A joined row. The columns of the two left joins stay together; they are NULL where there is no row.
pub record RawEvent : Type 0 where
  pub id : ℕ
  pub file_id : ℕ
  pub kind : String
  pub at_unix_ms : ℕ
  pub size_bytes : Option ℕ
  pub is_dir : Bool
  pub prev_parent_id : Option ℕ
  pub prev_component_id : Option ℕ
  pub metadata : FileMetadata
  pub enrichment : FileEnrichment

abbrev pub no_metadata : FileMetadata
no_metadata = record {
  doc_type = none;
  title = none;
  author = none;
  language = none;
  page_count = none;
  word_count = none;
  image_taken_at_unix = none;
  image_camera_model = none;
  git_branch = none;
  git_head_commit = none;
  git_head_author = none;
  git_head_at_unix = none;
}

abbrev pub no_enrichment : FileEnrichment
no_enrichment = record { summary = none; keywords = none; entities = none; classification = none }

abbrev pub or_else : {A : Type 0} → Option A → A → A
or_else none a = a
or_else (some b) a = b

abbrev pub joined_row : Library → ℕ → EventRow → FileRow → RawEvent
joined_row lib id e f = record {
  id = id;
  file_id = e.file_id;
  kind = as_str e.kind;
  at_unix_ms = e.at_unix_ms;
  size_bytes = e.size_bytes;
  is_dir = f.is_dir;
  prev_parent_id = e.prev_parent_id;
  prev_component_id = e.prev_component_id;
  metadata = or_else (get e.file_id lib.file_metadata) no_metadata;
  enrichment = or_else (get e.file_id lib.file_enrichment) no_enrichment;
}

-- `events e JOIN files f ON f.id = e.file_id` and the two left joins.
abbrev pub prepend : {A : Type 0} → Option A → List A → List A
prepend none xs = xs
prepend (some x) xs = x ∷ xs

abbrev pub join : Library → ℕ × EventRow → Option RawEvent
join lib (id, e) = elim (get e.file_id lib.db.files) [
  | none ↦ none
  | some f ↦ some (joined_row lib id e f)
]

unfoldable pub join_all : Library → Table EventRow → List RawEvent
join_all lib [] = []
join_all lib (e ∷ events) = prepend (join lib e) (join_all lib events)

pub record TimelineQuery : Type 0 where
  pub limit : Option ℕ
  pub before_id : Option ℕ
  pub kind : Option EventKind
  pub doc_type : Option String
  pub author : Option String
  pub language : Option String
  pub git_branch : Option String
  pub classification : Option String

abbrev pub max_limit : ℕ
max_limit = 500

abbrev pub default_limit : ℕ
default_limit = 50

-- `clamp(1, MAX_LIMIT)`
unfoldable pub effective_limit : TimelineQuery → ℕ
effective_limit q = max 1 (min max_limit (or_else q.limit default_limit))

-- A filter that is not given lets every row in; NULL equals nothing.
abbrev pub equals : Option String → Option String → Bool
equals none column = true
equals (some value) none = false
equals (some value) (some column) = column == value

abbrev pub is_before : Option ℕ → ℕ → Bool
is_before none id = true
is_before (some before_id) id = ltb id before_id

abbrev pub is_of_kind : Option EventKind → String → Bool
is_of_kind none kind = true
is_of_kind (some k) kind = kind == as_str k

-- The WHERE clause but for the cursor.
abbrev pub passes : TimelineQuery → RawEvent → Bool
passes q e =
    is_of_kind q.kind e.kind
    && (equals q.doc_type e.metadata.doc_type
        && (equals q.author e.metadata.author
            && (equals q.language e.metadata.language
                && (equals q.git_branch e.metadata.git_branch
                    && equals q.classification e.enrichment.classification))))

abbrev pub is_selected : TimelineQuery → RawEvent → Bool
is_selected q e = is_before q.before_id e.id && passes q e

-- `ORDER BY e.at_unix_ms DESC, e.id DESC`
abbrev pub comes_first : RawEvent → RawEvent → Bool
comes_first a b = ltb b.at_unix_ms a.at_unix_ms || (a.at_unix_ms == b.at_unix_ms && ltb b.id a.id)

unfoldable pub insert_row : RawEvent → List RawEvent → List RawEvent
insert_row e [] = e ∷ []
insert_row e (x ∷ rows) =
    let rest = insert_row e rows in if comes_first e x then e ∷ x ∷ rows else x ∷ rest

unfoldable pub order_rows : List RawEvent → List RawEvent
unfolding insert_row
order_rows [] = []
order_rows (e ∷ rows) = insert_row e (order_rows rows)

-- The rows of a query without its LIMIT.
unfoldable pub select_rows : Library → TimelineQuery → List RawEvent
unfolding join_all order_rows
select_rows lib q = order_rows (keep (is_selected q) (join_all lib lib.db.events))

pub record TimelineEntry : Type 0 where
  pub id : ℕ
  pub file_id : ℕ
  pub path : String
  pub kind : EventKind
  pub at_unix_ms : ℕ
  pub size_bytes : Option ℕ
  pub is_dir : Bool
  pub previous_path : Option String
  pub metadata : FileMetadata
  pub enrichment : FileEnrichment

-- `previous_path`
abbrev pub path_below : Db → Option ℕ → String → String
path_below db none name = "/" +str name
path_below db (some p) name = (resolve_path db p +str "/") +str name

unfoldable pub previous_path : Db → Option ℕ → ℕ → Option String
unfolding resolve_path
previous_path db parent component = elim (get component db.path_components) [
  | none ↦ none
  | some c ↦ some (path_below db parent c.name)
]

abbrev pub old_path : Db → Option ℕ → Option ℕ → Option String
old_path db parent none = none
old_path db parent (some component) = previous_path db parent component

-- One round of `raw_to_entries`.
unfoldable pub to_entry : Db → RawEvent → TimelineEntry
unfolding resolve_path previous_path parse
to_entry db e = record {
  id = e.id;
  file_id = e.file_id;
  path = resolve_path db e.file_id;
  kind = or_else (parse e.kind) modified;
  at_unix_ms = e.at_unix_ms;
  size_bytes = e.size_bytes;
  is_dir = e.is_dir;
  previous_path = old_path db e.prev_parent_id e.prev_component_id;
  metadata = e.metadata;
  enrichment = e.enrichment;
}

unfoldable pub timeline : Library → TimelineQuery → List TimelineEntry
unfolding select_rows to_entry effective_limit
timeline lib q = map (to_entry lib.db) (take (effective_limit q) (select_rows lib q))

abbrev pub count : Db → ℕ
count db = length db.events

abbrev pub file_count : Db → ℕ
file_count db = length (keep (λ e. is_live e.1 && (if e.1.is_dir then false else true)) db.files)
