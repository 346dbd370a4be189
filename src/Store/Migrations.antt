-- ===== src/Store/Migrations.antt =====
-- The migrations of crates/dafs-store/src/lib.rs. Of a statement the model has what it creates, and
-- fails where SQLite finds the name taken or the table missing; `Sequence` is what else can go wrong.
use dafs.Prelude.{
  ℕ, String, Bool, ◌&&◌, not, Option, none, some, List, [], ◌∷◌, map, any, ltb, keep, if◌then◌else◌,
  ◌==◌, eq_string, eq_nat,
}

pub data Statement : Type 0 where
  create_table : String → Statement
  create_index : String → String → Statement
  add_column : String → String → Statement

pub record Migration : Type 0 where
  pub version : ℕ
  pub name : String
  pub sql : List Statement

abbrev pub schema_version : Migration
schema_version = record {
  version = 1;
  name = "schema_version";
  sql = create_table "schema_migrations" ∷ [];
}

abbrev pub timeline : Migration
timeline = record {
  version = 2;
  name = "timeline";
  sql =
      create_table "path_components"
      ∷ create_table "files"
      ∷ create_index "files_live_entry" "files"
      ∷ create_index "files_parent" "files"
      ∷ create_table "events"
      ∷ create_index "events_recent" "events"
      ∷ create_index "events_by_file" "events"
      ∷ [];
}

abbrev pub metadata : Migration
metadata = record {
  version = 3;
  name = "metadata";
  sql =
      create_table "file_metadata"
      ∷ create_table "extraction_queue"
      ∷ create_index "extraction_queue_order" "extraction_queue"
      ∷ [];
}

abbrev pub enrichment : Migration
enrichment = record {
  version = 4;
  name = "enrichment";
  sql =
      add_column "file_metadata" "body_text"
      ∷ create_table "file_enrichment"
      ∷ create_table "enrichment_queue"
      ∷ create_index "enrichment_queue_order" "enrichment_queue"
      ∷ [];
}

abbrev pub embeddings : Migration
embeddings = record {
  version = 5;
  name = "embeddings";
  sql =
      create_table "embedding_queue"
      ∷ create_index "embedding_queue_order" "embedding_queue"
      ∷ create_table "embedding_config"
      ∷ [];
}

abbrev pub migrations : List Migration
migrations = schema_version ∷ timeline ∷ metadata ∷ enrichment ∷ embeddings ∷ []

-- A row of `schema_migrations`.
pub record MigrationRow : Type 0 where
  pub version : ℕ
  pub name : String
  pub applied_at : ℕ

-- `objects` are the names in `sqlite_master`, and `columns` those that ALTER TABLE added.
pub record Schema : Type 0 where
  pub objects : List String
  pub columns : List (String × String)
  pub schema_migrations : List MigrationRow

abbrev pub max_of : List ℕ → ℕ
max_of [] = 0
max_of (v ∷ versions) = let m = max_of versions in if ltb m v then v else m

abbrev pub versions : List MigrationRow → List ℕ
versions rows = map (λ r. r.version) rows

unfoldable pub supported_version : ℕ
supported_version = max_of (map (λ m. m.version) migrations)

abbrev pub exists : String → Schema → Bool
exists object s = any (λ o. o == object) s.objects

unfoldable pub current_version : Schema → ℕ
current_version s =
    if exists "schema_migrations" s then max_of (versions s.schema_migrations) else 0

-- `none` is an error of SQLite.
unfoldable pub execute : Statement → Schema → Option Schema
execute (create_table table) s =
    if exists table s then none else some (record s { objects = table ∷ s.objects })
execute (create_index index table) s =
    if exists table s && not (exists index s)
    then some (record s { objects = index ∷ s.objects })
    else none
execute (add_column table column) s =
    if exists table s && not (any (λ c. c.0 == table && c.1 == column) s.columns)
    then some (record s { columns = (table, column) ∷ s.columns })
    else none

-- The INSERT, with its primary key.
unfoldable pub insert_migration : MigrationRow → Schema → Option Schema
insert_migration row s =
    if exists "schema_migrations" s
      && not (any (λ v. v == row.version) (versions s.schema_migrations))
    then some (record s { schema_migrations = row ∷ s.schema_migrations })
    else none

-- What the disk, the lock and the clock do while a migration runs, by its version: whether each step
-- goes through, and `now_unix`. A crash is a step that does not.
pub record Sequence : Type 0 where
  pub can_begin : ℕ → Bool
  pub can_execute : ℕ → Statement → Bool
  pub can_insert : ℕ → Bool
  pub can_commit : ℕ → Bool
  pub now_unix : ℕ → ℕ

pub data MigrateError : Type 0 where
  migration_failed : ℕ → String → MigrateError
  schema_too_new : ℕ → ℕ → MigrateError

pub data Outcome : Type 0 where
  migrated : Outcome
  failed : MigrateError → Outcome

unfoldable pub execute_batch : (Statement → Bool) → List Statement → Schema → Option Schema
unfolding execute
execute_batch can [] s = some s
execute_batch can (statement ∷ sql) s =
    if can statement
    then elim (execute statement s) [ none ↦ none | some s' ↦ execute_batch can sql s' ]
    else none

abbrev pub row_of : Sequence → Migration → MigrationRow
row_of seq m = record { version = m.version; name = m.name; applied_at = seq.now_unix m.version }

-- The transaction of one migration: `none` is a step that failed, and the transaction that is dropped.
unfoldable pub transaction : Sequence → Migration → Schema → Option Schema
unfolding execute_batch insert_migration
transaction seq m s =
    if seq.can_begin m.version
    then elim (execute_batch (seq.can_execute m.version) m.sql s) [
      | none ↦ none
      | some s' ↦
          if seq.can_insert m.version && seq.can_commit m.version
          then insert_migration (row_of seq m) s'
          else none
    ]
    else none

unfoldable pub migrate_each : Sequence → List Migration → Schema → Outcome × Schema
unfolding transaction
migrate_each seq [] s = (migrated, s)
migrate_each seq (m ∷ pending) s = elim (transaction seq m s) [
  | none ↦ (failed (migration_failed m.version m.name), s)
  | some s' ↦ migrate_each seq pending s'
]

unfoldable pub migrate : Sequence → Schema → Outcome × Schema
unfolding supported_version current_version migrate_each
migrate seq s =
    let current = current_version s in
    if ltb supported_version current
    then (failed (schema_too_new current supported_version), s)
    else migrate_each seq (keep (λ m. ltb current m.version) migrations) s
