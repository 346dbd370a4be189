-- ===== src/Store/Migrated.antt =====
-- The migrations of crates/dafs-store/src/lib.rs: what a start leaves, whatever goes wrong.
use dafs.Prelude.{
  ◌≡◌, refl, zero, suc, ◌&&◌, ap, ◌∙◌, ◌+◌, ◌≤◌, ℕ, String, Bool, true, none, some, List, [], ◌∷◌,
  ◌++◌, map, keep, leb, Bool-cases, Option-cases, arith, inl, inr, ◌⊎◌,
}
use dafs.Store.Migrations.{
  Statement, create_table, create_index, add_column, Migration, schema_version, timeline, metadata,
  enrichment, embeddings, migrations, MigrationRow, Schema, versions, current_version, execute,
  insert_migration, Sequence, migration_failed, schema_too_new, Outcome, migrated, failed,
  execute_batch, row_of, transaction, migrate_each, migrate, supported_version,
}

-- What the list of migrations says, the last first.
abbrev objects_of : List Statement → List String → List String
objects_of [] before = before
objects_of (create_table table ∷ sql) before = objects_of sql (table ∷ before)
objects_of (create_index index table ∷ sql) before = objects_of sql (index ∷ before)
objects_of (add_column table column ∷ sql) before = objects_of sql before

abbrev columns_of : List Statement → List (String × String) → List (String × String)
columns_of [] before = before
columns_of (create_table table ∷ sql) before = columns_of sql before
columns_of (create_index index table ∷ sql) before = columns_of sql before
columns_of (add_column table column ∷ sql) before = columns_of sql ((table, column) ∷ before)

abbrev all_sql : List Migration → List Statement
all_sql [] = []
all_sql (m ∷ ms) = m.sql ++ all_sql ms

abbrev reversed : List ℕ → List ℕ → List ℕ
reversed [] before = before
reversed (v ∷ vs) before = reversed vs (v ∷ before)

abbrev up_to : ℕ → List Migration
up_to v = keep (λ m. leb m.version v) migrations

-- The schema has the objects and columns of the migrations up to `v`, in their order, and a row of each
-- of them; nothing of a later one.
unfoldable pub IsAt : ℕ → Schema → Type 0
IsAt v s =
    (s.objects ≡ objects_of (all_sql (up_to v)) [])
    × (s.columns ≡ columns_of (all_sql (up_to v)) [])
    × (versions s.schema_migrations ≡ reversed (map (λ m. m.version) (up_to v)) [])

-- How a start ends at version `v`.
pub EndsAt : ℕ → Outcome → Type 0
EndsAt v migrated = v ≡ supported_version
EndsAt v (failed (migration_failed version name)) = version ≡ v + 1
EndsAt v (failed (schema_too_new found supported)) = ⊥

pub IsUpgrade : ℕ → Outcome × Schema → Type 0
IsUpgrade v out = (v' : ℕ) × (v ≤ v') × IsAt v' out.1 × EndsAt v' out.0

-- A schema at `v`, but for what its rows say beside their version.
abbrev schema_at : ℕ → List MigrationRow → Schema
schema_at v rows = record {
  objects = objects_of (all_sql (up_to v)) [];
  columns = columns_of (all_sql (up_to v)) [];
  schema_migrations = rows;
}

IsAt-schema_at : (v : ℕ) (s : Schema) → IsAt v s → s ≡ schema_at v s.schema_migrations
unfolding IsAt
IsAt-schema_at v s (o, c, r) =
    λ i. record { objects = o i; columns = c i; schema_migrations = s.schema_migrations }

-- Nothing goes wrong outside SQLite.
abbrev untroubled : Sequence → Sequence
untroubled seq = record {
  can_begin = λ _. true;
  can_execute = λ _ _. true;
  can_insert = λ _. true;
  can_commit = λ _. true;
  now_unix = seq.now_unix;
}

execute_batch-cases :
    (can : Statement → Bool) (sql : List Statement) (s : Schema)
    → (execute_batch can sql s ≡ none) ⊎ (execute_batch can sql s ≡ execute_batch (λ _. true) sql s)
unfolding execute_batch
execute_batch-cases can [] s = inr refl
execute_batch-cases can (statement ∷ sql) s = elim (Bool-cases (can statement)) [
  | inr e ↦ inl (rw e refl)
  | inl e ↦ elim (Option-cases (execute statement s)) [
    | inl f ↦ inl (rw (e, f) refl)
    | inr (s', f) ↦ rw (e, f) (execute_batch-cases can sql s')
  ]
]

transaction-cases :
    (seq : Sequence) (m : Migration) (s : Schema)
    → (transaction seq m s ≡ none) ⊎ (transaction seq m s ≡ transaction (untroubled seq) m s)
unfolding transaction
transaction-cases seq m s = elim (Bool-cases (seq.can_begin m.version)) [
  | inr e ↦ inl (rw e refl)
  | inl e ↦ elim (execute_batch-cases (seq.can_execute m.version) m.sql s) [
    | inl f ↦ inl (rw (e, f) refl)
    | inr f ↦ elim (Option-cases (execute_batch (λ _. true) m.sql s)) [
      | inl g ↦ inl (rw (e, f, g) refl)
      | inr (s', g) ↦ elim (Bool-cases (seq.can_insert m.version && seq.can_commit m.version)) [
        | inr h ↦ inl (rw (e, f, g, h) refl)
        | inl h ↦ inr (rw (e, f, g, h) refl)
      ]
    ]
  ]
]

-- Outside trouble apart, a migration takes the schema from `v` to the next version.
abbrev Upgrades : ℕ → Migration → Type 0
Upgrades v m =
    (seq : Sequence) (rows : List MigrationRow)
    → versions rows ≡ reversed (map (λ m. m.version) (up_to v)) []
    → (transaction (untroubled seq) m (schema_at v rows)
        ≡ some (schema_at (v + 1) (row_of seq m ∷ rows)))
      × IsAt (v + 1) (schema_at (v + 1) (row_of seq m ∷ rows))

schema_version-Upgrades : Upgrades 0 schema_version
unfolding transaction execute_batch execute insert_migration IsAt
schema_version-Upgrades seq rows r = (rw r refl, (refl, refl, ap (λ vs. 1 ∷ vs) r))

timeline-Upgrades : Upgrades 1 timeline
unfolding transaction execute_batch execute insert_migration IsAt
timeline-Upgrades seq rows r = (rw r refl, (refl, refl, ap (λ vs. 2 ∷ vs) r))

metadata-Upgrades : Upgrades 2 metadata
unfolding transaction execute_batch execute insert_migration IsAt
metadata-Upgrades seq rows r = (rw r refl, (refl, refl, ap (λ vs. 3 ∷ vs) r))

enrichment-Upgrades : Upgrades 3 enrichment
unfolding transaction execute_batch execute insert_migration IsAt
enrichment-Upgrades seq rows r = (rw r refl, (refl, refl, ap (λ vs. 4 ∷ vs) r))

embeddings-Upgrades : Upgrades 4 embeddings
unfolding transaction execute_batch execute insert_migration IsAt
embeddings-Upgrades seq rows r = (rw r refl, (refl, refl, ap (λ vs. 5 ∷ vs) r))

IsAt-versions :
    (v : ℕ) (s : Schema)
    → IsAt v s
    → versions s.schema_migrations ≡ reversed (map (λ m. m.version) (up_to v)) []
unfolding IsAt
IsAt-versions v s (_, _, r) = r

-- A list of migrations that starts at `v` upgrades any schema that is there.
abbrev Chain : ℕ → List Migration → Type 0
Chain v pending =
    (seq : Sequence) (s : Schema) → IsAt v s → IsUpgrade v (migrate_each seq pending s)

Chain-[] : Chain 5 []
unfolding migrate_each IsUpgrade EndsAt supported_version
Chain-[] seq s at = (5, omega arith, at, refl)

Chain-∷ :
    (v : ℕ) (m : Migration) (pending : List Migration)
    → m.version ≡ v + 1
    → Upgrades v m
    → Chain (v + 1) pending
    → Chain v (m ∷ pending)
unfolding migrate_each IsUpgrade EndsAt
Chain-∷ v m pending n up later seq s at = elim (transaction-cases seq m s) [
  | inl e ↦ rw (migrate_each, e) (v, omega arith, at, n)
  | inr e ↦
      let (runs, arrives) = up seq s.schema_migrations (IsAt-versions v s at) in
      let next = e ∙ ap (transaction (untroubled seq) m) (IsAt-schema_at v s at) ∙ runs in
      let (v', more, at', ends) =
        later seq (schema_at (v + 1) (row_of seq m ∷ s.schema_migrations)) arrives in
      rw (migrate_each, next) (v', omega (arith, more), at', ends)
]

Chain-4 : Chain 4 (embeddings ∷ [])
Chain-4 = Chain-∷ 4 embeddings [] refl embeddings-Upgrades Chain-[]

Chain-3 : Chain 3 (enrichment ∷ embeddings ∷ [])
Chain-3 = Chain-∷ 3 enrichment (embeddings ∷ []) refl enrichment-Upgrades Chain-4

Chain-2 : Chain 2 (metadata ∷ enrichment ∷ embeddings ∷ [])
Chain-2 = Chain-∷ 2 metadata (enrichment ∷ embeddings ∷ []) refl metadata-Upgrades Chain-3

Chain-1 : Chain 1 (timeline ∷ metadata ∷ enrichment ∷ embeddings ∷ [])
Chain-1 =
    Chain-∷ 1 timeline (metadata ∷ enrichment ∷ embeddings ∷ []) refl timeline-Upgrades Chain-2

Chain-0 : Chain 0 migrations
Chain-0 =
    Chain-∷ 0 schema_version (timeline ∷ metadata ∷ enrichment ∷ embeddings ∷ []) refl
      schema_version-Upgrades Chain-1

-- The version that a schema says is the one that it is at.
IsAt-current_version :
    (v : ℕ) (s : Schema) → v ≤ supported_version → IsAt v s → current_version s ≡ v
unfolding current_version supported_version IsAt
IsAt-current_version zero s b (o, c, r) = rw o refl
IsAt-current_version (suc zero) s b (o, c, r) = rw (o, r) refl
IsAt-current_version (suc (suc zero)) s b (o, c, r) = rw (o, r) refl
IsAt-current_version (suc (suc (suc zero))) s b (o, c, r) = rw (o, r) refl
IsAt-current_version (suc (suc (suc (suc zero)))) s b (o, c, r) = rw (o, r) refl
IsAt-current_version (suc (suc (suc (suc (suc zero))))) s b (o, c, r) = rw (o, r) refl
IsAt-current_version (suc (suc (suc (suc (suc (suc v)))))) s b at = ground (arith, b)

-- A start on a schema that some version of the migrations has left, whatever goes wrong in it, leaves the
-- schema of a version that is not lower: of the newest if it succeeds, and else of the one before the
-- migration that its error names. It is never refused as too new.
pub migrate-IsUpgrade :
    (seq : Sequence) (v : ℕ) (s : Schema)
    → v ≤ supported_version
    → IsAt v s
    → IsUpgrade v (migrate seq s)
unfolding migrate supported_version
migrate-IsUpgrade seq zero s b at = rw (IsAt-current_version 0 s b at) (Chain-0 seq s at)
migrate-IsUpgrade seq (suc zero) s b at = rw (IsAt-current_version 1 s b at) (Chain-1 seq s at)
migrate-IsUpgrade seq (suc (suc zero)) s b at =
    rw (IsAt-current_version 2 s b at) (Chain-2 seq s at)
migrate-IsUpgrade seq (suc (suc (suc zero))) s b at =
    rw (IsAt-current_version 3 s b at) (Chain-3 seq s at)
migrate-IsUpgrade seq (suc (suc (suc (suc zero)))) s b at =
    rw (IsAt-current_version 4 s b at) (Chain-4 seq s at)
migrate-IsUpgrade seq (suc (suc (suc (suc (suc zero))))) s b at =
    rw (IsAt-current_version 5 s b at) (Chain-[] seq s at)
migrate-IsUpgrade seq (suc (suc (suc (suc (suc (suc v)))))) s b at = ground (arith, b)
