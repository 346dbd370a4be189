-- ===== src/Tests/MigrationRuns.antt =====
-- The migrations of crates/dafs-store/src/lib.rs on a new database.
use dafs.Prelude.{◌≡◌, refl, true, not, [], arith, ◌≤◌, ◌==◌, eq_nat}
use dafs.Store.Migrations.{
  Schema, Sequence, migrate, failed, migrated, migration_failed, current_version, supported_version,
}
use dafs.Store.Migrated.{IsAt, IsUpgrade, migrate-IsUpgrade}

abbrev new_database : Schema
new_database = record { objects = []; columns = []; schema_migrations = [] }

-- The third migration cannot commit.
abbrev full_disk : Sequence
full_disk = record {
  can_begin = λ _. true;
  can_execute = λ _ _. true;
  can_insert = λ _. true;
  can_commit = λ v. not (v == 3);
  now_unix = λ v. 1700000000;
}

abbrev no_trouble : Sequence
no_trouble = record full_disk { can_commit = λ _. true }

stops : (migrate full_disk new_database).0 ≡ failed (migration_failed 3 "metadata")
unfolding migrate
stops = refl

stops_at : current_version (migrate full_disk new_database).1 ≡ 2
unfolding migrate current_version
stops_at = refl

goes_on : (migrate no_trouble (migrate full_disk new_database).1).0 ≡ migrated
unfolding migrate
goes_on = refl

new_database-IsAt : IsAt 0 new_database
unfolding IsAt
new_database-IsAt = (refl, refl, refl)

zero_supported : 0 ≤ supported_version
unfolding supported_version
zero_supported = omega arith

migrate-IsUpgrade_example : IsUpgrade 0 (migrate full_disk new_database)
migrate-IsUpgrade_example =
    migrate-IsUpgrade full_disk 0 new_database zero_supported new_database-IsAt
