-- ===== src/Tests/StoreRuns.antt =====
-- Runs of the store.
use dafs.Prelude.{ℕ, ◌≡◌, refl, true, false, none, some, [], ◌∷◌, arith, eq_nat, eq_string}
use dafs.HashMap.{get}
use dafs.FilePath.{FilePath, root_dir, parent_dir, normal}
use dafs.Store.Tables.{FileRow, Db, empty_db}
use dafs.Store.Exec.{Store, ok}
use dafs.Store.Statements.{select_entry}
use dafs.Store.Paths.{
  upsert_entry, normalised_components, ensure_dir_chain, resolve_path, render, new_row,
}
use dafs.Store.WellFormed.{IsWell, IsLinked}
use dafs.Store.Names.{named}
use dafs.Store.Locations.{entry_after}
use dafs.Store.Upserting.{write_entry, upsert_entry_lem, upsert_entry-stale_is_dir}
use dafs.Store.Growth.{Grows}
use dafs.Store.Resolving.{ensure_dir_chain-resolve_path}
use dafs.Store.Walking.{IsWalk, resolve_path-IsWalk}
use dafs.Tests.Engine.{engine}

abbrev pub empty_store : Store
empty_store = record { db = empty_db; cache = [] }

empty_store-IsWell : IsWell empty_store
empty_store-IsWell = record {
  tables = record {
    components_once = tt;
    files_once = tt;
    names_once = λ i j a b h k e. cc;
    linked = λ i r h. cc;
    live_once = λ i j r q h k l m p c. cc;
    logged = λ i e h. cc;
  };
  cached_right = λ name id h. cc;
  bounded = omega arith;
}

abbrev home : FilePath
home = root_dir ∷ normal "home" ∷ normal "u" ∷ parent_dir ∷ normal "v" ∷ []

home-names : normalised_components home ≡ "home" ∷ "v" ∷ []
unfolding normalised_components
home-names = refl

test_resolve_path : resolve_path (ensure_dir_chain home empty_store).1.db 2 ≡ "/home/v"
unfolding ensure_dir_chain resolve_path
test_resolve_path = refl

ensure_dir_chain-resolve_path_example :
    (id : ℕ) × (s' : Store) × (ensure_dir_chain home empty_store ≡ (ok id, s'))
    × IsWell s'
    × Grows empty_store.db s'.db
    × (resolve_path s'.db id ≡ render (normalised_components home))
ensure_dir_chain-resolve_path_example =
    ensure_dir_chain-resolve_path home empty_store empty_store-IsWell (rw home-names (λ e. cc))
      (rw home-names (omega arith))

-- A directory that is its own parent.
abbrev looped : Db
looped = record empty_db {
  path_components = (1, named "a") ∷ [];
  files = (4, new_row (some 4) 1 true none none) ∷ [];
}

resolve_path-IsWalk_example : IsWalk 256 looped (some 4) [] (resolve_path looped 4)
resolve_path-IsWalk_example = resolve_path-IsWalk looped 4

-- `/a` was a file and is gone.
abbrev pub gone : FileRow
gone = record {
  parent_id = none;
  component_id = 1;
  is_dir = false;
  size_bytes = some 3;
  mtime_unix = some 10;
  deleted_at = some 20;
}

abbrev pub one_tombstone : Store
one_tombstone = record {
  db = record { path_components = (1, named "a") ∷ []; files = (1, gone) ∷ []; events = [] };
  cache = [];
}

pub one_tombstone-IsWell : IsWell one_tombstone
one_tombstone-IsWell = record {
  tables = record {
    components_once = (refl, tt);
    files_once = (refl, tt);
    names_once = λ i j a b h k e. ground arith;
    linked = λ i r h. (ground arith, ground arith);
    live_once = λ i j r q h k l m p c. ground arith;
    logged = λ i e h. cc;
  };
  cached_right = λ name id h. cc;
  bounded = omega arith;
}

abbrev a_dir : FileRow
a_dir = new_row none 1 true none none

a_dir-IsLinked : IsLinked one_tombstone.db a_dir
a_dir-IsLinked = (refl, refl)

upsert_entry_lem_example :
    (upsert_entry none 1 true none none one_tombstone
      ≡ write_entry (entry_after none 1 true none none one_tombstone.db) one_tombstone)
    × IsWell (write_entry (entry_after none 1 true none none one_tombstone.db) one_tombstone).1
upsert_entry_lem_example =
    upsert_entry_lem none 1 true none none one_tombstone one_tombstone-IsWell a_dir-IsLinked

upsert_entry-stale_is_dir_example :
    (q : FileRow) × (get 1 (upsert_entry none 1 true none none one_tombstone).1.db.files ≡ some q)
    × (q.deleted_at ≡ none)
    × (q.is_dir ≡ false)
unfolding select_entry
upsert_entry-stale_is_dir_example =
    upsert_entry-stale_is_dir none 1 true none none one_tombstone 1 gone one_tombstone-IsWell
      a_dir-IsLinked refl
