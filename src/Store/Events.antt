-- ===== src/Store/Events.antt =====
-- The writes of crates/dafs-store/src/events.rs: the stored form of a kind, and a batch in one
-- transaction.
use dafs.Prelude.{
  ℕ, String, Option, none, some, List, [], ◌∷◌, length, if◌then◌else◌, ◌==◌, eq_string,
}
use dafs.Store.Tables.{EventKind, created, modified, deleted, renamed, EventRow, Sqlite}
use dafs.Store.Exec.{Store, Exec, Result, ok, err, pure, ◌>>◌}
use dafs.Store.Statements.{insert_event}

abbrev pub as_str : EventKind → String
as_str created = "created"
as_str modified = "modified"
as_str deleted = "deleted"
as_str renamed = "renamed"

unfoldable pub parse : String → Option EventKind
parse s =
    if s == "created"
    then some created
    else if s == "modified"
    then some modified
    else if s == "deleted"
    then some deleted
    else if s == "renamed"
    then some renamed
    else none

module _ ⦃sql : Sqlite⦄ where
  -- The loop of `append_batch`.
  unfoldable pub execute_each : List EventRow → Exec (Unit {0})
  unfolding insert_event
  execute_each [] = pure tt
  execute_each (e ∷ events) = do insert_event e; execute_each events

  -- A transaction that is dropped is rolled back: the tables are those of `before`.
  abbrev pub commit_or_rollback : ℕ → Store → Result (Unit {0}) × Store → Result ℕ × Store
  commit_or_rollback n before (ok _, s) = (ok n, s)
  commit_or_rollback n before (err e, s) = (err e, record s { db = before.db })

  unfoldable pub append_batch : List EventRow → Exec ℕ
  unfolding execute_each
  append_batch [] = pure 0
  append_batch (e ∷ events) =
      λ s. commit_or_rollback (length (e ∷ events)) s (execute_each (e ∷ events) s)
