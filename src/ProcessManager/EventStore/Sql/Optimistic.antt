-- ===== src/ProcessManager/EventStore/Sql/Optimistic.antt =====
-- Two appends to the database by callers that have seen the same history.
use rocket_toolkit.Prelude.{
  ℕ, suc, ◌+◌, ◌≡◌, String, true, false, ◌&&◌, some, List, [], ◌∷◌, ◌++◌, str_eq, ◌==◌,
}
use rocket_toolkit.ProcessManager.Effect.{concurrency_error}
use rocket_toolkit.ProcessManager.Effect.Run.{execute, returned, threw}
use rocket_toolkit.ProcessManager.EventStore.Sql.{
  Row, SqlWorld, Database, append_event, rows_for, new_rows,
}
use rocket_toolkit.ProcessManager.EventStore.Sql.Index.{
  IsUniqueIndex, has_key, has_key_first, or_true, append_event-taken, append_event-free,
}

has_key_last :
    (table : List Row) (row : Row)
    → has_key row.stream_id row.stream_version (table ++ row ∷ []) ≡ true
has_key_last [] row = has_key_first row []
has_key_last (r ∷ table) row =
    or_true (str_eq r.stream_id row.stream_id && (r.stream_version == row.stream_version)) _
      (has_key_last table row)

module _ {C O X : Type 0} (db : Database C O X) (stream : String) (expected : ℕ) where
  -- the world behind an append of one event that succeeds
  abbrev pub appended : X → SqlWorld C O → SqlWorld C O
  appended x w = record w {
    table = w.table ++ rows_for db stream (x ∷ []) expected w;
    ids = suc w.ids;
  }

  appended-has_key :
      (x : X) (w : SqlWorld C O) → has_key stream (expected + 1) (appended x w).table ≡ true
  unfolding new_rows
  appended-has_key x w = has_key_last w.table _

  -- With a connection and the unique index, when two callers append one event each at the same version,
  -- which is not taken: the first append succeeds, and the second throws a `ConcurrencyError` and leaves
  -- the rows as they are.
  pub append_event-append_event :
      IsUniqueIndex db.refuses
      → (c : C) (w : SqlWorld C O) (x y : X) → w.pool ≡ some c
      → has_key stream (expected + 1) w.table ≡ false
      → (execute (append_event db stream (x ∷ []) expected) w ≡ (returned tt, appended x w))
        × (execute (append_event db stream (y ∷ []) expected) (appended x w) ≡ (
          threw (concurrency_error expected (expected + 1)),
          record (appended x w) { ids = suc (suc w.ids) },
        ))
  append_event-append_event index c w x y connected free = (
    append_event-free db index stream expected c w connected x free,
    append_event-taken db index stream expected c (appended x w) connected y (appended-has_key x w),
  )
