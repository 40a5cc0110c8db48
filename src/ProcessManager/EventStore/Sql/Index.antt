-- ===== src/ProcessManager/EventStore/Sql/Index.antt =====
-- The unique index on the stream and the version of a row, which `appendEvent` counts on.
use rocket_toolkit.Prelude.{
  ℕ, suc, ◌+◌, ◌≡◌, refl, ap, ◌∙◌, String, Bool, true, false, ◌&&◌, ◌||◌, Option, none, some, List,
  [], ◌∷◌, ◌++◌, str_eq, eq_refl, ◌==◌, if◌then◌else◌, arith,
}
use rocket_toolkit.ProcessManager.Effect.{concurrency_error, error}
use rocket_toolkit.ProcessManager.Effect.Run.{execute, returned, threw, outcome}
use rocket_toolkit.ProcessManager.EventStore.Sql.{
  Row, RequestError, SqlWorld, Database, append_event, after_insert, append_result, inserted,
  ids_after, rows_for, new_rows, is_unique_violation,
}
use rocket_toolkit.ProcessManager.EventStore.Sql.Connections.{execute-append_event}

abbrev pub has_key : String → ℕ → List Row → Bool
has_key stream version [] = false
has_key stream version (row ∷ rows) =
    (str_eq row.stream_id stream && (row.stream_version == version)) || has_key stream version rows

-- a new row has the key of a row that is there, or of another new one
abbrev pub has_duplicate : List Row → List Row → Bool
has_duplicate table [] = false
has_duplicate table (row ∷ rows) =
    has_key row.stream_id row.stream_version table
    || (has_key row.stream_id row.stream_version rows || has_duplicate table rows)

-- The server keeps the index, and has no other reason to refuse rows.
pub record IsUniqueIndex (refuses : List Row → List Row → Option RequestError) : Type 0 where
  pub accepts :
      (table rows : List Row) → has_duplicate table rows ≡ false → refuses table rows ≡ none
  pub rejects :
      (table rows : List Row)
      → has_duplicate table rows ≡ true
      → (e : RequestError) × (refuses table rows ≡ some e) × (is_unique_violation e.number ≡ true)

pub or_true : (a b : Bool) → b ≡ true → a || b ≡ true
or_true true b e = refl
or_true false b e = e

or_false : (a : Bool) → a || false ≡ a
or_false true = refl
or_false false = refl

same_number : (n : ℕ) → (n == n) ≡ true
same_number n = ground arith

pub has_key_first :
    (row : Row) (rows : List Row) → has_key row.stream_id row.stream_version (row ∷ rows) ≡ true
has_key_first row rows = rw (eq_refl row.stream_id, same_number row.stream_version) refl

module _ {C O X : Type 0} (db : Database C O X) (index : IsUniqueIndex db.refuses) (stream : String)
    (expected : ℕ) (c : C) (w : SqlWorld C O) (connected : w.pool ≡ some c) where
  many_rows :
      (x y : X) (events : List X)
      → has_duplicate w.table (rows_for db stream (x ∷ y ∷ events) expected w) ≡ true
  unfolding new_rows
  many_rows x y events =
      or_true (has_key stream (expected + 1) w.table) _
        (rw (eq_refl stream, same_number (expected + 1)) refl)

  refused :
      (events : List X)
      → has_duplicate w.table (rows_for db stream events expected w) ≡ true
      → execute (append_event db stream events expected) w ≡ (
        threw (concurrency_error expected (expected + 1)),
        record w { ids = ids_after w.ids events },
      )
  unfolding after_insert
  refused events duplicate =
      let (e, refuses, violation) = index.rejects _ _ duplicate in
      execute-append_event db stream c w connected events expected
      ∙ ap
          (λ a. (
            outcome (append_result expected a),
            record w {
              table = inserted a w.table (rows_for db stream events expected w);
              ids = ids_after w.ids events;
            },
          ))
          refuses
      ∙ ap
          (λ b. (
            threw (if b then concurrency_error expected (expected + 1) else error e.message),
            record w { ids = ids_after w.ids events },
          ))
          violation

  -- With a connection and the unique index, an append of two or more events at once throws a
  -- `ConcurrencyError` whatever the stream holds, since all of them get the same version; no row is
  -- inserted.
  pub append_event-many :
      (x y : X) (events : List X)
      → execute (append_event db stream (x ∷ y ∷ events) expected) w ≡ (
        threw (concurrency_error expected (expected + 1)),
        record w { ids = ids_after w.ids (x ∷ y ∷ events) },
      )
  append_event-many x y events = refused (x ∷ y ∷ events) (many_rows x y events)

  has_duplicate_one :
      (x : X)
      → has_duplicate w.table (rows_for db stream (x ∷ []) expected w)
        ≡ has_key stream (expected + 1) w.table
  unfolding new_rows
  has_duplicate_one x = or_false (has_key stream (expected + 1) w.table)

  -- one event, whose version is taken
  pub append_event-taken :
      (x : X)
      → has_key stream (expected + 1) w.table ≡ true
      → execute (append_event db stream (x ∷ []) expected) w
        ≡ (threw (concurrency_error expected (expected + 1)), record w { ids = suc w.ids })
  append_event-taken x taken = refused (x ∷ []) (has_duplicate_one x ∙ taken)

  -- one event, whose version is not taken
  pub append_event-free :
      (x : X)
      → has_key stream (expected + 1) w.table ≡ false
      → execute (append_event db stream (x ∷ []) expected) w ≡ (
        returned tt,
        record w { table = w.table ++ rows_for db stream (x ∷ []) expected w; ids = suc w.ids },
      )
  unfolding after_insert
  append_event-free x free =
      execute-append_event db stream c w connected (x ∷ []) expected
      ∙ ap
          (λ a. (
            outcome (append_result expected a),
            record w {
              table = inserted a w.table (rows_for db stream (x ∷ []) expected w);
              ids = suc w.ids;
            },
          ))
          (index.accepts _ _ (has_duplicate_one x ∙ free))
