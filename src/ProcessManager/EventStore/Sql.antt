-- ===== src/ProcessManager/EventStore/Sql.antt =====
-- packages/process-manager/src/event-store/db.ts, and the `ConnectionManager` of
-- packages/process-manager/src/infra/db-connection.ts. The table is the list of its rows, in the
-- order in which they were inserted; what the server makes of an INSERT is a parameter, since its
-- indexes are not part of the repository.
pub mod Connections
pub mod Index
pub mod Optimistic
pub mod Numbered
pub mod Mirrored
pub mod Refines
pub mod Compare
use rocket_toolkit.Prelude.{
  ℕ, suc, ◌+◌, String, Bool, true, false, ◌||◌, Option, none, some, List, [], ◌∷◌, ◌++◌, str_eq,
  ◌==◌, ltb, map, if◌then◌else◌,
}
use rocket_toolkit.ProcessManager.Effect
use rocket_toolkit.ProcessManager.Effect.{
  Effect, Error, concurrency_error, error, Completion, normal, abrupt, of_completion, chunk, pure,
  throw, from_sync,
}
use rocket_toolkit.ProcessManager.EventStore.{EventStore}

pub record Row : Type 0 where
  pub event_id : String
  pub event_data : String
  pub event_type : String
  pub correlation_id : Option String
  pub stream_id : String
  pub stream_version : ℕ

pub record RequestError : Type 0 where
  pub number : ℕ
  pub message : String

-- `C` is a connection pool; `ids` counts the calls of `uuidv4`.
pub record SqlWorld (C O : Type 0) : Type 0 where
  pub pool : Option C
  pub table : List Row
  pub ids : ℕ
  pub outside : O

-- `ConnectionManager`; `dial` is `sql.connect` with its configuration, and `hang_up` closes a pool.
module _ {C O : Type 0} (dial : Effect (SqlWorld C O) C) where
  abbrev pub pool_or_dial : Option C → Effect (SqlWorld C O) C
  pool_or_dial (some c) = pure c
  pool_or_dial none =
      Effect.bind dial (λ c. chunk (λ _. true) (λ w. record w { pool = some c }) (λ _. pure c))

  unfoldable pub get_connection : Effect (SqlWorld C O) C
  get_connection = chunk (λ _. true) (λ w. w) (λ w. pool_or_dial w.pool)

module _ {C O : Type 0} (hang_up : C → Effect (SqlWorld C O) (Unit {0})) where
  abbrev pub close_pool : Option C → Effect (SqlWorld C O) (Unit {0})
  close_pool none = Effect.unit
  close_pool (some c) =
      Effect.bind (hang_up c)
        (λ _. chunk (λ _. true) (λ w. record w { pool = none }) (λ _. Effect.unit))

  unfoldable pub close : Effect (SqlWorld C O) (Unit {0})
  close = chunk (λ _. true) (λ w. w) (λ w. close_pool w.pool)

-- `WHERE StreamId = @stream`
abbrev pub rows_of : String → List Row → List Row
rows_of stream [] = []
rows_of stream (row ∷ rows) =
    let rest = rows_of stream rows in if str_eq row.stream_id stream then row ∷ rest else rest

-- what `DELETE` leaves
abbrev pub rows_but : String → List Row → List Row
rows_but stream [] = []
rows_but stream (row ∷ rows) =
    let rest = rows_but stream rows in if str_eq row.stream_id stream then rest else row ∷ rest

-- `ORDER BY StreamVersion`
abbrev pub insert_by_version : Row → List Row → List Row
insert_by_version row [] = row ∷ []
insert_by_version row (first ∷ rows) =
    let rest = insert_by_version row rows in
    if ltb first.stream_version row.stream_version then first ∷ rest else row ∷ first ∷ rows

abbrev pub by_version : List Row → List Row
by_version [] = []
by_version (row ∷ rows) = insert_by_version row (by_version rows)

abbrev pub is_empty : List Row → Bool
is_empty [] = true
is_empty (row ∷ rows) = false

abbrev pub is_unique_violation : ℕ → Bool
is_unique_violation number = (number == 2601) || (number == 2627)

-- the `catch` block of `appendEvent`; the error carries the version expected and the one that the
-- message says is there
abbrev pub append_error : ℕ → RequestError → Error
append_error expected_version e =
    if is_unique_violation e.number
    then concurrency_error expected_version (expected_version + 1)
    else error e.message

abbrev pub append_result : ℕ → Option RequestError → Completion (Unit {0})
append_result expected_version none = normal tt
append_result expected_version (some e) = abrupt (append_error expected_version e)

-- an INSERT puts in all its rows or none
abbrev pub inserted : Option RequestError → List Row → List Row → List Row
inserted none table rows = table ++ rows
inserted (some e) table rows = table

module _ {X : Type 0} (parse : String → Completion X) where
  abbrev pub parsed_next : Completion X → Completion (List X) → Completion (List X)
  parsed_next (abrupt e) rest = abrupt e
  parsed_next (normal x) (abrupt e) = abrupt e
  parsed_next (normal x) (normal xs) = normal (x ∷ xs)

  abbrev pub parsed_rows : List Row → Completion (List X)
  parsed_rows [] = normal []
  parsed_rows (row ∷ rows) = parsed_next (parse row.event_data) (parsed_rows rows)

-- What the store calls. `stringify` and `parse` are those of JSON, `type_of` is `event.event?.type`,
-- where none is a falsy value, `refuses` is the answer of the server to an INSERT, by the rows that
-- are there and the new ones, and `from_version_rows` is its answer to the query with
-- `AND Version >= @fromVersion`.
pub record Database (C O X : Type 0) : Type 0 where
  pub dial : Effect (SqlWorld C O) C
  pub stringify : X → String
  pub parse : String → Completion X
  pub type_of : X → Option String
  pub uuid : ℕ → String
  pub refuses : List Row → List Row → Option RequestError
  pub from_version_rows : String → ℕ → List Row → Completion (List Row)

abbrev pub or_unknown : Option String → String
or_unknown none = "Unknown"
or_unknown (some t) = t

abbrev pub ids_after {ℓ} : {X : Type ℓ} → ℕ → List X → ℕ
ids_after ids [] = ids
ids_after ids (event ∷ events) = ids_after (suc ids) events

module _ {C O X : Type 0} (db : Database C O X) where
  -- the rows of the parameter `@events`, with the stream and the version that the query adds: every
  -- one of them gets the same version
  unfoldable pub new_rows : String → ℕ → ℕ → List X → List Row
  new_rows stream version ids [] = []
  new_rows stream version ids (event ∷ events) =
      record {
        event_id = db.uuid ids;
        event_data = db.stringify event;
        event_type = or_unknown (db.type_of event);
        correlation_id = none;
        stream_id = stream;
        stream_version = version;
      }
      ∷ new_rows stream version (suc ids) events

  abbrev pub rows_for : String → List X → ℕ → SqlWorld C O → List Row
  rows_for stream events expected_version w = new_rows stream (expected_version + 1) w.ids events

  -- the query of `appendEvent`
  abbrev pub answer : String → List X → ℕ → SqlWorld C O → Option RequestError
  answer stream events expected_version w =
      db.refuses w.table (rows_for stream events expected_version w)

  unfoldable pub after_insert : String → List X → ℕ → SqlWorld C O → SqlWorld C O
  unfolding new_rows
  after_insert stream events expected_version w = record w {
    table =
        inserted (answer stream events expected_version w) w.table
          (rows_for stream events expected_version w);
    ids = ids_after w.ids events;
  }

  unfoldable pub append_event : String → List X → ℕ → Effect (SqlWorld C O) (Unit {0})
  unfolding get_connection after_insert new_rows from_sync
  append_event stream events expected_version = Effect.bind (get_connection db.dial) (λ _.
      from_sync (λ w. append_result expected_version (answer stream events expected_version w))
        (after_insert stream events expected_version))

  abbrev pub selected : Option ℕ → String → List Row → Completion (List X)
  selected none stream table = parsed_rows db.parse (by_version (rows_of stream table))
  selected (some version) stream table = elim (db.from_version_rows stream version table) [
    | abrupt e ↦ abrupt e
    | normal rows ↦ parsed_rows db.parse rows
  ]

  unfoldable pub load_events : String → Option ℕ → Effect (SqlWorld C O) (List X)
  unfolding get_connection from_sync
  load_events stream from_version =
      Effect.bind (get_connection db.dial)
        (λ _. from_sync (λ w. selected from_version stream w.table) (λ w. w))

  unfoldable pub stream_exists : String → Effect (SqlWorld C O) Bool
  unfolding get_connection from_sync
  stream_exists stream = Effect.bind (get_connection db.dial) (λ _.
      from_sync (λ w. normal (if is_empty (rows_of stream w.table) then false else true)) (λ w. w))

  unfoldable pub delete_stream : String → Effect (SqlWorld C O) (Unit {0})
  unfolding get_connection from_sync
  delete_stream stream =
      Effect.bind (get_connection db.dial)
        (λ _. from_sync (λ _. normal tt) (λ w. record w { table = rows_but stream w.table }))

  unfoldable pub mssql : EventStore (SqlWorld C O) X
  unfolding append_event load_events stream_exists delete_stream
  mssql = record {
    append_event = append_event;
    load_events = load_events;
    stream_exists = stream_exists;
    delete_stream = delete_stream;
  }
