-- ===== src/ProcessManager/EventStore/Sql/Connections.antt =====
-- The connection pool, and what each call of the store does once there is one.
use rocket_toolkit.Prelude.{
  ℕ, ◌≡◌, refl, ap, ◌∙◌, String, true, false, none, some, List, if◌then◌else◌,
}
use rocket_toolkit.ProcessManager.Effect.{Effect, normal, chunk, pure}
use rocket_toolkit.ProcessManager.Effect.Run.{
  execute, returned, outcome, execute-bind_returned, execute-from_sync,
}
use rocket_toolkit.ProcessManager.EventStore.Sql.{
  Database, SqlWorld, get_connection, pool_or_dial, append_event, load_events, stream_exists,
  delete_stream, rows_of, rows_but, is_empty, selected, append_result, answer, after_insert,
}

module _ {C O : Type 0} (dial : Effect (SqlWorld C O) C) where
  -- With a pool, nothing is dialled.
  pub get_connection_again :
      (c : C) (w : SqlWorld C O)
      → w.pool ≡ some c
      → execute (get_connection dial) w ≡ (returned c, w)
  unfolding get_connection execute
  get_connection_again c w e = rw (e, execute) refl

  -- Without one, the pool that is dialled is kept: the next call gives the same one, and changes
  -- nothing.
  pub get_connection-get_connection :
      (c : C) (w v : SqlWorld C O)
      → w.pool ≡ none
      → execute dial w ≡ (returned c, v)
      → let kept = record v { pool = some c } in
        (execute (get_connection dial) w ≡ (returned c, kept))
        × (execute (get_connection dial) kept ≡ (returned c, kept))
  unfolding get_connection execute
  get_connection-get_connection c w v e d = (
    ap (λ pool. execute (pool_or_dial dial pool) w) e
        ∙ execute-bind_returned dial
            (λ c. chunk (λ _. true) (λ w. record w { pool = some c }) (λ _. pure c)) w v c d,
    refl,
  )

module _ {C O X : Type 0} (db : Database C O X) (stream : String) (c : C) (w : SqlWorld C O)
    (connected : w.pool ≡ some c) where
  pub execute-append_event :
      (events : List X) (expected : ℕ)
      → execute (append_event db stream events expected) w ≡ (
        outcome (append_result expected (answer db stream events expected w)),
        after_insert db stream events expected w,
      )
  unfolding append_event
  execute-append_event events expected =
      execute-bind_returned (get_connection db.dial) _ w w c
        (get_connection_again db.dial c w connected)
      ∙ execute-from_sync _ _ w

  pub execute-load_events :
      execute (load_events db stream none) w ≡ (outcome (selected db none stream w.table), w)
  unfolding load_events
  execute-load_events =
      execute-bind_returned (get_connection db.dial) _ w w c
        (get_connection_again db.dial c w connected)
      ∙ execute-from_sync _ _ w

  pub execute-stream_exists :
      execute (stream_exists db stream) w
      ≡ (returned (if is_empty (rows_of stream w.table) then false else true), w)
  unfolding stream_exists
  execute-stream_exists =
      execute-bind_returned (get_connection db.dial) _ w w c
        (get_connection_again db.dial c w connected)
      ∙ execute-from_sync (λ w. normal (if is_empty (rows_of stream w.table) then false else true))
          _ w

  pub execute-delete_stream :
      execute (delete_stream db stream) w
      ≡ (returned tt, record w { table = rows_but stream w.table })
  unfolding delete_stream
  execute-delete_stream =
      execute-bind_returned (get_connection db.dial) _ w w c
        (get_connection_again db.dial c w connected)
      ∙ execute-from_sync (λ _. normal tt) _ w
