-- ===== src/ProcessManager/Runtime.antt =====
-- packages/process-manager/src/process-runtime.ts: processes whose history is kept in an event store.
pub mod Replay
pub mod Sequential
pub mod Handling
pub mod Accepted
pub mod Histories
pub mod Appends
pub mod Concurrent
pub mod Deletion
pub mod Journal
use rocket_toolkit.Prelude.{
  ℕ, zero, suc, String, Bool, true, false, Option, none, some, List, [], ◌∷◌, length, if◌then◌else◌,
}
use rocket_toolkit.ProcessManager.Effect
use rocket_toolkit.ProcessManager.Effect.{
  Effect, Error, concurrency_error, error, Completion, normal, abrupt, pure, throw, chunk,
}
use rocket_toolkit.ProcessManager.EventStore.{EventStore}
use rocket_toolkit.ProcessManager.Algebra.State.{
  ProcessState, Reply, in_progress, succeeded, failed, null, result, settle,
}
use rocket_toolkit.ProcessManager.Algebra.Process.{Process}

pub data RuntimeEvent (E : Type 0) : Type 0 where
  process_started : RuntimeEvent E
  event_received : E → RuntimeEvent E

module _ {W S E : Type 0} where
  -- the `reduce` of `applyHistory`, from the second event on
  unfoldable pub apply_events :
      ProcessState W S E (Unit {0})
      → List (RuntimeEvent E)
      → Completion (ProcessState W S E (Unit {0}))
  apply_events state [] = normal state
  apply_events (succeeded s v) (event ∷ events) = apply_events (succeeded s v) events
  apply_events (failed s e) (event ∷ events) = apply_events (failed s e) events
  apply_events (in_progress s next) (process_started ∷ events) =
      abrupt (error "Unexpected event type: ProcessStarted")
  apply_events (in_progress s next) (event_received event ∷ events) =
      apply_events (settle (in_progress s next) (next event)) events

module _ {W I S E : Type 0} where
  unfoldable pub apply_history :
      I
      → S
      → Process W I S E (Unit {0})
      → List (RuntimeEvent E)
      → Completion (ProcessState W S E (Unit {0}))
  unfolding apply_events
  apply_history instance_id initial_state proc [] =
      abrupt (error "Invalid history: must start with ProcessStarted")
  apply_history instance_id initial_state proc (event_received event ∷ history) =
      abrupt (error "Invalid history: must start with ProcessStarted")
  apply_history instance_id initial_state proc (process_started ∷ history) =
      apply_events (proc instance_id initial_state).1 history

-- the handler of `catchError` in `handleEvent`
abbrev pub retry : {W : Type 0} → Effect W (Unit {0}) → Error → Effect W (Unit {0})
retry again (concurrency_error expected actual) = again
retry again (error message) = throw (error message)

module _ {W S E : Type 0} (event_store : EventStore W (RuntimeEvent E)) where
  -- the answer to the event, when it was not ignored: first the event is saved, then the effect runs
  abbrev pub save_then_run : String → E → ℕ → Reply W S E (Unit {0}) → Effect W (Unit {0})
  save_then_run stream event version null = Effect.unit
  save_then_run stream event version (result effect next_state) =
      Effect.pipe_two (event_store.append_event stream (event_received event ∷ []) version)
        (λ _. effect)

  abbrev pub on_state :
      String → E → ℕ → Completion (ProcessState W S E (Unit {0})) → Effect W (Unit {0})
  on_state stream event version (abrupt e) = throw e
  on_state stream event version (normal (in_progress s next)) =
      save_then_run stream event version (next event)
  on_state stream event version (normal (succeeded s v)) = Effect.unit
  on_state stream event version (normal (failed s e)) = Effect.unit

module _ {W I S E : Type 0} (event_store : EventStore W (RuntimeEvent E)) where
  unfoldable pub apply_new_event :
      I → S → E → String → Process W I S E (Unit {0}) → Effect W (Unit {0})
  unfolding apply_history
  apply_new_event instance_id initial_state event stream proc =
      Effect.pipe_two (event_store.load_events stream none) (λ history.
        on_state event_store stream event (length history)
          (apply_history instance_id initial_state proc history))

-- `createRuntime`; `empty_state` is `{} as TState`.
module _ {W I S E : Type 0} (event_store : EventStore W (RuntimeEvent E)) (empty_state : S) where
  unfoldable pub start_process : I → String → Process W I S E (Unit {0}) → Effect W (Unit {0})
  start_process instance_id stream proc =
      Effect.pipe_two (event_store.append_event stream (process_started ∷ []) 0)
        (λ _. (proc instance_id empty_state).0)

  abbrev pub attempt : I → E → String → Process W I S E (Unit {0}) → Effect W (Unit {0})
  attempt instance_id event stream proc =
      Effect.pipe_three (event_store.stream_exists stream)
        (λ exists. if exists then Effect.unit else start_process instance_id stream proc)
        (λ _. apply_new_event event_store instance_id empty_state event stream proc)

  -- Every conflict makes one more attempt. Past the last attempt that is counted the effect never
  -- settles, as the source's own loop does that meets a conflict each time.
  unfoldable pub handle_event :
      ℕ → I → E → String → Process W I S E (Unit {0}) → Effect W (Unit {0})
  unfolding start_process apply_new_event
  handle_event zero instance_id event stream proc = chunk (λ _. false) (λ w. w) (λ _. Effect.unit)
  handle_event (suc attempts) instance_id event stream proc =
      Effect.catch_error (attempt instance_id event stream proc)
        (retry (handle_event attempts instance_id event stream proc))

  abbrev pub state_after :
      I
      → Process W I S E (Unit {0})
      → List (RuntimeEvent E)
      → Completion (ProcessState W S E (Unit {0}))
  state_after instance_id proc [] = normal (proc instance_id empty_state).1
  state_after instance_id proc (event ∷ history) =
      apply_history instance_id empty_state proc (event ∷ history)

  unfoldable pub get_process_state :
      I → String → Process W I S E (Unit {0}) → Effect W (ProcessState W S E (Unit {0}))
  get_process_state instance_id stream proc =
      Effect.pipe_two (event_store.load_events stream none)
        (λ history. Effect.of_completion (state_after instance_id proc history))

module _ {W E : Type 0} (event_store : EventStore W (RuntimeEvent E)) where
  unfoldable pub clear_process_state : String → Effect W (Unit {0})
  clear_process_state stream = event_store.delete_stream stream
