-- ===== src/ProcessManager/Tests/Calls.antt =====
-- Calls of the runtime on concrete streams.
use rocket_toolkit.Prelude.{ℕ, zero, suc, ◌≡◌, refl, [], ◌∷◌}
use rocket_toolkit.ProcessManager.Effect
use rocket_toolkit.ProcessManager.Effect.{Effect, Error, error}
use rocket_toolkit.ProcessManager.Effect.Run.{returned, threw, execute}
use rocket_toolkit.ProcessManager.EventStore.Memory.{in_memory, save, set_memory}
use rocket_toolkit.ProcessManager.Algebra.State.{Reply, in_progress, succeeded, null, replay}
use rocket_toolkit.ProcessManager.Algebra.Process
use rocket_toolkit.ProcessManager.Algebra.Process.{bind_reply}
use rocket_toolkit.ProcessManager.Runtime.{
  event_received, handle_event, get_process_state, clear_process_state, retry,
}
use rocket_toolkit.ProcessManager.Runtime.Replay.{recorded}
use rocket_toolkit.ProcessManager.Runtime.Sequential.{HasHistory, reached, saved}
use rocket_toolkit.ProcessManager.Runtime.Handling.{
  handle_event-accepted, handle_event-ignored, handle_event-first,
}
use rocket_toolkit.ProcessManager.Runtime.Journal.{
  handle_all, journal, QuietState, handle_all-journal, get_process_state-handle_all,
}
use rocket_toolkit.ProcessManager.Runtime.Deletion.{
  after_load, cleared, handle_event-invalid, handle_event-deleted,
}
use rocket_toolkit.ProcessManager.Tests.{W, sample, one_stream, no_stream, bump}

abbrev started : W
started = one_stream (recorded [])

abbrev next : ℕ → Reply W ℕ ℕ (Unit {0})
unfolding Process.bind_result Process.bind Process.wait_for_event Process.lift_effect
next = elim (sample 7 5).1 [ in_progress s n ↦ n | _ ↦ λ _. null ]

handle_event-accepted_example :
    execute (handle_event in_memory 5 1 7 3 "orders-7" sample) started
    ≡ execute
        (Effect.catch_error bump (retry (handle_event in_memory 5 0 7 3 "orders-7" sample)))
        (saved 5 7 "orders-7" sample (3 ∷ []) started)
unfolding Process.bind_result Process.bind Process.wait_for_event Process.lift_effect replay
    Effect.bind
handle_event-accepted_example =
    handle_event-accepted 5 7 "orders-7" sample 0 3 [] started 5 next bump (succeeded 5 tt) refl
      refl refl refl

handle_event-ignored_example :
    execute (handle_event in_memory 5 1 7 0 "orders-7" sample) started ≡ (returned tt, started)
unfolding Process.bind_result Process.bind Process.wait_for_event Process.lift_effect replay
handle_event-ignored_example = handle_event-ignored 5 7 "orders-7" sample 0 0 [] started refl refl

handle_event-first_example :
    execute (handle_event in_memory 5 1 7 3 "orders-7" sample) no_stream
    ≡ execute
        (handle_event in_memory 5 1 7 3 "orders-7" sample)
        (record (saved 5 7 "orders-7" sample [] no_stream) { outside = 1 })
unfolding Process.bind_result Process.bind Process.wait_for_event Process.lift_effect execute
    Effect.bind Effect.from_sync save
handle_event-first_example =
    handle_event-first 5 7 "orders-7" sample 0 3 (recorded []) no_stream
      (record (saved 5 7 "orders-7" sample [] no_stream) { outside = 1 }) refl refl refl refl

abbrev quiet : QuietState (reached 5 7 "orders-7" sample [])
unfolding QuietState Process.bind_result Process.bind Process.wait_for_event Process.lift_effect
    replay execute Effect.bind Effect.from_sync
quiet zero = tt
quiet (suc n) = (λ w. (suc w.outside, refl), tt)

handle_all-journal_example :
    HasHistory "orders-7" (3 ∷ []) (handle_all 5 7 "orders-7" sample (0 ∷ 3 ∷ 4 ∷ []) started)
unfolding journal Process.bind_result Process.bind Process.wait_for_event Process.lift_effect replay
    Effect.bind
handle_all-journal_example =
    handle_all-journal 5 7 "orders-7" sample [] (0 ∷ 3 ∷ 4 ∷ []) started refl refl quiet

get_process_state-handle_all_example :
    execute
      (get_process_state in_memory 5 7 "orders-7" sample)
      (handle_all 5 7 "orders-7" sample (0 ∷ 3 ∷ 4 ∷ []) started)
    ≡ (returned (succeeded 5 tt), handle_all 5 7 "orders-7" sample (0 ∷ 3 ∷ 4 ∷ []) started)
unfolding Process.bind_result Process.bind Process.wait_for_event Process.lift_effect replay
    Effect.bind
get_process_state-handle_all_example =
    get_process_state-handle_all 5 7 "orders-7" sample [] (0 ∷ 3 ∷ 4 ∷ []) started refl refl quiet

handle_event-invalid_example :
    execute
      (handle_event in_memory 5 1 7 3 "orders-7" sample)
      (one_stream (record { events = event_received 3 ∷ []; version = 1 }))
    ≡ (
      threw (error "Invalid history: must start with ProcessStarted"),
      one_stream (record { events = event_received 3 ∷ []; version = 1 }),
    )
handle_event-invalid_example =
    handle_event-invalid 5 7 "orders-7" sample 0 3 3 [] 1
      (one_stream (record { events = event_received 3 ∷ []; version = 1 })) refl

handle_event-deleted_example :
    (let (rest, seen) = after_load 5 7 "orders-7" sample 1 3 started in
      let deleted = (execute (clear_process_state in_memory "orders-7") seen).1 in
      execute rest deleted)
    ≡ execute (Effect.catch_error bump (retry (handle_event in_memory 5 0 7 3 "orders-7" sample))) (
        set_memory
          (save "orders-7"
            (record { events = event_received 3 ∷ []; version = 1 })
            (cleared 5 7 "orders-7" sample started).memory)
          (cleared 5 7 "orders-7" sample started))
unfolding Process.bind_result Process.bind Process.wait_for_event Process.lift_effect replay
    Effect.bind
handle_event-deleted_example =
    handle_event-deleted 5 7 "orders-7" sample 0 3 [] started 5 next bump (succeeded 5 tt) refl refl
      refl refl
