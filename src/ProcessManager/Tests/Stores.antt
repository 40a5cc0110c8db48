-- ===== src/ProcessManager/Tests/Stores.antt =====
-- Appends to a concrete store, and messages sent to concrete handlers.
use rocket_toolkit.Prelude.{◌≡◌, refl, [], ◌∷◌}
use rocket_toolkit.ProcessManager.Effect.{concurrency_error}
use rocket_toolkit.ProcessManager.Effect.Run.{threw, execute}
use rocket_toolkit.ProcessManager.EventStore.Memory.{append_event, append_found}
use rocket_toolkit.ProcessManager.EventStore.Memory.Laws.{execute-append_event}
use rocket_toolkit.ProcessManager.Runtime.{event_received}
use rocket_toolkit.ProcessManager.Runtime.Replay.{recorded}
use rocket_toolkit.ProcessManager.Tests.{W, one_stream}

abbrev two_events : W
two_events = one_stream (recorded (3 ∷ 4 ∷ []))

execute-append_event_example :
    execute (append_event "orders-7" (event_received 5 ∷ []) 2) two_events
    ≡ (threw (concurrency_error 2 3), two_events)
unfolding append_found
execute-append_event_example =
    execute-append_event "orders-7" (event_received 5 ∷ []) 2 two_events refl
