-- ===== src/ProcessManager/Tests/Tasks.antt =====
-- Two calls at once.
use rocket_toolkit.Prelude.{ℕ, zero, suc, refl, String, [], ◌∷◌}
use rocket_toolkit.ProcessManager.Effect
use rocket_toolkit.ProcessManager.Effect.{Effect}
use rocket_toolkit.ProcessManager.Effect.Run.{run_chunk}
use rocket_toolkit.ProcessManager.Effect.Pool.{System, Reach, here, later, begin, take}
use rocket_toolkit.ProcessManager.Runtime.{handle_event}
use rocket_toolkit.ProcessManager.EventStore.Memory.{in_memory}
use rocket_toolkit.ProcessManager.Algebra.Process
use rocket_toolkit.ProcessManager.Algebra.Process.{wait_reply}
use rocket_toolkit.ProcessManager.Runtime.Histories.{AllValid, GrowsFrom, GrowsFrom-refl}
use rocket_toolkit.ProcessManager.Runtime.Concurrent.{
  Harmless, IsHarmless, HarmlessState, HarmlessReply, IsTask, handling, start, Reach-AllValid,
}
use rocket_toolkit.ProcessManager.Tests.{W, sample, answer, bump, no_stream}

harmless : (stream : String) → IsHarmless {O = ℕ} 5 (λ _. 7) (λ _. sample) stream
unfolding HarmlessState Process.bind_result Process.bind Process.wait_for_event Process.lift_effect
    Effect.bind Effect.from_sync
harmless stream = record { initial = λ w. bump_keeps w; states = states }
  where
    bump_keeps : Harmless {I = ℕ} {S = ℕ} 5 (λ _. 7) (λ _. sample) bump
    bump_keeps w w' valid grown r = (valid, GrowsFrom-refl w'.memory.store, tt)

    states :
        (event : ℕ)
        → HarmlessReply {I = ℕ} {S = ℕ} 5
            (λ _. 7)
            (λ _. sample)
            (Process.bind_reply {I = ℕ}
              (λ n. Process.lift_effect bump)
              7
              (wait_reply 5 (answer event)))
    states zero = tt
    states (suc n) = (bump_keeps, tt)

abbrev call : ℕ → Effect W (Unit {0})
call event = handle_event in_memory 5 2 7 event "orders-7" sample

abbrev two_calls : System W
two_calls = record { world = no_stream; tasks = call 4 ∷ call 3 ∷ [] }

abbrev one_chunk : System W
one_chunk = record { world = no_stream; tasks = (run_chunk (call 4) no_stream).0 ∷ call 3 ∷ [] }

reached :
    Reach
      (IsTask {O = ℕ} 5 (λ _. 7) (λ _. sample))
      (record { world = no_stream; tasks = [] })
      one_chunk
unfolding handle_event in_memory Effect.bind Effect.catch_error Effect.from_sync run_chunk
reached =
    later {t = two_calls}
      (later {t = record { world = no_stream; tasks = call 3 ∷ [] }}
        (later here (begin (call 3) (handling "orders-7" 3 2 refl) refl))
        (begin (call 4) (handling "orders-7" 4 2 refl) refl))
      (take [] _ _ _ _ refl refl refl)

-- both calls have begun, and one of them has looked for the stream
Reach-AllValid_example :
    AllValid (start {O = ℕ} 5 (λ _. 7) (λ _. sample)) one_chunk.world.memory.store
    × GrowsFrom no_stream.memory.store one_chunk.world.memory.store
Reach-AllValid_example = Reach-AllValid 5 (λ _. 7) (λ _. sample) harmless (λ _. tt) reached
