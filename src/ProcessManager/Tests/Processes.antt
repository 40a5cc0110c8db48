-- ===== src/ProcessManager/Tests/Processes.antt =====
-- Processes, process states, effects and results, at concrete values.
use rocket_toolkit.Prelude.{
  ℕ, true, zero, suc, ◌≡◌, refl, String, Option, none, some, List, [], ◌∷◌, ◌+◌, ◌↔◌, length,
}
use rocket_toolkit.ProcessManager.Result
use rocket_toolkit.ProcessManager.Result.{Result, ok, err}
use rocket_toolkit.ProcessManager.Effect.{Effect, normal, pure, chunk}
use rocket_toolkit.ProcessManager.Algebra.State.{ProcessState, succeeded, replay}
use rocket_toolkit.ProcessManager.Algebra.Process
use rocket_toolkit.ProcessManager.Algebra.Process.{
  Process, Generator, done, yield_process, do_process,
}
use rocket_toolkit.ProcessManager.Effect.Run.{run_chunk}
use rocket_toolkit.ProcessManager.Effect.Parallel.{all, pures}
use rocket_toolkit.ProcessManager.Effect.Parallel.Turns.{AllRemain, all-pures}
use rocket_toolkit.ProcessManager.Algebra.Process.Delivery.{replay-bind_succeeded}
use rocket_toolkit.ProcessManager.Algebra.Process.Both.{pair_states, replay-both}
use rocket_toolkit.ProcessManager.Runtime.{apply_history}
use rocket_toolkit.ProcessManager.Runtime.Replay.{history_of, Takes, apply_history-Takes}
use rocket_toolkit.ProcessManager.Tests.{W, waiting, sample}

-- the first event is ignored, the second one ends the process
apply_history-Takes_example :
    (end : ProcessState W ℕ ℕ (Unit {0})) × Takes (sample 7 5).1 (0 ∷ 3 ∷ []) end
    × (apply_history 7 5 sample (history_of (0 ∷ 3 ∷ [])) ≡ normal end)
apply_history-Takes_example = apply_history-Takes 7 5 sample (0 ∷ 3 ∷ [])

-- fails on an event over 1
abbrev refuse : ℕ → Option (Result ℕ String)
refuse zero = none
refuse (suc zero) = some (ok 1)
refuse (suc (suc n)) = some (err "too many")

abbrev refusing : Process W ℕ ℕ ℕ ℕ
refusing = Process.wait_for_event refuse

replay-both_example :
    replay (Process.both waiting refusing (λ a b. a + b) 7 5).1 (0 ∷ 1 ∷ [])
    ≡ pair_states
        (λ a b. a + b)
        (replay (waiting 7 5).1 (0 ∷ 1 ∷ []))
        (replay (refusing 7 5).1 (0 ∷ 1 ∷ []))
unfolding Process.wait_for_event replay Result.match
replay-both_example = replay-both waiting refusing (λ a b. a + b) 7 5 (0 ∷ 1 ∷ []) refl refl

replay-bind_succeeded_example :
    replay (Process.bind waiting (λ n. refusing) 7 5).1 (0 ∷ 3 ∷ 1 ∷ []) ≡ succeeded 5 1
unfolding Process.wait_for_event replay Result.match
replay-bind_succeeded_example =
    replay-bind_succeeded waiting (λ n. refusing) 7 5 (0 ∷ []) 3 (1 ∷ []) 5 2 refl refl

-- the second effect counts, and gives what it found
abbrev side_by_side : List (Effect ℕ ℕ)
side_by_side = pure 3 ∷ chunk (λ _. true) suc (λ w. pure w) ∷ []

all-pures_example :
    (◌≡◌ {A = List (Effect ℕ ℕ) × ℕ}
      ((all side_by_side (1 ∷ []) 7).branches, (all side_by_side (1 ∷ []) 7).world)
      (pures (3 ∷ 7 ∷ []), 8))
    × AllRemain side_by_side (all side_by_side (1 ∷ []) 7).branches
    × (((all side_by_side (1 ∷ []) 7).settled ≡ some (normal (3 ∷ 7 ∷ [])))
        ↔ ((all side_by_side (1 ∷ []) 7).branches ≡ pures (3 ∷ 7 ∷ [])))
    × (length (all side_by_side (1 ∷ []) 7).branches ≡ length side_by_side)
unfolding run_chunk
all-pures_example = all-pures side_by_side (1 ∷ []) 7 (3 ∷ 7 ∷ [])
