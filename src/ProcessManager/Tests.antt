-- ===== src/ProcessManager/Tests.antt =====
-- The process, the worlds and the effects that the tests of the process manager share.
pub mod Processes
pub mod Stores
pub mod Databases
pub mod Calls
pub mod Tasks
use rocket_toolkit.Prelude.{
  ℕ, zero, suc, String, Bool, false, Option, none, some, List, [], ◌∷◌, str_eq, if◌then◌else◌,
}
use rocket_toolkit.ProcessManager.Result.{Result, ok}
use rocket_toolkit.ProcessManager.Effect.{Effect, normal, from_sync}
use rocket_toolkit.ProcessManager.EventStore.{StreamData}
use rocket_toolkit.ProcessManager.EventStore.Memory.{InMemoryEventStore, World}
use rocket_toolkit.ProcessManager.Algebra.Process
use rocket_toolkit.ProcessManager.Algebra.Process.{Process}
use rocket_toolkit.ProcessManager.Runtime.{RuntimeEvent}
use rocket_toolkit.ProcessManager.Runtime.Sequential.{Store}

-- the outside of the store is a count of the effects that ran
abbrev pub W : Type 0
W = Store ℕ ℕ

abbrev pub bump : Effect W (Unit {0})
bump = from_sync (λ _. normal tt) (λ w. record w { outside = suc w.outside })

-- 0 is ignored
abbrev pub answer : ℕ → Option (Result ℕ String)
answer zero = none
answer (suc n) = some (ok n)

abbrev pub waiting : Process W ℕ ℕ ℕ ℕ
waiting = Process.wait_for_event answer

-- starts with an effect, waits for an event that it does not ignore, and ends with an effect
abbrev pub sample : Process W ℕ ℕ ℕ (Unit {0})
sample =
    Process.bind (Process.lift_effect bump)
      (λ _. Process.bind waiting (λ n. Process.lift_effect bump))

abbrev pub no_streams : InMemoryEventStore (RuntimeEvent ℕ)
no_streams = record { store = λ _. none; locks = λ _. false }

abbrev pub no_stream : W
no_stream = record { memory = no_streams; outside = 0 }

-- one stream, with this data
abbrev pub one_stream : StreamData (RuntimeEvent ℕ) → W
one_stream d = record {
  memory = record { store = λ k. if str_eq "orders-7" k then some d else none; locks = λ _. false };
  outside = 0;
}
