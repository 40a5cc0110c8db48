-- ===== src/ProcessManager/EventStore/Memory.antt =====
-- packages/process-manager/src/event-store/inmemory.ts. A `Map` is a function to `Option`; the lock
-- of a stream is whether its promise is in `locks`.
pub mod Laws
use rocket_toolkit.Prelude.{
  ℕ, zero, suc, String, Bool, true, false, not, Option, none, some, List, [], ◌∷◌, ◌++◌, str_eq,
  ◌+◌, ◌==◌, if◌then◌else◌,
}
use rocket_toolkit.ProcessManager.Effect
use rocket_toolkit.ProcessManager.Effect.{
  Effect, Error, concurrency_error, Completion, normal, abrupt, of_completion, chunk, from_sync,
}
use rocket_toolkit.ProcessManager.EventStore.{EventStore, StreamData}

pub record InMemoryEventStore (X : Type 0) : Type 0 where
  pub store : String → Option (StreamData X)
  pub locks : String → Bool

-- The store, and all else that effects read and write.
pub record World (X O : Type 0) : Type 0 where
  pub memory : InMemoryEventStore X
  pub outside : O

-- `Map.set` and `Map.delete`
abbrev pub put {ℓ} : {V : Type ℓ} → (String → V) → String → V → String → V
put f k v j = if str_eq k j then v else f j

abbrev pub drop {ℓ} : {A : Type ℓ} → ℕ → List A → List A
drop zero xs = xs
drop (suc n) [] = []
drop (suc n) (x ∷ xs) = drop n xs

module _ {X : Type 0} where
  -- the end of `acquireLock`, when the stream has no lock
  unfoldable pub lock : String → InMemoryEventStore X → InMemoryEventStore X
  lock stream m = record m { locks = put m.locks stream true }

  unfoldable pub unlock : String → InMemoryEventStore X → InMemoryEventStore X
  unlock stream m = record m { locks = put m.locks stream false }

  unfoldable pub save : String → StreamData X → InMemoryEventStore X → InMemoryEventStore X
  save stream data' m = record m { store = put m.store stream (some data') }

  -- the `try` block of `appendEvent`, from the reading of the stream to the end
  unfoldable pub append_found :
      String
      → List X
      → ℕ
      → Option (StreamData X)
      → InMemoryEventStore X
      → Completion (Unit {0}) × InMemoryEventStore X
  unfolding save
  append_found stream events expected_version none m =
      (normal tt, save stream (record { events = events; version = 1 }) m)
  append_found stream events expected_version (some found) m =
      if found.version == expected_version
      then (
        normal tt,
        save stream (record { events = found.events ++ events; version = found.version + 1 }) m,
      )
      else (abrupt (concurrency_error expected_version found.version), m)

  -- with the `finally` block: the lock is released on every path
  unfoldable pub append_locked :
      String → List X → ℕ → InMemoryEventStore X → Completion (Unit {0}) × InMemoryEventStore X
  unfolding append_found unlock
  append_locked stream events expected_version m =
      let (completion, m') = append_found stream events expected_version (m.store stream) m in
      (completion, unlock stream m')

  abbrev pub loaded : Option ℕ → Option (StreamData X) → List X
  loaded from_version none = []
  loaded none (some found) = found.events
  loaded (some n) (some found) = drop n found.events

  abbrev pub is_stored : Option (StreamData X) → Bool
  is_stored none = false
  is_stored (some found) = true

  unfoldable pub remove : String → InMemoryEventStore X → InMemoryEventStore X
  remove stream m = record m { store = put m.store stream none }

module _ {X O : Type 0} where
  abbrev pub set_memory : InMemoryEventStore X → World X O → World X O
  set_memory m w = record w { memory = m }

  -- `acquireLock`: the loop tests the lock again each time that it is woken, and takes it in the same
  -- chunk as the test that finds it free.
  unfoldable pub acquire_lock : {A : Type 0} → String → Effect (World X O) A → Effect (World X O) A
  unfolding lock
  acquire_lock stream rest =
      chunk (λ w. not (w.memory.locks stream)) (λ w. set_memory (lock stream w.memory) w)
        (λ _. rest)

  unfoldable pub append_event : String → List X → ℕ → Effect (World X O) (Unit {0})
  unfolding acquire_lock append_locked from_sync
  append_event stream events expected_version = acquire_lock stream (
      from_sync (λ w. (append_locked stream events expected_version w.memory).0)
        (λ w. set_memory (append_locked stream events expected_version w.memory).1 w))

  unfoldable pub load_events : String → Option ℕ → Effect (World X O) (List X)
  unfolding from_sync
  load_events stream from_version =
      from_sync (λ w. normal (loaded from_version (w.memory.store stream))) (λ w. w)

  unfoldable pub stream_exists : String → Effect (World X O) Bool
  unfolding from_sync
  stream_exists stream = from_sync (λ w. normal (is_stored (w.memory.store stream))) (λ w. w)

  unfoldable pub delete_stream : String → Effect (World X O) (Unit {0})
  unfolding from_sync remove
  delete_stream stream = from_sync (λ _. normal tt) (λ w. set_memory (remove stream w.memory) w)

  unfoldable pub in_memory : EventStore (World X O) X
  unfolding append_event load_events stream_exists delete_stream
  in_memory = record {
    append_event = append_event;
    load_events = load_events;
    stream_exists = stream_exists;
    delete_stream = delete_stream;
  }
