-- ===== src/ProcessManager/EventStore/Memory/Laws.antt =====
-- The in-memory store, one call at a time.
use rocket_toolkit.Prelude.{
  ℕ, ◌+◌, ◌≡◌, ◌≢◌, refl, sym, ap, ◌∙◌, fun_ext, String, Bool, true, false, Option, none, some,
  List, ◌++◌, str_eq, ◌==◌, eq_iff, if◌then◌else◌, arith, Bool-cases, inl, inr,
}
use rocket_toolkit.ProcessManager.Effect.{concurrency_error, Completion, normal, abrupt}
use rocket_toolkit.ProcessManager.Effect.Run.{
  returned, threw, execute, outcome, execute-of_completion,
}
use rocket_toolkit.ProcessManager.EventStore.{StreamData}
use rocket_toolkit.ProcessManager.EventStore.Memory.{
  InMemoryEventStore, World, set_memory, put, append_found, append_locked, lock, unlock, save,
  append_event, load_events, loaded,
}

pub put_twice {ℓ} :
    {V : Type ℓ} (f : String → V) (k : String) (a b : V) → put (put f k a) k b ≡ put f k b
put_twice f k a b = fun_ext λ j. cases (str_eq k j) j
  where
    cases :
        (t : Bool) (j : String) → (if t then b else (if t then a else f j)) ≡ (if t then b else f j)
    cases true j = refl
    cases false j = refl

-- Writing back what is there changes nothing.
pub put_same {ℓ} : {V : Type ℓ} (f : String → V) (k : String) (a : V) → f k ≡ a → put f k a ≡ f
put_same f k a e = fun_ext λ j. elim (Bool-cases (str_eq k j)) [
  | inl same ↦ rw same (sym (ap f (sym ((eq_iff k j).0 same)) ∙ e))
  | inr other ↦ rw other
]

module _ {X : Type 0} (stream : String) (events : List X) (expected : ℕ) where
  relocked :
      (m : InMemoryEventStore X)
      → m.locks stream ≡ false
      → put (put m.locks stream true) stream false ≡ m.locks
  relocked m free = put_twice m.locks stream true false ∙ put_same m.locks stream false free

  unlock_found :
      (m : InMemoryEventStore X) (found : Option (StreamData X))
      → m.locks stream ≡ false
      → (let (completion, m') = append_found stream events expected found (lock stream m) in
          ◌≡◌ {A = Completion (Unit {0}) × InMemoryEventStore X}
            (completion, unlock stream m')
            (append_found stream events expected found m))
  unfolding append_found lock unlock save
  unlock_found m none free =
      ap
        (λ l. (
          normal tt,
          record {
            store = put m.store stream (some (record { events = events; version = 1 }));
            locks = l;
          },
        ))
        (relocked m free)
  unlock_found m (some found) free = elim (Bool-cases (found.version == expected)) [
    | inl same ↦ rw same (
        ap
          (λ l. (
            normal tt,
            record {
              store =
                  put m.store stream (
                    some (record { events = found.events ++ events; version = found.version + 1 }));
              locks = l;
            },
          ))
          (relocked m free))
    | inr other ↦ rw other (
        ap
          (λ l. (
            abrupt (concurrency_error expected found.version),
            record { store = m.store; locks = l },
          ))
          (relocked m free))
  ]

  append_locked-lock :
      (m : InMemoryEventStore X)
      → m.locks stream ≡ false
      → append_locked stream events expected (lock stream m)
        ≡ append_found stream events expected (m.store stream) m
  unfolding append_locked lock
  append_locked-lock m free = unlock_found m (m.store stream) free

module _ {X O : Type 0} where
  abbrev pub IsFree : String → World X O → Type 0
  IsFree stream w = w.memory.locks stream ≡ false

  -- Alone, with the lock free, `append_event` is its critical section: the lock is free again behind
  -- it on every path, and the locks are what they were.
  pub execute-append_event :
      (stream : String) (events : List X) (expected : ℕ) (w : World X O)
      → IsFree stream w
      → execute (append_event stream events expected) w ≡ (
          let (completion, m) =
            append_found stream events expected (w.memory.store stream) w.memory in
          (outcome completion, set_memory m w))
  unfolding append_event execute
  execute-append_event stream events expected w free =
      rw (free, execute)
        (execute-of_completion _ _
          ∙ ap (λ (c, m). (outcome c, set_memory m w))
              (append_locked-lock stream events expected w.memory free))

  execute-load_events :
      (stream : String) (from_version : Option ℕ) (w : World X O)
      → execute (load_events stream from_version) w
        ≡ (returned (loaded from_version (w.memory.store stream)), w)
  unfolding load_events execute
  execute-load_events stream from_version w = refl

  -- The world with `events` saved behind what the stream held, at the next version.
  abbrev pub appended : String → StreamData X → List X → World X O → World X O
  appended stream found events w =
      set_memory
        (save stream (record { events = found.events ++ events; version = found.version + 1 })
          w.memory)
        w

  -- With the lock free, an append at the version of the stream puts the events behind those of
  -- the stream and counts the version up by one.
  pub append_event-succeeds :
      (stream : String) (events : List X) (found : StreamData X) (w : World X O)
      → IsFree stream w
      → w.memory.store stream ≡ some found
      → execute (append_event stream events found.version) w
        ≡ (returned tt, appended stream found events w)
  unfolding append_found
  append_event-succeeds stream events found w free e =
      execute-append_event stream events found.version w free ∙ rw e (ground arith)

  -- With the lock free, an append at any version other than that of the stream throws a
  -- `ConcurrencyError` with both versions, and the world is what it was.
  pub append_event-conflict :
      (stream : String) (events : List X) (expected : ℕ) (found : StreamData X) (w : World X O)
      → IsFree stream w
      → w.memory.store stream ≡ some found
      → found.version ≢ expected
      → execute (append_event stream events expected) w
        ≡ (threw (concurrency_error expected found.version), w)
  unfolding append_found
  append_event-conflict stream events expected found w free e other =
      execute-append_event stream events expected w free ∙ rw e (ground arith)

  -- With the lock free, a stream that does not exist is created by an append at any expected
  -- version, at version 1.
  pub append_event-creates :
      (stream : String) (events : List X) (expected : ℕ) (w : World X O)
      → IsFree stream w
      → w.memory.store stream ≡ none
      → execute (append_event stream events expected) w ≡ (
        returned tt,
        set_memory (save stream (record { events = events; version = 1 }) w.memory) w,
      )
  unfolding append_found
  append_event-creates stream events expected w free e =
      execute-append_event stream events expected w free ∙ rw e
