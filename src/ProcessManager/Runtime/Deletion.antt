-- ===== src/ProcessManager/Runtime/Deletion.antt =====
-- `clearProcessState` while a `handleEvent` call is between its reading and its writing of the same
-- stream, over the in-memory store.
use rocket_toolkit.Prelude.{
  ℕ, suc, ◌≡◌, refl, sym, ap, ◌∙◌, String, none, some, List, [], ◌∷◌, length, eq_refl,
  if◌then◌else◌,
}
use rocket_toolkit.ProcessManager.Effect
use rocket_toolkit.ProcessManager.Effect.{
  Effect, Error, concurrency_error, error, Completion, normal, abrupt,
}
use rocket_toolkit.ProcessManager.Effect.Run.{
  Outcome, returned, threw, execute, handle, run_chunk, continue, execute-bind, execute-catch_error,
}
use rocket_toolkit.ProcessManager.EventStore.Memory.{
  set_memory, save, remove, loaded, is_stored, in_memory, append_event,
}
use rocket_toolkit.ProcessManager.EventStore.Memory.Laws.{IsFree, append_event-creates}
use rocket_toolkit.ProcessManager.Algebra.State.{ProcessState, Reply, in_progress, result}
use rocket_toolkit.ProcessManager.Algebra.Process.{Process}
use rocket_toolkit.ProcessManager.Runtime.{
  RuntimeEvent, event_received, attempt, start_process, apply_new_event, on_state, handle_event,
  retry, apply_history, clear_process_state,
}
use rocket_toolkit.ProcessManager.Runtime.Replay.{
  history_of, length-history_of, apply_history-history_of,
}
use rocket_toolkit.ProcessManager.Runtime.Sequential.{Store, HasHistory, reached, execute-attempt}

module _ {O I S E : Type 0} (empty_state : S) (i : I) (stream : String)
    (proc : Process (Store E O) I S E (Unit {0})) where
  execute-apply_invalid :
      (event bad : E) (rest : List (RuntimeEvent E)) (version : ℕ) (w : Store E O)
      → w.memory.store stream
        ≡ some (record { events = event_received bad ∷ rest; version = version })
      → execute (apply_new_event in_memory i empty_state event stream proc) w
        ≡ (threw (error "Invalid history: must start with ProcessStarted"), w)
  unfolding apply_new_event in_memory execute Effect.bind apply_history
  execute-apply_invalid event bad rest version w e =
      ap
        (λ o.
          execute
            (on_state in_memory stream event (length (loaded none o))
              (apply_history i empty_state proc (loaded none o)))
            w)
        e

  -- On a stream whose history does not begin with the start, every call of `handleEvent` throws, at
  -- its first attempt, and changes nothing.
  pub handle_event-invalid :
      (n : ℕ) (event bad : E) (rest : List (RuntimeEvent E)) (version : ℕ) (w : Store E O)
      → w.memory.store stream
        ≡ some (record { events = event_received bad ∷ rest; version = version })
      → execute (handle_event in_memory empty_state (suc n) i event stream proc) w
        ≡ (threw (error "Invalid history: must start with ProcessStarted"), w)
  unfolding handle_event execute
  handle_event-invalid n event bad rest version w e =
      execute-catch_error (attempt in_memory empty_state i event stream proc) _ w
      ∙ ap (handle (retry (handle_event in_memory empty_state n i event stream proc))) (
          execute-attempt empty_state i stream proc event _ w e
          ∙ execute-apply_invalid event bad rest version w e)

  -- what is left of `handleEvent` after it has seen the stream and loaded its history
  abbrev pub after_load : ℕ → E → Store E O → Effect (Store E O) (Unit {0}) × Store E O
  after_load n event w =
      let (seen, w') = run_chunk (handle_event in_memory empty_state n i event stream proc) w in
      run_chunk seen w'

  abbrev on_history : ℕ → E → List (RuntimeEvent E) → Effect (Store E O) (Unit {0})
  on_history n event history =
      Effect.catch_error
        (on_state in_memory stream event (length history)
          (apply_history i empty_state proc history))
        (retry (handle_event in_memory empty_state n i event stream proc))

  after_load-eq :
      (n : ℕ) (event : E) (events : List E) (w : Store E O)
      → HasHistory stream events w
      → after_load (suc n) event w ≡ (on_history n event (history_of events), w)
  unfolding handle_event run_chunk in_memory Effect.bind Effect.catch_error apply_new_event
  after_load-eq n event events w e =
      ap
        (λ o.
          run_chunk
            (Effect.catch_error
              (Effect.bind
                (if is_stored o
                  then Effect.unit
                  else start_process in_memory empty_state i stream proc)
                (λ _. apply_new_event in_memory i empty_state event stream proc))
              (retry (handle_event in_memory empty_state n i event stream proc)))
            w)
        e
      ∙ ap (λ o. (on_history n event (loaded none o), w)) e

  -- the world in which another call has deleted the stream
  abbrev pub cleared : Store E O → Store E O
  cleared w = set_memory (remove stream w.memory) w

  execute-clear_process_state :
      (w : Store E O) → execute (clear_process_state in_memory stream) w ≡ (returned tt, cleared w)
  unfolding clear_process_state in_memory execute
  execute-clear_process_state w = refl

  cleared-store : (w : Store E O) → (cleared w).memory.store stream ≡ none
  unfolding remove
  cleared-store w = rw eq_refl

  cleared-IsFree : (w : Store E O) → IsFree stream w → IsFree stream (cleared w)
  unfolding remove
  cleared-IsFree w free = free

  on_history-accepted :
      (n : ℕ) (event : E) (events : List E) (s : S) (next : E → Reply (Store E O) S E (Unit {0}))
      (effect : Effect (Store E O) (Unit {0})) (state : ProcessState (Store E O) S E (Unit {0}))
      → reached empty_state i stream proc events ≡ in_progress s next
      → next event ≡ result effect state
      → on_history n event (history_of events)
        ≡ Effect.catch_error
            (Effect.bind
              (append_event stream (event_received event ∷ []) (suc (length events)))
              (λ _. effect))
            (retry (handle_event in_memory empty_state n i event stream proc))
  unfolding in_memory
  on_history-accepted n event events s next effect state r a =
      rw (length-history_of, apply_history-history_of, r, a)

  -- On a stream with a history and a free lock, when the stream is deleted between the load and
  -- the append of a call whose event is accepted, the append succeeds all the same: it makes a
  -- new stream that holds that event alone, with no start, and the effect of the event runs.
  pub handle_event-deleted :
      (n : ℕ) (event : E) (events : List E) (w : Store E O) (s : S)
      (next : E → Reply (Store E O) S E (Unit {0})) (effect : Effect (Store E O) (Unit {0}))
      (state : ProcessState (Store E O) S E (Unit {0}))
      → IsFree stream w
      → HasHistory stream events w
      → reached empty_state i stream proc events ≡ in_progress s next
      → next event ≡ result effect state
      → (let (rest, seen) = after_load (suc n) event w in
          let deleted = (execute (clear_process_state in_memory stream) seen).1 in
          execute rest deleted)
        ≡ execute
            (Effect.catch_error effect
              (retry (handle_event in_memory empty_state n i event stream proc)))
            (set_memory
              (save stream
                (record { events = event_received event ∷ []; version = 1 })
                (cleared w).memory)
              (cleared w))
  handle_event-deleted n event events w s next effect state free e r a =
      let again = retry (handle_event in_memory empty_state n i event stream proc) in
      ap
        (λ (p : Effect (Store E O) (Unit {0}) × Store E O).
          execute p.0 (execute (clear_process_state in_memory stream) p.1).1)
        (after_load-eq n event events w e)
      ∙ (ap
            (λ (p : Outcome (Unit {0}) × Store E O).
              execute (on_history n event (history_of events)) p.1)
            (execute-clear_process_state w)
          ∙ (ap (λ h. execute h (cleared w))
                (on_history-accepted n event events s next effect state r a)
              ∙ (execute-catch_error _ again (cleared w)
                  ∙ (ap (handle again) (
                        execute-bind
                          (append_event stream (event_received event ∷ []) (suc (length events)))
                          (λ _. effect) (cleared w)
                        ∙ ap (continue (λ _. effect)) (
                            append_event-creates stream (event_received event ∷ [])
                              (suc (length events)) (cleared w) (cleared-IsFree w free)
                              (cleared-store w)))
                      ∙ sym (execute-catch_error effect again _)))))
