-- ===== src/ProcessManager/Runtime/Sequential.antt =====
-- The runtime over the in-memory store, with one call at a time.
use rocket_toolkit.Prelude.{
  ℕ, suc, ◌≡◌, ap, ◌∙◌, String, none, some, List, [], ◌∷◌, ◌++◌, length, if◌then◌else◌,
}
use rocket_toolkit.ProcessManager.Effect
use rocket_toolkit.ProcessManager.Effect.{Effect, Error, Completion, normal, abrupt, pure}
use rocket_toolkit.ProcessManager.Effect.Run.{
  execute, continue, handle, execute-bind, execute-catch_error,
}
use rocket_toolkit.ProcessManager.EventStore.{StreamData}
use rocket_toolkit.ProcessManager.EventStore.Memory.{
  World, set_memory, save, loaded, is_stored, in_memory, append_event,
}
use rocket_toolkit.ProcessManager.EventStore.Memory.Laws.{
  IsFree, append_event-succeeds, append_event-creates,
}
use rocket_toolkit.ProcessManager.Algebra.State.{ProcessState, replay}
use rocket_toolkit.ProcessManager.Algebra.Process.{Process}
use rocket_toolkit.ProcessManager.Runtime.{
  RuntimeEvent, process_started, event_received, start_process, apply_new_event, attempt, retry,
  on_state, handle_event, apply_history,
}
use rocket_toolkit.ProcessManager.Runtime.Replay.{
  recorded, length-history_of, apply_history-history_of, recorded-snoc,
}

abbrev pub Store : Type 0 → Type 0 → Type 0
Store E O = World (RuntimeEvent E) O

abbrev pub HasHistory : {E O : Type 0} → String → List E → Store E O → Type 0
HasHistory stream events w = w.memory.store stream ≡ some (recorded events)

module _ {O I S E : Type 0} (empty_state : S) (i : I) (stream : String)
    (proc : Process (Store E O) I S E (Unit {0})) where
  abbrev pub reached : List E → ProcessState (Store E O) S E (Unit {0})
  reached events = replay (proc i empty_state).1 events

  pub execute-apply_new_event :
      (event : E) (events : List E) (w : Store E O)
      → HasHistory stream events w
      → execute (apply_new_event in_memory i empty_state event stream proc) w
        ≡ execute
            (on_state in_memory stream event (suc (length events)) (normal (reached events)))
            w
  unfolding apply_new_event in_memory execute Effect.bind
  execute-apply_new_event event events w e =
      ap
        (λ o.
          execute
            (on_state in_memory stream event (length (loaded none o))
              (apply_history i empty_state proc (loaded none o)))
            w)
        e
      ∙ rw (length-history_of, apply_history-history_of)

  pub execute-attempt :
      (event : E) (d : StreamData (RuntimeEvent E)) (w : Store E O)
      → w.memory.store stream ≡ some d
      → execute (attempt in_memory empty_state i event stream proc) w
        ≡ execute (apply_new_event in_memory i empty_state event stream proc) w
  unfolding in_memory execute Effect.bind
  execute-attempt event d w e =
      ap
        (λ o.
          execute
            (Effect.bind
              (if is_stored o
                then Effect.unit
                else start_process in_memory empty_state i stream proc)
              (λ _. apply_new_event in_memory i empty_state event stream proc))
            w)
        e

  -- An attempt on a stream that is not there starts the process, and then applies the event.
  pub execute-attempt_first :
      (event : E) (w : Store E O)
      → w.memory.store stream ≡ none
      → execute (attempt in_memory empty_state i event stream proc) w
        ≡ continue
            (λ _. apply_new_event in_memory i empty_state event stream proc)
            (execute (start_process in_memory empty_state i stream proc) w)
  unfolding in_memory execute Effect.bind
  execute-attempt_first event w e =
      ap
        (λ o.
          execute
            (Effect.bind
              (if is_stored o
                then Effect.unit
                else start_process in_memory empty_state i stream proc)
              (λ _. apply_new_event in_memory i empty_state event stream proc))
            w)
        e
      ∙ execute-bind (start_process in_memory empty_state i stream proc) _ w

  -- the world with `event` saved behind `events`
  abbrev pub saved : List E → Store E O → Store E O
  saved events w = set_memory (save stream (recorded events) w.memory) w

  pub execute-start :
      (w : Store E O)
      → IsFree stream w
      → w.memory.store stream ≡ none
      → execute (start_process in_memory empty_state i stream proc) w
        ≡ execute (proc i empty_state).0 (saved [] w)
  unfolding start_process in_memory
  execute-start w free e =
      execute-bind (append_event stream (process_started ∷ []) 0) (λ _. (proc i empty_state).0) w
      ∙ ap (continue (λ _. (proc i empty_state).0))
          (append_event-creates stream (process_started ∷ []) 0 w free e)

  pub execute-save_event :
      (event : E) (events : List E) (effect : Effect (Store E O) (Unit {0})) (w : Store E O)
      → IsFree stream w
      → HasHistory stream events w
      → execute
          (Effect.bind
            (in_memory.append_event stream (event_received event ∷ []) (suc (length events)))
            (λ _. effect))
          w
        ≡ execute effect (saved (events ++ event ∷ []) w)
  unfolding in_memory
  execute-save_event event events effect w free e =
      execute-bind (append_event stream (event_received event ∷ []) (suc (length events)))
        (λ _. effect) w
      ∙ (ap (continue (λ _. effect))
            (append_event-succeeds stream (event_received event ∷ []) (recorded events) w free e)
          ∙ ap
              (λ (d : StreamData (RuntimeEvent E)).
                execute effect (set_memory (save stream d w.memory) w))
              (recorded-snoc events event))

  pub execute-handle_event :
      (n : ℕ) (event : E) (events : List E) (w : Store E O)
      → HasHistory stream events w
      → execute (handle_event in_memory empty_state (suc n) i event stream proc) w
        ≡ handle (retry (handle_event in_memory empty_state n i event stream proc)) (
            execute
              (on_state in_memory stream event (suc (length events)) (normal (reached events)))
              w)
  unfolding handle_event
  execute-handle_event n event events w e =
      execute-catch_error (attempt in_memory empty_state i event stream proc) _ w
      ∙ ap (handle (retry (handle_event in_memory empty_state n i event stream proc)))
          (execute-attempt event (recorded events) w e ∙ execute-apply_new_event event events w e)
