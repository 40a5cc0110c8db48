-- ===== src/ProcessManager/Runtime/Handling.antt =====
-- What `handleEvent` and `getProcessState` do, in the order of their steps, when nothing else runs.
use rocket_toolkit.Prelude.{
  ℕ, suc, ◌≡◌, refl, sym, ap, ◌∙◌, String, false, none, some, List, [], ◌∷◌, ◌++◌, length,
}
use rocket_toolkit.ProcessManager.Effect
use rocket_toolkit.ProcessManager.Effect.{Effect, Error, Completion, normal, abrupt, pure}
use rocket_toolkit.ProcessManager.Effect.Run.{
  returned, execute, continue, handle, execute-catch_error,
}
use rocket_toolkit.ProcessManager.EventStore.{StreamData}
use rocket_toolkit.ProcessManager.EventStore.Memory.{loaded, in_memory}
use rocket_toolkit.ProcessManager.EventStore.Memory.Laws.{IsFree}
use rocket_toolkit.ProcessManager.Algebra.State.{
  ProcessState, Reply, in_progress, succeeded, failed, null, result,
}
use rocket_toolkit.ProcessManager.Algebra.Process.{Process}
use rocket_toolkit.ProcessManager.Runtime.{
  RuntimeEvent, apply_new_event, attempt, retry, on_state, save_then_run, handle_event,
  get_process_state, state_after,
}
use rocket_toolkit.ProcessManager.Runtime.Replay.{apply_history-history_of}
use rocket_toolkit.ProcessManager.Runtime.Sequential.{
  Store, HasHistory, reached, saved, execute-attempt, execute-attempt_first, execute-start,
  execute-save_event, execute-handle_event,
}
use rocket_toolkit.ProcessManager.Runtime.Accepted.{answers, takes}

module _ {O I S E : Type 0} (empty_state : S) (i : I) (stream : String)
    (proc : Process (Store E O) I S E (Unit {0})) where
  -- On a stream with a history and a free lock, an event that the process in progress answers is
  -- saved behind the history first, at the next version; then its effect runs, under the handler
  -- that makes another attempt on a `ConcurrencyError`.
  pub handle_event-accepted :
      (n : ℕ) (event : E) (events : List E) (w : Store E O) (s : S)
      (next : E → Reply (Store E O) S E (Unit {0})) (effect : Effect (Store E O) (Unit {0}))
      (state : ProcessState (Store E O) S E (Unit {0}))
      → IsFree stream w
      → HasHistory stream events w
      → reached empty_state i stream proc events ≡ in_progress s next
      → next event ≡ result effect state
      → execute (handle_event in_memory empty_state (suc n) i event stream proc) w
        ≡ execute
            (Effect.catch_error effect
              (retry (handle_event in_memory empty_state n i event stream proc)))
            (saved empty_state i stream proc (events ++ event ∷ []) w)
  handle_event-accepted n event events w s next effect state free e r a =
      execute-handle_event empty_state i stream proc n event events w e
      ∙ (ap
            (λ p.
              handle (retry (handle_event in_memory empty_state n i event stream proc))
                (execute (on_state in_memory stream event (suc (length events)) (normal p)) w))
            r
          ∙ (ap
                (λ p.
                  handle (retry (handle_event in_memory empty_state n i event stream proc))
                    (execute (save_then_run in_memory stream event (suc (length events)) p) w))
                a
              ∙ (ap (handle (retry (handle_event in_memory empty_state n i event stream proc)))
                    (execute-save_event empty_state i stream proc event events effect w free e)
                  ∙ sym (
                      execute-catch_error effect _
                        (saved empty_state i stream proc (events ++ event ∷ []) w)))))

  unanswered :
      (event : E) (version : ℕ) (r : Reply (Store E O) S E (Unit {0})) (w : Store E O)
      → answers r ≡ false
      → execute (save_then_run in_memory stream event version r) w ≡ (returned tt, w)
  unfolding execute
  unanswered event version null w h = refl
  unanswered event version (result effect state) w h = cc

  untaken :
      (event : E) (version : ℕ) (p : ProcessState (Store E O) S E (Unit {0})) (w : Store E O)
      → takes p event ≡ false
      → execute (on_state in_memory stream event version (normal p)) w ≡ (returned tt, w)
  unfolding execute
  untaken event version (succeeded s v) w h = refl
  untaken event version (failed s x) w h = refl
  untaken event version (in_progress s next) w h = unanswered event version (next event) w h

  -- On a stream with a history, an event that the process ignores, or that comes after its end,
  -- changes nothing: it is not saved, no effect runs, and the call returns.
  pub handle_event-ignored :
      (n : ℕ) (event : E) (events : List E) (w : Store E O)
      → HasHistory stream events w
      → takes (reached empty_state i stream proc events) event ≡ false
      → execute (handle_event in_memory empty_state (suc n) i event stream proc) w
        ≡ (returned tt, w)
  handle_event-ignored n event events w e h =
      execute-handle_event empty_state i stream proc n event events w e
      ∙ ap (handle (retry (handle_event in_memory empty_state n i event stream proc)))
          (untaken event (suc (length events)) (reached empty_state i stream proc events) w h)

  -- On a stream that is not there, with a free lock, when the initial effect returns and leaves
  -- the stream there: the start is saved, the initial effect runs, and the call goes on as the
  -- same call does in the world that the initial effect left.
  pub handle_event-first :
      (n : ℕ) (event : E) (d : StreamData (RuntimeEvent E)) (w w' : Store E O)
      → IsFree stream w
      → w.memory.store stream ≡ none
      → execute (proc i empty_state).0 (saved empty_state i stream proc [] w) ≡ (returned tt, w')
      → w'.memory.store stream ≡ some d
      → execute (handle_event in_memory empty_state (suc n) i event stream proc) w
        ≡ execute (handle_event in_memory empty_state (suc n) i event stream proc) w'
  unfolding handle_event
  handle_event-first n event d w w' free e started found =
      execute-catch_error (attempt in_memory empty_state i event stream proc) _ w
      ∙ (ap (handle (retry (handle_event in_memory empty_state n i event stream proc))) (
            execute-attempt_first empty_state i stream proc event w e
            ∙ (ap (continue (λ _. apply_new_event in_memory i empty_state event stream proc))
                  (execute-start empty_state i stream proc w free e ∙ started)
                ∙ sym (execute-attempt empty_state i stream proc event d w' found)))
          ∙ sym (execute-catch_error (attempt in_memory empty_state i event stream proc) _ w'))

  -- What is read back is the state that the process has after the events of its history.
  pub execute-get_process_state :
      (events : List E) (w : Store E O)
      → HasHistory stream events w
      → execute (get_process_state in_memory empty_state i stream proc) w
        ≡ (returned (reached empty_state i stream proc events), w)
  unfolding get_process_state in_memory execute Effect.bind
  execute-get_process_state events w e =
      ap
        (λ o.
          execute (Effect.of_completion (state_after in_memory empty_state i proc (loaded none o)))
            w)
        e
      ∙ ap (λ c. execute (Effect.of_completion c) w)
          (apply_history-history_of i empty_state proc events)
