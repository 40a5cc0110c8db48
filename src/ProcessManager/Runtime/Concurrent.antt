-- ===== src/ProcessManager/Runtime/Concurrent.antt =====
-- Any number of `handleEvent` calls at once, on any streams, with their chunks in any order, among
-- other tasks that leave the streams alone. No stream is deleted.
use mathlib.Core.Path.{subst}
use rocket_toolkit.Prelude.{
  ℕ, zero, suc, ◌≡◌, refl, sym, ap, ◌∙◌, String, Bool, true, false, Option, none, some, List, [],
  ◌∷◌, length, if◌then◌else◌,
}
use rocket_toolkit.ProcessManager.Effect
use rocket_toolkit.ProcessManager.Effect.{Effect, Error, concurrency_error, error, normal}
use rocket_toolkit.ProcessManager.Effect.Pool.{
  System, Reach, Keeps, Keeps-bind, Keeps-catch_error, Reach-IsSound,
}
use rocket_toolkit.ProcessManager.EventStore.{StreamData}
use rocket_toolkit.ProcessManager.EventStore.Memory.{
  loaded, is_stored, in_memory, append_event, stream_exists,
}
use rocket_toolkit.ProcessManager.Algebra.State.{
  ProcessState, Reply, in_progress, succeeded, failed, null, result, settle, replay,
}
use rocket_toolkit.ProcessManager.Algebra.Process.{Process}
use rocket_toolkit.ProcessManager.Runtime.{
  RuntimeEvent, process_started, event_received, start_process, apply_new_event, attempt, retry,
  on_state, save_then_run, handle_event, apply_history,
}
use rocket_toolkit.ProcessManager.Runtime.Replay.{
  recorded, length-history_of, apply_history-history_of,
}
use rocket_toolkit.ProcessManager.Runtime.Sequential.{Store}
use rocket_toolkit.ProcessManager.Runtime.Accepted.{answers, takes}
use rocket_toolkit.ProcessManager.Runtime.Histories.{
  GrowsFrom, GrowsFrom-refl, IsValid, AllValid, growth,
}
use rocket_toolkit.ProcessManager.Runtime.Appends.{Keeps-append_start, Keeps-append_received}

module _ {O I S E : Type 0} (empty_state : S) (instance_of : String → I)
    (proc : String → Process (Store E O) I S E (Unit {0})) where
  abbrev pub start : String → ProcessState (Store E O) S E (Unit {0})
  start stream = (proc stream (instance_of stream) empty_state).1

  -- An effect of the application: whatever it does, it keeps every history valid and takes none
  -- back. Effects that write only outside the store are so, and calls of `handleEvent` are so.
  abbrev pub Harmless : Effect (Store E O) (Unit {0}) → Type 0
  Harmless effect = (w : Store E O) → Keeps (growth {O = O} start) effect w

  unfoldable mutual
    -- every effect that the process may still ask for is harmless
    pub HarmlessState : ProcessState (Store E O) S E (Unit {0}) → Type 0
    HarmlessState (in_progress s next) = (event : E) → HarmlessReply (next event)
    HarmlessState (succeeded s v) = Unit
    HarmlessState (failed s x) = Unit

    pub HarmlessReply : Reply (Store E O) S E (Unit {0}) → Type 0
    HarmlessReply null = Unit
    HarmlessReply (result effect state) = Harmless effect × HarmlessState state

  HarmlessState-replay :
      (p : ProcessState (Store E O) S E (Unit {0})) (events : List E)
      → HarmlessState p
      → HarmlessState (replay p events)
  unfolding replay HarmlessState
  HarmlessState-replay p [] h = h
  HarmlessState-replay (succeeded s v) (event ∷ events) h =
      HarmlessState-replay (succeeded s v) events h
  HarmlessState-replay (failed s x) (event ∷ events) h = HarmlessState-replay (failed s x) events h
  HarmlessState-replay (in_progress s next) (event ∷ events) h =
      HarmlessState-replay (settle (in_progress s next) (next event)) events
        (settled (next event) (h event))
    where
      settled :
          (r : Reply (Store E O) S E (Unit {0}))
          → HarmlessReply r
          → HarmlessState (settle (in_progress s next) r)
      settled null k = h
      settled (result effect state) k = k.1

  pub record IsHarmless (stream : String) : Type 0 where
    pub initial : Harmless (proc stream (instance_of stream) empty_state).0
    pub states : HarmlessState (start stream)

  module _ (stream : String) (event : E) (harmless : IsHarmless stream) where
    abbrev i : I
    i = instance_of stream

    Keeps-start_process :
        (w : Store E O)
        → Keeps
            (growth {O = O} start)
            (start_process in_memory empty_state i stream (proc stream))
            w
    unfolding start_process in_memory
    Keeps-start_process w =
        Keeps-bind (growth start) (append_event stream (process_started ∷ []) 0) _ w
          (Keeps-append_start start stream w) (λ _ w' _. harmless.initial w')

    Keeps-save_then_run :
        (events : List E) (w : Store E O) (r : Reply (Store E O) S E (Unit {0}))
        → w.memory.store stream ≡ some (recorded events)
        → HarmlessReply r
        → (answers r ≡ true → takes (replay (start stream) events) event ≡ true)
        → Keeps
            (growth {O = O} start)
            (save_then_run in_memory stream event (suc (length events)) r)
            w
    unfolding in_memory HarmlessState
    Keeps-save_then_run events w null e h t = tt
    Keeps-save_then_run events w (result effect state) e h t =
        Keeps-bind (growth start)
          (append_event stream (event_received event ∷ []) (suc (length events))) _ w
          (Keeps-append_received start stream event events w e (t refl)) (λ _ w' _. h.0 w')

    Keeps-on_state :
        (events : List E) (w : Store E O) (p : ProcessState (Store E O) S E (Unit {0}))
        → w.memory.store stream ≡ some (recorded events)
        → HarmlessState p
        → replay (start stream) events ≡ p
        → Keeps
            (growth {O = O} start)
            (on_state in_memory stream event (suc (length events)) (normal p))
            w
    unfolding HarmlessState
    Keeps-on_state events w (succeeded s v) e h r = tt
    Keeps-on_state events w (failed s x) e h r = tt
    Keeps-on_state events w (in_progress s next) e h r =
        Keeps-save_then_run events w (next event) e (h event) (λ t. ap (λ p. takes p event) r ∙ t)

    Keeps-loaded :
        (w : Store E O) (o : Option (StreamData (RuntimeEvent E)))
        → w.memory.store stream ≡ o
        → IsValid start stream o
        → Keeps
            (growth {O = O} start)
            (on_state in_memory stream event
              (length (loaded none o))
              (apply_history i empty_state (proc stream) (loaded none o)))
            w
    Keeps-loaded w none e valid = unfold apply_history in tt
    Keeps-loaded w (some d) e (events, same, accepted) =
        subst
          (λ (d : StreamData (RuntimeEvent E)).
            Keeps (growth {O = O} start)
              (on_state in_memory stream event (length d.events)
                (apply_history i empty_state (proc stream) d.events))
              w)
          (sym same)
          (rw (length-history_of, apply_history-history_of)
            (Keeps-on_state events w (replay (start stream) events) (e ∙ ap some same)
              (HarmlessState-replay (start stream) events harmless.states) refl))

    abbrev started : Bool → Effect (Store E O) (Unit {0})
    started found =
        if found then Effect.unit else start_process in_memory empty_state i stream (proc stream)

    Keeps-started : (found : Bool) (w : Store E O) → Keeps (growth {O = O} start) (started found) w
    Keeps-started true w = tt
    Keeps-started false w = Keeps-start_process w

    Keeps-attempt :
        (w : Store E O)
        → Keeps
            (growth {O = O} start)
            (attempt in_memory empty_state i event stream (proc stream))
            w
    unfolding in_memory apply_new_event Effect.bind
    Keeps-attempt w =
        Keeps-bind (growth start) (Effect.bind (stream_exists stream) started) _ w
          (λ w' valid grown r. (
            valid,
            GrowsFrom-refl w'.memory.store,
            Keeps-started (is_stored (w'.memory.store stream)) w',
          ))
          (λ _ w' _ w'' valid grown r. (
            valid,
            GrowsFrom-refl w''.memory.store,
            Keeps-loaded w'' (w''.memory.store stream) refl (valid stream),
          ))

    -- A call of `handleEvent` keeps every history valid and takes no event back, whatever runs
    -- between its chunks, and so do all the attempts that it makes.
    pub Keeps-handle_event :
        (attempts : ℕ) (w : Store E O)
        → Keeps
            (growth {O = O} start)
            (handle_event in_memory empty_state attempts i event stream (proc stream))
            w
    unfolding handle_event
    Keeps-handle_event zero w = λ w' valid grown r. absurd (cc)
    Keeps-handle_event (suc attempts) w =
        Keeps-catch_error (growth start)
          (attempt in_memory empty_state i event stream (proc stream)) _ w (Keeps-attempt w)
          (λ x w' _. handler (Keeps-handle_event attempts) x w')
      where
        again : Effect (Store E O) (Unit {0})
        again = handle_event in_memory empty_state attempts i event stream (proc stream)

        handler :
            ((w : Store E O) → Keeps (growth {O = O} start) again w)
            → (x : Error) (w : Store E O) → Keeps (growth {O = O} start) (retry again x) w
        handler keep (concurrency_error expected actual) w = keep w
        handler keep (error message) w = tt

  -- The tasks that may begin: a `handleEvent` call on any stream, or any harmless effect.
  pub data IsTask (e : Effect (Store E O) (Unit {0})) : Type 0 where
    handling :
        (stream : String) (event : E) (attempts : ℕ)
        → e
          ≡ handle_event in_memory empty_state attempts
              (instance_of stream)
              event
              stream
              (proc stream)
        → IsTask e
    other : Harmless e → IsTask e

  module _ (harmless : (stream : String) → IsHarmless stream) where
    Keeps-task :
        (e : Effect (Store E O) (Unit {0}))
        → IsTask e
        → (w : Store E O) → Keeps (growth {O = O} start) e w
    Keeps-task e (handling stream event attempts same) w =
        subst (λ d. Keeps (growth {O = O} start) d w) (sym same)
          (Keeps-handle_event stream event (harmless stream) attempts w)
    Keeps-task e (other h) w = h w

    -- When the effects of the processes are harmless: from a store whose histories are valid,
    -- with no task yet, whatever harmless tasks and `handleEvent` calls begin and however
    -- their chunks interleave, every stream is a start with events behind it that the process
    -- accepted one after the other, at the version of that many events, and no event is ever
    -- taken back or put in between.
    pub Reach-AllValid :
        {w : Store E O} {s : System (Store E O)}
        → AllValid start w.memory.store
        → Reach IsTask (record { world = w; tasks = [] }) s
        → AllValid start s.world.memory.store × GrowsFrom w.memory.store s.world.memory.store
    Reach-AllValid valid r =
        let (sound, grown) =
          Reach-IsSound (growth start) IsTask Keeps-task r (record { inv = valid; keep = tt }) in
        (sound.inv, grown)
