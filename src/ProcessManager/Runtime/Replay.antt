-- ===== src/ProcessManager/Runtime/Replay.antt =====
-- `applyHistory` on the histories that the runtime writes.
use rocket_toolkit.Prelude.{
  suc, String, ◌≡◌, refl, sym, ap, ◌∙◌, Option, none, some, List, [], ◌∷◌, ◌++◌, map, length,
  length-append, ◌+◌, arith,
}
use rocket_toolkit.ProcessManager.Effect.{Effect, Completion, normal}
use rocket_toolkit.ProcessManager.EventStore.{StreamData}
use rocket_toolkit.ProcessManager.Algebra.State.{
  ProcessState, Reply, in_progress, succeeded, failed, null, result, settle, replay,
}
use rocket_toolkit.ProcessManager.Algebra.Process.{Process}
use rocket_toolkit.ProcessManager.Runtime.{
  RuntimeEvent, process_started, event_received, apply_events, apply_history,
}

-- The history of a process that has taken `events`, and the stream that holds it.
abbrev pub history_of : {E : Type 0} → List E → List (RuntimeEvent E)
history_of events = process_started ∷ map event_received events

abbrev pub recorded : {E : Type 0} → List E → StreamData (RuntimeEvent E)
recorded events = record { events = history_of events; version = suc (length events) }

pub map_received-append :
    {E : Type 0} (xs ys : List E)
    → map event_received xs ++ map event_received ys ≡ map event_received (xs ++ ys)
map_received-append [] ys = refl
map_received-append (x ∷ xs) ys = ap (λ l. event_received x ∷ l) (map_received-append xs ys)

pub length-history_of :
    {E : Type 0} (events : List E) → length (history_of events) ≡ suc (length events)
length-history_of [] = refl
length-history_of (x ∷ events) = ap suc (length-history_of events)

-- One more event behind a recorded history, at the next version.
pub recorded-snoc :
    {E : Type 0} (events : List E) (event : E)
    → ◌≡◌ {A = StreamData (RuntimeEvent E)}
        (record {
          events = (recorded events).events ++ event_received event ∷ [];
          version = (recorded events).version + 1;
        })
        (recorded (events ++ event ∷ []))
recorded-snoc events event = λ k. record {
  events = process_started ∷ map_received-append events (event ∷ []) k;
  version = count k;
}
  where
    count : suc (length events) + 1 ≡ suc (length (events ++ event ∷ []))
    count = omega (arith, length-append events (event ∷ []))

-- The events can be read off a recorded stream.
events_of : {E : Type 0} → List (RuntimeEvent E) → List E
events_of [] = []
events_of (process_started ∷ history) = events_of history
events_of (event_received event ∷ history) = event ∷ events_of history

events_of-map_received :
    {E : Type 0} (events : List E) → events_of (map event_received events) ≡ events
unfolding events_of
events_of-map_received [] = refl
events_of-map_received (event ∷ events) = ap (λ l. event ∷ l) (events_of-map_received events)

stored_events : {E : Type 0} → Option (StreamData (RuntimeEvent E)) → List E
stored_events none = []
stored_events (some d) = events_of d.events

pub recorded-injective :
    {E : Type 0} {xs ys : List E}
    → ◌≡◌ {A = Option (StreamData (RuntimeEvent E))} (some (recorded xs)) (some (recorded ys))
    → xs ≡ ys
unfolding stored_events events_of
recorded-injective {xs} {ys} e =
    sym (events_of-map_received xs) ∙ (ap stored_events e ∙ events_of-map_received ys)

module _ {W S E : Type 0} where
  apply_events-received :
      (state : ProcessState W S E (Unit {0})) (events : List E)
      → apply_events state (map event_received events) ≡ normal (replay state events)
  unfolding apply_events replay
  apply_events-received state [] = refl
  apply_events-received (in_progress s n) (event ∷ events) =
      apply_events-received (settle (in_progress s n) (n event)) events
  apply_events-received (succeeded s v) (event ∷ events) =
      apply_events-received (succeeded s v) events
  apply_events-received (failed s e) (event ∷ events) = apply_events-received (failed s e) events

module _ {W S E : Type 0} where
  -- The states that a process goes through, by its own `next`: an event that it takes leads to the state
  -- of the reply, one that it ignores leaves it where it is, and so does every event behind its end.
  pub data Takes
      : ProcessState W S E (Unit {0}) → List E → ProcessState W S E (Unit {0}) → Type 0 where
    over : {state : ProcessState W S E (Unit {0})} → Takes state [] state
    taken :
        {s : S} {next : E → Reply W S E (Unit {0})} {event : E} {events : List E}
        {effect : Effect W (Unit {0})} {next_state end : ProcessState W S E (Unit {0})}
        → next event ≡ result effect next_state
        → Takes next_state events end
        → Takes (in_progress s next) (event ∷ events) end
    ignored :
        {s : S} {next : E → Reply W S E (Unit {0})} {event : E} {events : List E}
        {end : ProcessState W S E (Unit {0})}
        → next event ≡ null
        → Takes (in_progress s next) events end
        → Takes (in_progress s next) (event ∷ events) end
    behind_success :
        {s : S} {v : Unit {0}} {events : List E} → Takes (succeeded s v) events (succeeded s v)
    behind_failure : {s : S} {x : String} {events : List E} → Takes (failed s x) events (failed s x)

  -- There is a state that the events lead to, and the fold over them gives it.
  abbrev Ends : ProcessState W S E (Unit {0}) → List E → Type 0
  Ends state events =
      (end : ProcessState W S E (Unit {0})) × Takes state events end
      × (apply_events state (map event_received events) ≡ normal end)

  abbrev success : S → Unit {0} → ProcessState W S E (Unit {0})
  success s v = succeeded s v

  abbrev failure : S → String → ProcessState W S E (Unit {0})
  failure s x = failed s x

  apply_events-succeeded :
      (s : S) (v : Unit {0}) (events : List E)
      → apply_events (success s v) (map event_received events) ≡ normal (success s v)
  unfolding apply_events
  apply_events-succeeded s v [] = refl
  apply_events-succeeded s v (event ∷ events) = apply_events-succeeded s v events

  apply_events-failed :
      (s : S) (x : String) (events : List E)
      → apply_events (failure s x) (map event_received events) ≡ normal (failure s x)
  unfolding apply_events
  apply_events-failed s x [] = refl
  apply_events-failed s x (event ∷ events) = apply_events-failed s x events

  apply_events-Ends : (state : ProcessState W S E (Unit {0})) (events : List E) → Ends state events
  unfolding apply_events
  apply_events-Ends state [] = (state, over, refl)
  apply_events-Ends (succeeded s v) (event ∷ events) =
      (succeeded s v, behind_success, apply_events-succeeded s v events)
  apply_events-Ends (failed s x) (event ∷ events) =
      (failed s x, behind_failure, apply_events-failed s x events)
  apply_events-Ends (in_progress s next) (event ∷ events) =
      step (next event) refl (λ state. apply_events-Ends state events)
    where
      fold : Reply W S E (Unit {0}) → Completion (ProcessState W S E (Unit {0}))
      fold r = apply_events (settle (in_progress s next) r) (map event_received events)

      step :
          (r : Reply W S E (Unit {0}))
          → next event ≡ r
          → ((state : ProcessState W S E (Unit {0})) → Ends state events)
          → Ends (in_progress s next) (event ∷ events)
      step null e ends =
          let (end, takes, done) = ends (in_progress s next) in
          (end, ignored e takes, ap fold e ∙ done)
      step (result effect next_state) e ends =
          let (end, takes, done) = ends next_state in (end, taken e takes, ap fold e ∙ done)

module _ {W I S E : Type 0} where
  -- the same with `replay`
  pub apply_history-history_of :
      (i : I) (s : S) (proc : Process W I S E (Unit {0})) (events : List E)
      → apply_history i s proc (history_of events) ≡ normal (replay (proc i s).1 events)
  unfolding apply_history
  apply_history-history_of i s proc events = apply_events-received (proc i s).1 events

  -- A history of one start and any events never throws, and gives the state that the events lead the
  -- process to from the state that it starts with: an event that it takes leads to the state of the reply,
  -- one that it ignores leaves it where it is, and so does every event behind its end.
  pub apply_history-Takes :
      (i : I) (s : S) (proc : Process W I S E (Unit {0})) (events : List E)
      → (end : ProcessState W S E (Unit {0})) × Takes (proc i s).1 events end
        × (apply_history i s proc (history_of events) ≡ normal end)
  unfolding apply_history
  apply_history-Takes i s proc events = apply_events-Ends (proc i s).1 events
