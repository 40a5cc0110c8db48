-- ===== src/ProcessManager/Runtime/Appends.antt =====
-- The appends of the runtime, against a store that others write to at the same time.
use rocket_toolkit.Prelude.{
  ℕ, suc, ◌≡◌, refl, sym, ap, ◌∙◌, String, true, false, Option, none, some, List, [], ◌∷◌, ◌++◌,
  append-nil, length, length-append, ◌==◌, arith,
}
use mathlib.Core.Path.{subst}
use rocket_toolkit.ProcessManager.Effect.{Completion, normal}
use rocket_toolkit.ProcessManager.Effect.Pool.{Keeps, Keeps-of_completion}
use rocket_toolkit.ProcessManager.EventStore.{StreamData}
use rocket_toolkit.ProcessManager.EventStore.Memory.{
  append_event, append_found, append_locked, save, InMemoryEventStore,
}
use rocket_toolkit.ProcessManager.Algebra.State.{ProcessState, replay}
use rocket_toolkit.ProcessManager.Runtime.{RuntimeEvent, process_started, event_received}
use rocket_toolkit.ProcessManager.Runtime.Replay.{recorded, recorded-snoc, recorded-injective}
use rocket_toolkit.ProcessManager.Runtime.Sequential.{Store}
use rocket_toolkit.ProcessManager.Runtime.Accepted.{takes, Accepted, Accepted-snoc}
use rocket_toolkit.ProcessManager.Runtime.Histories.{
  GrowsFrom, GrowsFrom-refl, GrowsFrom-put, IsValid, AllValid, AllValid-put, growth,
}

module _ {O S E : Type 0} (start : String → ProcessState (Store E O) S E (Unit {0})) where
  -- What an append must do to the streams, from any world that has grown out of `seen`.
  abbrev AppendIsSafe : String → List (RuntimeEvent E) → ℕ → Store E O → Type 0
  AppendIsSafe stream events expected seen =
      (w : Store E O)
      → AllValid start w.memory.store
      → GrowsFrom seen.memory.store w.memory.store
      → (let m = (append_found stream events expected (w.memory.store stream) w.memory).1 in
          AllValid start m.store × GrowsFrom w.memory.store m.store)

  Keeps-append_event :
      (stream : String) (events : List (RuntimeEvent E)) (expected : ℕ) (seen : Store E O)
      → AppendIsSafe stream events expected seen
      → Keeps (growth {O = O} start) (append_event stream events expected) seen
  unfolding append_event append_locked
  Keeps-append_event stream events expected seen safe = λ w inv grown r. (
    inv,
    GrowsFrom-refl w.memory.store,
    λ w' inv' grown' r'.
        let trans = (growth {O = O} start).grows_trans seen w w' grown grown' in
        let (valid, more) = safe w' inv' trans in
        (valid, more, Keeps-of_completion (growth start) _ _),
  )

  module _ (stream : String) (w : Store E O) where
    abbrev KeepsStreams : List (RuntimeEvent E) → ℕ → Option (StreamData (RuntimeEvent E)) → Type 0
    KeepsStreams events expected o =
        let m = (append_found stream events expected o w.memory).1 in
        AllValid start m.store × GrowsFrom w.memory.store m.store

    -- An append that fails leaves the streams alone.
    keeps_conflict :
        (events : List (RuntimeEvent E)) (expected : ℕ) (d : StreamData (RuntimeEvent E))
        → AllValid start w.memory.store
        → (d.version == expected) ≡ false
        → KeepsStreams events expected (some d)
    unfolding append_found
    keeps_conflict events expected d valid other = rw other (valid, GrowsFrom-refl w.memory.store)

    keeps_first :
        (o : Option (StreamData (RuntimeEvent E)))
        → w.memory.store stream ≡ o
        → AllValid start w.memory.store
        → IsValid start stream o
        → KeepsStreams (process_started ∷ []) 0 o
    unfolding append_found
    keeps_first none e valid v = (
      AllValid-put start w.memory.store stream (some (recorded [])) valid ([], refl, tt),
      GrowsFrom-put w.memory.store stream (some (recorded [])) (λ events e'. absurd (cc)),
    )
    keeps_first (some d) e valid (events, same, accepted) =
        keeps_conflict (process_started ∷ []) 0 d valid (rw same (ground arith))

    append_found-same :
        (event : E) (events : List E)
        → append_found stream
            (event_received event ∷ [])
            (suc (length events))
            (some (recorded events))
            w.memory
          ≡ (normal tt, save stream (recorded (events ++ event ∷ [])) w.memory)
    unfolding append_found
    append_found-same event events =
        let test : (suc (length events) == suc (length events)) ≡ true = ground arith in
        rw test (
          ap (λ (d : StreamData (RuntimeEvent E)). (normal tt, save stream d w.memory))
            (recorded-snoc events event))

    keeps_saved :
        (event : E) (events : List E)
        → w.memory.store stream ≡ some (recorded events)
        → AllValid start w.memory.store
        → Accepted (start stream) events
        → takes (replay (start stream) events) event ≡ true
        → KeepsStreams (event_received event ∷ []) (suc (length events)) (some (recorded events))
    unfolding save
    keeps_saved event events e valid accepted t =
        let longer = events ++ event ∷ [] in
        subst
          (λ (p : Completion (Unit {0}) × InMemoryEventStore (RuntimeEvent E)).
            AllValid start p.1.store × GrowsFrom w.memory.store p.1.store)
          (sym (append_found-same event events))
          (
            AllValid-put start w.memory.store stream (some (recorded longer)) valid
                (longer, refl, Accepted-snoc (start stream) events event accepted t),
            GrowsFrom-put w.memory.store stream (some (recorded longer)) (λ others e'. (
              event ∷ [],
              ap (λ l. some (recorded (l ++ event ∷ []))) (recorded-injective (sym e ∙ e')),
            )),
          )

    keeps_event :
        (event : E) (events more : List E)
        → w.memory.store stream ≡ some (recorded (events ++ more))
        → AllValid start w.memory.store
        → Accepted (start stream) (events ++ more)
        → takes (replay (start stream) events) event ≡ true
        → KeepsStreams
            (event_received event ∷ [])
            (suc (length events))
            (some (recorded (events ++ more)))
    keeps_event event events [] e valid accepted t =
        let nil = append-nil events in
        subst
          (λ l. KeepsStreams (event_received event ∷ []) (suc (length events)) (some (recorded l)))
          (sym nil)
          (keeps_saved event events (e ∙ ap (λ l. some (recorded l)) nil) valid
            (subst (Accepted (start stream)) nil accepted) t)
    keeps_event event events (x ∷ more) e valid accepted t =
        keeps_conflict (event_received event ∷ []) (suc (length events))
          (recorded (events ++ x ∷ more)) valid (ground (arith, length-append events (x ∷ more)))

  Accepted-of_valid :
      (stream : String) (events : List E)
      → IsValid start stream (some (recorded events))
      → Accepted (start stream) events
  Accepted-of_valid stream events (others, same, accepted) =
      subst (Accepted (start stream)) (sym (recorded-injective (ap some same))) accepted

  start_is_safe :
      (stream : String) (seen : Store E O) → AppendIsSafe stream (process_started ∷ []) 0 seen
  start_is_safe stream seen =
      λ w valid grown. keeps_first stream w (w.memory.store stream) refl valid (valid stream)

  -- However the streams have grown since the history was read, the append keeps them valid.
  event_is_safe :
      (stream : String) (event : E) (events : List E) (seen : Store E O)
      → seen.memory.store stream ≡ some (recorded events)
      → takes (replay (start stream) events) event ≡ true
      → AppendIsSafe stream (event_received event ∷ []) (suc (length events)) seen
  event_is_safe stream event events seen e t = λ w valid grown.
      let (more, e') = grown stream events e in
      let accepted =
        Accepted-of_valid stream (events ++ more)
          (subst (IsValid start stream) e' (valid stream)) in
      subst (KeepsStreams stream w (event_received event ∷ []) (suc (length events))) (sym e')
        (keeps_event stream w event events more e' valid accepted t)

  pub Keeps-append_start :
      (stream : String) (seen : Store E O)
      → Keeps (growth {O = O} start) (append_event stream (process_started ∷ []) 0) seen
  Keeps-append_start stream seen =
      Keeps-append_event stream (process_started ∷ []) 0 seen (start_is_safe stream seen)

  pub Keeps-append_received :
      (stream : String) (event : E) (events : List E) (seen : Store E O)
      → seen.memory.store stream ≡ some (recorded events)
      → takes (replay (start stream) events) event ≡ true
      → Keeps
          (growth {O = O} start)
          (append_event stream (event_received event ∷ []) (suc (length events)))
          seen
  Keeps-append_received stream event events seen e t =
      Keeps-append_event stream (event_received event ∷ []) (suc (length events)) seen
        (event_is_safe stream event events seen e t)
