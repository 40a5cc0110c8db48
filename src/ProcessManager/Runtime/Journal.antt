-- ===== src/ProcessManager/Runtime/Journal.antt =====
-- A sequence of `handleEvent` calls on one stream, over the in-memory store, for a process whose
-- effects return and leave the store alone.
use mathlib.Core.Path.{subst}
use rocket_toolkit.Prelude.{
  ◌≡◌, refl, sym, ap, ◌∙◌, String, false, List, [], ◌∷◌, ◌++◌, append-nil, append_assoc, eq_refl,
  if◌then◌else◌,
}
use rocket_toolkit.ProcessManager.Effect.{Effect}
use rocket_toolkit.ProcessManager.Effect.Run.{
  Outcome, returned, execute, handle, execute-catch_error,
}
use rocket_toolkit.ProcessManager.EventStore.Memory.{in_memory, save}
use rocket_toolkit.ProcessManager.EventStore.Memory.Laws.{IsFree}
use rocket_toolkit.ProcessManager.Algebra.State.{
  ProcessState, Reply, in_progress, succeeded, failed, null, result, advance, settle, replay,
}
use rocket_toolkit.ProcessManager.Algebra.State.Laws.{replay-append}
use rocket_toolkit.ProcessManager.Algebra.Process.{Process}
use rocket_toolkit.ProcessManager.Runtime.{handle_event, get_process_state, retry}
use rocket_toolkit.ProcessManager.Runtime.Sequential.{Store, HasHistory, reached, saved}
use rocket_toolkit.ProcessManager.Runtime.Accepted.{answers, takes}
use rocket_toolkit.ProcessManager.Runtime.Handling.{
  handle_event-accepted, handle_event-ignored, execute-get_process_state,
}

-- the event, if it is accepted
abbrev pub taken : {W S E R : Type 0} → ProcessState W S E R → E → List E
taken p event = if takes p event then event ∷ [] else []

-- The events of a sequence that a process accepts, as it comes to them.
unfoldable pub journal : {W S E R : Type 0} → ProcessState W S E R → List E → List E
journal p [] = []
journal p (event ∷ events) = taken p event ++ journal (advance p event) events

replay-taken_reply :
    {W S E R : Type 0} (s : S) (next : E → Reply W S E R) (event : E) (r : Reply W S E R)
    → next event ≡ r
    → replay (in_progress s next) (if answers r then event ∷ [] else [])
      ≡ settle (in_progress s next) r
unfolding replay
replay-taken_reply s next event null e = refl
replay-taken_reply s next event (result effect state) e = rw e

replay-taken :
    {W S E R : Type 0} (p : ProcessState W S E R) (event : E)
    → replay p (taken p event) ≡ advance p event
replay-taken (succeeded s v) event = unfold replay in refl
replay-taken (failed s x) event = unfold replay in refl
replay-taken (in_progress s next) event = replay-taken_reply s next event (next event) refl

-- The journal alone leads to the state to which the whole sequence leads.
pub replay-journal :
    {W S E R : Type 0} (p : ProcessState W S E R) (events : List E)
    → replay p (journal p events) ≡ replay p events
unfolding journal
replay-journal p [] = refl
replay-journal p (event ∷ events) =
    replay-append p (taken p event) (journal (advance p event) events)
    ∙ (ap (λ q. replay q (journal (advance p event) events)) (replay-taken p event)
        ∙ (replay-journal (advance p event) events ∙ unfold replay in refl))

-- An effect that returns and writes only outside the store.
abbrev pub IsQuiet : {O E : Type 0} → Effect (Store E O) (Unit {0}) → Type 0
IsQuiet {O} {E} effect =
    (w : Store E O) → (o : O) × (execute effect w ≡ (returned tt, record w { outside = o }))

module _ {O S E : Type 0} where
  unfoldable mutual
    pub QuietState : ProcessState (Store E O) S E (Unit {0}) → Type 0
    QuietState (in_progress s next) = (event : E) → QuietReply (next event)
    QuietState (succeeded s v) = Unit
    QuietState (failed s x) = Unit

    pub QuietReply : Reply (Store E O) S E (Unit {0}) → Type 0
    QuietReply null = Unit
    QuietReply (result effect state) = IsQuiet effect × QuietState state

  QuietState-settle :
      (p : ProcessState (Store E O) S E (Unit {0})) (r : Reply (Store E O) S E (Unit {0}))
      → QuietState p
      → QuietReply r
      → QuietState (settle p r)
  unfolding QuietState
  QuietState-settle p null h k = h
  QuietState-settle p (result effect state) h k = k.1

  QuietState-advance :
      (p : ProcessState (Store E O) S E (Unit {0})) (event : E)
      → QuietState p
      → QuietState (advance p event)
  unfolding QuietState
  QuietState-advance (succeeded s v) event h = tt
  QuietState-advance (failed s x) event h = tt
  QuietState-advance (in_progress s next) event h =
      unfold QuietState in QuietState-settle (in_progress s next) (next event) h (h event)

module _ {O I S E : Type 0} (empty_state : S) (i : I) (stream : String)
    (proc : Process (Store E O) I S E (Unit {0})) where
  abbrev pub handle_one : E → Store E O → Store E O
  handle_one event w = (execute (handle_event in_memory empty_state 1 i event stream proc) w).1

  abbrev pub handle_all : List E → Store E O → Store E O
  handle_all [] w = w
  handle_all (event ∷ events) w = handle_all events (handle_one event w)

  abbrev Holds : List E → Store E O → Type 0
  Holds events w = IsFree stream w × HasHistory stream events w

  saved-HasHistory :
      (events : List E) (w : Store E O)
      → HasHistory stream events (saved empty_state i stream proc events w)
  unfolding save
  saved-HasHistory events w = rw eq_refl

  handle_accepted :
      (event : E) (events : List E) (w : Store E O) (s : S)
      (next : E → Reply (Store E O) S E (Unit {0})) (effect : Effect (Store E O) (Unit {0}))
      (state : ProcessState (Store E O) S E (Unit {0}))
      → Holds events w
      → reached empty_state i stream proc events ≡ in_progress s next
      → next event ≡ result effect state
      → IsQuiet effect
      → Holds (events ++ event ∷ []) (handle_one event w)
  unfolding save
  handle_accepted event events w s next effect state (free, e) r a quiet =
      let longer = events ++ event ∷ [] in
      let again = retry (handle_event in_memory empty_state 0 i event stream proc) in
      let mid : Store E O = saved empty_state i stream proc longer w in
      let (o, ran) = quiet mid in
      let whole : execute (handle_event in_memory empty_state 1 i event stream proc) w
          ≡ (returned tt, record mid { outside = o }) =
        handle_event-accepted empty_state i stream proc 0 event events w s next effect state free e
          r a
        ∙ (execute-catch_error effect again mid ∙ ap (handle again) ran) in
      subst (λ (p : Outcome (Unit {0}) × Store E O). Holds longer p.1) (sym whole)
        (free, saved-HasHistory longer w)

  handle_untaken :
      (event : E) (events : List E) (w : Store E O)
      → Holds events w
      → takes (reached empty_state i stream proc events) event ≡ false
      → Holds events (handle_one event w)
  handle_untaken event events w h t =
      subst (λ (p : Outcome (Unit {0}) × Store E O). Holds events p.1)
        (sym (handle_event-ignored empty_state i stream proc 0 event events w h.1 t)) h

  handle_reply :
      (event : E) (events : List E) (w : Store E O) (s : S)
      (next : E → Reply (Store E O) S E (Unit {0})) (r : Reply (Store E O) S E (Unit {0}))
      → Holds events w
      → reached empty_state i stream proc events ≡ in_progress s next
      → next event ≡ r
      → QuietReply r
      → Holds (events ++ (if answers r then event ∷ [] else [])) (handle_one event w)
  unfolding QuietState
  handle_reply event events w s next null h e a quiet =
      subst (λ l. Holds l (handle_one event w)) (sym (append-nil events))
        (handle_untaken event events w h (rw e (rw a)))
  handle_reply event events w s next (result effect state) h e a quiet =
      handle_accepted event events w s next effect state h e a quiet.0

  -- One call: the history gets the event if the process accepts it.
  handle_step :
      (event : E) (events : List E) (w : Store E O) (p : ProcessState (Store E O) S E (Unit {0}))
      → Holds events w
      → reached empty_state i stream proc events ≡ p
      → QuietState p
      → Holds (events ++ taken p event) (handle_one event w)
  unfolding QuietState
  handle_step event events w (succeeded s v) h e quiet =
      subst (λ l. Holds l (handle_one event w)) (sym (append-nil events))
        (handle_untaken event events w h (rw e))
  handle_step event events w (failed s x) h e quiet =
      subst (λ l. Holds l (handle_one event w)) (sym (append-nil events))
        (handle_untaken event events w h (rw e))
  handle_step event events w (in_progress s next) h e quiet =
      handle_reply event events w s next (next event) h e refl (quiet event)

  handle_all-Holds :
      (later events : List E) (w : Store E O) (p : ProcessState (Store E O) S E (Unit {0}))
      → Holds events w
      → reached empty_state i stream proc events ≡ p
      → QuietState p
      → Holds (events ++ journal p later) (handle_all later w)
  unfolding journal
  handle_all-Holds [] events w p h e quiet = subst (λ l. Holds l w) (sym (append-nil events)) h
  handle_all-Holds (event ∷ later) events w p h e quiet =
      subst (λ l. Holds l (handle_all later (handle_one event w)))
        (append_assoc events (taken p event) (journal (advance p event) later))
        (handle_all-Holds later (events ++ taken p event) (handle_one event w) (advance p event)
          (handle_step event events w p h e quiet)
          (replay-append (proc i empty_state).1 events (taken p event)
            ∙ (ap (λ q. replay q (taken p event)) e ∙ replay-taken p event))
          (QuietState-advance p event quiet))

  -- For a process whose effects return and write only outside the store, on a stream that has a
  -- history and is not locked: after any sequence of calls, the stream holds its old history
  -- with the accepted events behind it, at the version of their number.
  pub handle_all-journal :
      (events later : List E) (w : Store E O)
      → IsFree stream w
      → HasHistory stream events w
      → QuietState (reached empty_state i stream proc events)
      → HasHistory stream
          (events ++ journal (reached empty_state i stream proc events) later)
          (handle_all later w)
  handle_all-journal events later w free e quiet =
      (handle_all-Holds later events w (reached empty_state i stream proc events) (free, e) refl
        quiet).1

  -- For a process whose effects return and write only outside the store, on a stream that has a
  -- history and is not locked: after any sequence of calls, the state that is read back from the
  -- store is the state of a process that was given the old history and then every event of the
  -- sequence, the ignored ones included.
  pub get_process_state-handle_all :
      (events later : List E) (w : Store E O)
      → IsFree stream w
      → HasHistory stream events w
      → QuietState (reached empty_state i stream proc events)
      → execute (get_process_state in_memory empty_state i stream proc) (handle_all later w)
        ≡ (returned (reached empty_state i stream proc (events ++ later)), handle_all later w)
  get_process_state-handle_all events later w free e quiet =
      let p = reached empty_state i stream proc events in
      execute-get_process_state empty_state i stream proc (events ++ journal p later)
        (handle_all later w) (handle_all-journal events later w free e quiet)
      ∙ ap (λ q. (returned q, handle_all later w))
          (replay-append (proc i empty_state).1 events (journal p later)
            ∙ (replay-journal p later ∙ sym (replay-append (proc i empty_state).1 events later)))
