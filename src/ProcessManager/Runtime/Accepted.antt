-- ===== src/ProcessManager/Runtime/Accepted.antt =====
-- Histories in which every event was accepted by the state that the events before it had reached.
use rocket_toolkit.Prelude.{◌≡◌, Bool, true, false, List, [], ◌∷◌, ◌++◌}
use rocket_toolkit.ProcessManager.Algebra.State.{
  ProcessState, Reply, in_progress, succeeded, failed, null, result, advance, replay,
}

abbrev pub answers : {W S E R : Type 0} → Reply W S E R → Bool
answers null = false
answers (result effect state) = true

-- whether a process that is in progress does not ignore the event
abbrev pub takes : {W S E R : Type 0} → ProcessState W S E R → E → Bool
takes (in_progress s next) event = answers (next event)
takes (succeeded s v) event = false
takes (failed s x) event = false

abbrev pub Accepted : {W S E R : Type 0} → ProcessState W S E R → List E → Type 0
Accepted p [] = Unit
Accepted p (event ∷ events) = (takes p event ≡ true) × Accepted (advance p event) events

pub Accepted-snoc :
    {W S E R : Type 0} (p : ProcessState W S E R) (events : List E) (event : E)
    → Accepted p events
    → takes (replay p events) event ≡ true
    → Accepted p (events ++ event ∷ [])
unfolding replay
Accepted-snoc p [] event h t = (t, tt)
Accepted-snoc p (first ∷ events) event (h, hs) t =
    (h, Accepted-snoc (advance p first) events event hs t)
