-- ===== src/ProcessManager/Algebra/State/Laws.antt =====
-- `map` and `mapState` of a process state, and the delivery of events.
use rocket_toolkit.Prelude.{◌≡◌, refl, ap, ◌∙◌, fun_ext, String, List, [], ◌∷◌, ◌++◌}
use mathlib.Core.List.{foldl-append}
use rocket_toolkit.ProcessManager.Algebra.State.{
  ProcessState, Reply, in_progress, succeeded, failed, null, result, advance, settle, replay,
  map_value, map_reply, map_state, map_state_reply,
}

module _ {W S E A B C : Type 0} (f : A → B) (g : B → C) where
  mutual
    unfolding map_value

    map_twice :
        (p : ProcessState W S E A) → map_value g (map_value f p) ≡ map_value (λ a. g (f a)) p
    map_twice (succeeded s v) = refl
    map_twice (failed s e) = refl
    map_twice (in_progress s next) =
        ap (in_progress s) (fun_ext λ event. map_twice_reply (next event))

    map_twice_reply : (r : Reply W S E A) → map_reply g (map_reply f r) ≡ map_reply (λ a. g (f a)) r
    map_twice_reply null = refl
    map_twice_reply (result effect p) = ap (result effect) (map_twice p)

  -- `map` of a composite is the composite of the maps, on a process of any shape.
  pub map_value-map_value :
      (p : ProcessState W S E A) → map_value g (map_value f p) ≡ map_value (λ a. g (f a)) p
  map_value-map_value p = map_twice p

module _ {W S T E A B : Type 0} (f : A → B) (g : S → T) where
  mutual
    unfolding map_value map_state

    maps_commute :
        (p : ProcessState W S E A) → map_state g (map_value f p) ≡ map_value f (map_state g p)
    maps_commute (succeeded s v) = refl
    maps_commute (failed s e) = refl
    maps_commute (in_progress s next) =
        ap (in_progress (g s)) (fun_ext λ event. maps_commute_reply (next event))

    maps_commute_reply :
        (r : Reply W S E A) → map_state_reply g (map_reply f r) ≡ map_reply f (map_state_reply g r)
    maps_commute_reply null = refl
    maps_commute_reply (result effect p) = ap (result effect) (maps_commute p)

  pub map_state-map_value :
      (p : ProcessState W S E A) → map_state g (map_value f p) ≡ map_value f (map_state g p)
  map_state-map_value p = maps_commute p

module _ {W S E A B : Type 0} (f : A → B) where
  settle-map_value :
      (p : ProcessState W S E A) (r : Reply W S E A)
      → settle (map_value f p) (map_reply f r) ≡ map_value f (settle p r)
  unfolding map_value
  settle-map_value p null = refl
  settle-map_value p (result effect q) = refl

  pub advance-map_value :
      (p : ProcessState W S E A) (event : E)
      → advance (map_value f p) event ≡ map_value f (advance p event)
  unfolding map_value
  advance-map_value (succeeded s v) event = refl
  advance-map_value (failed s e) event = refl
  advance-map_value (in_progress s next) event = settle-map_value (in_progress s next) (next event)

  pub replay-map_value :
      (p : ProcessState W S E A) (events : List E)
      → replay (map_value f p) events ≡ map_value f (replay p events)
  unfolding replay
  replay-map_value p [] = refl
  replay-map_value p (event ∷ events) =
      ap (λ q. replay q events) (advance-map_value p event)
      ∙ replay-map_value (advance p event) events

module _ {W S T E A : Type 0} (g : S → T) where
  settle-map_state :
      (p : ProcessState W S E A) (r : Reply W S E A)
      → settle (map_state g p) (map_state_reply g r) ≡ map_state g (settle p r)
  unfolding map_state
  settle-map_state p null = refl
  settle-map_state p (result effect q) = refl

  pub advance-map_state :
      (p : ProcessState W S E A) (event : E)
      → advance (map_state g p) event ≡ map_state g (advance p event)
  unfolding map_state
  advance-map_state (succeeded s v) event = refl
  advance-map_state (failed s e) event = refl
  advance-map_state (in_progress s next) event = settle-map_state (in_progress s next) (next event)

  pub replay-map_state :
      (p : ProcessState W S E A) (events : List E)
      → replay (map_state g p) events ≡ map_state g (replay p events)
  unfolding replay
  replay-map_state p [] = refl
  replay-map_state p (event ∷ events) =
      ap (λ q. replay q events) (advance-map_state p event)
      ∙ replay-map_state (advance p event) events

-- A process that is mapped, in its value and in its state, goes through the mapped states of the
-- process itself, whatever the events are.
pub replay-maps :
    {W S T E A B : Type 0} (f : A → B) (g : S → T) (p : ProcessState W S E A) (events : List E)
    → replay (map_state g (map_value f p)) events ≡ map_state g (map_value f (replay p events))
replay-maps f g p events =
    replay-map_state g (map_value f p) events ∙ ap (map_state g) (replay-map_value f p events)

module _ {W S E R : Type 0} where
  pub replay-append :
      (p : ProcessState W S E R) (xs ys : List E) → replay p (xs ++ ys) ≡ replay (replay p xs) ys
  unfolding replay
  replay-append p xs ys = rw foldl-append

  -- A process that has ended stays as it is.
  pub replay-failed :
      (s : S) (e : String) (events : List E)
      → replay {W = W} {R = R} (failed s e) events ≡ failed s e
  unfolding replay
  replay-failed s e [] = refl
  replay-failed s e (x ∷ events) = replay-failed s e events

  pub replay-succeeded :
      (s : S) (v : R) (events : List E) → replay {W = W} (succeeded s v) events ≡ succeeded s v
  unfolding replay
  replay-succeeded s v [] = refl
  replay-succeeded s v (x ∷ events) = replay-succeeded s v events
