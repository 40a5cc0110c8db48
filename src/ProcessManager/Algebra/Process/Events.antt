-- ===== src/ProcessManager/Algebra/Process/Events.antt =====
-- `Process.waitForEvent`, and `Process.fromEffect`, which starts an effect, sends the events that it
-- returns back to the instance, and waits for one of them.
use rocket_toolkit.Prelude.{
  ◌≡◌, refl, ap, ◌∙◌, fun_ext, String, Option, none, some, List, [], ◌∷◌, map, Option-cases, inl,
  inr,
}
use rocket_toolkit.ProcessManager.Result.{Result, ok, err}
use rocket_toolkit.ProcessManager.Effect
use rocket_toolkit.ProcessManager.Effect.{Effect, pure}
use rocket_toolkit.ProcessManager.Effect.Monad
use rocket_toolkit.ProcessManager.Mediator.{Mediator, EnqueueEvent, send, get_type}
use rocket_toolkit.ProcessManager.Algebra.State.{ProcessState, succeeded, failed, replay, settle}
use rocket_toolkit.ProcessManager.Algebra.State.Laws.{replay-failed, replay-succeeded}
use rocket_toolkit.ProcessManager.Algebra.Process.{wait_for_event, wait_reply, from_effect}

-- The answer to the first event that is not ignored.
unfoldable pub first_answer : {E R : Type 0} → (E → Option R) → List E → Option R
first_answer answer [] = none
first_answer answer (event ∷ events) = elim (answer event) [
  | none ↦ first_answer answer events
  | some r ↦ some r
]

abbrev pub ended_by :
    {W S E R : Type 0} → ProcessState W S E R → S → Option (Result R String) → ProcessState W S E R
ended_by waiting s none = waiting
ended_by waiting s (some (ok value)) = succeeded s value
ended_by waiting s (some (err e)) = failed s e

module _ {W I S E R : Type 0} (answer : E → Option (Result R String)) (i : I) (s : S) where
  abbrev waiting : ProcessState W S E R
  unfolding wait_for_event
  waiting = (wait_for_event {W = W} answer i s).1

  wait_ended :
      (r : Result R String) (events : List E)
      → replay (settle waiting (wait_reply s (some r))) events ≡ ended_by waiting s (some r)
  unfolding wait_for_event
  wait_ended (ok v) events = replay-succeeded s v events
  wait_ended (err e) events = replay-failed s e events

  -- A process that waits is ended by the first event that its function answers, with that answer and
  -- the state at which it began to wait; events before it are ignored, and events after it too.
  pub replay-wait_for_event :
      (events : List E)
      → replay (wait_for_event {W = W} answer i s).1 events
        ≡ ended_by (wait_for_event {W = W} answer i s).1 s (first_answer answer events)
  unfolding wait_for_event first_answer replay
  replay-wait_for_event [] = refl
  replay-wait_for_event (event ∷ events) = elim (Option-cases (answer event)) [
    | inl ignored ↦ rw (ignored, first_answer) (replay-wait_for_event events)
    | inr (r, answered) ↦ rw (answered, first_answer) (wait_ended r events)
  ]

module _ {W E : Type 0} (deliver : E → Effect W (Unit {0})) where
  unfoldable pub deliver_each : List E → Effect W (Unit {0})
  deliver_each [] = pure tt
  deliver_each (event ∷ events) = Effect.bind (deliver event) (λ _. deliver_each events)

  traverse-deliver :
      (events : List E)
      → Effect.bind (Effect.traverse events deliver) (λ _. pure tt) ≡ deliver_each events
  unfolding deliver_each Effect.traverse
  traverse-deliver [] = unfold Effect.sequence Effect.bind in refl
  traverse-deliver (event ∷ events) =
      ap (λ e. Effect.bind e (λ _. pure tt))
        (Monad.sequence-cons (deliver event) (map deliver events))
      ∙ (Monad.bind_assoc (deliver event) _ _
          ∙ ap (Effect.bind (deliver event)) (
              fun_ext λ u.
                Monad.pure-bind_const (Effect.sequence (map deliver events)) (λ more. u ∷ more)
                  (pure tt)
                ∙ traverse-deliver events))

module _ {W I E : Type 0} (process_name : I → String)
    (mediator : Mediator W (EnqueueEvent I E)) where
  abbrev pub enqueue : I → E → Effect W (Unit {0})
  enqueue i event =
      send (get_type process_name) mediator (record { instance_id = i; event = event })

module _ {W I S E R : Type 0} (process_name : I → String) (mediator : Mediator W (EnqueueEvent I E))
    (effect : Effect W (List E)) (answer : E → Option (Result R String)) (i : I) (s : S) where
  -- Starting `fromEffect` runs the effect and then sends every event that it returned, one after
  -- the other, to the handler of the instance; meanwhile the process waits for an answer.
  pub from_effect_lem : from_effect process_name mediator effect answer i s ≡ (
    Effect.bind effect (deliver_each (enqueue process_name mediator i)),
    (wait_for_event answer i s).1,
  )
  unfolding from_effect
  from_effect_lem =
      ap (λ (e : Effect W (Unit {0})). (e, (wait_for_event {W = W} answer i s).1))
        (Monad.bind-pure _
          ∙ (Monad.bind_assoc effect _ _
              ∙ ap (Effect.bind effect)
                  (fun_ext λ events. traverse-deliver (enqueue process_name mediator i) events)))
